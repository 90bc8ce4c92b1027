-- ===== src/Base/Decimal.antt =====
-- Decimal numbers of the standard library: `to_string` of an unsigned integer, and `str::parse` into
-- an unsigned integer with a largest value, which also takes a leading `+`.
use mathlib.Core.WellFounded.{Acc, WellFounded, Acc-prop, induction}
use mathlib.Core.Path.{◌≡◌, refl}
use mathlib.Core.Logic.{◌≢◌, ◌⊎◌, ite, dite, if_pos, if_neg}
use mathlib.Core.Bool.{◌||◌}
use mathlib.Core.Option.{Option, none, some}
use mathlib.Core.List.{[], ◌∷◌, cons-ne-nil}
use Prim.Native.Nat.{ℕ, zero, suc, ◌+◌, ◌-◌, ◌*◌, ◌/◌, ◌%◌, ◌≤◌, ◌<◌}
use native.Mathlib.Decide.{dec_lt}
use native.Mathlib.Omega.{arith}
use ros2_client.Base.Tests.{ltb, ◌==◌, if◌then◌else◌}
use ros2_client.Base.Lists.{All}
use ros2_client.Base.Text.{Text, Lacks}

acc_below : (k n : ℕ) → n < k → Acc ◌<◌ n
acc_below zero n h = absurd (omega arith)
acc_below (suc k) n h = Acc.intro n λ m lt. acc_below k m (omega arith)

lt_wf : WellFounded ◌<◌
unfolding acc_below
lt_wf = record { apply = λ n. acc_below (suc n) n (omega arith) }

pub tenth_lt : {n : ℕ} → 0 < n → n / 10 < n
tenth_lt h = omega arith

prepend_digits : (n : ℕ) → Acc ◌<◌ n → Text → Text
prepend_digits n (Acc.intro _ smaller) out =
    dite (dec_lt 0 n)
      (λ h. prepend_digits (n / 10) (smaller (n / 10) (tenth_lt h)) ((b'0' + n % 10) ∷ out))
      (λ _. out)

digits : ℕ → Text → Text
digits n = prepend_digits n (lt_wf.apply n)

-- `to_string`.
unfoldable pub to_string : ℕ → Text
unfolding digits prepend_digits lt_wf dec_lt
to_string n = if n == 0 then b'0' ∷ [] else digits n []

-- The digits of `str::parse`, checked against the largest value of the type.
read_digits : ℕ → Text → ℕ → Option ℕ
read_digits largest [] n = some n
read_digits largest (c ∷ s) n =
    let m = n * 10 + (c - b'0') in
    if ltb c b'0' || ltb b'9' c
    then none
    else if ltb largest m
    then none
    else read_digits largest s m

-- `str::parse` into an unsigned type whose largest value is `largest`.
unfoldable pub parse_uint : ℕ → Text → Option ℕ
unfolding read_digits
parse_uint largest [] = none
parse_uint largest (c ∷ []) = if c == b'+' then none else read_digits largest (c ∷ []) 0
parse_uint largest (c ∷ d ∷ s) =
    if c == b'+' then read_digits largest (d ∷ s) 0 else read_digits largest (c ∷ d ∷ s) 0

prepend_digits_step :
    (n : ℕ) (w : Acc ◌<◌ n) (w' : Acc ◌<◌ (n / 10)) (out : Text)
    → prepend_digits n w out
      ≡ ite (dec_lt 0 n) (prepend_digits (n / 10) w' ((b'0' + n % 10) ∷ out)) out
unfolding prepend_digits
prepend_digits_step n (Acc.intro _ smaller) w' out = λ i.
    dite (dec_lt 0 n)
      (λ h.
        prepend_digits (n / 10) (Acc-prop (smaller (n / 10) (tenth_lt h)) w' i)
          ((b'0' + n % 10) ∷ out))
      (λ _. out)

digits_step :
    (n : ℕ) (out : Text)
    → digits n out ≡ ite (dec_lt 0 n) (digits (n / 10) ((b'0' + n % 10) ∷ out)) out
unfolding digits
digits_step n = prepend_digits_step n _ _

read_last :
    (largest n : ℕ) (out : Text)
    → n ≤ largest
    → read_digits largest ((b'0' + n % 10) ∷ out) (n / 10) ≡ read_digits largest out n
unfolding read_digits
read_last largest n out h = ground arith

read-digits :
    (largest n : ℕ) (out : Text)
    → n ≤ largest
    → read_digits largest (digits n out) 0 ≡ read_digits largest out n
read-digits largest n =
    induction lt_wf
      {C = λ m.
        (out : Text)
        → m ≤ largest
        → read_digits largest (digits m out) 0 ≡ read_digits largest out m}
      n λ m ih out fits. grind (arith, digits_step m out, read_last largest m out fits, ih (m / 10))

-- A text of digits only.
abbrev pub IsDigits : Text → Type 0
IsDigits = All (λ c. (b'0' ≤ c) × (c ≤ b'9'))

digits-IsDigits : (n : ℕ) (out : Text) → IsDigits out → IsDigits (digits n out)
digits-IsDigits n =
    induction lt_wf {C = λ m. (out : Text) → IsDigits out → IsDigits (digits m out)} n λ m ih out h.
      elim (dec_lt 0 m) [
        | yes p ↦
            rw (digits_step m out)
              (rw (if_pos _ p) (ih (m / 10) (tenth_lt p) _ ((omega arith, omega arith), h)))
        | no p ↦ rw (digits_step m out) (rw (if_neg _ p) h)
      ]

-- What is printed has only digits, and at least one.
pub to_string-IsDigits : (n : ℕ) → IsDigits (to_string n)
unfolding to_string
to_string-IsDigits n = ground (arith, digits-IsDigits n [] tt)

digits-ne-nil : (n : ℕ) (out : Text) → out ≢ [] → digits n out ≢ []
digits-ne-nil n =
    induction lt_wf {C = λ m. (out : Text) → out ≢ [] → digits m out ≢ []} n
      λ m ih out h. grind (arith, digits_step m out, ih (m / 10))

pub to_string-ne-nil : (n : ℕ) → to_string n ≢ []
unfolding to_string
to_string-ne-nil n =
    ground (arith, digits_step n [], digits-ne-nil (n / 10) _ (cons-ne-nil (b'0' + n % 10) []))

parse_uint-read :
    (largest : ℕ) (s : Text) → s ≢ [] → IsDigits s → parse_uint largest s ≡ read_digits largest s 0
unfolding parse_uint
parse_uint-read largest [] h d = absurd (h refl)
parse_uint-read largest (c ∷ []) h d = ground arith
parse_uint-read largest (c ∷ e ∷ s) h d = ground arith

-- Every number in range is read back.
pub parse_uint-to_string : (largest n : ℕ) → n ≤ largest → parse_uint largest (to_string n) ≡ some n
parse_uint-to_string largest n h =
    rw (parse_uint-read largest (to_string n) (to_string-ne-nil n) (to_string-IsDigits n))
      (read-to_string largest n h)
  where
    read-to_string : (largest n : ℕ) → n ≤ largest → read_digits largest (to_string n) 0 ≡ some n
    read-to_string largest n h =
        unfold to_string read_digits in ground (arith, read-digits largest n [] h)

digits-Lacks : (c : ℕ) (s : Text) → (c < b'0') ⊎ (b'9' < c) → IsDigits s → Lacks c s
digits-Lacks c [] h d = tt
digits-Lacks c (x ∷ s) h (p, d) = (λ e. ground arith, digits-Lacks c s h d)

-- A printed number holds no character that is no digit.
pub to_string-Lacks : (c n : ℕ) → (c < b'0') ⊎ (b'9' < c) → Lacks c (to_string n)
to_string-Lacks c n h = digits-Lacks c (to_string n) h (to_string-IsDigits n)

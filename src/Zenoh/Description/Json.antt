-- ===== src/Zenoh/Description/Json.antt =====
-- What a JSON string of src/zenoh_backend/type_description.rs stands for: a reader of its escapes, and
-- that the written string determines the text and what follows it.
use ros2_client.Base.{
  ℕ, ◌+◌, ◌-◌, ◌*◌, ◌/◌, ◌%◌, ◌<◌, ◌≤◌, ◌⊎◌, inl, inr, Bool-cases, false, [], ◌∷◌, ◌++◌, Option,
  none, some, All, append_assoc, if◌then◌else◌, ◌==◌, ==_iff, ltb, ◌≡◌, refl, arith, sym, ◌∙◌, ap,
}
use ros2_client.Base.Text.{Text}
use ros2_client.Zenoh.Description.{
  hex_digit, escape_unit, escape_utf16, write_other, write_char, write_chars, write_json_string,
}

-- A Unicode scalar value.
abbrev pub IsScalar : ℕ → Type 0
IsScalar c = (c < 55296) ⊎ ((57344 ≤ c) × (c < 1114112))

abbrev unhex : ℕ → ℕ
unhex d = if ltb d 58 then d - 48 else d - 87

abbrev unit_of : ℕ → ℕ → ℕ → ℕ → ℕ
unit_of a b c d = unhex a * 4096 + unhex b * 256 + unhex c * 16 + unhex d

-- The second unit of a pair.
abbrev read_low : ℕ → Text → Option (ℕ × Text)
read_low high (x ∷ y ∷ a ∷ b ∷ c ∷ d ∷ s) =
    some (65536 + (high - 55296) * 1024 + (unit_of a b c d - 56320), s)
read_low high _ = none

read_unit : Text → Option (ℕ × Text)
read_unit (a ∷ b ∷ c ∷ d ∷ s) =
    let u = unit_of a b c d in
    let pair = read_low u s in
    if ltb u 55296 then some (u, s) else if ltb u 57344 then pair else some (u, s)
read_unit _ = none

abbrev named : ℕ → ℕ
named e =
    if e == b'n'
    then b'\n'
    else if e == b'r'
    then b'\r'
    else if e == b't'
    then b'\t'
    else if e == b'b'
    then 8
    else if e == b'f'
    then 12
    else e

read_escape : Text → Option (ℕ × Text)
unfolding read_unit
read_escape [] = none
read_escape (e ∷ s) = if e == b'u' then read_unit s else some (named e, s)

-- The first character of a string; none at its closing quote.
read_char : Text → Option (ℕ × Text)
unfolding read_escape
read_char [] = none
read_char (x ∷ s) = if x == b'"' then none else if x == b'\\' then read_escape s else some (x, s)

unhex-hex_digit : (d : ℕ) → d < 16 → unhex (hex_digit d) ≡ d
unhex-hex_digit d h = ground arith

unit_of-hex_digit :
    (n : ℕ)
    → n < 65536
    → unit_of
        (hex_digit (n / 4096 % 16))
        (hex_digit (n / 256 % 16))
        (hex_digit (n / 16 % 16))
        (hex_digit (n % 16))
      ≡ n
unit_of-hex_digit n h =
    rw
      (
        unhex-hex_digit (n / 4096 % 16) (omega arith),
        unhex-hex_digit (n / 256 % 16) (omega arith),
        unhex-hex_digit (n / 16 % 16) (omega arith),
        unhex-hex_digit (n % 16) (omega arith),
      )
      (omega arith)

read_char-escape_unit :
    (n : ℕ) (s : Text) → n < 65536 → IsScalar n → read_char (escape_unit n ++ s) ≡ some (n, s)
unfolding read_char
read_char-escape_unit n s h k = rw (unit_of-hex_digit n h, read_unit) (ground arith)

read_char-pair :
    (h l : ℕ) (s : Text)
    → 55296 ≤ h
    → h < 56320
    → 56320 ≤ l
    → l < 57344
    → read_char (escape_unit h ++ (escape_unit l ++ s))
      ≡ some (65536 + (h - 55296) * 1024 + (l - 56320), s)
unfolding read_char
read_char-pair h l s h1 h2 l1 l2 =
    rw (unit_of-hex_digit h (omega arith), unit_of-hex_digit l (omega arith), read_unit)
      (ground arith)

read_char-escape_utf16 :
    (c : ℕ) (s : Text) → IsScalar c → read_char (escape_utf16 c ++ s) ≡ some (c, s)
read_char-escape_utf16 c s h = elim (Bool-cases (ltb c 65536)) [
  | inl short ↦ rw short (read_char-escape_unit c s (ground arith) h)
  | inr long ↦
      let high = 55296 + (c - 65536) / 1024 in
      let low = 56320 + (c - 65536) % 1024 in
      let big : 65536 ≤ c = ground arith in
      let small : c < 1114112 = ground arith in
      let value : 65536 + (high - 55296) * 1024 + (low - 56320) ≡ c = omega arith in
      rw
        (
          long,
          append_assoc (escape_unit high) (escape_unit low) s,
          read_char-pair high low s (omega arith) (omega arith) (omega arith) (omega arith),
          value,
        )
        refl
]

read_char-write_other :
    (c : ℕ) (s : Text)
    → IsScalar c
    → (c == b'"') ≡ false
    → (c == b'\\') ≡ false
    → read_char (write_other c ++ s) ≡ some (c, s)
unfolding write_other read_char
read_char-write_other c s h q b = elim (Bool-cases (ltb c 32)) [
  | inl control ↦ rw control (read_char-escape_unit c s (ground arith) h)
  | inr other ↦ elim (Bool-cases (ltb c 128)) [
    | inl plain ↦ rw (other, plain, q, b) refl
    | inr wide ↦ rw (other, wide) (read_char-escape_utf16 c s h)
  ]
]

named_or_other :
    (c : ℕ) (s : Text)
    → (c == b'"') ≡ false
    → (c == b'\\') ≡ false
    → IsScalar c
    → read_char (
        (if c == b'\n'
          then b'\\' ∷ b'n' ∷ []
          else if c == b'\r'
          then b'\\' ∷ b'r' ∷ []
          else if c == b'\t'
          then b'\\' ∷ b't' ∷ []
          else if c == 8
          then b'\\' ∷ b'b' ∷ []
          else if c == 12
          then b'\\' ∷ b'f' ∷ []
          else write_other c)
        ++ s)
      ≡ some (c, s)
unfolding read_char
named_or_other c s q b h = ground (arith, read_char-write_other c s h q b)

read_char-write_char : (c : ℕ) (s : Text) → IsScalar c → read_char (write_char c ++ s) ≡ some (c, s)
unfolding write_char read_char
read_char-write_char c s h = elim (Bool-cases (c == b'"')) [
  | inl e ↦ rw ((==_iff c b'"').0 e) refl
  | inr q ↦ elim (Bool-cases (c == b'\\')) [
    | inl e ↦ rw ((==_iff c b'\\').0 e) refl
    | inr b ↦ rw (q, b) (named_or_other c s q b h)
  ]
]

-- A character is not the closing quote.
no_quote : (d : ℕ) (t r q : Text) → IsScalar d → b'"' ∷ r ≡ (write_char d ++ t) ++ b'"' ∷ q → ⊥
unfolding read_char
no_quote d t r q hd e =
    let shut : ◌≡◌ {A = Option (ℕ × Text)} none (some (d, t ++ b'"' ∷ q)) =
      ap read_char (e ∙ append_assoc (write_char d) t (b'"' ∷ q))
      ∙ read_char-write_char d (t ++ b'"' ∷ q) hd in
    cc

chars_determined :
    (s t r q : Text)
    → All IsScalar s
    → All IsScalar t
    → write_chars s ++ b'"' ∷ r ≡ write_chars t ++ b'"' ∷ q
    → (s ≡ t) × (r ≡ q)
unfolding read_char
chars_determined [] [] r q hs ht e = (refl, cc)
chars_determined [] (d ∷ t) r q hs (hd, ht) e = absurd (no_quote d (write_chars t) r q hd e)
chars_determined (c ∷ s) [] r q (hc, hs) ht e = absurd (no_quote c (write_chars s) q r hc (sym e))
chars_determined (c ∷ s) (d ∷ t) r q (hc, hs) (hd, ht) e =
    let whole : ◌≡◌ {A = Option (ℕ × Text)} (some (c, write_chars s ++ b'"' ∷ r))
        (some (d, write_chars t ++ b'"' ∷ q)) =
      sym (read_char-write_char c (write_chars s ++ b'"' ∷ r) hc)
      ∙ (ap read_char (
            sym (append_assoc (write_char c) (write_chars s) (b'"' ∷ r))
            ∙ (e ∙ append_assoc (write_char d) (write_chars t) (b'"' ∷ q)))
          ∙ read_char-write_char d (write_chars t ++ b'"' ∷ q) hd) in
    let rest : write_chars s ++ b'"' ∷ r ≡ write_chars t ++ b'"' ∷ q = cc in
    let later = chars_determined s t r q hs ht rest in (cc (later.0), later.1)

-- Two JSON strings with something behind them are equal only if their texts are, and what follows.
pub json_determined :
    (s t r q : Text)
    → All IsScalar s
    → All IsScalar t
    → write_json_string s ++ r ≡ write_json_string t ++ q
    → (s ≡ t) × (r ≡ q)
unfolding write_json_string
json_determined s t r q hs ht e = chars_determined s t r q hs ht (
    sym (append_assoc (write_chars s) (b'"' ∷ []) r)
    ∙ (cc e ∙ append_assoc (write_chars t) (b'"' ∷ []) q))

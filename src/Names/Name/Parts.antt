-- ===== src/Names/Name/Parts.antt =====
-- Joining and splitting the tokens of a name.
use ros2_client.Base.{
  ℕ, true, false, List, [], ◌∷◌, ◌++◌, some, ◌≡◌, ◌≢◌, refl, arith, ap, ◌∙◌, if◌then◌else◌, ◌==◌,
  All, all, append_assoc, ==_iff, Option-cases, inl, inr,
}
use ros2_client.Base.Text.{
  Text, split, split-Lacks, split-append, Lacks, ends_with, cons_head, rsplit_once,
}
use ros2_client.Names.Chars.{name_chars-Lacks}
use ros2_client.Names.Name.{token_ok, tokens_of, slashed, any_empty}

-- The tokens with a slash between any two.
abbrev pub joined : List Text → Text
joined [] = []
joined (t ∷ []) = t
joined (t ∷ u ∷ ts) = t ++ b'/' ∷ joined (u ∷ ts)

abbrev pub AllOk : List Text → Type 0
AllOk = All (λ t. token_ok t ≡ true)

pub token_ok-Lacks : (t : Text) → token_ok t ≡ true → Lacks b'/' t
token_ok-Lacks t h = (name_chars-Lacks t (ground arith)).0

pub slashed-joined : (t : Text) (ts : List Text) → slashed (t ∷ ts) ≡ joined (t ∷ ts) ++ b'/' ∷ []
slashed-joined t [] = refl
slashed-joined t (u ∷ ts) = simp (slashed-joined u ts, append_assoc)

pub split-joined :
    (t : Text) (ts : List Text) → AllOk (t ∷ ts) → split b'/' (joined (t ∷ ts)) ≡ t ∷ ts
split-joined t [] (h, _) = split-Lacks b'/' t (token_ok-Lacks t h)
split-joined t (u ∷ ts) (h, hs) =
    rw (split-append b'/' t (joined (u ∷ ts)) (token_ok-Lacks t h))
      (ap (λ l. t ∷ l) (split-joined u ts hs))

ends_with-Lacks : (c : ℕ) (t : Text) → Lacks c t → ends_with c t ≡ false
ends_with-Lacks c [] h = refl
ends_with-Lacks c (x ∷ []) (ne, _) = ground arith
ends_with-Lacks c (x ∷ y ∷ t) (_, h) = ends_with-Lacks c (y ∷ t) h

ends_with-append : (c x : ℕ) (s t : Text) → ends_with c (s ++ x ∷ t) ≡ ends_with c (x ∷ t)
ends_with-append c x [] t = refl
ends_with-append c x (y ∷ []) t = refl
ends_with-append c x (y ∷ z ∷ s) t = ends_with-append c x (z ∷ s) t

pub ends_with_behind_slash :
    (s : Text) → ends_with b'/' s ≡ false → s ≢ [] → ends_with b'/' (b'/' ∷ s) ≡ false
ends_with_behind_slash [] e ne = absurd (ne refl)
ends_with_behind_slash (x ∷ s) e ne = e

pub joined-ne-nil : (u : Text) (ts : List Text) → AllOk (u ∷ ts) → joined (u ∷ ts) ≢ []
joined-ne-nil [] [] h = λ e. cc
joined-ne-nil (c ∷ u) [] h = λ e. cc
joined-ne-nil [] (v ∷ ts) h = λ e. cc
joined-ne-nil (c ∷ u) (v ∷ ts) h = λ e. cc

pub ends_with-joined :
    (t : Text) (ts : List Text) → AllOk (t ∷ ts) → ends_with b'/' (joined (t ∷ ts)) ≡ false
ends_with-joined t [] (h, _) = ends_with-Lacks b'/' t (token_ok-Lacks t h)
ends_with-joined t (u ∷ ts) (h, hs) =
    ends_with-append b'/' b'/' t (joined (u ∷ ts))
    ∙ ends_with_behind_slash (joined (u ∷ ts)) (ends_with-joined u ts hs) (joined-ne-nil u ts hs)

-- Splitting loses nothing.
pub joined-split : (s : Text) → joined (split b'/' s) ≡ s
unfolding split
joined-split [] = refl
joined-split (x ∷ s) = step (split b'/' s) (split-ne-nil s) (joined-split s)
  where
    split-ne-nil : (s : Text) → split b'/' s ≢ []
    split-ne-nil [] = λ e. cc
    split-ne-nil (y ∷ s) = ground arith

    step :
        (l : List Text)
        → l ≢ []
        → joined l ≡ s
        → joined (if x == b'/' then [] ∷ l else cons_head x l) ≡ x ∷ s
    step [] ne e = absurd (ne refl)
    step (p ∷ []) ne e = ground (arith, ==_iff x b'/')
    step (p ∷ q ∷ l) ne e = ground (arith, ==_iff x b'/')

pub rsplit_once_sound : (c : ℕ) (s a b : Text) → rsplit_once c s ≡ some (a, b) → s ≡ a ++ c ∷ b
unfolding rsplit_once
rsplit_once_sound c [] a b h = cc
rsplit_once_sound c (x ∷ s) a b h = elim (Option-cases (rsplit_once c s)) [
  | inl e ↦ ground (arith, e)
  | inr (parts, e) ↦ ground (arith, e, rsplit_once_sound c s parts.0 parts.1 e)
]

pub any_empty-AllOk : (ts : List Text) → AllOk ts → any_empty ts ≡ false
any_empty-AllOk [] h = refl
any_empty-AllOk ([] ∷ ts) (h, _) = cc
any_empty-AllOk ((c ∷ t) ∷ ts) (_, h) = any_empty-AllOk ts h

pub all-AllOk : (ts : List Text) → AllOk ts → all token_ok ts ≡ true
all-AllOk [] h = refl
all-AllOk (t ∷ ts) (p, h) = rw p (all-AllOk ts h)

pub all-token_ok-AllOk : (ts : List Text) → all token_ok ts ≡ true → AllOk ts
all-token_ok-AllOk [] h = tt
all-token_ok-AllOk (t ∷ ts) h = (ground arith, all-token_ok-AllOk ts (ground arith))

pub tokens_of-joined : (ts : List Text) → AllOk ts → tokens_of (joined ts) ≡ ts
unfolding tokens_of
tokens_of-joined [] h = refl
tokens_of-joined ([] ∷ ts) (h, _) = cc
tokens_of-joined ((c ∷ t) ∷ []) h = split-joined (c ∷ t) [] h
tokens_of-joined ((c ∷ t) ∷ u ∷ ts) h = split-joined (c ∷ t) (u ∷ ts) h

-- The text before the last slash of a name with at least one token, or with a root.
pub joined-tokens_of : (rel : Text) → joined (tokens_of rel) ≡ rel
unfolding tokens_of
joined-tokens_of [] = refl
joined-tokens_of (c ∷ s) = joined-split (c ∷ s)

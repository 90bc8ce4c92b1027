-- ===== src/Base/TextOrder.antt =====
-- The order of texts.
use mathlib.Core.Path.{◌≡◌, refl}
use mathlib.Core.Bool.{Bool, true, false, ◌&&◌, ◌||◌}
use mathlib.Core.List.{[], ◌∷◌}
use native.Mathlib.Omega.{arith}
use ros2_client.Base.Tests.{◌==◌, ltb}
use ros2_client.Base.Text.{Text, text_eq}

-- The order of `str`, which is that of the bytes and so of the scalar values.
abbrev pub text_less : Text → Text → Bool
text_less [] [] = false
text_less [] (d ∷ t) = true
text_less (c ∷ s) [] = false
text_less (c ∷ s) (d ∷ t) = ltb c d || (c == d && text_less s t)

pub text_less_trans :
    (a b c : Text) → text_less a b ≡ true → text_less b c ≡ true → text_less a c ≡ true
text_less_trans [] [] c h k = cc
text_less_trans [] (y ∷ b) [] h k = cc
text_less_trans [] (y ∷ b) (z ∷ c) h k = refl
text_less_trans (x ∷ a) [] c h k = cc
text_less_trans (x ∷ a) (y ∷ b) [] h k = cc
text_less_trans (x ∷ a) (y ∷ b) (z ∷ c) h k = ground (arith, text_less_trans a b c)

pub text_less_irrefl : (a : Text) → text_less a a ≡ false
text_less_irrefl [] = refl
text_less_irrefl (x ∷ a) = ground (arith, text_less_irrefl a)

-- Of two different texts one is less.
pub text_less_total :
    (a b : Text) → text_eq a b ≡ false → text_less b a ≡ false → text_less a b ≡ true
text_less_total [] [] h k = cc
text_less_total [] (y ∷ b) h k = refl
text_less_total (x ∷ a) [] h k = cc
text_less_total (x ∷ a) (y ∷ b) h k = ground (arith, text_less_total a b)

-- ===== src/Text.antt =====
-- kernel/text.c, and the decimal numbers that kernel/arfs.c and kernel/config.c write and parse. A C
-- text is the list of its bytes before the NUL.
pub mod Decimal
mod Tests
use arwill.Prelude.{ℕ, ◌≡◌, ◌↔◌, refl, Bool, true, false, ◌&&◌, ◌==◌, List, [], ◌∷◌, arith}

-- `arwill_text_equals`
unfoldable pub text_equals : List ℕ → List ℕ → Bool
text_equals [] [] = true
text_equals [] (_ ∷ _) = false
text_equals (_ ∷ _) [] = false
text_equals (a ∷ left) (b ∷ right) = a == b && text_equals left right

-- `arwill_text_starts_with`
unfoldable pub starts_with : List ℕ → List ℕ → Bool
starts_with text [] = true
starts_with [] (_ ∷ _) = false
starts_with (a ∷ text) (b ∷ prefix) = a == b && starts_with text prefix

pub text_equals_sound : (a b : List ℕ) → text_equals a b ≡ true → a ≡ b
unfolding text_equals
text_equals_sound [] [] h = refl
text_equals_sound [] (_ ∷ _) h = cc
text_equals_sound (_ ∷ _) [] h = cc
text_equals_sound (x ∷ a) (y ∷ b) h = ground (arith, text_equals_sound a b)

pub text_equals_refl : (a : List ℕ) → text_equals a a ≡ true
unfolding text_equals
text_equals_refl [] = refl
text_equals_refl (x ∷ a) = ground (arith, text_equals_refl a)

-- ===== src/Text.antt =====
-- Texts as lists of code points, with the parts of Python's `str` that the program calls.
pub mod Split
pub mod Strip
pub mod Number
use veloce.Prelude.{
  ℕ, ◌≡◌, refl, ◌↔◌, ap, Bool, true, false, not, ◌&&◌, ◌||◌, List, [], ◌∷◌, map, ◌+◌, ◌-◌, leb,
  if◌then◌else◌, nat_eq, nat_beq, nat_beq_iff, Key, arith,
}

abbrev pub Text : Type 0
Text = List ℕ

unfoldable pub text_beq : Text → Text → Bool
text_beq [] [] = true
text_beq [] (_ ∷ _) = false
text_beq (_ ∷ _) [] = false
text_beq (c ∷ s) (d ∷ t) = nat_beq c d && text_beq s t

text_beq_sound : (s t : Text) → text_beq s t ≡ true → s ≡ t
unfolding text_beq
text_beq_sound [] [] h = refl
text_beq_sound [] (d ∷ t) h = cc
text_beq_sound (c ∷ s) [] h = cc
text_beq_sound (c ∷ s) (d ∷ t) h = ground (arith, nat_beq_iff c d, text_beq_sound s t)

pub text_beq_refl : (s : Text) → text_beq s s ≡ true
unfolding text_beq
text_beq_refl [] = refl
text_beq_refl (c ∷ s) = ground (arith, nat_beq_iff c c, text_beq_refl s)

text_beq_complete : (s t : Text) → s ≡ t → text_beq s t ≡ true
text_beq_complete s t e = rw e (text_beq_refl t)

pub text_beq_iff : (s t : Text) → (text_beq s t ≡ true) ↔ (s ≡ t)
text_beq_iff s t = (text_beq_sound s t, text_beq_complete s t)

instance abbrev pub text_eq : Key Text
text_eq = record { same = text_beq; same_iff = text_beq_iff }

-- s in ts
unfoldable pub is_in : Text → List Text → Bool
is_in s [] = false
is_in s (t ∷ ts) = text_beq t s || is_in s ts

-- The case of an ASCII letter, and `str.upper`, `str.lower` and `str.isupper` over ASCII.
abbrev pub is_lower : ℕ → Bool
is_lower c = leb b'a' c && leb c b'z'

abbrev pub is_upper : ℕ → Bool
is_upper c = leb b'A' c && leb c b'Z'

unfoldable pub to_upper : ℕ → ℕ
to_upper c = if is_lower c then c - 32 else c

unfoldable pub to_lower : ℕ → ℕ
to_lower c = if is_upper c then c + 32 else c

unfoldable pub upper : Text → Text
unfolding to_upper
upper = map to_upper

unfoldable pub lower : Text → Text
unfolding to_lower
lower = map to_lower

unfoldable pub any_upper : Text → Bool
any_upper [] = false
any_upper (c ∷ s) = is_upper c || any_upper s

unfoldable pub none_lower : Text → Bool
none_lower [] = true
none_lower (c ∷ s) = not (is_lower c) && none_lower s

unfoldable pub is_upper_text : Text → Bool
unfolding any_upper none_lower
is_upper_text s = any_upper s && none_lower s

pub upper_of_none_lower : (s : Text) → none_lower s ≡ true → upper s ≡ s
unfolding upper none_lower
upper_of_none_lower [] h = refl
upper_of_none_lower (c ∷ s) h = ground (arith, upper_of_none_lower s)

-- A text that is upper case already is its own `upper`.
pub upper_of_is_upper : (s : Text) → is_upper_text s ≡ true → upper s ≡ s
unfolding is_upper_text
upper_of_is_upper s h = ground (arith, upper_of_none_lower s)

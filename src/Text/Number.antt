-- ===== src/Text/Number.antt =====
-- `str.isdigit` and `int(s)`, as they are on the code points below 256: the superscripts of 1, 2 and 3
-- are digits to `isdigit` only.
use veloce.Prelude.{
  ℕ, ◌+◌, ◌-◌, ◌*◌, Bool, true, false, ◌&&◌, ◌||◌, not, Option, none, some, [], ◌∷◌, nat_eq, ◌==◌,
  leb, all, is_empty, if◌then◌else◌,
}
use veloce.Prelude.Int.{ℤ, pos, sub_ℕ}
use veloce.Text.{Text}
use veloce.Text.Strip.{strip}

abbrev pub is_digit : ℕ → Bool
is_digit c = leb 48 c && leb c 57

abbrev pub is_digit_char : ℕ → Bool
is_digit_char c = is_digit c || (c == 178 || (c == 179 || c == 185))

-- s.isdigit()
abbrev pub is_digits : Text → Bool
is_digits s = not (is_empty s) && all is_digit_char s

-- The digits of a number behind those that `acc` stands for; an underscore may stand between two.
unfoldable pub digits_value : ℕ → Bool → Text → Option ℕ
digits_value acc after_digit [] = if after_digit then some acc else none
digits_value acc after_digit (c ∷ s) =
    let next = digits_value (acc * 10 + (c - 48)) true s in
    let skip = digits_value acc false s in
    if is_digit c then next else if c == b'_' && after_digit then skip else none

abbrev pub nat_of : Text → Option ℕ
nat_of s = digits_value 0 false s

abbrev pub signed : (ℕ → ℤ) → Option ℕ → Option ℤ
signed f none = none
signed f (some n) = some (f n)

abbrev pub int_of_stripped : Text → Option ℤ
int_of_stripped [] = none
int_of_stripped (c ∷ s) =
    if c == b'-'
    then signed (λ n. sub_ℕ 0 n) (nat_of s)
    else if c == b'+'
    then signed pos (nat_of s)
    else signed pos (nat_of (c ∷ s))

-- int(s); `none` is ValueError.
unfoldable pub int_of : Text → Option ℤ
unfolding strip digits_value
int_of s = int_of_stripped (strip s)

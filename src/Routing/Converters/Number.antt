-- ===== src/Routing/Converters/Number.antt =====
-- `IntConverter` of src/veloce/routing/converters.py.
use veloce.Prelude.{
  ℕ, Bool, not, ◌||◌, Option, none, some, [], ◌∷◌, nat_eq, ◌==◌, ltb, length, is_empty,
  if◌then◌else◌,
}
use veloce.Prelude.Int.{ℤ}
use veloce.Text.{Text}
use veloce.Text.Number.{is_digits, int_of}
use veloce.Routing.Node.{number}
use veloce.Routing.Converters.{Match, rejects, coerces, value_error, is_below, is_above}

pub record IntConverter : Type 0 where
  pub min : Option ℤ
  pub max : Option ℤ
  pub signed : Bool

-- `__init__` of min, max and signed; `none` is ValueError.
unfoldable pub init : Option ℤ → Option ℤ → Bool → Option IntConverter
init none max signed = some (record { min = none; max = max; signed = signed })
init (some lo) max signed =
    if is_above lo max then none else some (record { min = some lo; max = max; signed = signed })

-- _MAX_INT_DIGITS
abbrev pub max_int_digits : ℕ
max_int_digits = 20

-- The bounds, on what `int` made of the segment.
abbrev pub bounded : IntConverter → Option ℤ → Match
bounded c none = value_error
bounded c (some n) =
    if is_below n c.min then rejects else if is_above n c.max then rejects else coerces (number n)

abbrev pub checked : IntConverter → Text → Text → Match
checked c value check =
    if is_empty check || not (is_digits check) then rejects else bounded c (int_of value)

abbrev pub match_signed : IntConverter → Text → Match
match_signed c [] = rejects
match_signed c (b ∷ value) =
    if b == b'-'
    then if not c.signed then rejects else checked c (b ∷ value) value
    else checked c (b ∷ value) (b ∷ value)

unfoldable pub match : IntConverter → Text → Match
unfolding int_of
match c value = if ltb max_int_digits (length value) then rejects else match_signed c value

-- ===== src/Routing/Converters.antt =====
-- src/veloce/routing/converters.py: what the converters make of a segment, and what a template says.
-- Those that parse with the standard library (float, decimal, dates and times) are not modelled.
pub mod Str
pub mod Number
pub mod Literal
pub mod Args
pub mod Spec
pub mod Placeholders
pub mod RouteRegex
pub mod RegexPath
use veloce.Prelude.{Bool, true, false, Option, none, some}
use veloce.Prelude.Int.{ℤ, ltb_ℤ}
use veloce.Routing.Node.{Value}

-- What `match` does: `False`, whatever comes with it, `(True, value)`, or `ValueError`.
pub data Match : Type 0 where
  rejects : Match
  coerces : Value → Match
  value_error : Match

abbrev pub is_given : Option ℤ → Bool
is_given none = false
is_given (some n) = true

-- A bound that is given, and is passed.
abbrev pub is_below : ℤ → Option ℤ → Bool
is_below n none = false
is_below n (some lo) = ltb_ℤ n lo

abbrev pub is_above : ℤ → Option ℤ → Bool
is_above n none = false
is_above n (some hi) = ltb_ℤ hi n

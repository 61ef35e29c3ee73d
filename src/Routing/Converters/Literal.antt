-- ===== src/Routing/Converters/Literal.antt =====
-- `AnyConverter` and `UUIDConverter` of src/veloce/routing/converters.py.
use veloce.Prelude.{
  ℕ, zero, suc, ◌+◌, ◌-◌, ◌*◌, ◌&&◌, Option, none, some, List, [], ◌∷◌, nat_eq, nat_beq, ◌==◌, leb,
  length, if◌then◌else◌,
}
use veloce.Text.{Text, text_eq, is_in}
use veloce.Routing.Node.{text, object}
use veloce.Routing.Converters.{Match, rejects, coerces}

-- `_choices`; only the members of the set count.
pub record AnyConverter : Type 0 where
  pub choices : List Text

unfoldable pub match : AnyConverter → Text → Match
unfolding is_in
match c value = if is_in value c.choices then coerces (text value) else rejects

-- [0-9a-fA-F]
abbrev pub hex_value : ℕ → Option ℕ
hex_value c =
    if leb 48 c && leb c 57
    then some (c - 48)
    else if leb 97 c && leb c 102
    then some (c - 87)
    else if leb 65 c && leb c 70
    then some (c - 55)
    else none

-- `count` hex digits behind `acc`, and what follows them
unfoldable pub hex_digits : ℕ → ℕ → Text → Option (ℕ × Text)
hex_digits zero acc s = some (acc, s)
hex_digits (suc count) acc [] = none
hex_digits (suc count) acc (c ∷ s) = elim (hex_value c) [
  | none ↦ none
  | some d ↦ hex_digits count (acc * 16 + d) s
]

abbrev pub dash : Option (ℕ × Text) → Option (ℕ × Text)
dash none = none
dash (some (acc, [])) = none
dash (some (acc, c ∷ s)) = if c == b'-' then some (acc, s) else none

abbrev pub then_hex : ℕ → Option (ℕ × Text) → Option (ℕ × Text)
then_hex count none = none
then_hex count (some (acc, s)) = hex_digits count acc s

-- _UUID_RE on a text of 36 characters, and `uuid.UUID`, whose number is the object.
abbrev pub uuid_of : Text → Option (ℕ × Text)
uuid_of value =
    then_hex 12
      (dash (then_hex 4 (dash (then_hex 4 (dash (then_hex 4 (dash (hex_digits 8 0 value))))))))

abbrev pub accept_uuid : Option (ℕ × Text) → Match
accept_uuid none = rejects
accept_uuid (some (n, rest)) = coerces (object n)

unfoldable pub match_uuid : Text → Match
unfolding hex_digits
match_uuid value = if nat_beq (length value) 36 then accept_uuid (uuid_of value) else rejects

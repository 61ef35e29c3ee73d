-- ===== src/Ranges.antt =====
-- Byte ranges: `RangeSpec` of src/veloce/http/datastructures.py, and what src/veloce/http/response.py
-- makes of one for a file.
pub mod Serve
pub mod Laws
pub mod Served
use veloce.Prelude.{
  ℕ, ◌+◌, ◌-◌, min, Bool, true, false, not, ◌&&◌, ◌||◌, Option, none, some, List, [], ◌∷◌, map,
  ◌==◌, nat_eq, leb, ltb, all, is_empty, if◌then◌else◌,
}
use veloce.Text.{Text, lower}
use veloce.Text.Split.{split}
use veloce.Text.Strip.{strip, has_char, partition}
use veloce.Text.Number.{is_digits, nat_of}

-- The two ends of a range; one that is open is `none`.
abbrev pub Span : Type 0
Span = Option ℕ × Option ℕ

pub record RangeSpec : Type 0 where
  pub unit : Text
  pub ranges : List Span

-- `_is_byte_pos`
unfoldable pub is_byte_pos : Text → Bool
is_byte_pos value = is_digits value && all (λ c. ltb c 128) value

-- `int(s) if s else None`, of a text that is empty or a byte position
abbrev pub position : Text → Option ℕ
position [] = none
position (c ∷ s) = nat_of (c ∷ s)

abbrev pub is_misspelt : Text → Bool
is_misspelt s = not (is_empty s) && not (is_byte_pos s)

abbrev pub span_of : Text → Text → Option Span
span_of start_s end_s =
    if is_misspelt start_s || is_misspelt end_s
    then none
    else if is_empty start_s && is_empty end_s
    then none
    else some (position start_s, position end_s)

-- One stripped chunk; `none` where it is passed over.
unfoldable pub parse_chunk : Text → Option Span
unfolding has_char partition strip is_byte_pos
parse_chunk chunk =
    if is_empty chunk || not (has_char b'-' chunk)
    then none
    else let (start_s, end_s) = partition b'-' chunk in span_of (strip start_s) (strip end_s)

abbrev pub keep : Option Span → List Span → List Span
keep none spans = spans
keep (some span) spans = span ∷ spans

unfoldable pub parse_chunks : List Text → List Span
unfolding parse_chunk strip
parse_chunks [] = []
parse_chunks (chunk ∷ chunks) = keep (parse_chunk (strip chunk)) (parse_chunks chunks)

abbrev pub spec_of : Text → List Span → Option RangeSpec
spec_of unit [] = none
spec_of unit (span ∷ spans) = some (record { unit = unit; ranges = span ∷ spans })

-- `RangeSpec.parse`
unfoldable pub parse : Text → Option RangeSpec
unfolding parse_chunks split lower partition has_char strip
parse header_value =
    if is_empty header_value || not (has_char b'=' header_value)
    then none
    else let (unit, spec) = partition b'=' header_value in
      spec_of (lower (strip unit)) (parse_chunks (split b',' spec))

abbrev pub or_zero : Option ℕ → ℕ
or_zero none = 0
or_zero (some n) = n

abbrev pub last_of : Option ℕ → ℕ → ℕ
last_of none size = size - 1
last_of (some end) size = if leb size end then size - 1 else end

-- `_resolve_byte_range`: the first and the last position, both inclusive.
unfoldable pub resolve_byte_range : Span → ℕ → Option (ℕ × ℕ)
resolve_byte_range (none, end) size =
    let suffix = min (or_zero end) size in
    if ltb 0 suffix then some (size - suffix, size - 1) else none
resolve_byte_range (some start, end) size =
    if leb size start
    then none
    else if leb start (last_of end size)
    then some (start, last_of end size)
    else none

-- ===== src/Routing/Converters/Placeholders.antt =====
-- `_iter_placeholders` of src/veloce/routing/converters.py.
pub mod Laws
use veloce.Prelude.{
  ℕ, suc, ◌-◌, Bool, true, false, Option, none, some, List, [], ◌∷◌, ◌++◌, nat_eq, nat_beq, ◌==◌,
  if◌then◌else◌,
}
use veloce.Text.{Text}
use veloce.Text.Strip.{has_char, partition}

pub record Placeholder : Type 0 where
  pub start : ℕ
  pub end : ℕ
  pub name : Text
  pub spec : Option Text

abbrev pub spec_of : Text → Option Text
spec_of inner = if has_char b':' inner then some (partition b':' inner).1 else none

abbrev pub found : ℕ → ℕ → Text → Placeholder
found start end inner = record {
  start = start;
  end = end;
  name = (partition b':' inner).0;
  spec = spec_of inner;
}

-- Where the scan is: between placeholders, or in one, with its start, the depth of its braces, and
-- what it has of it so far.
pub data Scan : Type 0 where
  outside : Scan
  inside : ℕ → ℕ → Text → Scan

-- The scan from position `i` on; a placeholder that is not closed ends it.
unfoldable pub scan : ℕ → Scan → Text → List Placeholder
unfolding partition has_char
scan i mode [] = []
scan i outside (c ∷ s) =
    let opened = scan (suc i) (inside i 1 []) s in
    let on = scan (suc i) outside s in if c == b'{' then opened else on
scan i (inside start depth inner) (c ∷ s) =
    let deeper = scan (suc i) (inside start (suc depth) (inner ++ (c ∷ []))) s in
    let closed = scan (suc i) outside s in
    let shallower = scan (suc i) (inside start (depth - 1) (inner ++ (c ∷ []))) s in
    let on = scan (suc i) (inside start depth (inner ++ (c ∷ []))) s in
    if c == b'{'
    then deeper
    else if c == b'}'
    then if nat_beq depth 1 then found start (suc i) inner ∷ closed else shallower
    else on

unfoldable pub iter_placeholders : Text → List Placeholder
unfolding scan
iter_placeholders s = scan 0 outside s

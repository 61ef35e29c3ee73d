-- ===== src/Headers/Lists.antt =====
-- Comma-separated lists in headers, as several modules of src/veloce write and read them.
pub mod Laws
use veloce.Prelude.{List, [], ◌∷◌, ◌++◌, map, is_empty, if◌then◌else◌}
use veloce.Text.{Text}
use veloce.Text.Split.{split}
use veloce.Text.Strip.{strip}

-- ", ".join(values)
unfoldable pub join_values : List Text → Text
join_values [] = []
join_values (v ∷ []) = v
join_values (v ∷ w ∷ vs) = v ++ (b',' ∷ b' ' ∷ join_values (w ∷ vs))

-- [p for p in parts if p]
unfoldable pub non_empty : List Text → List Text
non_empty [] = []
non_empty (p ∷ ps) = let rest = non_empty ps in if is_empty p then rest else p ∷ rest

-- [p.strip() for p in header_value.split(",") if p.strip()]
unfoldable pub entries : Text → List Text
unfolding non_empty split
entries value = non_empty (map strip (split b',' value))

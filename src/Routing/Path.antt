-- ===== src/Routing/Path.antt =====
-- Paths as segments: `_cached_split_path` of src/veloce/routing/router.py.
pub mod Laws
use veloce.Prelude.{
  ℕ, ◌-◌, Bool, true, false, not, ◌&&◌, List, [], ◌∷◌, ltb, length, take, drop, get_or,
  if◌then◌else◌, ◌==◌, nat_beq,
}
use veloce.Text.{Text, text_eq}
use veloce.Text.Split.{split}

abbrev pub slash : ℕ
slash = b'/'

unfoldable pub split_path : Text → List Text
split_path path =
    let parts = split slash path in
    let n = length parts in
    let end = if ltb 1 n && get_or parts (n - 1) [] == [] then n - 1 else n in
    let start = if ltb 0 n && get_or parts 0 [] == [] then 1 else 0 in drop start (take end parts)

-- path.endswith("/")
unfoldable pub ends_with_slash : Text → Bool
ends_with_slash [] = false
ends_with_slash (c ∷ []) = nat_beq c slash
ends_with_slash (c ∷ d ∷ s) = ends_with_slash (d ∷ s)

-- path.endswith("/") and path != "/"
unfoldable pub has_trailing_slash : Text → Bool
unfolding ends_with_slash
has_trailing_slash path = ends_with_slash path && not (path == slash ∷ [])

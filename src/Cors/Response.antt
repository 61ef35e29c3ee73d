-- ===== src/Cors/Response.antt =====
-- The headers of a response, as the CORS middleware reads and writes them: `header_key`, `header_pop`
-- and `add_vary` of src/veloce/http/response.py, without the memo of the merges of `add_vary`.
pub mod Laws
use veloce.Prelude.{
  ℕ, Bool, true, false, Option, none, some, List, [], ◌∷◌, ◌==◌, codes, if◌then◌else◌,
}
use veloce.Prelude.Dict.{Dict, get, put, pop}
use veloce.Text.{Text, text_eq, lower}
use veloce.Headers.HeaderSet
use veloce.Headers.HeaderSet.{to_header, update}

abbrev pub Fields : Type 0
Fields = Dict Text Text

pub record Response : Type 0 where
  pub status_code : ℕ
  pub body : Text
  pub headers : Fields

-- The first key that is `lowered` in lower case.
unfoldable pub folded_key : Text → Fields → Option Text
folded_key lowered [] = none
folded_key lowered ((key, value) ∷ headers) =
    let rest = folded_key lowered headers in if lower key == lowered then some key else rest

abbrev pub key_or : Text → Option Text → Option Text → Option Text
key_or name (some value) other = some name
key_or name none other = other

unfoldable pub header_key : Fields → Text → Option Text
unfolding folded_key
header_key headers name = key_or name (get name headers) (folded_key (lower name) headers)

-- The value and the headers that are left.
abbrev pub pop_at : Fields → Option Text → Option Text × Fields
pop_at headers none = (none, headers)
pop_at headers (some key) = (get key headers, pop key headers)

unfoldable pub header_pop : Fields → Text → Option Text × Fields
unfolding header_key
header_pop headers name = pop_at headers (header_key headers name)

abbrev pub vary : Text
vary = codes "Vary"

abbrev pub or_empty : Option Text → Text
or_empty none = []
or_empty (some s) = s

unfoldable pub merge_vary : Text → List Text → Text
unfolding to_header update HeaderSet.init
merge_vary existing names = to_header (update names (HeaderSet.init existing))

abbrev pub vary_at : Fields → List Text → Option Text → Fields
vary_at headers names (some key) =
    put vary (merge_vary (or_empty (get key headers)) names) (pop key headers)
vary_at headers [] none = put vary (merge_vary [] []) headers
vary_at headers (name ∷ []) none = put vary name headers
vary_at headers (name ∷ name2 ∷ names) none =
    put vary (merge_vary [] (name ∷ name2 ∷ names)) headers

unfoldable pub add_vary : List Text → Fields → Fields
unfolding header_key merge_vary
add_vary names headers = vary_at headers names (header_key headers vary)

-- ===== src/Headers/HeaderSet.antt =====
-- `HeaderSet` of src/veloce/http/header_set.py. The set of lower-case tokens is a list without
-- repeats, of which only the members count.
pub mod Laws
pub mod Names
use veloce.Prelude.{
  ℕ, Bool, true, false, not, ◌&&◌, ◌||◌, Option, none, some, List, [], ◌∷◌, ◌++◌, ◌==◌, all, map,
  length, is_empty, if◌then◌else◌,
}
use veloce.Text.{Text, text_eq, lower, is_in}
use veloce.Headers.Lists.{join_values, entries}

pub record HeaderSet : Type 0 where
  pub items : List Text
  pub lowered : List Text

abbrev pub empty : HeaderSet
empty = record { items = []; lowered = [] }

unfoldable pub add : Text → HeaderSet → HeaderSet
unfolding is_in
add header s =
    let key = lower header in
    if is_in key s.lowered
    then s
    else record { items = s.items ++ (header ∷ []); lowered = s.lowered ++ (key ∷ []) }

-- [x for x in items if f(x) != key]
unfoldable pub without : (Text → Text) → Text → List Text → List Text
without f key [] = []
without f key (x ∷ xs) = let rest = without f key xs in if f x == key then rest else x ∷ rest

unfoldable pub discard : Text → HeaderSet → HeaderSet
unfolding without is_in
discard header s =
    let key = lower header in
    if is_in key s.lowered
    then record { items = without lower key s.items; lowered = without (λ k. k) key s.lowered }
    else s

-- `none` is KeyError.
unfoldable pub remove : Text → HeaderSet → Option HeaderSet
unfolding discard
remove header s = if is_in (lower header) s.lowered then some (discard header s) else none

unfoldable pub update : List Text → HeaderSet → HeaderSet
unfolding add
update [] s = s
update (h ∷ hs) s = update hs (add h s)

-- `__init__` of a string
unfoldable pub init : Text → HeaderSet
unfolding update entries
init value = update (entries value) empty

unfoldable pub to_header : HeaderSet → Text
unfolding join_values
to_header s = join_values s.items

-- `__contains__`
unfoldable pub contains : Text → HeaderSet → Bool
unfolding is_in
contains header s = is_in (lower header) s.lowered

-- `__eq__` with another set
unfoldable pub equals : HeaderSet → HeaderSet → Bool
unfolding is_in
equals s t = all (λ k. is_in k t.lowered) s.lowered && all (λ k. is_in k s.lowered) t.lowered

-- A call that changes the set.
pub data Call : Type 0 where
  add_call : Text → Call
  discard_call : Text → Call
  update_call : List Text → Call
  clear_call : Call

unfoldable pub step : Call → HeaderSet → HeaderSet
unfolding add discard update
step (add_call header) s = add header s
step (discard_call header) s = discard header s
step (update_call headers) s = update headers s
step clear_call s = empty

unfoldable pub run : List Call → HeaderSet → HeaderSet
unfolding step
run [] s = s
run (call ∷ later) s = run later (step call s)

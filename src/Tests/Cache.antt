-- ===== src/Tests/Cache.antt =====
-- Tests of Cache: two entries at most, and a third key.
use veloce.Prelude.{ℕ, ◌≡◌, refl, some, none, List, [], ◌∷◌, string_eq, ◌⊎◌}
use veloce.Prelude.Dict
use veloce.Prelude.Dict.{put, has, pop, pop_first, pop_all, keys_where}
use veloce.Prelude.Dict.Evict.{evict}
use veloce.Cache.{InMemoryCache, Call, get_call, set_call, delete_call, get, run}
use veloce.Cache.Laws.{get-run, fresh, run_table, empty_table}

abbrev calls : List (Call ℕ)
calls =
    set_call "a" 1 60 0
    ∷ set_call "b" 2 30 5
    ∷ get_call "b" 40
    ∷ set_call "c" 3 60 41
    ∷ set_call "d" 4 60 42
    ∷ delete_call "c"
    ∷ []

abbrev empty : InMemoryCache ℕ
empty = record { entries = []; max_entries = 2 }

abbrev full : InMemoryCache ℕ
full = record { entries = ("a", (1, 60)) ∷ ("b", (2, 35)) ∷ []; max_entries = 2 }

-- "a" was evicted for "d", and "c" was deleted.
run_tests :
    ((get "a" 43 (run calls empty)).0 ≡ none)
    × ((get "c" 43 (run calls empty)).0 ≡ none)
    × ((get "d" 43 (run calls empty)).0 ≡ some 4)
unfolding run get Dict.get put has pop pop_first pop_all keys_where evict
run_tests = (refl, refl, refl)

get-run_example :
    ((get "d" 43 (run calls empty)).0 ≡ fresh 43 (run_table calls empty_table "d"))
    ⊎ ((get "d" 43 (run calls empty)).0 ≡ none)
get-run_example = get-run calls 2 "d" 43

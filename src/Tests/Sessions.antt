-- ===== src/Tests/Sessions.antt =====
-- Tests of Sessions.
use veloce.Prelude.{ℕ, ◌≡◌, refl, true, false, none, some, List, [], ◌∷◌, string_eq, arith}
use veloce.Prelude.Dict.{get, put, pop, pop_all, keys_where}
use veloce.Sessions.Session
use veloce.Sessions.Session.{Session, Argument, pop_call, update_call, set_call, setdefault_call}
use veloce.Sessions.Store
use veloce.Sessions.Store.{
  SessionStore, read_call, write_call, delete_call, replace_call, touch_call, live, payload_of,
  expiry_of, read, expires_at, delete, run,
}
use veloce.Sessions.Store.Laws.{read-run, run_table, empty_table}
use veloce.Sessions.Store.Revoked.{read-delete}

abbrev loaded : Session ℕ
loaded = record {
  items = ("user", 7) ∷ [];
  new = false;
  modified = false;
  regenerate = false;
  accessed = false;
}

-- None of these changes anything.
abbrev idle_calls : List (Session.Call ℕ)
idle_calls = pop_call "cart" ∷ setdefault_call "user" 0 ∷ update_call (Argument.mapping []) [] ∷ []

-- The sweep at 15 drops the first session, whose time is over; the second is extended.
abbrev calls : List (Store.Call ℕ)
calls =
    write_call 0 false "a" 1 10
    ∷ write_call 5 false "b" 2 20
    ∷ write_call 15 true "c" 3 10
    ∷ touch_call 20 "b" 20
    ∷ replace_call 21 false "a" 9 10
    ∷ []

abbrev store : SessionStore ℕ
store = record { entries = []; sweep_threshold = 2 }

run_tests :
    ((read 22 "a" (run calls store)).0 ≡ none)
    × ((read 22 "b" (run calls store)).0 ≡ some 2)
    × (expires_at 22 "b" (run calls store) ≡ some 40)
unfolding run read expires_at get put pop pop_all keys_where
run_tests = (refl, refl, refl)

read-run_example :
    let s = run calls store in
    let row = live 22 (run_table calls empty_table "b") in
    ((read 22 "b" s).0 ≡ payload_of row) × (expires_at 22 "b" s ≡ expiry_of row)
read-run_example = read-run calls 2 "b" 22 (omega arith) (omega arith)

abbrev late_calls : List (Store.Call ℕ)
late_calls = replace_call 21 false "b" 9 10 ∷ touch_call 22 "b" 5 ∷ read_call 22 "b" ∷ []

read-delete_example : (read 23 "b" (run late_calls (delete "b" (run calls store)))).0 ≡ none
read-delete_example = read-delete late_calls "b" (run calls store) 23 (refl, (refl, (refl, tt)))

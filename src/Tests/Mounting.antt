-- ===== src/Tests/Mounting.antt =====
-- Tests of Mounting.
use veloce.Prelude.{
  ℕ, ◌≡◌, ◌≤◌, refl, true, false, some, List, [], ◌∷◌, codes, nat_beq, if◌then◌else◌,
}
use veloce.Text.{text_beq}
use veloce.Text.Strip.{starts_with, rstrip_char}
use veloce.Mounting.{
  Kind, Call, mount_call, mount_static_call, step, run, no_mounts, registered, mount, mount_static,
  any_overlap, overlaps, owns, handles, first_owner, match_asgi_mount, path_under_mount, sub_path,
}
use veloce.Mounting.Laws.{owners}
use veloce.Mounting.Disjoint.{applications, owners-run}

-- Application 0 is one of this framework, 1 is not callable, and every other is an ASGI application.
abbrev kind : ℕ → Kind
kind app =
    if nat_beq app 0
    then Kind.veloce_app
    else if nat_beq app 1
    then Kind.not_callable
    else Kind.asgi_app

abbrev calls : List (Call ℕ)
calls =
    mount_call (codes "api/") 2 false
    ∷ mount_call (codes "/api/v1") 0 true
    ∷ mount_call (codes "/apiv1") 0 true
    ∷ mount_call (codes "/other") 1 false
    ∷ mount_static_call (codes "static") 7
    ∷ []

run_tests :
    (registered (run kind calls no_mounts) ≡ codes "/apiv1" ∷ codes "/api" ∷ codes "/static" ∷ [])
    × (match_asgi_mount (codes "/api/x") (run kind calls no_mounts) ≡ some (codes "/api", 2))
    × (path_under_mount (codes "/apiv1") (run kind calls no_mounts) ≡ true)
    × (path_under_mount (codes "/api/v1") (run kind calls no_mounts) ≡ false)
    × (sub_path (codes "/api/x") (codes "/api") ≡ codes "/x")
    × (sub_path (codes "/api") (codes "/api") ≡ codes "/")
unfolding run step mount mount_static any_overlap overlaps starts_with rstrip_char text_beq owns
    first_owner match_asgi_mount path_under_mount sub_path
run_tests = (refl, refl, refl, refl, refl, refl)

-- A directory handler whose prefix ends in a slash is let in above a mount.
abbrev slash_calls : List (Call ℕ)
slash_calls = mount_call (codes "/static/x") 2 false ∷ mount_static_call (codes "/static/") 7 ∷ []

slash_tests :
    (registered (run kind slash_calls no_mounts) ≡ codes "/static/x" ∷ codes "/static" ∷ [])
    × (owners (codes "/static/x") (registered (run kind slash_calls no_mounts)) ≡ 2)
unfolding run step mount mount_static any_overlap overlaps starts_with rstrip_char text_beq owns
slash_tests = (refl, refl)

-- A directory handler takes paths beside its prefix, which an application may have been mounted at.
abbrev beside_calls : List (Call ℕ)
beside_calls = mount_static_call (codes "/static") 7 ∷ mount_call (codes "/staticfoo") 2 false ∷ []

beside_tests :
    (registered (run kind beside_calls no_mounts) ≡ codes "/staticfoo" ∷ codes "/static" ∷ [])
    × (handles (codes "/staticfoo") (codes "/static") ≡ true)
    × (owns (codes "/staticfoo") (codes "/staticfoo") ≡ true)
unfolding run step mount mount_static any_overlap overlaps starts_with rstrip_char text_beq owns
    handles
beside_tests = (refl, refl, refl)

owners-run_example : owners (codes "/api/x") (applications (run kind calls no_mounts)) ≤ 1
owners-run_example = owners-run kind calls (codes "/api/x")

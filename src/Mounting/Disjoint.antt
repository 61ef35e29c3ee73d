-- ===== src/Mounting/Disjoint.antt =====
-- That `mount` of src/veloce/app/mounting.py keeps the prefixes of applications apart.
use veloce.Prelude.{
  either_branch, ◌+◌, ◌≤◌, ◌≡◌, refl, ap, sym, Bool, true, false, none, some, List, [], ◌∷◌, ◌++◌,
  nat_eq, or_parts,
}
use mathlib.Core.List.{append_assoc, append-nil}
use veloce.Text.{Text, text_eq}
use veloce.Text.Strip.{rstrip_char}
use veloce.Mounting.{
  Kind, Mounts, any_overlap, overlaps, prefixes, registered, absolute, mount, mount_static,
  register, expose, Call, mount_call, mount_static_call, step, run, no_mounts, snoc, Result, Error,
}
use veloce.Mounting.Laws.{IsApart, insert-IsApart, owners, owners-le}

any_overlap-append :
    (p : Text) (xs ys : List Text) → any_overlap p (xs ++ ys) ≡ false → any_overlap p xs ≡ false
unfolding any_overlap
any_overlap-append p [] ys h = refl
any_overlap-append p (x ∷ xs) ys h =
    let (e, h') = or_parts (overlaps p x) (any_overlap p (xs ++ ys)) h in
    rw (e, any_overlap-append p xs ys h') refl

-- Two lists of prefixes with one more, behind either of them.
more-IsApart :
    (m g : List Text) (p : Text)
    → IsApart (m ++ g)
    → any_overlap p (m ++ g) ≡ false
    → IsApart ((m ++ (p ∷ [])) ++ g) × IsApart (m ++ (g ++ (p ∷ [])))
more-IsApart m g p a h = (
  rw (append_assoc m (p ∷ []) g) (insert-IsApart p m g a h),
  rw (sym (append_assoc m g (p ∷ [])))
      (insert-IsApart p (m ++ g) [] (rw (append-nil (m ++ g)) a) (rw (append-nil (m ++ g)) h)),
)

module _ {A : Type 0} where
  prefixes-append : (xs ys : List (Text × A)) → prefixes (xs ++ ys) ≡ prefixes xs ++ prefixes ys
  prefixes-append [] ys = refl
  prefixes-append ((p, a) ∷ xs) ys = ap (◌∷◌ p) (prefixes-append xs ys)

  -- The prefixes of the mounted applications, of this framework and others.
  abbrev pub applications : Mounts A → List Text
  applications ms = prefixes ms.mounted_apps ++ prefixes ms.asgi_mounts

  abbrev pub IsDisjoint : Mounts A → Type 0
  IsDisjoint ms = IsApart (applications ms)

  expose-applications :
      (b : Bool) (p : Text) (app : A) (ms : Mounts A)
      → applications (expose b p app ms) ≡ applications ms
  expose-applications true p app ms = refl
  expose-applications false p app ms = refl

  apart_from_applications :
      (p : Text) (ms : Mounts A)
      → any_overlap p (registered ms) ≡ false
      → any_overlap p (applications ms) ≡ false
  apart_from_applications p ms h =
      any_overlap-append p (applications ms) (prefixes ms.static_handlers) (
        rw
          (append_assoc (prefixes ms.mounted_apps) (prefixes ms.asgi_mounts)
            (prefixes ms.static_handlers))
          h)

  register-IsDisjoint :
      (k : Kind) (expose_mcp : Bool) (p : Text) (app : A) (ms : Mounts A)
      → IsDisjoint ms
      → any_overlap p (registered ms) ≡ false
      → IsDisjoint (register k expose_mcp p app ms).1
  register-IsDisjoint k expose_mcp p app ms a h = by_kind k (
      more-IsApart (prefixes ms.mounted_apps) (prefixes ms.asgi_mounts) p a
        (apart_from_applications p ms h))
    where
      one_more : (xs : List (Text × A)) → prefixes (snoc xs (p, app)) ≡ prefixes xs ++ (p ∷ [])
      one_more xs = prefixes-append xs ((p, app) ∷ [])

      by_kind :
          (k : Kind)
          → IsApart ((prefixes ms.mounted_apps ++ (p ∷ [])) ++ prefixes ms.asgi_mounts)
            × IsApart (prefixes ms.mounted_apps ++ (prefixes ms.asgi_mounts ++ (p ∷ [])))
          → IsDisjoint (register k expose_mcp p app ms).1
      by_kind Kind.veloce_app (x, y) =
          rw (expose-applications expose_mcp p app _, one_more ms.mounted_apps) x
      by_kind Kind.asgi_app (x, y) = rw (one_more ms.asgi_mounts) y
      by_kind Kind.static_handler (x, y) = a
      by_kind Kind.not_callable (x, y) = a

  step-IsDisjoint :
      (kind : A → Kind) (call : Call A) (ms : Mounts A)
      → IsDisjoint ms
      → IsDisjoint (step kind call ms)
  unfolding step mount mount_static
  step-IsDisjoint kind (mount_call prefix app expose_mcp) ms a =
      let p = absolute (rstrip_char b'/' prefix) in
      either_branch (λ (r : Result A). IsDisjoint r.1) (any_overlap p (registered ms))
        (some Error.overlap, ms) (register (kind app) expose_mcp p app ms) (λ _. a)
        (register-IsDisjoint (kind app) expose_mcp p app ms a)
  step-IsDisjoint kind (mount_static_call prefix handler) ms a =
      let p = absolute prefix in
      either_branch (λ (r : Result A). IsDisjoint r.1) (any_overlap p (registered ms))
        (some Error.overlap, ms)
        (
          none,
          record ms {
            static_handlers = snoc ms.static_handlers (rstrip_char b'/' p, handler);
            gen = ms.gen + 1;
          },
        )
        (λ _. a) (λ _. a)

  run-IsDisjoint :
      (kind : A → Kind) (calls : List (Call A)) (ms : Mounts A)
      → IsDisjoint ms
      → IsDisjoint (run kind calls ms)
  unfolding run
  run-IsDisjoint kind [] ms a = a
  run-IsDisjoint kind (call ∷ calls) ms a =
      run-IsDisjoint kind calls (step kind call ms) (step-IsDisjoint kind call ms a)

  -- Whatever was mounted, refused mounts and directory handlers included, at most one of the mounted
  -- applications, of this framework and others together, owns a path.
  pub owners-run :
      (kind : A → Kind) (calls : List (Call A)) (path : Text)
      → owners path (applications (run kind calls no_mounts)) ≤ 1
  owners-run kind calls path =
      owners-le path (applications (run kind calls no_mounts))
        (run-IsDisjoint kind calls no_mounts tt)

-- ===== src/Mounting.antt =====
-- `MountingMixin` of src/veloce/app/mounting.py, and the scan over the mounts in
-- src/veloce/app/dispatch.py. What an application is, Python finds out by looking at the object: here it
-- is a function of it. The directory handler that `mount_static` makes is given to it.
pub mod Laws
pub mod Disjoint
use veloce.Prelude.{
  ℕ, ◌+◌, ◌≡◌, Bool, true, false, not, ◌&&◌, ◌||◌, Option, none, some, List, [], ◌∷◌, ◌++◌, map,
  ◌==◌, nat_eq, length, drop, is_empty, if◌then◌else◌,
}
use veloce.Text.{Text, text_eq}
use veloce.Text.Strip.{starts_with, rstrip_char}

abbrev pub with_slash : Text → Text
with_slash prefix = prefix ++ (b'/' ∷ [])

-- What `mount` makes of an application.
pub data Kind : Type 0 where
  veloce_app static_handler asgi_app not_callable : Kind

pub data Error : Type 0 where
  overlap not_an_app : Error

pub record Mounts (A : Type 0) : Type 0 where
  pub mounted_apps : List (Text × A)
  pub asgi_mounts : List (Text × A)
  pub static_handlers : List (Text × A)
  pub mcp_mounts : List (Text × A)
  pub gen : ℕ

abbrev pub no_mounts : {A : Type 0} → Mounts A
no_mounts = record {
  mounted_apps = [];
  asgi_mounts = [];
  static_handlers = [];
  mcp_mounts = [];
  gen = 0;
}

-- The mounts after a call, and what it raised.
abbrev pub Result : Type 0 → Type 0
Result A = Option Error × Mounts A

-- A prefix given without a slash gets one.
abbrev pub absolute : Text → Text
absolute [] = []
absolute (c ∷ s) = if starts_with (b'/' ∷ []) (c ∷ s) then c ∷ s else b'/' ∷ c ∷ s

-- Two prefixes of which one is the other, or an ancestor of it.
unfoldable pub overlaps : Text → Text → Bool
unfolding starts_with
overlaps prefix existing =
    prefix == existing
    || (starts_with (with_slash existing) prefix || starts_with (with_slash prefix) existing)

unfoldable pub any_overlap : Text → List Text → Bool
unfolding overlaps
any_overlap prefix [] = false
any_overlap prefix (existing ∷ registered) =
    overlaps prefix existing || any_overlap prefix registered

abbrev pub snoc : {T : Type 0} → List T → T → List T
snoc xs x = xs ++ (x ∷ [])

abbrev is_some : {T : Type 0} → Option T → Bool
is_some none = false
is_some (some x) = true

module _ {A : Type 0} where
  abbrev pub prefixes : List (Text × A) → List Text
  prefixes [] = []
  prefixes ((prefix, app) ∷ entries) = prefix ∷ prefixes entries

  abbrev pub registered : Mounts A → List Text
  registered ms =
      prefixes ms.mounted_apps ++ (prefixes ms.asgi_mounts ++ prefixes ms.static_handlers)

  abbrev pub expose : Bool → Text → A → Mounts A → Mounts A
  expose expose_mcp prefix app ms =
      if expose_mcp then record ms { mcp_mounts = snoc ms.mcp_mounts (prefix, app) } else ms

  -- What is registered of an application whose prefix overlaps with none.
  abbrev pub register : Kind → Bool → Text → A → Mounts A → Result A
  register Kind.veloce_app expose_mcp prefix app ms = (
    none,
    expose expose_mcp prefix app
        (record ms { mounted_apps = snoc ms.mounted_apps (prefix, app); gen = ms.gen + 1 }),
  )
  register Kind.static_handler expose_mcp prefix app ms = (
    none,
    record ms { static_handlers = snoc ms.static_handlers (prefix, app); gen = ms.gen + 1 },
  )
  register Kind.asgi_app expose_mcp prefix app ms =
      (none, record ms { asgi_mounts = snoc ms.asgi_mounts (prefix, app); gen = ms.gen + 1 })
  register Kind.not_callable expose_mcp prefix app ms = (some Error.not_an_app, ms)

  unfoldable pub mount : (A → Kind) → Text → A → Bool → Mounts A → Result A
  unfolding rstrip_char starts_with any_overlap
  mount kind prefix app expose_mcp ms =
      let p = absolute (rstrip_char b'/' prefix) in
      if any_overlap p (registered ms)
      then (some Error.overlap, ms)
      else register (kind app) expose_mcp p app ms

  -- The handler takes its prefix without the slashes at its end.
  unfoldable pub mount_static : Text → A → Mounts A → Result A
  unfolding rstrip_char starts_with any_overlap
  mount_static prefix handler ms =
      let p = absolute prefix in
      if any_overlap p (registered ms) then (some Error.overlap, ms) else (
        none,
        record ms {
          static_handlers = snoc ms.static_handlers (rstrip_char b'/' p, handler);
          gen = ms.gen + 1;
        },
      )

-- path == prefix or path.startswith(prefix + "/"), the test of the mounted applications
unfoldable pub owns : Text → Text → Bool
unfolding starts_with
owns path prefix = path == prefix || starts_with (with_slash prefix) path

module _ {A : Type 0} where
  -- The first entry whose prefix owns the path.
  unfoldable pub first_owner : Text → List (Text × A) → Option (Text × A)
  unfolding owns
  first_owner path [] = none
  first_owner path ((prefix, app) ∷ entries) =
      let rest = first_owner path entries in if owns path prefix then some (prefix, app) else rest

  -- `_match_asgi_mount`
  unfoldable pub match_asgi_mount : Text → Mounts A → Option (Text × A)
  unfolding first_owner
  match_asgi_mount path ms = first_owner path ms.asgi_mounts

  -- `_path_under_mount`
  unfoldable pub path_under_mount : Text → Mounts A → Bool
  unfolding first_owner
  path_under_mount path ms = is_some (first_owner path ms.mounted_apps)

-- `StaticFiles.handle`: whether a directory handler takes the path, which needs no slash behind the prefix
unfoldable pub handles : Text → Text → Bool
unfolding starts_with
handles path prefix = starts_with prefix path

-- path[len(prefix):] or "/"
unfoldable pub sub_path : Text → Text → Text
sub_path path prefix =
    let rest = drop (length prefix) path in if is_empty rest then b'/' ∷ [] else rest

-- A call that registers something.
pub data Call (A : Type 0) : Type 0 where
  mount_call : Text → A → Bool → Call A
  mount_static_call : Text → A → Call A

module _ {A : Type 0} (kind : A → Kind) where
  unfoldable pub step : Call A → Mounts A → Mounts A
  unfolding mount mount_static
  step (mount_call prefix app expose_mcp) ms = (mount kind prefix app expose_mcp ms).1
  step (mount_static_call prefix handler) ms = (mount_static prefix handler ms).1

  unfoldable pub run : List (Call A) → Mounts A → Mounts A
  unfolding step
  run [] ms = ms
  run (call ∷ later) ms = run later (step call ms)

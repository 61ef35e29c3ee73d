-- ===== src/Routing/Register/Outcome.antt =====
-- What a registration does to its leaf, `_commit_route_methods` of src/veloce/routing/router.py.
use veloce.Prelude.{
  Bool, true, false, not, ◌≡◌, refl, sym, ◌∙◌, Option, none, some, List, [], ◌∷◌, ◌⊎◌, inl, inr,
  if◌then◌else◌, Bool-cases, or_inverse, or_true,
}
use veloce.Prelude.Dict.{get}
use veloce.Text.{Text, text_eq, text_beq, text_beq_iff, text_beq_refl, is_in, upper}
use veloce.Routing.Node.{RouteInfo, Handlers, Node, node, handlers, flags}
use veloce.Routing.Insert.{Inserted, duplicate_route, mark_slash}
use veloce.Routing.Register.{
  Policy, override, warn, refuse, is_conflict, any_refused, register_leaf,
}
use veloce.Routing.Register.Laws.{listed, get-put_methods}

module _ (same : RouteInfo → RouteInfo → Bool) where
  -- Duplicates are refused, and one of the methods has a route that the new one is not the same as.
  abbrev pub IsRefused : Policy → Handlers → RouteInfo → List Text → Type 0
  IsRefused policy hs info methods =
      (policy ≡ refuse)
      × (method : Text) × (existing : RouteInfo) × (is_in method methods ≡ true)
      × (get (upper method) hs ≡ some existing)
      × (same existing info ≡ false)

  IsRefused-cons :
      (policy : Policy) (hs : Handlers) (info : RouteInfo) (m : Text) (more : List Text)
      → IsRefused policy hs info more
      → IsRefused policy hs info (m ∷ more)
  unfolding is_in
  IsRefused-cons policy hs info m more (p, method, existing, i, g, d) =
      (p, method, existing, rw i (or_true (text_beq m method)), g, d)

  IsRefused-here :
      (hs : Handlers) (info : RouteInfo) (m : Text) (more : List Text) (o : Option RouteInfo)
      → get (upper m) hs ≡ o
      → is_conflict refuse same o info ≡ true
      → IsRefused refuse hs info (m ∷ more)
  unfolding is_conflict is_in
  IsRefused-here hs info m more none g h = cc
  IsRefused-here hs info m more (some existing) g h =
      (refl, m, existing, rw (text_beq_refl m) refl, g, not_true (same existing info) h)
    where
      not_true : (b : Bool) → not b ≡ true → b ≡ false
      not_true true e = cc
      not_true false e = refl

  any_refused-IsRefused :
      (policy : Policy) (hs : Handlers) (info : RouteInfo) (methods : List Text)
      → any_refused policy same hs info methods ≡ true
      → IsRefused policy hs info methods
  unfolding any_refused
  any_refused-IsRefused policy hs info [] h = cc
  any_refused-IsRefused override hs info (m ∷ more) h =
      IsRefused-cons override hs info m more (any_refused-IsRefused override hs info more h)
  any_refused-IsRefused warn hs info (m ∷ more) h =
      IsRefused-cons warn hs info m more (any_refused-IsRefused warn hs info more h)
  any_refused-IsRefused refuse hs info (m ∷ more) h =
      elim (or_inverse (is_conflict refuse same (get (upper m) hs) info)
        (any_refused refuse same hs info more) h) [
          | inl e ↦ IsRefused-here hs info m more (get (upper m) hs) refl e
          | inr e ↦
              IsRefused-cons refuse hs info m more (any_refused-IsRefused refuse hs info more e)
        ]

  IsRefused-any_refused :
      (hs : Handlers) (info : RouteInfo) (methods : List Text)
      → IsRefused refuse hs info methods
      → any_refused refuse same hs info methods ≡ true
  unfolding any_refused is_in is_conflict
  IsRefused-any_refused hs info [] (p, method, existing, i, g, d) = cc
  IsRefused-any_refused hs info (m ∷ more) (p, method, existing, i, g, d) =
      elim (or_inverse (text_beq m method) (is_in method more) i) [
        | inl e ↦ rw ((text_beq_iff m method).0 e, g, d) refl
        | inr e ↦
            rw (IsRefused-any_refused hs info more (p, method, existing, e, g, d))
              (or_true (is_conflict refuse same (get (upper m) hs) info))
      ]

  not-IsRefused :
      (policy : Policy) (hs : Handlers) (info : RouteInfo) (methods : List Text)
      → any_refused policy same hs info methods ≡ false
      → ¬ IsRefused policy hs info methods
  not-IsRefused override hs info methods h (p, method, existing, i, g, d) = cc
  not-IsRefused warn hs info methods h (p, method, existing, i, g, d) = cc
  not-IsRefused refuse hs info methods h r =
      true_false (sym (IsRefused-any_refused hs info methods r) ∙ h)
    where
      true_false : true ≡ false → ⊥
      true_false e = cc

  -- It raises, and the leaf has its old table and the flags of the new path's form.
  abbrev pub IsKeptBut : Text → Bool → Node → Inserted → Type 0
  IsKeptBut full_path not_strict n result =
      (result.1 ≡ some duplicate_route) × (result.0 ≡ mark_slash full_path not_strict n)

  -- It does not raise, and the method `k` is answered by the new route if it is one of its methods, and as
  -- before if it is none.
  abbrev pub IsCommitted : List Text → RouteInfo → Text → Node → Inserted → Type 0
  IsCommitted methods info k n result =
      (result.1 ≡ none)
      × (get k (handlers result.0) ≡ (if listed k methods then some info else get k (handlers n)))

  -- A registration is refused if duplicates are and one of its methods has another route, and only then.
  -- Refused, it raises and puts no method in the table, but the leaf keeps the flags that the path's form
  -- has set; or else every one of its methods is answered by the new route, every other as before, and the
  -- flags are set as well.
  pub register_leaf-outcome :
      (policy : Policy) (full_path : Text) (not_strict : Bool) (methods : List Text)
      (info : RouteInfo) (n : Node) (k : Text)
      → let result = register_leaf policy same full_path not_strict methods info n in
        (IsRefused policy (handlers n) info methods × IsKeptBut full_path not_strict n result)
        ⊎ (¬ IsRefused policy (handlers n) info methods
            × IsCommitted methods info k n result
            × (flags result.0 ≡ flags (mark_slash full_path not_strict n)))
  unfolding register_leaf
  register_leaf-outcome policy full_path not_strict methods info (node hs fs ss ps w) k =
      elim (Bool-cases (any_refused policy same hs info methods)) [
        | inl t ↦ rw t (inl (any_refused-IsRefused policy hs info methods t, (refl, refl)))
        | inr f ↦ rw f (
            inr (
              not-IsRefused policy hs info methods f,
              (refl, get-put_methods info methods hs k),
              refl,
            ))
      ]

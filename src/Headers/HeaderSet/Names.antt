-- ===== src/Headers/HeaderSet/Names.antt =====
-- The tokens of a set, read back from its header value; a token holds no space and no comma.
use mathlib.Core.Path.{subst}
use mathlib.Core.List.{map-append}
use veloce.Prelude.{
  or_true, or_false, or_assoc, and_parts, ℕ, ◌≡◌, ◌≢◌, ◌↔◌, refl, ap, sym, ◌∙◌, Bool, true, false,
  not, ◌&&◌, ◌||◌, List, [], ◌∷◌, ◌++◌, map, Bool-cases, ◌⊎◌, inl, inr, All, all, nat_eq, nat_beq,
  nat_beq_iff, arith,
}
use veloce.Headers.HeaderSet
use veloce.Headers.HeaderSet.{HeaderSet, to_header, update, add, contains, empty}
use veloce.Headers.HeaderSet.{run, step, update_call, add_call}
use veloce.Headers.HeaderSet.Laws.{is_in-append}
use veloce.Headers.Lists.{join_values, entries, non_empty}
use veloce.Headers.Lists.Laws.{all_entries, entries-join_values}
use veloce.Text.{Text, text_eq, text_beq, text_beq_iff, lower, to_lower, is_upper, is_in}
use veloce.Text.Split.{Lacks, split_of_Lacks}
use veloce.Text.Strip.{strip, lstrip, rstrip, is_space, cons_stripped}

-- No space and no comma, as of a token.
abbrev pub IsPlain : ℕ → Type 0
IsPlain c = (is_space c ≡ false) × (c ≢ b',')

rstrip_plain : (s : Text) → All IsPlain s → rstrip s ≡ s
unfolding rstrip
rstrip_plain [] h = refl
rstrip_plain (c ∷ s) (h, hs) = rw (rstrip_plain s hs) (cons_plain c s h)
  where
    cons_plain : (c : ℕ) (s : Text) → IsPlain c → cons_stripped c s ≡ c ∷ s
    cons_plain c [] (h, n) = rw h refl
    cons_plain c (d ∷ s) h = refl

plain-Lacks : (s : Text) → All IsPlain s → Lacks b',' s
plain-Lacks [] h = tt
plain-Lacks (c ∷ s) ((h, n), hs) = (n, plain-Lacks s hs)

strip_plain : (s : Text) → All IsPlain s → strip s ≡ s
unfolding strip lstrip
strip_plain [] h = unfold rstrip in refl
strip_plain (c ∷ s) ((h, n), hs) = rw h (rstrip_plain (c ∷ s) ((h, n), hs))

-- A token is the only entry of itself.
entries_plain : (c : ℕ) (s : Text) → All IsPlain (c ∷ s) → entries (c ∷ s) ≡ (c ∷ s) ∷ []
unfolding entries non_empty
entries_plain c s h =
    rw (split_of_Lacks b',' (c ∷ s) (plain-Lacks (c ∷ s) h), strip_plain (c ∷ s) h) refl

upper-IsPlain : (c : ℕ) → is_upper c ≡ true → IsPlain c
upper-IsPlain c h = (ground arith, λ e. ground arith)

IsPlain-to_lower : (c : ℕ) → IsPlain (to_lower c) → IsPlain c
unfolding to_lower
IsPlain-to_lower c = elim (Bool-cases (is_upper c)) [
  | inl t ↦ λ h. upper-IsPlain c t
  | inr f ↦ rw f (λ h. h)
]

IsPlain-lower : (s : Text) → All IsPlain (lower s) → All IsPlain s
unfolding lower
IsPlain-lower [] h = tt
IsPlain-lower (c ∷ s) (h, hs) = (IsPlain-to_lower c h, IsPlain-lower s hs)

abbrev pub is_plain : ℕ → Bool
is_plain c = not (is_space c) && not (nat_beq c b',')

pub all-IsPlain : (s : Text) → all is_plain s ≡ true → All IsPlain s
all-IsPlain [] h = tt
all-IsPlain (c ∷ s) h = (
  plain_char (is_space c) (nat_beq_iff c b',') (and_parts _ _ h).0,
  all-IsPlain s (and_parts _ _ h).1,
)
  where
    plain_char :
        (space : Bool)
        → (nat_beq c b',' ≡ true) ↔ (c ≡ b',')
        → not space && not (nat_beq c b',') ≡ true
        → (space ≡ false) × (c ≢ b',')
    plain_char true iff e = cc
    plain_char false iff e = (refl, λ eq. cc (e, iff.1 eq))

module _ (k : ℕ) (ks : Text) (plain : All IsPlain (k ∷ ks)) where
  abbrev Named : List Text → Type 0
  Named xs = is_in (k ∷ ks) (map lower xs) ≡ true

  token-entries : (x : Text) → text_beq (lower x) (k ∷ ks) ≡ true → entries x ≡ x ∷ []
  token-entries [] h = unfold lower text_beq in cc
  token-entries (c ∷ x) h = entries_plain c x (
      IsPlain-lower (c ∷ x)
        (subst (λ s. All IsPlain s) (sym ((text_beq_iff (lower (c ∷ x)) (k ∷ ks)).0 h)) plain))

  Named-append_left : (xs ys : List Text) → Named xs → Named (xs ++ ys)
  Named-append_left xs ys h =
      rw (map-append, is_in-append (k ∷ ks) (map lower xs) (map lower ys), h) refl

  Named-append_right : (xs ys : List Text) → Named ys → Named (xs ++ ys)
  Named-append_right xs ys h =
      rw (map-append, is_in-append (k ∷ ks) (map lower xs) (map lower ys), h)
        (or_true (is_in (k ∷ ks) (map lower xs)))

  -- A token of a list is a token of what is read from its members.
  Named-all_entries : (xs : List Text) → Named xs → Named (all_entries xs)
  unfolding is_in
  Named-all_entries [] = λ h. h
  Named-all_entries (x ∷ xs) = elim (Bool-cases (text_beq (lower x) (k ∷ ks))) [
    | inl t ↦ λ h. Named-append_left (entries x) (all_entries xs) (rw (token-entries x t, t) refl)
    | inr f ↦ rw f (λ h. Named-append_right (entries x) (all_entries xs) (Named-all_entries xs h))
  ]

  Named-join_values : (xs : List Text) → Named xs → Named (entries (join_values xs))
  Named-join_values [] = unfold is_in in (λ h. cc)
  Named-join_values (x ∷ xs) = λ h. rw (entries-join_values x xs) (Named-all_entries (x ∷ xs) h)

  pub contains-add :
      (x : Text) (s : HeaderSet)
      → is_in (k ∷ ks) (add x s).lowered ≡ (is_in (k ∷ ks) s.lowered || text_beq (lower x) (k ∷ ks))
  unfolding add is_in
  contains-add x s = elim (Bool-cases (is_in (lower x) s.lowered)) [
    | inl t ↦ rw t (already (Bool-cases (text_beq (lower x) (k ∷ ks))) t)
    | inr f ↦
        rw
          (
            f,
            is_in-append (k ∷ ks) s.lowered (lower x ∷ []),
            or_false (text_beq (lower x) (k ∷ ks)),
          )
          refl
  ]
    where
      already :
          (text_beq (lower x) (k ∷ ks) ≡ true) ⊎ (text_beq (lower x) (k ∷ ks) ≡ false)
          → is_in (lower x) s.lowered ≡ true
          → is_in (k ∷ ks) s.lowered ≡ (is_in (k ∷ ks) s.lowered || text_beq (lower x) (k ∷ ks))
      already (inl e) t =
          let t' = ap (λ y. is_in y s.lowered) (sym ((text_beq_iff (lower x) (k ∷ ks)).0 e)) ∙ t in
          rw t' refl
      already (inr n) t = rw n (sym (or_false (is_in (k ∷ ks) s.lowered)))

  contains-update :
      (xs : List Text) (s : HeaderSet)
      → is_in (k ∷ ks) (update xs s).lowered
        ≡ (is_in (k ∷ ks) s.lowered || is_in (k ∷ ks) (map lower xs))
  unfolding update is_in
  contains-update [] s = sym (or_false (is_in (k ∷ ks) s.lowered))
  contains-update (x ∷ xs) s =
      contains-update xs (add x s)
      ∙ ap (λ b. b || is_in (k ∷ ks) (map lower xs)) (contains-add x s)
      ∙ or_assoc (is_in (k ∷ ks) s.lowered) (text_beq (lower x) (k ∷ ks))
          (is_in (k ∷ ks) (map lower xs))

  -- The tokens of a set are those of its header value.
  pub Named-to_header :
      (s : HeaderSet)
      → s.lowered ≡ map lower s.items
      → is_in (k ∷ ks) s.lowered ≡ true
      → is_in (k ∷ ks) (HeaderSet.init (to_header s)).lowered ≡ true
  unfolding to_header HeaderSet.init is_in
  Named-to_header s e h =
      contains-update (entries (join_values s.items)) empty
      ∙ Named-join_values s.items (ap (λ ts. is_in (k ∷ ks) ts) (sym e) ∙ h)

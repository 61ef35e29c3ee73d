-- ===== src/Headers/HeaderSet/Laws.antt =====
-- Lemmas on `HeaderSet` of src/veloce/http/header_set.py.
use mathlib.Core.List.{map-append}
use veloce.Prelude.{
  ◌≡◌, refl, ap, sym, ◌∙◌, false, ◌||◌, List, [], ◌∷◌, ◌++◌, map, ◌==◌, Bool-cases, inl, inr, arith,
}
use veloce.Text.{Text, text_eq, text_beq_iff, lower, is_in}
use veloce.Headers.HeaderSet.{
  HeaderSet, add, without, discard, update, Call, add_call, discard_call, update_call, clear_call,
  step, run,
}

abbrev IsDistinct : List Text → Type 0
IsDistinct [] = Unit
IsDistinct (k ∷ ks) = (is_in k ks ≡ false) × IsDistinct ks

-- The index is that of the items, and no two of them are the same token.
abbrev pub IsWellFormed : HeaderSet → Type 0
IsWellFormed s = (s.lowered ≡ map lower s.items) × IsDistinct s.lowered

pub is_in-append : (k : Text) (xs ys : List Text) → is_in k (xs ++ ys) ≡ (is_in k xs || is_in k ys)
unfolding is_in
is_in-append k [] ys = refl
is_in-append k (x ∷ xs) ys = ground (arith, is_in-append k xs ys)

-- A token behind others that are all different from it.
snoc-IsDistinct :
    (k : Text) (xs : List Text) → is_in k xs ≡ false → IsDistinct xs → IsDistinct (xs ++ (k ∷ []))
unfolding is_in
snoc-IsDistinct k [] h d = (refl, tt)
snoc-IsDistinct k (x ∷ xs) h (new, d) = (
  ground (arith, is_in-append x xs (k ∷ []), text_beq_iff x k, text_beq_iff k x),
  snoc-IsDistinct k xs (ground arith) d,
)

add-IsWellFormed : (header : Text) (s : HeaderSet) → IsWellFormed s → IsWellFormed (add header s)
unfolding add
add-IsWellFormed header s (e, d) = elim (Bool-cases (is_in (lower header) s.lowered)) [
  | inl t ↦ rw t (e, d)
  | inr f ↦ rw f (
    ap (λ (ks : List Text). ks ++ (lower header ∷ [])) e
        ∙ sym (map-append lower s.items (header ∷ [])),
    snoc-IsDistinct (lower header) s.lowered f d,
  )
]

without-map :
    (key : Text) (xs : List Text)
    → without (λ k. k) key (map lower xs) ≡ map lower (without lower key xs)
unfolding without
without-map key [] = refl
without-map key (x ∷ xs) = elim (Bool-cases (lower x == key)) [
  | inl t ↦ rw t (without-map key xs)
  | inr f ↦ rw f (ap (◌∷◌ (lower x)) (without-map key xs))
]

is_in-without :
    (k key : Text) (xs : List Text) → is_in k xs ≡ false → is_in k (without (λ x. x) key xs) ≡ false
unfolding without is_in
is_in-without k key [] h = refl
is_in-without k key (x ∷ xs) h = ground (arith, is_in-without k key xs)

without-IsDistinct :
    (key : Text) (xs : List Text) → IsDistinct xs → IsDistinct (without (λ k. k) key xs)
unfolding without
without-IsDistinct key [] d = tt
without-IsDistinct key (x ∷ xs) (new, d) = elim (Bool-cases (x == key)) [
  | inl t ↦ rw t (without-IsDistinct key xs d)
  | inr f ↦ rw f (is_in-without x key xs new, without-IsDistinct key xs d)
]

discard-IsWellFormed :
    (header : Text) (s : HeaderSet) → IsWellFormed s → IsWellFormed (discard header s)
unfolding discard
discard-IsWellFormed header s (e, d) = elim (Bool-cases (is_in (lower header) s.lowered)) [
  | inl t ↦ rw t (
    ap (without (λ k. k) (lower header)) e ∙ without-map (lower header) s.items,
    without-IsDistinct (lower header) s.lowered d,
  )
  | inr f ↦ rw f (e, d)
]

update-IsWellFormed :
    (headers : List Text) (s : HeaderSet) → IsWellFormed s → IsWellFormed (update headers s)
unfolding update
update-IsWellFormed [] s h = h
update-IsWellFormed (x ∷ headers) s h =
    update-IsWellFormed headers (add x s) (add-IsWellFormed x s h)

step-IsWellFormed : (call : Call) (s : HeaderSet) → IsWellFormed s → IsWellFormed (step call s)
unfolding step
step-IsWellFormed (add_call header) s h = add-IsWellFormed header s h
step-IsWellFormed (discard_call header) s h = discard-IsWellFormed header s h
step-IsWellFormed (update_call headers) s h = update-IsWellFormed headers s h
step-IsWellFormed clear_call s h = (refl, tt)

-- Calls keep a set well formed: its index is that of its items, of which no two are the same token
-- but for case.
pub run-IsWellFormed :
    (calls : List Call) (s : HeaderSet) → IsWellFormed s → IsWellFormed (run calls s)
unfolding run
run-IsWellFormed [] s h = h
run-IsWellFormed (call ∷ later) s h =
    run-IsWellFormed later (step call s) (step-IsWellFormed call s h)

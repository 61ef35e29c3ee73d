-- ===== src/Headers/Quoted/Front.antt =====
-- `split_outside_quotes_checked` of src/veloce/_header_parsing.py on a text that someone else wrote
-- in front of another.
use mathlib.Core.Logic.{◌≢◌}
use veloce.Prelude.{
  ℕ, ◌≡◌, refl, ap, ◌∙◌, Bool, true, false, not, ◌&&◌, [], ◌∷◌, ◌++◌, nat_eq, ◌==◌, if◌then◌else◌,
  Bool-cases, ◌⊎◌, inl, inr, nat_beq_ne, nat_beq_self,
}
use veloce.Text.{Text}
use veloce.Text.Split.{push-ne-nil, push-append, Lacks}
use veloce.Headers.Quoted.{
  quote, backslash, Parts, keep, cut, plain, walk, split_outside_quotes_checked,
}

-- One step of the loop, whatever follows.
walk-cons :
    (d : ℕ) (q : Bool) (c : ℕ) (s : Text)
    → (q && c == backslash) ≡ false
    → walk d q (c ∷ s) ≡ plain d q c (λ q'. walk d q' s)
unfolding walk
walk-cons d q c [] h = refl
walk-cons d q c (e ∷ s) h = rw h refl

and_false : (q : Bool) → (q && false) ≡ false
and_false true = refl
and_false false = refl

plain-ends :
    (d : ℕ) (q : Bool) (c : ℕ) (k : Bool → Parts)
    → (plain d q c k).1 ≡ (k (if c == quote then not q else q)).1
plain-ends d q c k = elim (Bool-cases (c == quote)) [
  | inl t ↦ rw t refl
  | inr f ↦ rw f (elim (Bool-cases (c == d && not q)) [ inl t ↦ rw t refl | inr g ↦ rw g refl ])
]

-- Without a backslash, starting inside a quoted string turns the end round.
walk-flip :
    (d : ℕ) (s : Text) → Lacks backslash s → (q : Bool) → (walk d (not q) s).1 ≡ not (walk d q s).1
walk-flip d [] l q = unfold walk in refl
walk-flip d (c ∷ s) (l, ls) q =
    let shown : (q' : Bool) → (q' && c == backslash) ≡ false =
      λ q'. rw (nat_beq_ne c backslash l) (and_false q') in
    rw
      (
        walk-cons d (not q) c s (shown (not q)),
        walk-cons d q c s (shown q),
        plain-ends d (not q) c (λ q'. walk d q' s),
        plain-ends d q c (λ q'. walk d q' s),
      )
      (elim (Bool-cases (c == quote)) [
        | inl t ↦ rw t (walk-flip d s ls (not q))
        | inr f ↦ rw f (walk-flip d s ls q)
      ])

plain-ne-nil : (d : ℕ) (q : Bool) (c : ℕ) (k : Bool → Parts) → (plain d q c k).0 ≢ []
plain-ne-nil d q c k = elim (Bool-cases (c == quote)) [
  | inl t ↦ rw t (push-ne-nil c (k (not q)).0)
  | inr f ↦ rw f (elim (Bool-cases (c == d && not q)) [
    | inl t ↦ rw t (λ x. cc)
    | inr g ↦ rw g (push-ne-nil c (k q).0)
  ])
]

-- The walk `w` of a text in front of another: it ends inside a quoted string, or its parts are those
-- of the front and those of the other.
abbrev Fronts : Parts → Parts → Parts → Type 0
Fronts w front t = (front.0 ≢ []) × ((w.1 ≡ true) ⊎ (w ≡ (front.0 ++ t.0, t.1)))

keep-Fronts : (c : ℕ) (w front t : Parts) → Fronts w front t → Fronts (keep c w) (keep c front) t
keep-Fronts c w front t (n, inl e) = (push-ne-nil c front.0, inl e)
keep-Fronts c w front t (n, inr e) =
    (push-ne-nil c front.0, inr (ap (keep c) e ∙ rw (push-append c front.0 t.0 n) refl))

cut-Fronts : (w front t : Parts) → Fronts w front t → Fronts (cut w) (cut front) t
cut-Fronts w front t (n, inl e) = (λ x. cc, inl e)
cut-Fronts w front t (n, inr e) = (λ x. cc, inr (ap cut e))

plain-Fronts :
    (d : ℕ) (q : Bool) (c : ℕ) (k front : Bool → Parts) (t : Parts)
    → ((q' : Bool) → Fronts (k q') (front q') t)
    → Fronts (plain d q c k) (plain d q c front) t
plain-Fronts d q c k front t h = elim (Bool-cases (c == quote)) [
  | inl e ↦ rw e (keep-Fronts c (k (not q)) (front (not q)) t (h (not q)))
  | inr f ↦ rw f (elim (Bool-cases (c == d && not q)) [
    | inl e ↦ rw e (cut-Fronts (k q) (front q) t (h q))
    | inr g ↦ rw g (keep-Fronts c (k q) (front q) t (h q))
  ])
]

module _ (d : ℕ) (t : Text) (not_quote : (d == quote) ≡ false)
    (not_backslash : (d == backslash) ≡ false) (flipped : (walk d true t).1 ≡ true) where
  walk-delimiter : (q : Bool) → Fronts (walk d q (d ∷ t)) ([] ∷ [], q) (walk d false t)
  walk-delimiter true =
      rw (walk-cons d true d t not_backslash, not_quote)
        (λ x. cc, inl (rw (nat_beq_self d) flipped))
  walk-delimiter false =
      rw (walk-cons d false d t refl, not_quote, nat_beq_self d) (λ x. cc, inr refl)

  walk-last :
      (q : Bool) (c : ℕ) → Fronts (walk d q (c ∷ d ∷ t)) (walk d q (c ∷ [])) (walk d false t)
  unfolding walk
  walk-last true c = elim (Bool-cases (c == backslash)) [
    | inl e ↦ (plain-ne-nil d true c (λ q'. ([] ∷ [], q')), inl (rw e flipped))
    | inr f ↦ rw f (
        plain-Fronts d true c (λ q'. walk d q' (d ∷ t)) (λ q'. ([] ∷ [], q')) (walk d false t)
          walk-delimiter)
  ]
  walk-last false c =
      plain-Fronts d false c (λ q'. walk d q' (d ∷ t)) (λ q'. ([] ∷ [], q')) (walk d false t)
        walk-delimiter

  walk-Fronts :
      (q : Bool) (c : Text) → Fronts (walk d q (c ++ (d ∷ t))) (walk d q c) (walk d false t)
  unfolding walk
  walk-Fronts q [] = walk-delimiter q
  walk-Fronts q (c ∷ []) = walk-last q c
  walk-Fronts q (c ∷ e ∷ s) = elim (Bool-cases (q && c == backslash)) [
    | inl h ↦ rw h (
        keep-Fronts c (keep e (walk d q (s ++ (d ∷ t)))) (keep e (walk d q s)) (walk d false t)
          (keep-Fronts e (walk d q (s ++ (d ∷ t))) (walk d q s) (walk d false t) (walk-Fronts q s)))
    | inr f ↦ rw f (
        plain-Fronts d q c (λ q'. walk d q' ((e ∷ s) ++ (d ∷ t))) (λ q'. walk d q' (e ∷ s))
          (walk d false t) (λ q'. walk-Fronts q' (e ∷ s)))
  ]

-- A closed text without a backslash, behind any other and a delimiter: the whole ends inside a quoted
-- string, or is split into the other's parts and its own.
pub split-front :
    (d : ℕ) (front t : Text)
    → (d == quote) ≡ false
    → (d == backslash) ≡ false
    → Lacks backslash t
    → (split_outside_quotes_checked t d).1 ≡ false
    → let whole = split_outside_quotes_checked (front ++ (d ∷ t)) d in
      (whole.1 ≡ true)
      ⊎ (whole ≡ (
        (split_outside_quotes_checked front d).0 ++ (split_outside_quotes_checked t d).0,
        false,
      ))
unfolding split_outside_quotes_checked
split-front d front t nq nb l closed =
    let flipped : (walk d true t).1 ≡ true = walk-flip d t l false ∙ ap not closed in
    elim (walk-Fronts d t nq nb flipped false front).1 [
      | inl e ↦ inl e
      | inr e ↦
          inr (e ∙ ap (λ (b : Bool). ((walk d false front).0 ++ (walk d false t).0, b)) closed)
    ]

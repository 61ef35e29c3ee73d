-- ===== src/Mounting/Laws.antt =====
-- The prefixes of mounts, src/veloce/app/mounting.py: which paths they own, and that they are kept apart.
use veloce.Prelude.{
  and_parts, or_parts, ℕ, ◌+◌, ◌≤◌, ◌≡◌, refl, sym, ◌∙◌, Bool, true, false, ◌&&◌, ◌||◌, List, [],
  ◌∷◌, ◌++◌, nat_eq, nat_beq, nat_beq_iff, if◌then◌else◌, Bool-cases, inl, inr, arith,
}
use veloce.Text.{Text, text_eq, text_beq}
use veloce.Text.Strip.{starts_with}
use veloce.Mounting.{with_slash, overlaps, any_overlap, owns}

beq_sym : (c d : ℕ) → nat_beq c d ≡ nat_beq d c
beq_sym c d = ground arith

text_beq_sym : (s t : Text) → text_beq s t ≡ text_beq t s
unfolding text_beq
text_beq_sym [] [] = refl
text_beq_sym [] (d ∷ t) = refl
text_beq_sym (c ∷ s) [] = refl
text_beq_sym (c ∷ s) (d ∷ t) = rw (beq_sym c d, text_beq_sym s t) refl

factor : (x a b : Bool) → (x && a) || (x && b) ≡ x && (a || b)
factor true a b = refl
factor false a b = refl

owns-cons :
    (c p : ℕ) (path prefix : Text) → owns (c ∷ path) (p ∷ prefix) ≡ nat_beq p c && owns path prefix
unfolding owns text_beq starts_with
owns-cons c p path prefix =
    rw (beq_sym c p)
      (factor (nat_beq p c) (text_beq path prefix) (starts_with (with_slash prefix) path))

factor3 : (x a b c : Bool) → (x && a) || ((x && b) || (x && c)) ≡ x && (a || (b || c))
factor3 true a b c = refl
factor3 false a b c = refl

overlaps-cons : (p q : ℕ) (a b : Text) → overlaps (p ∷ a) (q ∷ b) ≡ nat_beq p q && overlaps a b
unfolding overlaps text_beq starts_with
overlaps-cons p q a b = rw (beq_sym q p) (
    factor3 (nat_beq p q) (text_beq a b) (starts_with (with_slash b) a)
      (starts_with (with_slash a) b))

or_swap : (a b c : Bool) → a || (b || c) ≡ a || (c || b)
or_swap true b c = refl
or_swap false true true = refl
or_swap false true false = refl
or_swap false false true = refl
or_swap false false false = refl

overlaps_sym : (a b : Text) → overlaps a b ≡ overlaps b a
unfolding overlaps
overlaps_sym a b =
    rw (text_beq_sym a b)
      (or_swap (text_beq b a) (starts_with (with_slash b) a) (starts_with (with_slash a) b))

same_start :
    (c q : ℕ) → nat_beq q c ≡ true → nat_beq b'/' c && true ≡ true → nat_beq b'/' q && true ≡ true
same_start c q h h' = ground arith

root-overlaps :
    (c q : ℕ) (path b : Text)
    → owns (c ∷ path) [] ≡ true
    → nat_beq q c ≡ true
    → overlaps [] (q ∷ b) ≡ true
unfolding owns overlaps text_beq starts_with
root-overlaps c q path b h e = same_start c q e h

-- Two prefixes that own one path overlap.
owns-overlaps : (path a b : Text) → owns path a ≡ true → owns path b ≡ true → overlaps a b ≡ true
owns-overlaps path [] [] ha hb = unfold overlaps text_beq in refl
owns-overlaps [] [] (q ∷ b) ha hb = unfold owns text_beq starts_with in cc
owns-overlaps [] (p ∷ a) b ha hb = unfold owns text_beq starts_with in cc
owns-overlaps (c ∷ path) [] (q ∷ b) ha hb =
    root-overlaps c q path b ha
      (and_parts (nat_beq q c) (owns path b) (sym (owns-cons c q path b) ∙ hb)).0
owns-overlaps (c ∷ path) (p ∷ a) [] ha hb =
    overlaps_sym (p ∷ a) []
    ∙ root-overlaps c p path a hb
        (and_parts (nat_beq p c) (owns path a) (sym (owns-cons c p path a) ∙ ha)).0
owns-overlaps (c ∷ path) (p ∷ a) (q ∷ b) ha hb =
    let (ea, ha') = and_parts (nat_beq p c) (owns path a) (sym (owns-cons c p path a) ∙ ha) in
    let (eb, hb') = and_parts (nat_beq q c) (owns path b) (sym (owns-cons c q path b) ∙ hb) in
    let e = (nat_beq_iff p q).1 ((nat_beq_iff p c).0 ea ∙ sym ((nat_beq_iff q c).0 eb)) in
    overlaps-cons p q a b ∙ rw (e, owns-overlaps path a b ha' hb') refl

-- No two of the prefixes overlap.
abbrev pub IsApart : List Text → Type 0
IsApart [] = Unit
IsApart (p ∷ ps) = (any_overlap p ps ≡ false) × IsApart ps

or_exchange : (a b c : Bool) → a || (b || c) ≡ b || (a || c)
or_exchange true true c = refl
or_exchange true false c = refl
or_exchange false b c = refl

any_overlap-insert :
    (x p : Text) (xs ys : List Text)
    → any_overlap x (xs ++ (p ∷ ys)) ≡ overlaps x p || any_overlap x (xs ++ ys)
unfolding any_overlap
any_overlap-insert x p [] ys = refl
any_overlap-insert x p (y ∷ xs) ys =
    rw (any_overlap-insert x p xs ys)
      (or_exchange (overlaps x y) (overlaps x p) (any_overlap x (xs ++ ys)))

-- A prefix that overlaps with none may be put anywhere.
pub insert-IsApart :
    (p : Text) (xs ys : List Text)
    → IsApart (xs ++ ys)
    → any_overlap p (xs ++ ys) ≡ false
    → IsApart (xs ++ (p ∷ ys))
unfolding any_overlap
insert-IsApart p [] ys a h = (h, a)
insert-IsApart p (x ∷ xs) ys (hx, a) h =
    let (e, h') = parts in
    (any_overlap-insert x p xs ys ∙ rw (overlaps_sym x p ∙ e, hx) refl, insert-IsApart p xs ys a h')
  where
    parts : (overlaps p x ≡ false) × (any_overlap p (xs ++ ys) ≡ false)
    parts = or_parts (overlaps p x) (any_overlap p (xs ++ ys)) h

-- How many of the prefixes own the path.
abbrev pub owners : Text → List Text → ℕ
owners path [] = 0
owners path (p ∷ ps) = if owns path p then owners path ps + 1 else owners path ps

no_other :
    (path p : Text) (ps : List Text)
    → owns path p ≡ true
    → any_overlap p ps ≡ false
    → owners path ps ≡ 0
unfolding any_overlap
no_other path p [] ho h = refl
no_other path p (q ∷ ps) ho h =
    let (e, h') = or_parts (overlaps p q) (any_overlap p ps) h in
    elim (Bool-cases (owns path q)) [
      | inl t ↦ absurd (true-false (sym (owns-overlaps path p q ho t) ∙ e))
      | inr f ↦ rw f (no_other path p ps ho h')
    ]
  where
    true-false : true ≡ false → ⊥
    true-false e = cc

pub owners-le : (path : Text) (ps : List Text) → IsApart ps → owners path ps ≤ 1
owners-le path [] a = omega arith
owners-le path (p ∷ ps) (h, a) = elim (Bool-cases (owns path p)) [
  | inl t ↦ rw t (omega (arith, no_other path p ps t h))
  | inr f ↦ rw f (owners-le path ps a)
]

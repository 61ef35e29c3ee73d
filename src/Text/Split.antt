-- ===== src/Text/Split.antt =====
-- `sep.join(parts)` and `s.split(sep)` for a separator of one code point.
use veloce.Prelude.{
  ℕ, ◌≡◌, ◌≢◌, refl, List, [], ◌∷◌, ◌++◌, if◌then◌else◌, ◌==◌, nat_eq, nat_beq_iff, nat_beq_self,
  All, all, not, true, arith, Bool-cases, inl, inr, nat_beq_ne,
}
use veloce.Text.{Text}

unfoldable pub join : ℕ → List Text → Text
join sep [] = []
join sep (p ∷ []) = p
join sep (p ∷ q ∷ ps) = p ++ (sep ∷ join sep (q ∷ ps))

-- The first part grows in front of the others.
abbrev pub push : ℕ → List Text → List Text
push c [] = (c ∷ []) ∷ []
push c (p ∷ ps) = (c ∷ p) ∷ ps

unfoldable pub split : ℕ → Text → List Text
split sep [] = [] ∷ []
split sep (c ∷ s) = let rest = split sep s in if c == sep then [] ∷ rest else push c rest

abbrev pub Lacks : ℕ → Text → Type 0
Lacks b = All (λ c. c ≢ b)

join-push : (sep c : ℕ) (ps : List Text) → ps ≢ [] → join sep (push c ps) ≡ c ∷ join sep ps
unfolding join
join-push sep c [] h = absurd (h refl)
join-push sep c (p ∷ []) h = refl
join-push sep c (p ∷ q ∷ ps) h = refl

pub push-ne-nil : (c : ℕ) (ps : List Text) → push c ps ≢ []
push-ne-nil c [] = λ e. cc
push-ne-nil c (p ∷ ps) = λ e. cc

pub push-append : (c : ℕ) (ps qs : List Text) → ps ≢ [] → push c (ps ++ qs) ≡ push c ps ++ qs
push-append c [] qs h = absurd (h refl)
push-append c (p ∷ ps) qs h = refl

pub split-ne-nil : (sep : ℕ) (s : Text) → split sep s ≢ []
unfolding split
split-ne-nil sep [] = λ e. cc
split-ne-nil sep (c ∷ s) = elim (Bool-cases (c == sep)) [
  | inl t ↦ rw t (λ e. cc)
  | inr f ↦ rw f (push-ne-nil c (split sep s))
]

join-cons-nil : (sep : ℕ) (ps : List Text) → ps ≢ [] → join sep ([] ∷ ps) ≡ sep ∷ join sep ps
unfolding join
join-cons-nil sep [] h = absurd (h refl)
join-cons-nil sep (p ∷ ps) h = refl

-- Joining what was split gives the text back.
pub join-split : (sep : ℕ) (s : Text) → join sep (split sep s) ≡ s
unfolding split
join-split sep [] = unfold join in refl
join-split sep (c ∷ s) = ground (
  arith,
  join-split sep s,
  join-push sep c (split sep s),
  join-cons-nil sep (split sep s),
  split-ne-nil sep s,
  nat_beq_iff c sep,
)

Lacks-push :
    (sep c : ℕ) (ps : List Text) → c ≢ sep → All (Lacks sep) ps → All (Lacks sep) (push c ps)
Lacks-push sep c [] h a = ((h, tt), tt)
Lacks-push sep c (p ∷ ps) h (a, as_) = ((h, a), as_)

-- No part holds the separator.
pub split-Lacks : (sep : ℕ) (s : Text) → All (Lacks sep) (split sep s)
unfolding split
split-Lacks sep [] = (tt, tt)
split-Lacks sep (c ∷ s) = elim (Bool-cases (c == sep)) [
  | inl t ↦ rw t (tt, split-Lacks sep s)
  | inr f ↦
      rw f
        (Lacks-push sep c (split sep s) (λ e. cc (f, (nat_beq_iff c sep).1 e)) (split-Lacks sep s))
]

-- A text that lacks the separator is one part; in front of a separator it is the first part.
pub split_of_Lacks : (sep : ℕ) (p : Text) → Lacks sep p → split sep p ≡ p ∷ []
unfolding split
split_of_Lacks sep [] h = refl
split_of_Lacks sep (c ∷ p) (h, hs) = rw (split_of_Lacks sep p hs, nat_beq_ne c sep h) refl

pub split-append :
    (sep : ℕ) (p s : Text) → Lacks sep p → split sep (p ++ (sep ∷ s)) ≡ p ∷ split sep s
unfolding split
split-append sep [] s h = rw nat_beq_self refl
split-append sep (c ∷ p) s (h, hs) = rw (split-append sep p s hs, nat_beq_ne c sep h) refl

-- Splitting what was joined gives the parts back, if they lack the separator.
pub split-join :
    (sep : ℕ) (p : Text) (ps : List Text)
    → Lacks sep p
    → All (Lacks sep) ps
    → split sep (join sep (p ∷ ps)) ≡ p ∷ ps
unfolding join
split-join sep p [] h hs = split_of_Lacks sep p h
split-join sep p (q ∷ ps) h (hq, hs) =
    rw (split-append sep p (join sep (q ∷ ps)) h, split-join sep q ps hq hs) refl

pub all-Lacks : (b : ℕ) (s : Text) → all (λ c. not (c == b)) s ≡ true → Lacks b s
all-Lacks b [] h = tt
all-Lacks b (c ∷ s) h = (ground (arith, nat_beq_iff c b), all-Lacks b s (ground arith))

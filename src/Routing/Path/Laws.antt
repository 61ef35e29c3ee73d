-- ===== src/Routing/Path/Laws.antt =====
-- Lemmas on `_cached_split_path` of src/veloce/routing/router.py: the segments and the path.
use veloce.Prelude.{
  ℕ, suc, ◌-◌, ◌≡◌, ◌≢◌, refl, ap, Bool, true, false, not, ◌&&◌, List, [], ◌∷◌, ◌++◌, ltb, length,
  take, drop, get_or, if◌then◌else◌, ◌==◌, arith, Bool-cases, inl, inr, take-length, lt→ltb, ◌||◌,
  sym, ◌∙◌, nat_eq, All,
}
use mathlib.Core.List.{append_assoc, append-nil}
use veloce.Text.{Text, text_eq, text_beq, text_beq_iff}
use veloce.Text.Split.{split, join, split-ne-nil, split-Lacks, join-split, split-join, Lacks, push}
use veloce.Routing.Path.{slash, split_path, ends_with_slash, has_trailing_slash}

-- The last part is empty, and the parts before it.
unfoldable pub last_empty : List Text → Bool
last_empty [] = false
last_empty (p ∷ []) = p == []
last_empty (p ∷ q ∷ ps) = last_empty (q ∷ ps)

init : List Text → List Text
init [] = []
init (p ∷ []) = []
init (p ∷ q ∷ ps) = p ∷ init (q ∷ ps)

last_empty-get_or :
    (p : Text) (ps : List Text) → (get_or (p ∷ ps) (length ps) [] == []) ≡ last_empty (p ∷ ps)
unfolding last_empty
last_empty-get_or p [] = refl
last_empty-get_or p (q ∷ ps) = last_empty-get_or q ps

init-take : (p : Text) (ps : List Text) → take (length ps) (p ∷ ps) ≡ init (p ∷ ps)
unfolding init
init-take p [] = refl
init-take p (q ∷ ps) = ap (◌∷◌ p) (init-take q ps)

-- The segments of an absolute path, read off the parts of what follows its first slash.
segments_of : List Text → List Text
segments_of ps = if last_empty ps then init ps else ps

split_parts :
    (p : Text) (ps : List Text)
    → let parts = [] ∷ p ∷ ps in
      let n = length parts in
      drop 1 (take (if ltb 1 n && get_or parts (n - 1) [] == [] then n - 1 else n) parts)
      ≡ segments_of (p ∷ ps)
unfolding segments_of
split_parts p ps =
    let e : suc (suc (length ps)) - 1 ≡ suc (length ps) = omega arith in
    let t : ltb 1 (suc (suc (length ps))) ≡ true = lt→ltb _ _ (omega arith) in
    rw (e, t)
      (elim (Bool-cases (last_empty (p ∷ ps))) [
        | inl l ↦ rw (last_empty-get_or p ps, l) (init-take p ps)
        | inr f ↦ rw (last_empty-get_or p ps, f) (take-length (p ∷ ps))
      ])

split_path-absolute : (s : Text) → split_path (slash ∷ s) ≡ segments_of (split slash s)
unfolding split_path split text_beq
split_path-absolute s = go (split slash s) (split-ne-nil slash s)
  where
    go :
        (ps : List Text)
        → ps ≢ []
        → let parts = [] ∷ ps in
          let n = length parts in
          drop
            (if ltb 0 n && text_beq [] [] then 1 else 0)
            (take (if ltb 1 n && text_beq (get_or parts (n - 1) []) [] then n - 1 else n) parts)
          ≡ segments_of ps
    go [] h = absurd (h refl)
    go (p ∷ ps) h = rw (lt→ltb 0 (suc (suc (length ps))) (omega arith)) (split_parts p ps)

last_empty-push :
    (c d : ℕ) (t : Text) (ps : List Text)
    → ps ≢ []
    → join slash ps ≡ d ∷ t
    → last_empty (push c ps) ≡ last_empty ps
unfolding last_empty join text_beq
last_empty-push c d t [] h e = absurd (h refl)
last_empty-push c d t (p ∷ []) h e = rw e refl
last_empty-push c d t (p ∷ q ∷ ps) h e = refl

last_empty-cons : (p : Text) (ps : List Text) → ps ≢ [] → last_empty (p ∷ ps) ≡ last_empty ps
unfolding last_empty
last_empty-cons p [] h = absurd (h refl)
last_empty-cons p (q ∷ ps) h = refl

-- The last part of a text is empty exactly if the text is empty or ends with a slash.
last_empty-split : (s : Text) → last_empty (split slash s) ≡ (s == [] || ends_with_slash s)
unfolding split ends_with_slash text_beq
last_empty-split [] = unfold last_empty in refl
last_empty-split (c ∷ []) = unfold last_empty in ground arith
last_empty-split (c ∷ d ∷ t) = elim (Bool-cases (c == slash)) [
  | inl e ↦ rw e (
      last_empty-cons [] (split slash (d ∷ t)) (split-ne-nil slash (d ∷ t))
      ∙ last_empty-split (d ∷ t))
  | inr n ↦ rw n (
      last_empty-push c d t (split slash (d ∷ t)) (split-ne-nil slash (d ∷ t))
        (join-split slash (d ∷ t))
      ∙ last_empty-split (d ∷ t))
]

join-init :
    (p : Text) (ps : List Text)
    → last_empty ps ≡ true
    → join slash (init (p ∷ ps)) ++ (slash ∷ []) ≡ join slash (p ∷ ps)
unfolding last_empty init join
join-init p [] h = cc
join-init p (q ∷ []) h = ap (λ (t : Text). p ++ (slash ∷ t)) (sym ((text_beq_iff q []).0 h))
join-init p (q ∷ r ∷ ps) h =
    append_assoc p (slash ∷ join slash (init (q ∷ r ∷ ps))) (slash ∷ [])
    ∙ ap (λ (t : Text). p ++ (slash ∷ t)) (join-init q (r ∷ ps) h)

-- What `split_path` drops at the end of an absolute path.
abbrev pub tail_of : Text → Text
tail_of path = if has_trailing_slash path then slash ∷ [] else []

join-ne-nil : (p q : Text) (ps : List Text) → (join slash (p ∷ q ∷ ps) == []) ≡ false
unfolding join text_beq
join-ne-nil [] q ps = refl
join-ne-nil (c ∷ p) q ps = refl

join-segments_of :
    (ps : List Text)
    → ps ≢ []
    → join slash (segments_of ps)
        ++ (if last_empty ps && not (join slash ps == []) then slash ∷ [] else [])
      ≡ join slash ps
unfolding segments_of last_empty init join text_beq
join-segments_of [] h = absurd (h refl)
join-segments_of (p ∷ []) h = elim (Bool-cases (p == [])) [
  | inl t ↦ rw ((text_beq_iff p []).0 t) refl
  | inr f ↦ unfold last_empty join in rw f (append-nil p)
]
join-segments_of (p ∷ q ∷ ps) h = elim (Bool-cases (last_empty (q ∷ ps))) [
  | inl t ↦ unfold last_empty in rw (t, join-ne-nil p q ps) (join-init p (q ∷ ps) t)
  | inr f ↦ unfold last_empty in rw f (append-nil (join slash (p ∷ q ∷ ps)))
]

trailing_cases :
    (s : Text) → has_trailing_slash (slash ∷ s) ≡ (s == [] || ends_with_slash s) && not (s == [])
unfolding has_trailing_slash ends_with_slash text_beq
trailing_cases [] = refl
trailing_cases (c ∷ s) = ground arith

-- An absolute path is its segments behind slashes, and its trailing slash; so no empty segment is
-- lost, and two paths with the same segments differ in a trailing slash at most.
pub join-split_path :
    (s : Text)
    → let path = slash ∷ s in path ≡ slash ∷ (join slash (split_path path) ++ tail_of path)
join-split_path s =
    let e = join-segments_of (split slash s) (split-ne-nil slash s) in
    rw (split_path-absolute s, trailing_cases s, ← last_empty-split s)
      (ap (◌∷◌ slash) (sym (rw (join-split slash s) at e)))

-- Segments behind slashes, as the tree spells the path of a node.
unfoldable pub render : List Text → Text
render [] = []
render (s ∷ segs) = slash ∷ (s ++ render segs)

render-join : (s : Text) (segs : List Text) → render (s ∷ segs) ≡ slash ∷ join slash (s ∷ segs)
unfolding render join
render-join s [] = ap (◌∷◌ slash) (append-nil s)
render-join s (t ∷ segs) = ap (λ (x : Text). slash ∷ (s ++ x)) (render-join t segs)

abbrev pub or_root : Text → Text
or_root [] = slash ∷ []
or_root (c ∷ s) = c ∷ s

-- The path of a literal node walks to it and has no trailing slash, if its last segment is not empty.
pub split_path-render :
    (segs : List Text)
    → All (Lacks slash) segs
    → last_empty segs ≡ false
    → (split_path (or_root (render segs)) ≡ segs)
      × (has_trailing_slash (or_root (render segs)) ≡ false)
split_path-render [] a h =
    unfold split_path split has_trailing_slash render text_beq in (refl, refl)
split_path-render (s ∷ segs) (hs, a) h =
    let e = split-join slash s segs hs a in
    let path = join slash (s ∷ segs) in
    rw (render-join s segs) (
      split_path-absolute path ∙ ap segments_of e ∙ unfold segments_of in rw h refl,
      trailing_cases path
          ∙ ap (λ b. b && not (path == [])) (sym (last_empty-split path) ∙ ap last_empty e ∙ h),
    )

-- If the last segment of an absolute path is empty, the path has a trailing slash.
pub trailing_of_last_empty :
    (s : Text) → last_empty (split_path (slash ∷ s)) ≡ true → has_trailing_slash (slash ∷ s) ≡ true
trailing_of_last_empty s h =
    let h' : last_empty (segments_of (split slash s)) ≡ true =
      ap last_empty (sym (split_path-absolute s)) ∙ h in
    rw (trailing_cases s, ← last_empty-split s)
      (elim (Bool-cases (last_empty (split slash s))) [
        | inl t ↦ elim (Bool-cases (s == [])) [
          | inl e ↦
              let e' = (text_beq_iff s []).0 e in
              let k : last_empty (segments_of (split slash [])) ≡ true =
                ap (λ (x : Text). last_empty (segments_of (split slash x))) (sym e') ∙ h' in
              unfold last_empty segments_of split init text_beq in cc k
          | inr f ↦ rw (t, f) refl
        ]
        | inr f ↦ unfold segments_of in let k = rw f at h' in cc (k, f)
      ])

All-init : (b : ℕ) (ps : List Text) → All (Lacks b) ps → All (Lacks b) (init ps)
unfolding init
All-init b [] a = tt
All-init b (p ∷ []) a = tt
All-init b (p ∷ q ∷ ps) (h, a) = (h, All-init b (q ∷ ps) a)

-- No segment of an absolute path holds a slash.
pub split_path-Lacks : (s : Text) → All (Lacks slash) (split_path (slash ∷ s))
split_path-Lacks s = rw (split_path-absolute s) (elim (Bool-cases (last_empty (split slash s))) [
  | inl t ↦ unfold segments_of in rw t (All-init slash (split slash s) (split-Lacks slash s))
  | inr f ↦ unfold segments_of in rw f (split-Lacks slash s)
])

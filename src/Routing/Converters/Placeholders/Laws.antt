-- ===== src/Routing/Converters/Placeholders/Laws.antt =====
-- What `_iter_placeholders` of src/veloce/routing/converters.py finds in a template.
use mathlib.Core.List.{append_assoc, append-nil}
use veloce.Prelude.{
  ℕ, suc, ◌+◌, ◌-◌, ◌≡◌, ◌≢◌, refl, ap, sym, ◌∙◌, true, false, Option, none, some, List, [], ◌∷◌,
  ◌++◌, nat_eq, nat_beq, ◌==◌, length, length-append, Bool-cases, inl, inr, arith, or_parts, All,
}
use veloce.Text.{Text}
use veloce.Text.Strip.{has_char, partition}
use veloce.Routing.Converters.Placeholders.{
  Placeholder, found, outside, inside, scan, iter_placeholders,
}

-- A text whose braces are balanced.
pub data IsBalanced : Text → Type 0 where
  no_char : IsBalanced []
  char : (c : ℕ) {s : Text} → c ≢ b'{' → c ≢ b'}' → IsBalanced s → IsBalanced (c ∷ s)
  nest :
      {inner s : Text} → IsBalanced inner → IsBalanced s → IsBalanced (b'{' ∷ (inner ++ (b'}' ∷ s)))

-- A placeholder of a template, with the text in front of it.
pub record Part : Type 0 where
  pub before : Text
  pub name : Text
  pub spec : Option Text

-- What stands between the braces.
abbrev pub inner_of : Text → Option Text → Text
inner_of name none = name
inner_of name (some spec) = name ++ (b':' ∷ spec)

-- The template of the parts, and of the text behind the last of them.
abbrev pub written : List Part → Text → Text
written [] tail = tail
written (p ∷ ps) tail = p.before ++ (b'{' ∷ (inner_of p.name p.spec ++ (b'}' ∷ written ps tail)))

-- No brace is opened before a placeholder; its name has no colon, and its braces are balanced.
abbrev pub IsPart : Part → Type 0
IsPart p =
    (has_char b'{' p.before ≡ false)
    × (has_char b':' p.name ≡ false)
    × IsBalanced (inner_of p.name p.spec)

-- The placeholders of the parts, where they stand from `i` on.
abbrev pub placed : ℕ → List Part → List Placeholder
placed i [] = []
placed i (p ∷ ps) =
    let start = i + length p.before in
    let end = start + length (inner_of p.name p.spec) + 2 in
    record { start = start; end = end; name = p.name; spec = p.spec } ∷ placed end ps

partition-Lacks : (c : ℕ) (s : Text) → has_char c s ≡ false → (partition c s).0 ≡ s
unfolding partition has_char
partition-Lacks c [] h = refl
partition-Lacks c (d ∷ s) h = elim (Bool-cases (d == c)) [
  | inl t ↦ ground (arith)
  | inr f ↦ rw f (ap (◌∷◌ d) (partition-Lacks c s (ground arith)))
]

partition-colon :
    (c : ℕ) (s t : Text)
    → has_char c s ≡ false
    → (partition c (s ++ (c ∷ t)) ≡ (s, t)) × (has_char c (s ++ (c ∷ t)) ≡ true)
unfolding partition has_char
partition-colon c [] t h = let e : (c == c) ≡ true = ground arith in rw e (refl, refl)
partition-colon c (d ∷ s) t h =
    let (n, h') = or_parts (d == c) (has_char c s) h in
    let (e, e') = partition-colon c s t h' in rw (n, e, e') (refl, refl)

-- What is found in the braces is the name and the spec.
found-inner_of :
    (start end : ℕ) (name : Text) (spec : Option Text)
    → has_char b':' name ≡ false
    → found start end (inner_of name spec)
      ≡ record { start = start; end = end; name = name; spec = spec }
found-inner_of start end name none h = rw (h, partition-Lacks b':' name h) refl
found-inner_of start end name (some spec) h =
    let (e, e') = partition-colon b':' name spec h in rw (e', e) refl

inside-eq :
    (i i' start depth : ℕ) (acc acc' s : Text)
    → i ≡ i'
    → acc ≡ acc'
    → scan i (inside start depth acc) s ≡ scan i' (inside start depth acc') s
inside-eq i i' start depth acc acc' s e e' = rw (e, e') refl

scan-char :
    (i start depth c : ℕ) (acc s : Text)
    → c ≢ b'{'
    → c ≢ b'}'
    → scan i (inside start depth acc) (c ∷ s)
      ≡ scan (suc i) (inside start depth (acc ++ (c ∷ []))) s
unfolding scan
scan-char i start depth c acc s n n' =
    let e : (c == b'{') ≡ false = ground arith in
    let e' : (c == b'}') ≡ false = ground arith in rw (e, e') refl

scan-deeper :
    (i start depth : ℕ) (acc s : Text)
    → scan i (inside start depth acc) (b'{' ∷ s)
      ≡ scan (suc i) (inside start (suc depth) (acc ++ (b'{' ∷ []))) s
unfolding scan
scan-deeper i start depth acc s = refl

scan-shallower :
    (i start depth : ℕ) (acc s : Text)
    → scan i (inside start (suc (suc depth)) acc) (b'}' ∷ s)
      ≡ scan (suc i) (inside start (suc depth) (acc ++ (b'}' ∷ []))) s
unfolding scan
scan-shallower i start depth acc s =
    let e : nat_beq (suc (suc depth)) 1 ≡ false = ground arith in
    let e' : suc (suc depth) - 1 ≡ suc depth = omega arith in rw (e, e') refl

-- A text with balanced braces goes into the placeholder as it is.
scan-balanced :
    {t : Text}
    → IsBalanced t
    → (i start depth : ℕ) (acc rest : Text)
    → scan i (inside start (suc depth) acc) (t ++ rest)
      ≡ scan (i + length t) (inside start (suc depth) (acc ++ t)) rest
scan-balanced no_char i start depth acc rest =
    inside-eq i _ start (suc depth) acc _ rest (omega arith) (sym (append-nil acc))
scan-balanced (char c {s} n n' b) i start depth acc rest =
    scan-char i start (suc depth) c acc (s ++ rest) n n'
    ∙ scan-balanced b (suc i) start depth (acc ++ (c ∷ [])) rest
    ∙ inside-eq _ _ start (suc depth) _ _ rest (omega arith) (append_assoc acc (c ∷ []) s)
scan-balanced (nest {inner} {s} b b') i start depth acc rest =
    let opened = acc ++ (b'{' ∷ []) in
    let closed = (opened ++ inner) ++ (b'}' ∷ []) in
    ap (λ u. scan i (inside start (suc depth) acc) (b'{' ∷ u)) (append_assoc inner (b'}' ∷ s) rest)
    ∙ scan-deeper i start (suc depth) acc (inner ++ (b'}' ∷ (s ++ rest)))
    ∙ scan-balanced b (suc i) start (suc depth) opened (b'}' ∷ (s ++ rest))
    ∙ scan-shallower (suc i + length inner) start depth (opened ++ inner) (s ++ rest)
    ∙ scan-balanced b' (suc (suc i + length inner)) start depth closed rest
    ∙ inside-eq _ _ start (suc depth) _ _ rest (omega (arith, length-append inner (b'}' ∷ s))) (
        append_assoc (opened ++ inner) (b'}' ∷ []) s
        ∙ append_assoc opened inner (b'}' ∷ s)
        ∙ append_assoc acc (b'{' ∷ []) (inner ++ (b'}' ∷ s)))

scan-closed :
    (i start : ℕ) (inner s : Text)
    → scan i (inside start 1 inner) (b'}' ∷ s) ≡ found start (suc i) inner ∷ scan (suc i) outside s
unfolding scan
scan-closed i start inner s = refl

scan-opened : (i : ℕ) (s : Text) → scan i outside (b'{' ∷ s) ≡ scan (suc i) (inside i 1 []) s
unfolding scan
scan-opened i s = refl

scan-before :
    (i : ℕ) (t rest : Text)
    → has_char b'{' t ≡ false
    → scan i outside (t ++ rest) ≡ scan (i + length t) outside rest
unfolding scan has_char
scan-before i [] rest h = let e : i + 0 ≡ i = omega arith in rw e refl
scan-before i (c ∷ t) rest h =
    let (n, h') = or_parts (c == b'{') (has_char b'{' t) h in
    let e : suc i + length t ≡ i + suc (length t) = omega arith in
    rw n (scan-before (suc i) t rest h' ∙ ap (λ j. scan j outside rest) e)

-- One placeholder, and what stands in front of it.
scan-part :
    (i : ℕ) (p : Part) (rest : Text)
    → IsPart p
    → let start = i + length p.before in
      let end = start + length (inner_of p.name p.spec) + 2 in
      scan i outside (p.before ++ (b'{' ∷ (inner_of p.name p.spec ++ (b'}' ∷ rest))))
      ≡ record { start = start; end = end; name = p.name; spec = p.spec } ∷ scan end outside rest
scan-part i p rest (hb, hn, b) =
    let start = i + length p.before in
    let inner = inner_of p.name p.spec in
    let e : suc (suc start + length inner) ≡ start + length inner + 2 = omega arith in
    scan-before i p.before (b'{' ∷ (inner ++ (b'}' ∷ rest))) hb
    ∙ scan-opened start (inner ++ (b'}' ∷ rest))
    ∙ scan-balanced b (suc start) start 0 [] (b'}' ∷ rest)
    ∙ scan-closed (suc start + length inner) start inner rest
    ∙ rw (e, found-inner_of start (start + length inner + 2) p.name p.spec hn) refl

scan-written :
    (i : ℕ) (ps : List Part) (tail : Text)
    → All IsPart ps
    → has_char b'{' tail ≡ false
    → scan i outside (written ps tail) ≡ placed i ps
scan-written i [] tail h ht =
    ap (scan i outside) (sym (append-nil tail)) ∙ scan-before i tail [] ht ∙ unfold scan in refl
scan-written i (p ∷ ps) tail (h, hs) ht =
    let end = i + length p.before + length (inner_of p.name p.spec) + 2 in
    scan-part i p (written ps tail) h
    ∙ ap (◌∷◌ (record { start = i + length p.before; end = end; name = p.name; spec = p.spec }))
        (scan-written end ps tail hs ht)

-- In a template the placeholders are found where they stand, with their names and their specs, braces
-- within a spec included.
pub iter_placeholders-written :
    (ps : List Part) (tail : Text)
    → All IsPart ps
    → has_char b'{' tail ≡ false
    → iter_placeholders (written ps tail) ≡ placed 0 ps
unfolding iter_placeholders
iter_placeholders-written ps tail h ht = scan-written 0 ps tail h ht

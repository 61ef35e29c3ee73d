-- ===== src/Routing/Converters/RouteRegex/Laws.antt =====
-- What `build_route_regex` of src/veloce/routing/converters.py makes of a template.
use mathlib.Core.List.{append_assoc}
use veloce.Prelude.{
  ℕ, ◌+◌, ◌≡◌, refl, ap, sym, ◌∙◌, false, List, [], ◌∷◌, ◌++◌, length, take, drop, length-append,
  take-append_left, drop-append_left, All, arith,
}
use veloce.Text.{Text}
use veloce.Text.Strip.{has_char}
use veloce.Routing.Converters.Placeholders.Laws.{
  Part, inner_of, written, IsPart, placed, iter_placeholders-written,
}
use veloce.Routing.Converters.RouteRegex.{slice, emit_placeholder, emit_from, build_route_regex}

-- The positions of a placeholder cut out the text in front of it.
slice-between :
    (front before rest : Text)
    → slice (length front) (length front + length before) (front ++ (before ++ rest)) ≡ before
slice-between front before rest =
    ap (drop (length front)) (
      ap (λ (n : ℕ). take n (front ++ (before ++ rest))) (sym (length-append front before))
      ∙ ap (take (length (front ++ before))) (sym (append_assoc front before rest))
      ∙ take-append_left (front ++ before) rest)
    ∙ drop-append_left front before

module _ (escape : Text → Text) where
  -- The text between the placeholders escaped, and the placeholders emitted.
  abbrev pub regex_of : List Part → Text → Text
  regex_of [] tail = escape tail
  regex_of (p ∷ ps) tail =
      escape p.before ++ (emit_placeholder escape p.name p.spec ++ regex_of ps tail)

  emit_from-placed :
      (ps : List Part) (front tail : Text)
      → emit_from escape (length front) (front ++ written ps tail) (placed (length front) ps)
        ≡ regex_of ps tail
  unfolding emit_from
  emit_from-placed [] front tail = ap escape (drop-append_left front tail)
  emit_from-placed (p ∷ ps) front tail =
      let inner = inner_of p.name p.spec in
      let piece = p.before ++ (b'{' ∷ (inner ++ (b'}' ∷ []))) in
      let front' = front ++ piece in
      let end : length front + length p.before + length inner + 2 ≡ length front' = omega (
        arith,
        length-append front piece,
        length-append p.before (b'{' ∷ (inner ++ (b'}' ∷ []))),
        length-append inner (b'}' ∷ []),
      ) in
      let path : front ++ written (p ∷ ps) tail ≡ front' ++ written ps tail =
        ap (λ (t : Text). front ++ t)
          (ap (λ (t : Text). p.before ++ (b'{' ∷ t))
              (sym (append_assoc inner (b'}' ∷ []) (written ps tail)))
            ∙ sym (append_assoc p.before (b'{' ∷ (inner ++ (b'}' ∷ []))) (written ps tail)))
        ∙ sym (append_assoc front piece (written ps tail)) in
      let later : emit_from escape (length front + length p.before + length inner + 2)
            (front ++ written (p ∷ ps) tail)
            (placed (length front + length p.before + length inner + 2) ps)
          ≡ regex_of ps tail =
        rw (end, path) (emit_from-placed ps front' tail) in
      rw (slice-between front p.before (b'{' ∷ (inner ++ (b'}' ∷ written ps tail))), later) refl

  -- A template is compiled part by part: the text in front of each placeholder is escaped, the placeholder
  -- is emitted by its name and its spec, braces within the spec included, and the rest is escaped. No brace
  -- is opened outside a placeholder, names have no colon, and braces within a placeholder are balanced.
  pub build_route_regex-written :
      (ps : List Part) (tail : Text)
      → All IsPart ps
      → has_char b'{' tail ≡ false
      → build_route_regex escape (written ps tail) ≡ b'^' ∷ (regex_of ps tail ++ (b'$' ∷ []))
  unfolding build_route_regex
  build_route_regex-written ps tail h ht =
      rw (iter_placeholders-written ps tail h ht, emit_from-placed ps [] tail) refl

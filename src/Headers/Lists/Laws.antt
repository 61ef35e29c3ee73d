-- ===== src/Headers/Lists/Laws.antt =====
-- Lemmas on comma-separated lists.
use mathlib.Core.List.{map-append, append_assoc, append-nil}
use veloce.Prelude.{
  ℕ, ◌≡◌, ◌≢◌, refl, ap, sym, ◌∙◌, List, [], ◌∷◌, ◌++◌, map, nat_eq, ◌==◌, is_empty, Bool-cases,
  inl, inr, nat_beq_self,
}
use veloce.Text.{Text}
use veloce.Text.Split.{split, push, split-ne-nil, push-append}
use veloce.Text.Strip.{strip, lstrip}
use veloce.Headers.Lists.{join_values, non_empty, entries}

non_empty-append : (xs ys : List Text) → non_empty (xs ++ ys) ≡ non_empty xs ++ non_empty ys
unfolding non_empty
non_empty-append [] ys = refl
non_empty-append (x ∷ xs) ys = elim (Bool-cases (is_empty x)) [
  | inl t ↦ rw t (non_empty-append xs ys)
  | inr f ↦ rw f (ap (◌∷◌ x) (non_empty-append xs ys))
]

split-middle : (sep : ℕ) (a b : Text) → split sep (a ++ (sep ∷ b)) ≡ split sep a ++ split sep b
unfolding split
split-middle sep [] b = rw nat_beq_self refl
split-middle sep (c ∷ a) b = elim (Bool-cases (c == sep)) [
  | inl t ↦ rw t (ap (◌∷◌ []) (split-middle sep a b))
  | inr f ↦
      rw (f, split-middle sep a b) (push-append c (split sep a) (split sep b) (split-ne-nil sep a))
]

entries-middle : (a b : Text) → entries (a ++ (b',' ∷ b)) ≡ entries a ++ entries b
unfolding entries
entries-middle a b =
    rw (split-middle b',' a b, map-append strip (split b',' a) (split b',' b))
      (non_empty-append (map strip (split b',' a)) (map strip (split b',' b)))

map-strip-push : (ps : List Text) → ps ≢ [] → map strip (push b' ' ps) ≡ map strip ps
unfolding strip lstrip
map-strip-push [] h = absurd (h refl)
map-strip-push (p ∷ ps) h = refl

entries-space : (b : Text) → entries (b' ' ∷ b) ≡ entries b
unfolding entries split
entries-space b = rw (map-strip-push (split b',' b) (split-ne-nil b',' b)) refl

-- The entries of all field lines.
abbrev pub all_entries : List Text → List Text
all_entries [] = []
all_entries (v ∷ vs) = entries v ++ all_entries vs

pub entries-join_values :
    (v : Text) (vs : List Text) → entries (join_values (v ∷ vs)) ≡ all_entries (v ∷ vs)
unfolding join_values
entries-join_values v [] = sym (append-nil (entries v))
entries-join_values v (w ∷ vs) =
    entries-middle v (b' ' ∷ join_values (w ∷ vs))
    ∙ ap (λ (es : List Text). entries v ++ es)
        (entries-space (join_values (w ∷ vs)) ∙ entries-join_values w vs)

pub all_entries-append :
    (xs ys : List Text) → all_entries (xs ++ ys) ≡ all_entries xs ++ all_entries ys
all_entries-append [] ys = refl
all_entries-append (x ∷ xs) ys =
    rw (all_entries-append xs ys) (sym (append_assoc (entries x) (all_entries xs) (all_entries ys)))

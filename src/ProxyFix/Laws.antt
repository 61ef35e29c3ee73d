-- ===== src/ProxyFix/Laws.antt =====
-- Lemmas on `ProxyFix` of src/veloce/middleware/proxy_fix.py: what someone in front of the trusted
-- proxies can change.
use mathlib.Core.List.{map-append}
use veloce.Prelude.{get_elem?}
use veloce.Prelude.{
  ℕ, suc, ◌+◌, ◌-◌, ◌≤◌, ◌≡◌, refl, ap, sym, ◌∙◌, false, none, some, List, [], ◌∷◌, ◌++◌, map,
  nat_eq, length, is_empty, length-append, Bool-cases, inl, inr, ◌⊎◌, arith,
}
use veloce.Text.{Text}
use veloce.Text.Split.{split, Lacks}
use veloce.Text.Strip.{strip, lstrip, rstrip}
use veloce.Headers.Lists.{join_values, entries, non_empty}
use veloce.Headers.Lists.Laws.{all_entries, entries-join_values, all_entries-append}
use veloce.Headers.Quoted.{split_outside_quotes_checked, backslash}
use veloce.Headers.Quoted.Front.{split-front}
use veloce.ProxyFix.{
  Headers, x_forwarded_for, x_forwarded_proto, x_forwarded_host, x_forwarded_port,
  x_forwarded_prefix, ProxyFix, hop_header, from_right, pick_hop, elements_of, no_directives,
  select, select_all, parse_forwarded, parse_forwarded_element, pick, process_request,
}

get_elem?-append {ℓ} :
    {A : Type ℓ} (xs ys : List A) (i : ℕ) → get_elem? (xs ++ ys) (length xs + i) ≡ get_elem? ys i
get_elem?-append [] ys i = ap (get_elem? ys) (omega arith)
get_elem?-append (x ∷ xs) ys i =
    let e : suc (length xs) + i ≡ suc (length xs + i) = omega arith in
    rw e (get_elem?-append xs ys i)

-- What stands in front of enough entries is not counted.
from_right-append :
    {A : Type 0} (xs ys : List A) (hops : ℕ)
    → hops ≤ length ys
    → from_right (xs ++ ys) hops ≡ from_right ys hops
unfolding from_right
from_right-append xs ys hops h =
    let e : length xs + length ys - hops ≡ length xs + (length ys - hops) = omega arith in
    rw (length-append xs ys, e, get_elem?-append xs ys (length ys - hops)) (ground arith)

from_right-nil : {A : Type 0} (hops : ℕ) → from_right {A = A} [] hops ≡ none
unfolding from_right
from_right-nil hops = ground arith

pick_hop-entries : (v : Text) (hops : ℕ) → pick_hop (some v) hops ≡ from_right (entries v) hops
unfolding pick_hop
pick_hop-entries [] hops =
    unfold entries split strip lstrip rstrip non_empty in sym (from_right-nil hops)
pick_hop-entries (c ∷ v) hops = refl

pick_hop-lines :
    (lines : List Text) (hops : ℕ)
    → pick_hop (hop_header lines) hops ≡ from_right (all_entries lines) hops
unfolding hop_header
pick_hop-lines [] hops = unfold pick_hop in sym (from_right-nil hops)
pick_hop-lines (v ∷ vs) hops =
    pick_hop-entries (join_values (v ∷ vs)) hops
    ∙ ap (λ (es : List Text). from_right es hops) (entries-join_values v vs)

pick_hop-front :
    (front lines : List Text) (hops : ℕ)
    → hops ≤ length (all_entries lines)
    → pick_hop (hop_header (front ++ lines)) hops ≡ pick_hop (hop_header lines) hops
pick_hop-front front lines hops h =
    rw
      (
        pick_hop-lines (front ++ lines) hops,
        pick_hop-lines lines hops,
        all_entries-append front lines,
      )
      (from_right-append (all_entries front) (all_entries lines) hops h)

-- The trusted proxies have added as many entries to each header as are counted.
abbrev pub IsCovered : ProxyFix → Headers → Type 0
IsCovered p h =
    (p.x_for ≤ length (all_entries (h x_forwarded_for)))
    × (p.x_proto ≤ length (all_entries (h x_forwarded_proto)))
    × (p.x_host ≤ length (all_entries (h x_forwarded_host)))
    × (p.x_port ≤ length (all_entries (h x_forwarded_port)))
    × (p.x_prefix ≤ length (all_entries (h x_forwarded_prefix)))

-- Where `Forwarded` is not trusted and the proxies have added as many entries as are counted, field
-- lines that a client sends in front of theirs change nothing of what is written to the request.
pub process_request-front :
    (p : ProxyFix) (front h : Headers)
    → p.trust_forwarded ≡ false
    → IsCovered p h
    → process_request p (λ n. front n ++ h n) ≡ process_request p h
unfolding process_request pick
process_request-front p front h no_forwarded (a, b, c, d, e) =
    rw
      (
        no_forwarded,
        pick_hop-front (front x_forwarded_for) (h x_forwarded_for) p.x_for a,
        pick_hop-front (front x_forwarded_proto) (h x_forwarded_proto) p.x_proto b,
        pick_hop-front (front x_forwarded_host) (h x_forwarded_host) p.x_host c,
        pick_hop-front (front x_forwarded_port) (h x_forwarded_port) p.x_port d,
        pick_hop-front (front x_forwarded_prefix) (h x_forwarded_prefix) p.x_prefix e,
      )
      refl

elements_of-append : (xs ys : List Text) → elements_of (xs ++ ys) ≡ elements_of xs ++ elements_of ys
unfolding elements_of
elements_of-append [] ys = refl
elements_of-append (x ∷ xs) ys = elim (Bool-cases (is_empty (strip x))) [
  | inl t ↦ rw t (elements_of-append xs ys)
  | inr f ↦ rw f (ap (◌∷◌ x) (elements_of-append xs ys))
]

length-map {ℓ κ} :
    {A : Type ℓ} {B : Type κ} (f : A → B) (xs : List A) → length (map f xs) ≡ length xs
length-map f [] = refl
length-map f (x ∷ xs) = ap suc (length-map f xs)

-- Every directive is read within the last `n` elements.
abbrev pub IsWithin : ProxyFix → ℕ → Type 0
IsWithin p n = (p.x_for ≤ n) × (p.x_proto ≤ n) × (p.x_host ≤ n) × (p.x_prefix ≤ n)

select_all-append :
    (p : ProxyFix) (xs ys : List Text)
    → IsWithin p (length ys)
    → select_all p (map parse_forwarded_element (xs ++ ys))
      ≡ select_all p (map parse_forwarded_element ys)
unfolding select_all select
select_all-append p xs ys (a, b, c, d) =
    let f = parse_forwarded_element in
    let l = length-map f ys in
    rw
      (
        map-append f xs ys,
        from_right-append (map f xs) (map f ys) p.x_for (omega (arith, l)),
        from_right-append (map f xs) (map f ys) p.x_proto (omega (arith, l)),
        from_right-append (map f xs) (map f ys) p.x_host (omega (arith, l)),
        from_right-append (map f xs) (map f ys) p.x_prefix (omega (arith, l)),
      )
      refl

-- If the trusted end of a `Forwarded` header has no backslash, closes its quoted strings and has as
-- many elements as are counted, then whatever a client writes in front of it, nothing is selected, or
-- what is selected is what the trusted end alone says.
pub parse_forwarded-front :
    (p : ProxyFix) (front t : Text)
    → Lacks backslash t
    → (split_outside_quotes_checked t b',').1 ≡ false
    → IsWithin p (length (elements_of (split_outside_quotes_checked t b',').0))
    → (parse_forwarded p (front ++ (b',' ∷ t)) ≡ no_directives)
      ⊎ (parse_forwarded p (front ++ (b',' ∷ t)) ≡ parse_forwarded p t)
unfolding parse_forwarded
parse_forwarded-front p front t l closed w = elim (split-front b',' front t refl refl l closed) [
  | inl e ↦ inl (rw e refl)
  | inr e ↦ inr (
      let mine = (split_outside_quotes_checked t b',').0 in
      let theirs = (split_outside_quotes_checked front b',').0 in
      rw (e, closed, elements_of-append theirs mine)
        (select_all-append p (elements_of theirs) (elements_of mine) w))
]

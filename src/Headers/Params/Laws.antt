-- ===== src/Headers/Params/Laws.antt =====
-- Lemmas on header parameters: where nothing is quoted.
use mathlib.Core.List.{append_assoc, append-nil}
use veloce.Prelude.{
  ℕ, ◌≡◌, ◌≢◌, refl, ap, sym, ◌∙◌, Bool, true, false, not, none, List, [], ◌∷◌, ◌++◌, map, nat_eq,
  ◌==◌, Bool-cases, inl, inr, arith, is_empty, ◌&&◌,
}
use veloce.Prelude.Dict.{Dict, put}
use veloce.Text.{Text, text_eq, lower}
use veloce.Text.Split.{split, push, split-ne-nil}
use veloce.Text.Strip.{strip, has_char, partition}
use veloce.Headers.Quoted.{quote}
use veloce.Headers.Params.{
  Token, tokens, State, add_token, add_tokens, parse_header_params, plain_pairs,
  parse_media_type_params,
}

-- for k, v in pairs: d[k] = v
unfoldable pub put_all : List (Text × Text) → Dict Text Text → Dict Text Text
unfolding put
put_all [] d = d
put_all ((k, v) ∷ more) d = put_all more (put k v d)

abbrev plain_token : Text → Token
plain_token raw = record { raw = raw; quote_open = none; quote_close = none }

abbrev with_front : Text → List Text → List Text
with_front buf [] = []
with_front buf (p ∷ ps) = (buf ++ p) ∷ ps

push-with_front :
    (buf : Text) (c : ℕ) (ps : List Text)
    → ps ≢ []
    → with_front (buf ++ (c ∷ [])) ps ≡ with_front buf (push c ps)
push-with_front buf c [] n = absurd (n refl)
push-with_front buf c (p ∷ ps) n = ap (λ (x : Text). x ∷ ps) (append_assoc buf (c ∷ []) p)

with_front-nil : (ps : List Text) → with_front [] ps ≡ ps
with_front-nil [] = refl
with_front-nil (p ∷ ps) = refl

tokens-split :
    (d : ℕ) (u : Bool) (buf s : Text)
    → has_char quote s ≡ false
    → tokens d u (plain_token buf) false s ≡ map plain_token (with_front buf (split d s))
unfolding tokens split has_char
tokens-split d u buf [] h = ap (λ (x : Text). plain_token x ∷ []) (sym (append-nil buf))
tokens-split d u buf (c ∷ s) h =
    let q : (c == quote) ≡ false = ground arith in
    let more : has_char quote s ≡ false = ground arith in
    elim (Bool-cases (c == d)) [
      | inl t ↦
          rw (q, t)
            (ap (λ (ts : List Token). plain_token buf ∷ ts)
                (tokens-split d u [] s more ∙ ap (map plain_token) (with_front-nil (split d s)))
              ∙ ap (λ (x : Text). plain_token x ∷ map plain_token (split d s))
                  (sym (append-nil buf)))
      | inr f ↦
          rw (q, f)
            (tokens-split d u (buf ++ (c ∷ [])) s more
              ∙ ap (map plain_token) (push-with_front buf c (split d s) (split-ne-nil d s)))
    ]

abbrev params_of : State → Dict Text Text
params_of (prefix, first, params) = params

abbrev put_if : Bool → Text → Text → Dict Text Text → Dict Text Text
put_if true key value params = put key value params
put_if false key value params = params

add_token-plain :
    (chunk : Text) (st : State)
    → let key = lower (strip (partition b'=' chunk).0) in
      params_of (add_token (plain_token chunk) st)
      ≡ put_if
          (has_char b'=' chunk && not (is_empty key))
          key
          (strip (partition b'=' chunk).1)
          (params_of st)
unfolding add_token
add_token-plain chunk (prefix, first, params) = elim (Bool-cases (has_char b'=' chunk)) [
  | inr f ↦ rw f refl
  | inl t ↦ rw t (elim (Bool-cases (is_empty (lower (strip (partition b'=' chunk).0)))) [
    | inl e ↦ rw e refl
    | inr n ↦ rw n refl
  ])
]

add_tokens-plain :
    (chunks : List Text) (st : State)
    → params_of (add_tokens (map plain_token chunks) st)
      ≡ put_all (plain_pairs chunks) (params_of st)
unfolding add_tokens plain_pairs put_all
add_tokens-plain [] st = refl
add_tokens-plain (chunk ∷ chunks) st =
    let key = lower (strip (partition b'=' chunk).0) in
    add_tokens-plain chunks (add_token (plain_token chunk) st)
    ∙ ap (put_all (plain_pairs chunks)) (add_token-plain chunk st)
    ∙ elim (Bool-cases (has_char b'=' chunk && not (is_empty key))) [
      | inl t ↦ rw t refl
      | inr f ↦ rw f refl
    ]

-- Where nothing is quoted, the short cut of `parse_media_type_params` agrees with the walk: its pairs,
-- stored one after another, are the parameters that `parse_header_params` reads.
pub parse_media_type_params-unquoted :
    (rest : Text) (unescape : Bool)
    → has_char quote rest ≡ false
    → put_all (parse_media_type_params rest) [] ≡ (parse_header_params rest b';' unescape).1
unfolding parse_media_type_params parse_header_params
parse_media_type_params-unquoted rest unescape h =
    rw (h, tokens-split b';' unescape [] rest h, with_front-nil (split b';' rest))
      (sym (add_tokens-plain (split b';' rest) ([], true, [])))

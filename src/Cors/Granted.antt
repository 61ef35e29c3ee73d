-- ===== src/Cors/Granted.antt =====
-- What a preflight of src/veloce/middleware/cors.py is answered.
use veloce.Prelude.{
  or_true, some_injective, ◌≡◌, refl, ap, sym, ◌∙◌, Bool, true, false, not, ◌&&◌, Option, none,
  some, List, [], ◌∷◌, map, is_empty, if◌then◌else◌, Bool-cases, inl, inr, All, nat_eq, arith,
}
use veloce.Prelude.Dict.{get}
use veloce.Headers.Lists.{join_values, entries}
use veloce.Text.{Text, text_eq, text_beq, text_beq_refl, lower, to_lower, is_in}
use veloce.Cors.{
  CorsMiddleware, allow_headers_has_star, allow_headers_lower, origin_allowed, resolve_allow_origin,
}
use veloce.Cors.Response.{Fields, Response}
use veloce.Cors.Response.Laws.{Differs, get-put_other, get-put_same}
use veloce.Cors.Written.{get-write_credentials, get-write_expose}
use veloce.Cors.Preflight.{
  Request, process_request, granted, method_refused, matched, add_cors_headers, write_matched,
  write_requested, write_private_network, write_rest, is_true, allow_headers_name,
  allow_private_network_name, max_age_name,
}

module _ (m : CorsMiddleware) where
  abbrev pub is_listed : Text → Bool
  is_listed t = is_in (lower t) (allow_headers_lower m)

  -- A value that names listed headers only.
  abbrev pub NamesListed : Option Text → Type 0
  NamesListed value =
      (ts : List Text) × (value ≡ some (join_values ts)) × All (λ t. is_listed t ≡ true) ts

  matched-listed :
      (tokens : List Text)
      → All (λ t. is_listed t ≡ true) (matched m (allow_headers_lower m) tokens)
  unfolding matched
  matched-listed [] = tt
  matched-listed (t ∷ tokens) = elim (Bool-cases (is_listed t)) [
    | inl e ↦ rw e (e, matched-listed tokens)
    | inr f ↦ rw f (matched-listed tokens)
  ]

  -- The members of a list are listed, if its lower-case tokens are.
  members-listed :
      (xs : List Text)
      → ((t : Text) → is_in t (map lower xs) ≡ true → is_in t (allow_headers_lower m) ≡ true)
      → All (λ t. is_listed t ≡ true) xs
  unfolding is_in
  members-listed [] h = tt
  members-listed (x ∷ xs) h = (
    h (lower x) (rw text_beq_refl refl),
    members-listed xs (λ t e. h t (rw e (or_true (text_beq (lower x) t)))),
  )

  NamesListed-transport : (v w : Option Text) → v ≡ w → NamesListed w → NamesListed v
  NamesListed-transport v w e n = rw e n

  get-write_rest_headers :
      (o : Option Text) (h : Fields)
      → get allow_headers_name (write_rest m o h) ≡ get allow_headers_name h
  unfolding text_beq lower to_lower
  get-write_rest_headers none h = refl
  get-write_rest_headers (some v) h =
      get-write_expose m _ allow_headers_name refl
      ∙ get-write_credentials m h allow_headers_name refl

  -- The headers that `_add_cors_headers` names in a preflight.
  headers-add_cors_headers :
      (origin : Text)
      → allow_headers_has_star m ≡ false
      → get allow_headers_name (add_cors_headers m [] origin true)
        ≡ some (join_values m.allow_headers)
  unfolding add_cors_headers
  headers-add_cors_headers origin hs =
      get-write_rest_headers (resolve_allow_origin m origin) _
      ∙ get-put_same _ allow_headers_name _
      ∙ rw hs refl

  listed-write_matched :
      (ts : List Text) (h : Fields)
      → All (λ t. is_listed t ≡ true) ts
      → NamesListed (get allow_headers_name h)
      → NamesListed (get allow_headers_name (write_matched m ts h))
  listed-write_matched [] h a n = n
  listed-write_matched (t ∷ ts) h a n = (t ∷ ts, get-put_same h allow_headers_name _, a)

  listed-write_requested :
      (requested : Text) (h : Fields)
      → allow_headers_has_star m ≡ false
      → NamesListed (get allow_headers_name h)
      → NamesListed (get allow_headers_name (write_requested m requested h))
  listed-write_requested requested h hs n = elim (Bool-cases (is_empty requested)) [
    | inl t ↦ rw t n
    | inr f ↦
        rw (f, hs)
          (listed-write_matched (matched m (allow_headers_lower m) (entries requested)) h
            (matched-listed (entries requested)) n)
  ]

  get-write_private_network :
      (o : Option Text) (h : Fields) (k : Text)
      → Differs allow_private_network_name k
      → get k (write_private_network m o h) ≡ get k h
  get-write_private_network o h k d = elim (Bool-cases (m.allow_private_network && is_true m o)) [
    | inl t ↦ rw t (get-put_other h allow_private_network_name _ k d)
    | inr f ↦ rw f refl
  ]

  listed-granted :
      (request : Request)
      → allow_headers_has_star m ≡ false
      → NamesListed (get allow_headers_name (granted m request).headers)
  unfolding allow_headers_lower text_beq lower to_lower
  listed-granted request hs =
      let base = add_cors_headers m [] request.origin true in
      let named = write_requested m request.requested_headers base in
      NamesListed-transport _ _
        (get-put_other (write_private_network m request.requested_private_network named)
            max_age_name m.max_age_text allow_headers_name refl
          ∙ get-write_private_network request.requested_private_network named allow_headers_name
              refl)
        (listed-write_requested request.requested_headers base hs (
          m.allow_headers,
          headers-add_cors_headers request.origin hs,
          members-listed m.allow_headers (λ t e. e),
        ))

  not_204 :
      (b response : Response)
      → b.status_code ≡ 400
      → some b ≡ some response
      → response.status_code ≡ 204
      → ⊥
  not_204 b response h e es =
      omega (arith, h, es, ap (λ (r : Response). r.status_code) (some_injective b response e))

  -- The decision on an OPTIONS request with an origin, by what is allowed.
  answer-granted :
      (asked allowed refused : Bool) (granted_response bad_origin bad_method response : Response)
      → bad_origin.status_code ≡ 400
      → bad_method.status_code ≡ 400
      → (if asked
          then if not allowed
            then some bad_origin
            else if refused
            then some bad_method
            else some granted_response
          else none)
        ≡ some response
      → response.status_code ≡ 204
      → (allowed ≡ true) × (refused ≡ false) × (granted_response ≡ response)
  answer-granted false allowed refused g b b' response h h' e es = cc
  answer-granted true false refused g b b' response h h' e es = absurd (not_204 b response h e es)
  answer-granted true true true g b b' response h h' e es = absurd (not_204 b' response h' e es)
  answer-granted true true false g b b' response h h' e es = (refl, refl, cc)

  -- Without a wildcard for headers, a request is answered 204 only if its origin and the method that it
  -- asks for are allowed, and the headers that the answer allows are all listed.
  pub process_request-NamesListed :
      (request : Request) (response : Response)
      → allow_headers_has_star m ≡ false
      → (process_request m request).1 ≡ some response
      → response.status_code ≡ 204
      → (origin_allowed m request.origin ≡ true)
        × (method_refused m request.requested_method ≡ false)
        × NamesListed (get allow_headers_name response.headers)
  unfolding process_request
  process_request-NamesListed request response hs h e =
      let (allowed, kept, same) =
        answer-granted _ (origin_allowed m request.origin)
          (method_refused m request.requested_method) (granted m request) _ _ response refl refl h
          e in
      (
        allowed,
        kept,
        NamesListed-transport _ _
            (ap (λ (r : Response). get allow_headers_name r.headers) (sym same))
            (listed-granted request hs),
      )

-- ===== src/Cors/Written.antt =====
-- What stands in the headers after `_add_cors_headers` of src/veloce/middleware/cors.py.
use veloce.Prelude.{
  ◌≡◌, refl, ◌∙◌, Bool, true, false, Option, none, some, [], ◌∷◌, is_empty, codes, if◌then◌else◌,
  Bool-cases, inl, inr,
}
use veloce.Prelude.Dict.{get, put}
use veloce.Headers.Lists.{join_values}
use veloce.Text.{Text, text_eq, text_beq, lower, to_lower}
use veloce.Cors.{CorsMiddleware, varies_by_origin, resolve_allow_origin}
use veloce.Cors.Response.{Fields, header_pop, vary}
use veloce.Cors.Response.Laws.{Differs, get-header_pop, get-put_other, get-put_same, get-add_vary}
use veloce.Cors.Preflight.{
  add_cors_headers, allow_origin_name, allow_credentials_name, allow_headers_name,
  allow_methods_name, expose_headers_name, write_origin, write_vary, write_preflight,
  write_credentials, write_expose, merge_expose, write_rest,
}

abbrev pub or_else : Option Text → Option Text → Option Text
or_else none other = other
or_else (some v) other = some v

module _ (m : CorsMiddleware) where
  get-merge_expose :
      (o : Option Text) (h : Fields) (k : Text)
      → Differs expose_headers_name k
      → get k (merge_expose m (o, h)) ≡ get k h
  get-merge_expose none h k d = get-put_other h expose_headers_name _ k d
  get-merge_expose (some []) h k d = get-put_other h expose_headers_name _ k d
  get-merge_expose (some (c ∷ s)) h k d = get-put_other h expose_headers_name _ k d

  pub get-write_expose :
      (h : Fields) (k : Text) → Differs expose_headers_name k → get k (write_expose m h) ≡ get k h
  get-write_expose h k d = elim (Bool-cases (is_empty m.expose_headers)) [
    | inl t ↦ rw t refl
    | inr f ↦ rw f (
        get-merge_expose (header_pop h expose_headers_name).0 (header_pop h expose_headers_name).1 k
          d
        ∙ get-header_pop h expose_headers_name k d)
  ]

  pub get-write_vary : (h : Fields) (k : Text) → Differs vary k → get k (write_vary m h) ≡ get k h
  get-write_vary h k d = elim (Bool-cases (varies_by_origin m)) [
    | inl t ↦ rw t (get-add_vary (codes "Origin" ∷ []) h k d)
    | inr f ↦ rw f refl
  ]

  pub get-write_credentials :
      (h : Fields) (k : Text)
      → Differs allow_credentials_name k
      → get k (write_credentials m h) ≡ get k h
  get-write_credentials h k d = elim (Bool-cases m.allow_credentials) [
    | inl t ↦ rw t (get-put_other h allow_credentials_name _ k d)
    | inr f ↦ rw f refl
  ]

  pub get-write_preflight :
      (b : Bool) (h : Fields) (k : Text)
      → Differs allow_headers_name k
      → Differs allow_methods_name k
      → get k (write_preflight m b h) ≡ get k h
  get-write_preflight false h k d d' = refl
  get-write_preflight true h k d d' =
      get-put_other (put allow_methods_name (join_values m.allow_methods) h) allow_headers_name _ k
        d
      ∙ get-put_other h allow_methods_name _ k d'

  pub get-write_rest :
      (o : Option Text) (h : Fields) (k : Text)
      → Differs allow_credentials_name k
      → Differs expose_headers_name k
      → get k (write_rest m o h) ≡ get k h
  get-write_rest none h k d d' = refl
  get-write_rest (some v) h k d d' =
      get-write_expose (write_credentials m h) k d' ∙ get-write_credentials h k d

  get-write_origin :
      (o : Option Text) (h : Fields)
      → get allow_origin_name (write_origin m o h) ≡ or_else o (get allow_origin_name h)
  get-write_origin none h = refl
  get-write_origin (some v) h = get-put_same h allow_origin_name v

  -- The origin that is written is the one that was decided on.
  pub get-add_cors_headers :
      (h : Fields) (origin : Text) (b : Bool)
      → get allow_origin_name (add_cors_headers m h origin b)
        ≡ or_else (resolve_allow_origin m origin) (get allow_origin_name h)
  unfolding add_cors_headers text_beq lower to_lower
  get-add_cors_headers h origin b =
      let o = resolve_allow_origin m origin in
      get-write_rest o (write_preflight m b (write_vary m (write_origin m o h))) allow_origin_name
        refl refl
      ∙ get-write_preflight b (write_vary m (write_origin m o h)) allow_origin_name refl refl
      ∙ get-write_vary (write_origin m o h) allow_origin_name refl
      ∙ get-write_origin o h

  abbrev pub credentials_of : Option Text → Option Text
  credentials_of none = none
  credentials_of (some v) = if m.allow_credentials then some (codes "true") else none

  credentials-write_rest :
      (o : Option Text) (h : Fields)
      → get allow_credentials_name h ≡ none
      → get allow_credentials_name (write_rest m o h) ≡ credentials_of o
  unfolding text_beq lower to_lower
  credentials-write_rest none h e = e
  credentials-write_rest (some v) h e =
      get-write_expose (write_credentials m h) allow_credentials_name refl
      ∙ elim (Bool-cases m.allow_credentials) [
        | inl t ↦ rw t (get-put_same h allow_credentials_name (codes "true"))
        | inr f ↦ rw f e
      ]

  get-write_origin_other :
      (o : Option Text) (h : Fields) (k : Text)
      → Differs allow_origin_name k
      → get k (write_origin m o h) ≡ get k h
  get-write_origin_other none h k d = refl
  get-write_origin_other (some v) h k d = get-put_other h allow_origin_name v k d

  -- In a new response, credentials are granted exactly with an origin, if they are configured.
  pub credentials-add_cors_headers :
      (origin : Text) (b : Bool)
      → get allow_credentials_name (add_cors_headers m [] origin b)
        ≡ credentials_of (resolve_allow_origin m origin)
  unfolding add_cors_headers text_beq lower to_lower get
  credentials-add_cors_headers origin b =
      let o = resolve_allow_origin m origin in
      credentials-write_rest o (write_preflight m b (write_vary m (write_origin m o []))) (
        get-write_preflight b (write_vary m (write_origin m o [])) allow_credentials_name refl refl
        ∙ get-write_vary (write_origin m o []) allow_credentials_name refl
        ∙ get-write_origin_other o [] allow_credentials_name refl)

-- ===== src/Csrf/Proven.antt =====
-- What a request that `CSRFMiddleware` of src/veloce/middleware/csrf.py lets through has shown.
use veloce.Prelude.{
  ℕ, ◌≡◌, ◌≢◌, refl, ap, Bool, true, false, ◌&&◌, Option, none, some, List, [], ◌∷◌, codes,
  if◌then◌else◌, ◌⊎◌, inl, inr, Bool-cases, and_parts, or_inverse, some_injective,
}
use veloce.Text.{Text, text_eq, text_beq_iff, is_in}
use veloce.Signing.{Library, Signer, Loaded, data_of, bad_signature, bad_time, bad_data, loads}
use veloce.Signing.Accepted.{IsAccepted, loads-IsAccepted}
use veloce.Csrf.Home.{IsFromHome, by_origin-IsFromHome}
use veloce.Csrf.Origin.{Split, Trusted, Request, Field, text, upload, Verdict}
use veloce.Csrf.Origin.{allowed, forbidden, raised}
use veloce.Csrf.Origin.{verify_origin}
use veloce.Csrf.{Csrf, State, matches, as_text, form_matches, is_form, is_loaded, is_genuine}
use veloce.Csrf.{is_echoed, double_submit, unless_denied, origin_stage, process_request}

module _ (lib : Library Text) (m : Csrf) (now : ℕ) (request : Request) where
  -- With a secret, the cookie is a token of the signer that is not too old.
  abbrev pub IsIssued : Text → Option Signer → Type 0
  IsIssued cookie none = Unit
  IsIssued cookie (some signer) = (value : Text) × IsAccepted lib signer now m.max_age cookie value

  abbrev pub IsField : Text → Option (Text → Option Field) → Type 0
  IsField cookie none = ⊥
  IsField cookie (some get) = get m.form_field ≡ some (text cookie)

  -- The header says what the cookie does, or the field of a form.
  abbrev pub IsEchoed : Text → Type 0
  IsEchoed cookie =
      (request.headers m.header_name ≡ some cookie)
      ⊎ ((is_form (request.headers (codes "Content-Type")) ≡ true) × IsField cookie request.form)

  is_genuine-IsIssued :
      (cookie : Text) (o : Option Signer) → is_genuine lib m now cookie o ≡ true → IsIssued cookie o
  is_genuine-IsIssued cookie none h = tt
  is_genuine-IsIssued cookie (some signer) h =
      unfold is_genuine in
      loaded (loads lib signer now cookie m.max_age)
        (λ value. loads-IsAccepted lib signer now cookie m.max_age value) h
    where
      loaded :
          (r : Loaded Text)
          → ((value : Text) → r ≡ data_of value → IsAccepted lib signer now m.max_age cookie value)
          → is_loaded r ≡ true
          → IsIssued cookie (some signer)
      loaded (data_of value) k h = (value, k value refl)
      loaded bad_signature k h = cc
      loaded bad_time k h = cc
      loaded bad_data k h = cc

  matches_eq : (o : Option Text) (cookie : Text) → matches o cookie ≡ true → o ≡ some cookie
  unfolding matches
  matches_eq none cookie h = cc
  matches_eq (some t) cookie h = ap some ((text_beq_iff t cookie).0 h)

  form_matches-IsField :
      (cookie : Text) (o : Option (Text → Option Field))
      → form_matches m.form_field cookie o ≡ true
      → IsField cookie o
  form_matches-IsField cookie none h = cc
  form_matches-IsField cookie (some get) h =
      a_text (get m.form_field) (matches_eq (as_text (get m.form_field)) cookie h)
    where
      a_text : (f : Option Field) → as_text f ≡ some cookie → f ≡ some (text cookie)
      a_text none e = cc
      a_text (some (text t)) e = ap (λ u. some (text u)) (some_injective t cookie e)
      a_text (some upload) e = cc

  is_echoed-IsEchoed : (cookie : Text) → is_echoed m request cookie ≡ true → IsEchoed cookie
  unfolding is_echoed
  is_echoed-IsEchoed cookie h =
      let ct = is_form (request.headers (codes "Content-Type")) in
      elim (or_inverse (matches (request.headers m.header_name) cookie)
        (ct && form_matches m.form_field cookie request.form) h) [
          | inl e ↦ inl (matches_eq (request.headers m.header_name) cookie e)
          | inr e ↦
              let (f, e') = and_parts ct (form_matches m.form_field cookie request.form) e in
              inr (f, form_matches-IsField cookie request.form e')
        ]

  double_submit-IsEchoed :
      (o : Option Text) (s : State)
      → (double_submit lib m now request o s).0 ≡ allowed
      → (cookie : Text) × (o ≡ some cookie)
        × (cookie ≢ [])
        × IsIssued cookie m.signer
        × IsEchoed cookie
  unfolding double_submit
  double_submit-IsEchoed none s = λ h. cc
  double_submit-IsEchoed (some []) s = λ h. cc
  double_submit-IsEchoed (some (c ∷ cs)) s =
      elim (Bool-cases (is_genuine lib m now (c ∷ cs) m.signer)) [
        | inr f ↦ rw f (λ h. cc)
        | inl g ↦ elim (Bool-cases (is_echoed m request (c ∷ cs))) [
          | inr f ↦ rw (g, f) (λ h. cc)
          | inl e ↦ λ h. (
            c ∷ cs,
            refl,
            (λ k. cc),
            is_genuine-IsIssued (c ∷ cs) m.signer g,
            is_echoed-IsEchoed (c ∷ cs) e,
          )
        ]
      ]

module _ (urlsplit : Split) (lib : Library Text) where
  -- Where origins are trusted, the request comes from one of them or from its own by its `Host` header.
  abbrev pub IsFrom : Request → List Trusted → Type 0
  IsFrom request [] = Unit
  IsFrom request (t ∷ ts) = IsFromHome urlsplit (t ∷ ts) request (request.headers (codes "Origin"))

  -- What a request has shown of itself.
  abbrev pub IsProven : Csrf → ℕ → Request → Type 0
  IsProven m now request =
      (cookie : Text) × (request.cookies m.cookie_name ≡ some cookie)
      × (cookie ≢ [])
      × IsIssued lib m now request cookie m.signer
      × IsEchoed lib m now request cookie
      × IsFrom request m.trusted

  origin_stage-IsFrom :
      (request : Request) (ts : List Trusted)
      → origin_stage urlsplit ts request ≡ allowed
      → IsFrom request ts
  origin_stage-IsFrom request [] h = tt
  origin_stage-IsFrom request (t ∷ ts) h =
      unfold verify_origin in
      by_origin-IsFromHome urlsplit (t ∷ ts) request (request.headers (codes "Origin")) h

  unless_exempt :
      (b c : Bool) (x y z : Verdict × State)
      → b ≡ false
      → c ≡ false
      → (if b then x else if c then y else z).0 ≡ allowed
      → z.0 ≡ allowed
  unless_exempt true c x y z hb hc = cc
  unless_exempt false true x y z hb hc = cc
  unless_exempt false false x y z hb hc = λ h. h

  not_denied :
      (v : Verdict) (rest : Verdict × State) (s : State)
      → (unless_denied v rest s).0 ≡ allowed
      → (v ≡ allowed) × (rest.0 ≡ allowed)
  not_denied allowed rest s h = (refl, h)
  not_denied raised rest s h = cc
  not_denied (forbidden detail) rest s h = cc

  -- A request of an unsafe method that is no MCP call, and that is let through, has a cookie that is not
  -- empty, whose text its header or the field of its form repeats. With a secret, the cookie is a token
  -- under one of the signer's keys that is not too old. Where origins are trusted, its origin is a trusted
  -- one or that of its own scheme and `Host` header; without an origin, a request over https has a secure
  -- referer that is.
  pub process_request-IsProven :
      (m : Csrf) (now : ℕ) (request : Request) (state : State)
      → request.is_mcp ≡ false
      → is_in request.method m.safe_methods ≡ false
      → (process_request urlsplit lib m now request state).0 ≡ allowed
      → IsProven m now request
  unfolding process_request
  process_request-IsProven m now request state hm hs h =
      let (o, d) =
        not_denied (origin_stage urlsplit m.trusted request) _ _
          (unless_exempt request.is_mcp (is_in request.method m.safe_methods) _ _ _ hm hs h) in
      let (cookie, e, n, i, k) =
        double_submit-IsEchoed lib m now request (request.cookies m.cookie_name) _ d in
      (cookie, e, n, i, k, origin_stage-IsFrom request m.trusted o)

-- ===== src/Csrf.antt =====
-- `CSRFMiddleware` of src/veloce/middleware/csrf.py, over the signer of src/veloce/signing.py. `urlsplit` of the
-- standard library, and what src/veloce/http/request.py makes of a request, are parameters.
pub mod Origin
pub mod Home
pub mod Proven
pub mod Echoed
use veloce.Prelude.{
  ℕ, ◌≡◌, Bool, true, false, not, ◌&&◌, ◌||◌, Option, none, some, List, [], ◌∷◌, ◌++◌, ◌==◌, map,
  codes, if◌then◌else◌, is_empty,
}
use veloce.Prelude.Int.{ℤ}
use veloce.Text.{Text, text_eq, text_beq, is_in, lower, upper}
use veloce.Text.Strip.{starts_with}
use veloce.Signing.{Bytes, Library, Signer, Loaded, data_of, bad_signature, bad_time, bad_data}
use veloce.Signing.{dumps, loads}
use veloce.Signing
use veloce.Csrf.Origin.{Split, Trusted, Request, Field, text, upload, Verdict}
use veloce.Csrf.Origin.{allowed, forbidden, raised, parse_trusted, verify_origin}

pub record Csrf : Type 0 where
  pub cookie_name : Text
  pub header_name : Text
  pub form_field : Text
  pub safe_methods : List Text
  pub trusted : List Trusted
  pub max_age : Option ℤ
  pub signer : Option Signer

-- The two keys of `request._state` that the middleware uses.
pub record State : Type 0 where
  pub csrf_cookie : Option Text
  pub csrf_rotate : Bool

unfoldable pub contains : Text → Text → Bool
unfolding starts_with
contains part [] = starts_with part []
contains part (c ∷ s) = starts_with part (c ∷ s) || contains part s

-- What equals the cookie: digests are compared, and of texts outside ASCII their UTF-8.
unfoldable pub matches : Option Text → Text → Bool
matches none cookie = false
matches (some candidate) cookie = text_beq candidate cookie

abbrev pub as_text : Option Field → Option Text
as_text none = none
as_text (some (text t)) = some t
as_text (some upload) = none

-- The form of a body, unless it cannot be parsed.
abbrev pub form_matches : Text → Text → Option (Text → Option Field) → Bool
form_matches field cookie none = false
form_matches field cookie (some get) = matches (as_text (get field)) cookie

unfoldable pub is_form : Option Text → Bool
unfolding contains
is_form none = false
is_form (some ct) =
    contains (codes "application/x-www-form-urlencoded") ct
    || contains (codes "multipart/form-data") ct

abbrev pub salt : Bytes
salt = codes "veloce.csrf"

abbrev pub is_loaded : {A : Type 0} → Loaded A → Bool
is_loaded (data_of value) = true
is_loaded bad_signature = false
is_loaded bad_time = false
is_loaded bad_data = false

-- Whether the header or, of a form, the field has the cookie's value.
unfoldable pub is_echoed : Csrf → Request → Text → Bool
unfolding matches is_form
is_echoed m request cookie =
    matches (request.headers m.header_name) cookie
    || (is_form (request.headers (codes "Content-Type"))
        && form_matches m.form_field cookie request.form)

-- if denied is not None: return denied
abbrev pub unless_denied : Verdict → Verdict × State → State → Verdict × State
unless_denied allowed rest state = rest
unless_denied (forbidden detail) rest state = (forbidden detail, state)
unless_denied raised rest state = (raised, state)

abbrev pub is_truthy : Option Text → Bool
is_truthy none = false
is_truthy (some t) = not (is_empty t)

-- What a response does to the token cookie.
pub data Issued : Type 0 where
  kept failed : Issued
  set_cookie : Text → Text → Issued

abbrev pub issue : Text → Option Text → Issued
issue name none = failed
issue name (some token) = set_cookie name token

module _ (lib : Library Text) where
  -- if secret: self._signer = Signer(secret, salt="veloce.csrf")
  abbrev signer_of : Bytes → Option Signer
  signer_of secret = Signing.init lib secret salt

  -- Whether `loads` takes the cookie, where a secret is set.
  unfoldable pub is_genuine : Csrf → ℕ → Text → Option Signer → Bool
  unfolding loads
  is_genuine m now cookie none = true
  is_genuine m now cookie (some signer) = is_loaded (loads lib signer now cookie m.max_age)

  unfoldable pub double_submit : Csrf → ℕ → Request → Option Text → State → Verdict × State
  unfolding is_genuine is_echoed
  double_submit m now request none state = (forbidden (codes "CSRF cookie missing"), state)
  double_submit m now request (some []) state = (forbidden (codes "CSRF cookie missing"), state)
  double_submit m now request (some (c ∷ cs)) state =
      if not (is_genuine m now (c ∷ cs) m.signer)
      then (
        forbidden (codes "CSRF cookie signature invalid or expired"),
        record state { csrf_rotate = true },
      )
      else if is_echoed m request (c ∷ cs)
      then (allowed, state)
      else (forbidden (codes "CSRF token mismatch"), state)

  -- The token for a cookie that `token_factory` gives; `none` is the error of `dumps`.
  abbrev pub token_for : ℕ → Text → Option Signer → Option Text
  token_for now token none = some token
  token_for now token (some signer) = dumps lib signer now token

  unfoldable pub process_response : Csrf → ℕ → Text → State → Issued
  unfolding dumps
  process_response m now token state =
      if is_truthy state.csrf_cookie && not state.csrf_rotate
      then kept
      else issue m.cookie_name (token_for now token m.signer)

abbrev pub origin_stage : Split → List Trusted → Request → Verdict
origin_stage urlsplit [] request = allowed
origin_stage urlsplit (t ∷ ts) request = verify_origin urlsplit (t ∷ ts) request

module _ (urlsplit : Split) (lib : Library Text) where
  abbrev with_trusted : Csrf → Bytes → Option (List Trusted) → Option Csrf
  with_trusted m secret none = none
  with_trusted m secret (some trusted) = some (record m {
    safe_methods = map upper m.safe_methods;
    trusted = trusted;
    signer = signer_of lib secret;
  })

  -- `__init__` on the arguments as a record; `none` is the ValueError of a bad origin.
  unfoldable pub init : Csrf → Bytes → List Text → Option Csrf
  init m secret origins = with_trusted m secret (parse_trusted urlsplit origins)

  unfoldable pub process_request : Csrf → ℕ → Request → State → Verdict × State
  unfolding double_submit verify_origin
  process_request m now request state =
      let existing = request.cookies m.cookie_name in
      let state' = record state { csrf_cookie = existing } in
      if request.is_mcp
      then (allowed, state)
      else if is_in request.method m.safe_methods
      then (allowed, state')
      else unless_denied (origin_stage urlsplit m.trusted request)
          (double_submit lib m now request existing state') state'

unfoldable pub rotate_csrf_token : State → State
rotate_csrf_token state = record state { csrf_rotate = true }

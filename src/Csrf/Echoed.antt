-- ===== src/Csrf/Echoed.antt =====
-- That the cookies which `CSRFMiddleware` of src/veloce/middleware/csrf.py sets let requests through.
use veloce.Prelude.{
  ℕ, ◌≡◌, ◌≢◌, refl, ap, ◌∙◌, true, not, ◌&&◌, Option, none, some, [], ◌∷◌, All, some_injective,
  unless_refused, either_branch,
}
use veloce.Text.{Text, text_eq, text_beq_refl, is_in}
use veloce.Signing.{Bytes, Library, Signer, data_of, loads, parts, cut}
use veloce.Signing.Accepted.{loads-dumps}
use veloce.Signing.Laws.{IsFresh}
use veloce.Signing.RoundTrip.{IsByte}
use veloce.Csrf.Origin.{Split, Request, Verdict, allowed, forbidden, raised}
use veloce.Csrf.{
  Csrf, State, matches, is_genuine, is_echoed, double_submit, unless_denied, origin_stage,
  process_request, is_truthy, token_for, kept, set_cookie, issue, process_response,
}

issue_inverse :
    (name : Text) (o : Option Text) (name' token : Text)
    → issue name o ≡ set_cookie name' token
    → (name ≡ name') × (o ≡ some token)
issue_inverse name none name' token h = cc
issue_inverse name (some t) name' token h = (cc, cc)

let_in :
    (v : Verdict) (rest : Verdict × State) (s : State)
    → v ≡ allowed
    → rest.0 ≡ allowed
    → (unless_denied v rest s).0 ≡ allowed
let_in allowed rest s h k = k
let_in raised rest s h k = cc
let_in (forbidden detail) rest s h k = cc

abbrev IsPassed : Verdict × State → Type 0
IsPassed result = result.0 ≡ allowed

module _ (lib : Library Text) (m : Csrf) (now later : ℕ) (seed : Text)
    (hj : lib.json_loads (lib.json_dumps seed) ≡ some seed) (hb : All IsByte (lib.json_dumps seed))
    (hm : (key message : Bytes) → All IsByte (lib.mac key message))
    (hf : IsFresh now later m.max_age) where
  token_for-loads :
      (signer : Signer) (token : Text)
      → is_in signer.key signer.secret_keys ≡ true
      → token_for lib now seed (some signer) ≡ some token
      → loads lib signer later token m.max_age ≡ data_of seed
  token_for-loads signer token hk h =
      loads-dumps lib signer signer now later seed token m.max_age hj hb hm hk hf h

  token_for-is_genuine :
      (o : Option Signer) (token : Text)
      → ((signer : Signer) → o ≡ some signer → is_in signer.key signer.secret_keys ≡ true)
      → token_for lib now seed o ≡ some token
      → is_genuine lib m later token o ≡ true
  unfolding is_genuine
  token_for-is_genuine none token hk h = refl
  token_for-is_genuine (some signer) token hk h =
      rw (token_for-loads signer token (hk signer refl) h) refl

  token_for_not_empty :
      (o : Option Signer)
      → ((signer : Signer) → o ≡ some signer → is_in signer.key signer.secret_keys ≡ true)
      → seed ≢ []
      → token_for lib now seed o ≡ some []
      → ⊥
  token_for_not_empty none hk n h = n (some_injective seed [] h)
  token_for_not_empty (some signer) hk n h = no_value (token_for-loads signer [] (hk signer refl) h)
    where
      no_value : loads lib signer later [] m.max_age ≡ data_of seed → ⊥
      no_value = unfold loads parts cut in λ e. cc

  double_submit_echo :
      (request : Request) (state : State) (token : Text)
      → request.headers m.header_name ≡ some token
      → is_genuine lib m later token m.signer ≡ true
      → (token ≡ [] → ⊥)
      → (double_submit lib m later request (some token) state).0 ≡ allowed
  unfolding double_submit is_echoed matches
  double_submit_echo request state [] he hg n = absurd (n refl)
  double_submit_echo request state (c ∷ cs) he hg n = rw (hg, he, text_beq_refl (c ∷ cs)) refl

  -- The token that a response sets lets the next request of any method through, when it comes back as the
  -- cookie and as the header within the age that is asked for, from an origin that the origin stage does not
  -- deny. The factory's text is not empty, the signer can read its own tokens, and JSON and the keyed hash
  -- are as the signer needs them.
  pub process_request-process_response :
      (urlsplit : Split) (request : Request) (before after : State) (name token : Text)
      → ((signer : Signer) → m.signer ≡ some signer → is_in signer.key signer.secret_keys ≡ true)
      → seed ≢ []
      → process_response lib m now seed before ≡ set_cookie name token
      → request.cookies name ≡ some token
      → request.headers m.header_name ≡ some token
      → origin_stage urlsplit m.trusted request ≡ allowed
      → (process_request urlsplit lib m later request after).0 ≡ allowed
  unfolding process_response process_request
  process_request-process_response urlsplit request before after name token hk n h hc he ho =
      let (_, set) =
        unless_refused (is_truthy before.csrf_cookie && not before.csrf_rotate) kept _
          (set_cookie name token) (λ e. cc) h in
      let (same, made) =
        issue_inverse m.cookie_name (token_for lib now seed m.signer) name token set in
      let state : State = record after { csrf_cookie = request.cookies m.cookie_name } in
      let passed =
        double_submit_echo request state token he (token_for-is_genuine m.signer token hk made)
          (λ e. token_for_not_empty m.signer hk n (made ∙ ap some e)) in
      either_branch IsPassed request.is_mcp _ _ (λ _. refl)
        (λ _.
          either_branch IsPassed (is_in request.method m.safe_methods) _ _ (λ _. refl)
            (λ _. let_in (origin_stage urlsplit m.trusted request) _ state ho (
              ap (λ c. (double_submit lib m later request c state).0) (ap request.cookies same ∙ hc)
              ∙ passed)))

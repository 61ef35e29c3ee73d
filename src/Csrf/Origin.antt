-- ===== src/Csrf/Origin.antt =====
-- The stage of `CSRFMiddleware` that looks at origins, src/veloce/middleware/csrf.py.
use veloce.Prelude.{
  ℕ, Bool, true, false, not, ◌&&◌, ◌||◌, Option, none, some, List, [], ◌∷◌, ◌++◌, ◌==◌, nat_eq,
  codes, if◌then◌else◌, is_empty,
}
use veloce.Text.{Text, text_eq, text_beq, lower}

-- `urlsplit`: the scheme and the network location; `none` is ValueError.
abbrev pub Split : Type 0
Split = Text → Option (Text × Text)

-- A trusted origin: its scheme, and its host or, after a dot, the end of its host.
pub data Host : Type 0 where
  exactly suffix : Text → Host

pub record Trusted : Type 0 where
  pub scheme : Text
  pub host : Host

-- A field of a form: a text or an uploaded file.
pub data Field : Type 0 where
  text : Text → Field
  upload : Field

-- What the middleware reads of a request, its headers by any spelling of their names; the form is `none` where parsing it raises.
pub record Request : Type 0 where
  pub is_mcp : Bool
  pub method : Text
  pub scheme : Text
  pub cookies : Text → Option Text
  pub headers : Text → Option Text
  pub form : Option (Text → Option Field)

abbrev pub or_whole : Text → Option Text → Text
or_whole whole none = whole
or_whole whole (some t) = t

-- `Request.host`, the `Host` header as the client sent it
abbrev pub host_of_request : Request → Text
host_of_request request = or_whole [] (request.headers (codes "Host"))

-- What becomes of a request: it goes on, it is answered 403 with a detail, or an exception is raised.
pub data Verdict : Type 0 where
  allowed raised : Verdict
  forbidden : Text → Verdict

abbrev pub cons_head : ℕ → Option Text → Option Text
cons_head c none = none
cons_head c (some head) = some (c ∷ head)

-- What stands before an ending of a text.
unfoldable pub before : Text → Text → Option Text
before ending [] = if ending == [] then some [] else none
before ending (c ∷ s) =
    let rest = cons_head c (before ending s) in if (c ∷ s) == ending then some [] else rest

unfoldable pub strip_default_port : Text → Text → Text
unfolding before text_beq
strip_default_port scheme netloc =
    if scheme == codes "http" || scheme == codes "ws"
    then or_whole netloc (before (codes ":80") netloc)
    else if scheme == codes "https" || scheme == codes "wss"
    then or_whole netloc (before (codes ":443") netloc)
    else netloc

-- if host.startswith("."): parsed.append((scheme, None, host[1:]))
abbrev pub host_of : Text → Host
host_of [] = exactly []
host_of (c ∷ s) = if c == b'.' then suffix s else exactly (c ∷ s)

abbrev pub trusted_of : Text × Text → Trusted
trusted_of (scheme, netloc) = record {
  scheme = lower scheme;
  host = host_of (strip_default_port (lower scheme) (lower netloc));
}

abbrev pub cons_trusted : Option (Text × Text) → Option (List Trusted) → Option (List Trusted)
cons_trusted none ts = none
cons_trusted (some parts) none = none
cons_trusted (some parts) (some ts) = some (trusted_of parts ∷ ts)

unfoldable pub parse_trusted : Split → List Text → Option (List Trusted)
parse_trusted urlsplit [] = some []
parse_trusted urlsplit (origin ∷ origins) =
    cons_trusted (urlsplit origin) (parse_trusted urlsplit origins)

abbrev pub is_ended : Option Text → Bool
is_ended none = false
is_ended (some head) = true

abbrev pub host_matches : Text → Text → Host → Bool
host_matches scheme host (exactly h) = host == strip_default_port scheme h
host_matches scheme host (suffix h) = host == h || is_ended (before (b'.' ∷ h) host)

-- Whether the entries have one for the scheme and the host.
unfoldable pub is_trusted : Text → Text → List Trusted → Bool
unfolding strip_default_port before text_beq
is_trusted scheme host [] = false
is_trusted scheme host (t ∷ ts) =
    (scheme == t.scheme && host_matches t.scheme host t.host) || is_trusted scheme host ts

-- The origin is that of the request itself, or trusted.
unfoldable pub parts_allowed : List Trusted → Text → Text → Text → Text → Bool
unfolding is_trusted strip_default_port
parts_allowed trusted own_scheme own_host scheme netloc =
    let o_host = strip_default_port scheme netloc in
    not (is_empty scheme || is_empty o_host)
    && ((scheme == own_scheme && o_host == strip_default_port own_scheme own_host)
        || is_trusted scheme o_host trusted)

-- `none` is ValueError
unfoldable pub origin_allowed : List Trusted → Text → Text → Option (Text × Text) → Option Bool
unfolding parts_allowed
origin_allowed trusted own_scheme own_host none = none
origin_allowed trusted own_scheme own_host (some (scheme, netloc)) =
    some (parts_allowed trusted own_scheme own_host (lower scheme) (lower netloc))

abbrev pub verdict_of : Text → Option Bool → Verdict
verdict_of detail none = raised
verdict_of detail (some true) = allowed
verdict_of detail (some false) = forbidden detail

abbrev pub origin_text : Text → Text → Text
origin_text scheme netloc = lower scheme ++ (codes "://" ++ lower netloc)

module _ (urlsplit : Split) (trusted : List Trusted) (request : Request) where
  abbrev pub is_own_or_trusted : Text → Option Bool
  is_own_or_trusted origin =
      origin_allowed trusted (lower request.scheme) (lower (host_of_request request))
        (urlsplit origin)

  abbrev pub of_referer : Option (Text × Text) → Verdict
  of_referer none = raised
  of_referer (some (scheme, netloc)) =
      if is_empty scheme || is_empty netloc
      then forbidden (codes "CSRF referer malformed")
      else if not (lower scheme == codes "https")
      then forbidden (codes "CSRF referer insecure")
      else verdict_of (codes "CSRF referer mismatch")
          (is_own_or_trusted (origin_text scheme netloc))

  abbrev pub by_referer : Option Text → Verdict
  by_referer none = forbidden (codes "CSRF referer missing")
  by_referer (some []) = forbidden (codes "CSRF referer missing")
  by_referer (some (c ∷ cs)) = of_referer (urlsplit (c ∷ cs))

  abbrev pub by_origin : Option Text → Verdict
  by_origin (some origin) = verdict_of (codes "CSRF origin mismatch") (is_own_or_trusted origin)
  by_origin none =
      if not (lower request.scheme == codes "https")
      then allowed
      else by_referer (request.headers (codes "Referer"))

  unfoldable pub verify_origin : Verdict
  unfolding origin_allowed
  verify_origin = by_origin (request.headers (codes "Origin"))

-- ===== src/Csrf/Home.antt =====
-- What the origin stage of `CSRFMiddleware`, src/veloce/middleware/csrf.py, lets through.
use veloce.Prelude.{
  ◌≡◌, refl, ap, sym, ◌∙◌, true, false, not, ◌&&◌, ◌||◌, Option, none, some, List, [], ◌∷◌, ◌++◌,
  ◌==◌, codes, is_empty, ◌⊎◌, inl, inr, Bool-cases, and_parts, or_inverse, not-false,
  some_injective, unless_refused, under_test,
}
use veloce.Text.{Text, text_eq, text_beq_iff, text_beq_refl, lower}
use veloce.Csrf.Origin.{Split, Host, exactly, suffix, Trusted, Request}
use veloce.Csrf.Origin.{allowed, cons_head, before, host_of_request, strip_default_port}
use veloce.Csrf.Origin.{
  host_matches, is_ended, is_trusted, parts_allowed, origin_allowed, verdict_of,
}
use veloce.Csrf.Origin.{origin_text, of_referer, by_referer, by_origin}

-- An entry is for a host if it names it, or an ending of it behind a dot.
abbrev pub IsFor : Text → Text → Host → Type 0
IsFor scheme host (exactly h) = host ≡ strip_default_port scheme h
IsFor scheme host (suffix h) = (host ≡ h) ⊎ ((head : Text) × (host ≡ head ++ (b'.' ∷ h)))

abbrev pub IsListed : Text → Text → List Trusted → Type 0
IsListed scheme host [] = ⊥
IsListed scheme host (t ∷ ts) =
    ((scheme ≡ t.scheme) × IsFor t.scheme host t.host) ⊎ IsListed scheme host ts

-- The origin is that of the request, by its scheme and its `Host` header, the default port aside, or listed.
abbrev pub IsHome : List Trusted → Request → Text → Text → Type 0
IsHome trusted request scheme host =
    ((scheme ≡ lower request.scheme)
      × (host ≡ strip_default_port (lower request.scheme) (lower (host_of_request request))))
    ⊎ IsListed scheme host trusted

before_sound : (ending s head : Text) → before ending s ≡ some head → s ≡ head ++ ending
unfolding before
before_sound ending [] head = λ h.
    let (t, e) = under_test (ending == []) [] head h in
    sym ((text_beq_iff ending []).0 t) ∙ ap (λ u. u ++ ending) e
before_sound ending (c ∷ s) head = elim (Bool-cases ((c ∷ s) == ending)) [
  | inl t ↦
      rw t
        (λ k. (text_beq_iff (c ∷ s) ending).0 t ∙ ap (λ u. u ++ ending) (some_injective [] head k))
  | inr f ↦ rw f (λ k. longer (before ending s) head (before_sound ending s) k)
]
  where
    longer :
        (o : Option Text) (head : Text)
        → ((rest : Text) → o ≡ some rest → s ≡ rest ++ ending)
        → cons_head c o ≡ some head
        → c ∷ s ≡ head ++ ending
    longer none head k e = cc
    longer (some rest) head k e =
        ap (λ u. c ∷ u) (k rest refl) ∙ ap (λ u. u ++ ending) (some_injective (c ∷ rest) head e)

host_matches-IsFor :
    (scheme host : Text) (h : Host) → host_matches scheme host h ≡ true → IsFor scheme host h
host_matches-IsFor scheme host (exactly h) e = (text_beq_iff host (strip_default_port scheme h)).0 e
host_matches-IsFor scheme host (suffix h) e =
    behind (before (b'.' ∷ h) host) (before_sound (b'.' ∷ h) host)
      (or_inverse (host == h) (is_ended (before (b'.' ∷ h) host)) e)
  where
    behind :
        (o : Option Text)
        → ((head : Text) → o ≡ some head → host ≡ head ++ (b'.' ∷ h))
        → (host == h ≡ true) ⊎ (is_ended o ≡ true)
        → IsFor scheme host (suffix h)
    behind o k (inl t) = inl ((text_beq_iff host h).0 t)
    behind none k (inr t) = cc
    behind (some head) k (inr t) = inr (head, k head refl)

is_trusted-IsListed :
    (scheme host : Text) (ts : List Trusted)
    → is_trusted scheme host ts ≡ true
    → IsListed scheme host ts
unfolding is_trusted
is_trusted-IsListed scheme host [] h = cc
is_trusted-IsListed scheme host (t ∷ ts) h = entry (is_trusted-IsListed scheme host ts) (
    or_inverse (scheme == t.scheme && host_matches t.scheme host t.host) (is_trusted scheme host ts)
      h)
  where
    entry :
        (is_trusted scheme host ts ≡ true → IsListed scheme host ts)
        → (scheme == t.scheme && host_matches t.scheme host t.host ≡ true)
          ⊎ (is_trusted scheme host ts ≡ true)
        → IsListed scheme host (t ∷ ts)
    entry k (inl e) =
        let (same, m) = and_parts (scheme == t.scheme) (host_matches t.scheme host t.host) e in
        inl ((text_beq_iff scheme t.scheme).0 same, host_matches-IsFor t.scheme host t.host m)
    entry k (inr e) = inr (k e)

parts_allowed-IsHome :
    (trusted : List Trusted) (request : Request) (scheme netloc : Text)
    → parts_allowed trusted (lower request.scheme) (lower (host_of_request request)) scheme netloc
      ≡ true
    → IsHome trusted request scheme (strip_default_port scheme netloc)
unfolding parts_allowed
parts_allowed-IsHome trusted request scheme netloc h =
    let host = strip_default_port scheme netloc in
    let own = strip_default_port (lower request.scheme) (lower (host_of_request request)) in
    let (_, e) =
      and_parts (not (is_empty scheme || is_empty host))
        ((scheme == lower request.scheme && host == own) || is_trusted scheme host trusted) h in
    elim (or_inverse (scheme == lower request.scheme && host == own)
      (is_trusted scheme host trusted) e) [
        | inl o ↦
            let (s, t) = and_parts (scheme == lower request.scheme) (host == own) o in
            inl ((text_beq_iff scheme (lower request.scheme)).0 s, (text_beq_iff host own).0 t)
        | inr l ↦ inr (is_trusted-IsListed scheme host trusted l)
      ]

module _ (urlsplit : Split) (trusted : List Trusted) (request : Request) where
  -- What a text that names an origin is split into is at home here.
  abbrev pub IsHomeText : Option (Text × Text) → Type 0
  IsHomeText none = ⊥
  IsHomeText (some (scheme, netloc)) =
      IsHome trusted request (lower scheme) (strip_default_port (lower scheme) (lower netloc))

  -- The origin is at home; without one, a request over https has a secure referer that is.
  abbrev pub IsFromHome : Option Text → Type 0
  IsFromHome (some origin) = IsHomeText (urlsplit origin)
  IsFromHome none =
      lower request.scheme ≡ codes "https"
      → (referer : Text) × (scheme : Text) × (netloc : Text) × (request.headers (codes "Referer")
          ≡ some referer)
        × (urlsplit referer ≡ some (scheme, netloc))
        × (lower scheme ≡ codes "https")
        × IsHomeText (urlsplit (origin_text scheme netloc))

  allowed-IsHomeText :
      (o : Option (Text × Text)) (detail : Text)
      → verdict_of detail
          (origin_allowed trusted (lower request.scheme) (lower (host_of_request request)) o)
        ≡ allowed
      → IsHomeText o
  unfolding origin_allowed
  allowed-IsHomeText none detail h = cc
  allowed-IsHomeText (some (scheme, netloc)) detail h =
      elim (Bool-cases (
        parts_allowed trusted (lower request.scheme) (lower (host_of_request request))
          (lower scheme) (lower netloc))) [
            | inl t ↦ parts_allowed-IsHome trusted request (lower scheme) (lower netloc) t
            | inr f ↦ absurd (refused f h)
          ]
    where
      refused :
          parts_allowed trusted
              (lower request.scheme)
              (lower (host_of_request request))
              (lower scheme)
              (lower netloc)
            ≡ false
          → verdict_of detail (
              some (
                parts_allowed trusted
                  (lower request.scheme)
                  (lower (host_of_request request))
                  (lower scheme)
                  (lower netloc)))
            ≡ allowed
          → ⊥
      refused f = rw f (λ e. cc)

  of_referer-IsHomeText :
      (o : Option (Text × Text))
      → of_referer urlsplit trusted request o ≡ allowed
      → (scheme : Text) × (netloc : Text) × (o ≡ some (scheme, netloc))
        × (lower scheme ≡ codes "https")
        × IsHomeText (urlsplit (origin_text scheme netloc))
  of_referer-IsHomeText none h = cc
  of_referer-IsHomeText (some (scheme, netloc)) h =
      let (_, h1) = unless_refused (is_empty scheme || is_empty netloc) _ _ allowed (λ e. cc) h in
      let (s, h2) = unless_refused (not (lower scheme == codes "https")) _ _ allowed (λ e. cc) h1 in
      (
        scheme,
        netloc,
        refl,
        (text_beq_iff (lower scheme) (codes "https")).0
            (not-false (lower scheme == codes "https") s),
        allowed-IsHomeText (urlsplit (origin_text scheme netloc)) (codes "CSRF referer mismatch")
            h2,
      )

  pub by_origin-IsFromHome :
      (o : Option Text) → by_origin urlsplit trusted request o ≡ allowed → IsFromHome o
  by_origin-IsFromHome (some origin) =
      λ h. allowed-IsHomeText (urlsplit origin) (codes "CSRF origin mismatch") h
  by_origin-IsFromHome none =
      λ h secure. by_text (request.headers (codes "Referer")) (by_scheme secure h)
    where
      by_scheme :
          lower request.scheme ≡ codes "https"
          → by_origin urlsplit trusted request none ≡ allowed
          → by_referer urlsplit trusted request (request.headers (codes "Referer")) ≡ allowed
      by_scheme secure = rw (secure, text_beq_refl (codes "https")) (λ k. k)

      by_text :
          (o : Option Text)
          → by_referer urlsplit trusted request o ≡ allowed
          → (referer : Text) × (scheme : Text) × (netloc : Text) × (o ≡ some referer)
            × (urlsplit referer ≡ some (scheme, netloc))
            × (lower scheme ≡ codes "https")
            × IsHomeText (urlsplit (origin_text scheme netloc))
      by_text none h = cc
      by_text (some []) h = cc
      by_text (some (c ∷ cs)) h =
          let (scheme, netloc, e, s, k) = of_referer-IsHomeText (urlsplit (c ∷ cs)) h in
          (c ∷ cs, scheme, netloc, refl, e, s, k)

-- ===== src/Cors/Keyed.antt =====
-- `Vary: Origin` in the responses of src/veloce/middleware/cors.py.
use veloce.Prelude.{
  or_true, ◌≡◌, refl, ap, ◌∙◌, Bool, true, ◌||◌, Option, none, some, [], ◌∷◌, map, codes, nat_eq,
}
use veloce.Prelude.Dict.{get, put, pop}
use veloce.Headers.HeaderSet
use veloce.Headers.HeaderSet.{HeaderSet, to_header, update, add, contains, empty}
use veloce.Headers.HeaderSet.{run, step, update_call, add_call}
use veloce.Headers.HeaderSet.Laws.{run-IsWellFormed}
use veloce.Cors.{CorsMiddleware, varies_by_origin, resolve_allow_origin}
use veloce.Cors.Response.{Fields, vary, add_vary, vary_at, merge_vary, or_empty, header_key}
use veloce.Cors.Response.Laws.{get-put_same}
use veloce.Cors.Preflight.{add_cors_headers, write_origin, write_vary, write_preflight}
use veloce.Cors.Written.{get-write_preflight, get-write_rest}
use veloce.Headers.Lists.{entries, non_empty}
use veloce.Text.{Text, text_eq, text_beq, text_beq_refl, lower, to_lower, is_in}
use veloce.Text.Strip.{strip, lstrip, rstrip}
use veloce.Headers.HeaderSet.Names.{all-IsPlain, contains-add, Named-to_header}

abbrev pub origin_name : Text
origin_name = codes "Origin"

lower-origin : lower origin_name ≡ codes "origin"
unfolding lower to_lower
lower-origin = refl

merged-well_formed :
    (existing : Text)
    → (add origin_name (HeaderSet.init existing)).lowered
      ≡ map lower (add origin_name (HeaderSet.init existing)).items
unfolding HeaderSet.init run
merged-well_formed existing =
    (run-IsWellFormed (update_call (entries existing) ∷ add_call origin_name ∷ []) empty
      (refl, tt)).0

contains-origin : (s : HeaderSet) → contains origin_name s ≡ is_in (codes "origin") s.lowered
unfolding contains
contains-origin s = ap (λ t. is_in t s.lowered) lower-origin

merge_vary-add :
    (existing : Text)
    → merge_vary existing (origin_name ∷ []) ≡ to_header (add origin_name (HeaderSet.init existing))
unfolding merge_vary update
merge_vary-add existing = refl

origin-add : (s : HeaderSet) → is_in (codes "origin") (add origin_name s).lowered ≡ true
origin-add s =
    contains-add b'o' (codes "rigin") (all-IsPlain (codes "origin") refl) origin_name s
    ∙ ap (λ b. is_in (codes "origin") s.lowered || b)
        (ap (λ t. text_beq t (codes "origin")) lower-origin ∙ text_beq_refl (codes "origin"))
    ∙ or_true (is_in (codes "origin") s.lowered)

-- The merged value names the origin.
merge_vary-contains :
    (existing : Text)
    → contains origin_name (HeaderSet.init (merge_vary existing (origin_name ∷ []))) ≡ true
merge_vary-contains existing =
    let s = add origin_name (HeaderSet.init existing) in
    rw (merge_vary-add existing) (
      contains-origin (HeaderSet.init (to_header s))
      ∙ Named-to_header b'o' (codes "rigin") (all-IsPlain (codes "origin") refl) s
          (merged-well_formed existing) (origin-add (HeaderSet.init existing)))

-- What a cache reads of the `Vary` of a response.
abbrev pub varies_on : Text → Fields → Bool
varies_on name headers = contains name (HeaderSet.init (or_empty (get vary headers)))

varies-put :
    (h : Fields) (value : Text)
    → contains origin_name (HeaderSet.init value) ≡ true
    → varies_on origin_name (put vary value h) ≡ true
varies-put h value e =
    ap (λ o. contains origin_name (HeaderSet.init (or_empty o))) (get-put_same h vary value) ∙ e

alone : contains origin_name (HeaderSet.init origin_name) ≡ true
unfolding contains HeaderSet.init update add entries non_empty strip lstrip rstrip is_in lower
    to_lower text_beq
alone = refl

varies-vary_at :
    (h : Fields) (o : Option Text) → varies_on origin_name (vary_at h (origin_name ∷ []) o) ≡ true
varies-vary_at h (some key) = varies-put (pop key h) _ (merge_vary-contains (or_empty (get key h)))
varies-vary_at h none = varies-put h origin_name alone

varies-add_vary : (h : Fields) → varies_on origin_name (add_vary (origin_name ∷ []) h) ≡ true
unfolding add_vary
varies-add_vary h = varies-vary_at h (header_key h vary)

-- A middleware that answers by origin marks every response with it, the refused ones included: read
-- back, `Vary` names the origin, whatever stood in the headers.
pub add_cors_headers-keyed :
    (m : CorsMiddleware) (h : Fields) (origin : Text) (preflight : Bool)
    → varies_by_origin m ≡ true
    → varies_on origin_name (add_cors_headers m h origin preflight) ≡ true
unfolding add_cors_headers text_beq lower to_lower
add_cors_headers-keyed m h origin preflight hv =
    let o = resolve_allow_origin m origin in
    let first = write_vary m (write_origin m o h) in
    ap (λ r. contains origin_name (HeaderSet.init (or_empty r)))
      (get-write_rest m o (write_preflight m preflight first) vary refl refl
        ∙ get-write_preflight m preflight first vary refl refl)
    ∙ rw hv (varies-add_vary (write_origin m o h))

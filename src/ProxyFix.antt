-- ===== src/ProxyFix.antt =====
-- `ProxyFix` of src/veloce/middleware/proxy_fix.py. The request's headers are a function from the
-- names that the middleware reads to their field lines, as `getall` of the multidict package
-- answers; what it writes to the request is the record `Fixes`.
pub mod Laws
use veloce.Prelude.{
  ℕ, zero, suc, ◌+◌, nat_beq, ◌-◌, Bool, true, false, not, ◌&&◌, ◌||◌, Option, none, some, List, [],
  ◌∷◌, ◌++◌, map, nat_eq, ◌==◌, leb, ltb, length, is_empty, take, drop, get_elem?, codes,
  if◌then◌else◌,
}
use veloce.Prelude.Int.{ℤ, pos, negsuc}
use veloce.Prelude.Dict.{Dict, get, put}
use veloce.Text.{Text, text_eq, lower}
use veloce.Text.Split.{split}
use veloce.Text.Strip.{strip, has_char, partition}
use veloce.Text.Number.{int_of}
use veloce.Headers.Lists.{join_values, entries}
use veloce.Headers.Quoted.{Parts, split_outside_quotes, split_outside_quotes_checked, unquote_value}

pub data HeaderName : Type 0 where
  forwarded x_forwarded_for x_forwarded_proto x_forwarded_host x_forwarded_port x_forwarded_prefix :
      HeaderName

abbrev pub Headers : Type 0
Headers = HeaderName → List Text

pub record ProxyFix : Type 0 where
  pub x_for : ℕ
  pub x_proto : ℕ
  pub x_host : ℕ
  pub x_port : ℕ
  pub x_prefix : ℕ
  pub trust_forwarded : Bool

-- What is written: the client and the port in the request's state, `host` and `proto` to their
-- headers, the scheme, and the prefix. `none` leaves the request as it is. That the middleware has run,
-- and that the URL is to be derived again, is noted of every request, and left out here.
pub record Fixes : Type 0 where
  pub client : Option Text
  pub host : Option Text
  pub port : Option ℕ
  pub proto : Option Text
  pub scheme : Option Text
  pub prefix : Option Text

-- `_hop_header`
unfoldable pub hop_header : List Text → Option Text
unfolding join_values
hop_header [] = none
hop_header (v ∷ vs) = some (join_values (v ∷ vs))

-- xs[-hops], where there are so many
unfoldable pub from_right {ℓ} : {A : Type ℓ} → List A → ℕ → Option A
from_right xs hops =
    if nat_beq hops 0 || ltb (length xs) hops then none else get_elem? xs (length xs - hops)

-- `_pick_hop`
unfoldable pub pick_hop : Option Text → ℕ → Option Text
unfolding entries from_right
pick_hop none hops = none
pick_hop (some []) hops = none
pick_hop (some (c ∷ s)) hops = from_right (entries (c ∷ s)) hops

abbrev starts_with : ℕ → Text → Bool
starts_with c [] = false
starts_with c (d ∷ s) = d == c

-- v.split("]", 1)[0][1:], of a `for` or `by` in brackets
abbrev unbracket : Text → Text → Text
unbracket k v =
    if (k == codes "for" || k == codes "by") && (starts_with b'[' v && has_char b']' v)
    then drop 1 (partition b']' v).0
    else v

-- One pair of an element.
abbrev put_pair : Text → Dict Text Text → Dict Text Text
put_pair pair result =
    let k = lower (strip (partition b'=' pair).0) in
    let stored = put k (unbracket k (unquote_value (partition b'=' pair).1)) result in
    if has_char b'=' pair then stored else result

unfoldable pub put_pairs : List Text → Dict Text Text → Dict Text Text
put_pairs [] result = result
put_pairs (pair ∷ pairs) result = put_pairs pairs (put_pair (strip pair) result)

-- `_parse_forwarded_element`
unfoldable pub parse_forwarded_element : Text → Dict Text Text
unfolding put_pairs split_outside_quotes
parse_forwarded_element element = put_pairs (split_outside_quotes element b';') []

-- [e for e in raw if e.strip()]
unfoldable pub elements_of : List Text → List Text
elements_of [] = []
elements_of (e ∷ es) = let rest = elements_of es in if is_empty (strip e) then rest else e ∷ rest

-- if val: ...
abbrev pub truthy : Option Text → Option Text
truthy none = none
truthy (some []) = none
truthy (some (c ∷ s)) = some (c ∷ s)

abbrev pub get_from : Text → Option (Dict Text Text) → Option Text
get_from directive none = none
get_from directive (some d) = get directive d

-- What is selected from the elements.
pub record Directives : Type 0 where
  pub for_ : Option Text
  pub proto : Option Text
  pub host : Option Text
  pub prefix : Option Text

abbrev pub no_directives : Directives
no_directives = record { for_ = none; proto = none; host = none; prefix = none }

unfoldable pub select : Text → ℕ → List (Dict Text Text) → Option Text
unfolding from_right
select directive hops parsed = truthy (get_from directive (from_right parsed hops))

unfoldable pub select_all : ProxyFix → List (Dict Text Text) → Directives
unfolding select
select_all p parsed = record {
  for_ = select (codes "for") p.x_for parsed;
  proto = select (codes "proto") p.x_proto parsed;
  host = select (codes "host") p.x_host parsed;
  prefix = select (codes "prefix") p.x_prefix parsed;
}

abbrev pub of_parts : ProxyFix → Parts → Directives
of_parts p (raw, unterminated) =
    if unterminated
    then no_directives
    else select_all p (map parse_forwarded_element (elements_of raw))

-- `_parse_forwarded`
unfoldable pub parse_forwarded : ProxyFix → Text → Directives
unfolding select_all elements_of parse_forwarded_element split_outside_quotes_checked
parse_forwarded p value = of_parts p (split_outside_quotes_checked value b',')

-- `_extract_host` of src/veloce/_internal.py, without its lower-casing
unfoldable pub count_char : ℕ → Text → ℕ
count_char c [] = 0
count_char c (d ∷ s) = (if d == c then 1 else 0) + count_char c s

unfoldable pub extract_host : Text → Text
unfolding count_char partition has_char
extract_host raw =
    if has_char b'[' raw
    then drop 1 (partition b']' raw).0
    else if leb 2 (count_char b':' raw)
    then raw
    else (partition b':' raw).0

-- `_header_value_has_crlf`
unfoldable pub has_crlf : Text → Bool
unfolding has_char
has_crlf value = has_char 13 value || (has_char 10 value || has_char 0 value)

abbrev pub is_illegal : Option Text → Bool
is_illegal none = false
is_illegal (some v) = has_crlf v

-- The number of a port that is in range.
abbrev pub in_range : Option ℤ → Option ℕ
in_range none = none
in_range (some (negsuc n)) = none
in_range (some (pos n)) = if ltb 0 n && leb n 65535 then some n else none

abbrev pub port_number : Option Text → Option ℕ
port_number none = none
port_number (some v) = in_range (int_of v)

abbrev pub map_text : (Text → Text) → Option Text → Option Text
map_text f none = none
map_text f (some v) = some (f v)

abbrev pub or_pick : Option Text → Option Text → Option Text
or_pick none picked = picked
or_pick (some v) picked = some v

-- What the headers say, before it is checked.
pub record Picked : Type 0 where
  pub client : Option Text
  pub proto : Option Text
  pub host : Option Text
  pub port : Option Text
  pub prefix : Option Text

-- The value of a trusted `Forwarded` header.
abbrev pub forwarded_of : ProxyFix → Headers → Option Text
forwarded_of p h = if p.trust_forwarded then truthy (hop_header (h forwarded)) else none

unfoldable pub pick : ProxyFix → Headers → Option Text → Picked
unfolding parse_forwarded pick_hop hop_header
pick p h none = record {
  client = truthy (pick_hop (hop_header (h x_forwarded_for)) p.x_for);
  proto = truthy (pick_hop (hop_header (h x_forwarded_proto)) p.x_proto);
  host = truthy (pick_hop (hop_header (h x_forwarded_host)) p.x_host);
  port = truthy (pick_hop (hop_header (h x_forwarded_port)) p.x_port);
  prefix = truthy (pick_hop (hop_header (h x_forwarded_prefix)) p.x_prefix);
}
pick p h (some value) =
    let fwd = parse_forwarded p value in
    record {
      client = fwd.for_;
      proto = fwd.proto;
      host = fwd.host;
      port = truthy (pick_hop (hop_header (h x_forwarded_port)) p.x_port);
      prefix =
          or_pick fwd.prefix (truthy (pick_hop (hop_header (h x_forwarded_prefix)) p.x_prefix));
    }

-- `none` is ValueError, for a value that would be a header injection.
unfoldable pub fixes_of : Picked → Option Fixes
unfolding has_crlf extract_host int_of
fixes_of k =
    if is_illegal k.client
      || (is_illegal k.proto || (is_illegal k.host || (is_illegal k.port || is_illegal k.prefix)))
    then none
    else some (record {
      client = map_text extract_host k.client;
      host = k.host;
      port = port_number k.port;
      proto = k.proto;
      scheme = map_text lower k.proto;
      prefix = k.prefix;
    })

unfoldable pub process_request : ProxyFix → Headers → Option Fixes
unfolding pick fixes_of
process_request p h = fixes_of (pick p h (forwarded_of p h))

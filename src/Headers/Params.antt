-- ===== src/Headers/Params.antt =====
-- `parse_header_params` and `parse_media_type_params` of src/veloce/_header_parsing.py.
pub mod Laws
use veloce.Prelude.{
  ℕ, ◌-◌, Bool, true, false, not, ◌&&◌, Option, none, some, List, [], ◌∷◌, ◌++◌, nat_eq, ◌==◌,
  length, is_empty, take, drop, if◌then◌else◌,
}
use veloce.Prelude.Dict.{Dict, put}
use veloce.Text.{Text, text_eq, lower}
use veloce.Text.Split.{split}
use veloce.Text.Strip.{strip, lstrip, rstrip, has_char, partition}
use veloce.Headers.Quoted.{quote, backslash}

-- (raw, first_quote_open, last_quote_close), `none` for -1
pub record Token : Type 0 where
  pub raw : Text
  pub quote_open : Option ℕ
  pub quote_close : Option ℕ

abbrev pub or_here : Option ℕ → ℕ → Option ℕ
or_here none i = some i
or_here (some j) i = some j

-- The loop: what the token has so far, whether it is in a quoted string, and the text from here on.
module _ (delimiter : ℕ) (unescape : Bool) where
  unfoldable pub tokens : Token → Bool → Text → List Token
  tokens t in_quotes [] = t ∷ []
  tokens t true (c ∷ []) =
      if c == quote
      then record t { quote_close = some (length t.raw) } ∷ []
      else record t { raw = t.raw ++ (c ∷ []) } ∷ []
  tokens t true (c ∷ d ∷ s) =
      let escaped =
        tokens (record t { raw = t.raw ++ (if unescape then d ∷ [] else c ∷ d ∷ []) }) true s in
      let closed = tokens (record t { quote_close = some (length t.raw) }) false (d ∷ s) in
      let on = tokens (record t { raw = t.raw ++ (c ∷ []) }) true (d ∷ s) in
      if c == backslash then escaped else if c == quote then closed else on
  tokens t false (c ∷ s) =
      let opened = tokens (record t { quote_open = or_here t.quote_open (length t.raw) }) true s in
      let cut = tokens (record { raw = []; quote_open = none; quote_close = none }) false s in
      let on = tokens (record t { raw = t.raw ++ (c ∷ []) }) false s in
      if c == quote then opened else if c == delimiter then t ∷ cut else on

abbrev pub no_token : Token
no_token = record { raw = []; quote_open = none; quote_close = none }

-- max(quote - offset, 0)
abbrev pub behind : Option ℕ → ℕ → ℕ
behind none offset = 0
behind (some i) offset = i - offset

-- The value, with whitespace trimmed outside of what was quoted.
abbrev pub value_of : Option ℕ → Option ℕ → Text → Text → Text
value_of quote_open none raw val = strip val
value_of quote_open (some close) raw val =
    let offset = length raw - length val in
    let head_end = behind quote_open offset in
    let tail_start = close - offset in
    lstrip (take head_end val)
    ++ (drop head_end (take tail_start val) ++ rstrip (drop tail_start val))

-- `prefix`, `first` and `params`
abbrev pub State : Type 0
State = Text × Bool × Dict Text Text

abbrev pub put_prefix : Text → State → State
put_prefix stripped (prefix, first, params) =
    (if not (is_empty stripped) && first then stripped else prefix, false, params)

abbrev pub put_value : Text → Text → State → State
put_value key value (prefix, first, params) =
    (prefix, false, if is_empty key then params else put key value params)

-- A round of the loop over the tokens.
unfoldable pub add_token : Token → State → State
unfolding has_char partition strip lower lstrip rstrip
add_token t st =
    let val = (partition b'=' t.raw).1 in
    if not (has_char b'=' t.raw)
    then put_prefix (strip t.raw) st
    else put_value (lower (strip (partition b'=' t.raw).0))
        (value_of t.quote_open t.quote_close t.raw val) st

unfoldable pub add_tokens : List Token → State → State
unfolding add_token
add_tokens [] st = st
add_tokens (t ∷ ts) st = add_tokens ts (add_token t st)

unfoldable pub parse_header_params : Text → ℕ → Bool → Text × Dict Text Text
unfolding tokens add_tokens
parse_header_params value delimiter unescape =
    let (prefix, first, params) =
      add_tokens (tokens delimiter unescape no_token false value) ([], true, []) in
    (prefix, params)

-- The pairs of chunks that hold no quote.
unfoldable pub plain_pairs : List Text → List (Text × Text)
unfolding has_char partition strip lower
plain_pairs [] = []
plain_pairs (chunk ∷ chunks) =
    let key = lower (strip (partition b'=' chunk).0) in
    let rest = plain_pairs chunks in
    if has_char b'=' chunk && not (is_empty key)
    then (key, strip (partition b'=' chunk).1) ∷ rest
    else rest

unfoldable pub parse_media_type_params : Text → List (Text × Text)
unfolding plain_pairs split parse_header_params has_char
parse_media_type_params rest =
    if not (has_char quote rest)
    then plain_pairs (split b';' rest)
    else (parse_header_params rest b';' true).1

-- ===== src/Routing/Converters/Args.antt =====
-- `_coerce_arg` and `_parse_converter_args` of src/veloce/routing/converters.py. `float` of a text is a
-- parameter; identifiers are those of ASCII.
use veloce.Prelude.{
  ℕ, Bool, true, false, not, ◌&&◌, ◌||◌, Option, none, some, List, [], ◌∷◌, ◌++◌, nat_eq, ◌==◌, leb,
  is_empty, all, codes, if◌then◌else◌,
}
use veloce.Prelude.Int.{ℤ}
use veloce.Prelude.Dict.{Dict, has, put}
use veloce.Text.{Text, text_eq, lower}
use veloce.Text.Split.{split}
use veloce.Text.Strip.{strip, has_char, partition}
use veloce.Text.Number.{is_digit, int_of}

pub data Arg (F : Type 0) : Type 0 where
  int_arg : ℤ → Arg F
  float_arg : F → Arg F
  bool_arg : Bool → Arg F
  text_arg : Text → Arg F

-- The text without its last character, if that is `c`.
unfoldable pub drop_last : ℕ → Text → Option Text
drop_last c [] = none
drop_last c (d ∷ []) = if d == c then some [] else none
drop_last c (d ∷ e ∷ s) = elim (drop_last c (e ∷ s)) [ none ↦ none | some t ↦ some (d ∷ t) ]

abbrev or_whole : Option Text → Text → Text
or_whole none s = s
or_whole (some t) s = t

-- raw[1:-1] of a text in quotes
unfoldable pub unquoted : Text → Text
unfolding drop_last
unquoted [] = []
unquoted (c ∷ s) = if c == 34 || c == 39 then or_whole (drop_last c s) (c ∷ s) else c ∷ s

abbrev pub is_identifier_start : ℕ → Bool
is_identifier_start c = (leb 65 c && leb c 90) || ((leb 97 c && leb c 122) || c == b'_')

abbrev pub is_identifier_char : ℕ → Bool
is_identifier_char c = is_identifier_start c || is_digit c

-- key.isidentifier()
abbrev pub is_identifier : Text → Bool
is_identifier [] = false
is_identifier (c ∷ s) = is_identifier_start c && all is_identifier_char s

-- Positional and keyword arguments.
abbrev pub Args : Type 0 → Type 0
Args F = List (Arg F) × Dict Text (Arg F)

module _ {F : Type 0} (float_of : Text → Option F) where
  abbrev coerce_word : Text → Arg F
  coerce_word raw =
      let low = lower raw in
      if low == codes "true"
      then bool_arg true
      else if low == codes "false"
      then bool_arg false
      else text_arg (unquoted raw)

  abbrev coerce_float : Option F → Text → Arg F
  coerce_float (some f) raw = float_arg f
  coerce_float none raw = coerce_word raw

  abbrev coerce_int : Option ℤ → Text → Arg F
  coerce_int (some n) raw = int_arg n
  coerce_int none raw = coerce_float (float_of raw) raw

  unfoldable pub coerce_arg : Text → Arg F
  unfolding int_of lower unquoted
  coerce_arg raw = coerce_int (int_of raw) raw

  -- A keyword argument; `none` is ValueError.
  unfoldable pub add_keyword : Text → Text → Args F → Option (Args F)
  unfolding coerce_arg
  add_keyword key raw (args, kwargs) =
      if not (is_identifier key)
      then none
      else if is_empty raw
      then none
      else if has key kwargs
      then none
      else some (args, put key (coerce_arg raw) kwargs)

  unfoldable pub add_token : Text → Args F → Option (Args F)
  unfolding add_keyword has_char partition strip
  add_token token (args, kwargs) =
      if is_empty token
      then none
      else if has_char b'=' token
      then add_keyword (strip (partition b'=' token).0) (strip (partition b'=' token).1)
          (args, kwargs)
      else if not (is_empty kwargs)
      then none
      else some (args ++ (coerce_arg token ∷ []), kwargs)

  unfoldable pub add_tokens : List Text → Option (Args F) → Option (Args F)
  unfolding add_token strip
  add_tokens tokens none = none
  add_tokens [] (some args) = some args
  add_tokens (token ∷ tokens) (some args) = add_tokens tokens (add_token (strip token) args)

  unfoldable pub parse_converter_args : Text → Option (Args F)
  unfolding add_tokens split strip
  parse_converter_args body =
      let stripped = strip body in
      if is_empty stripped then some ([], []) else add_tokens (split b',' stripped) (some ([], []))

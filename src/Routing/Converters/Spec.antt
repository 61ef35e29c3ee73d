-- ===== src/Routing/Converters/Spec.antt =====
-- `parse_converter` of src/veloce/routing/converters.py, and the registry of converters. The classes
-- are parameters: `construct` calls one with arguments.
use veloce.Prelude.{
  Bool, true, false, not, ◌&&◌, ◌||◌, Option, none, some, List, [], ◌∷◌, nat_eq, ◌==◌, is_empty,
  codes, map, if◌then◌else◌, and_then,
}
use veloce.Prelude.Dict.{Dict, get, has, put, pop}
use veloce.Text.{Text, text_eq, is_in}
use veloce.Text.Split.{split}
use veloce.Text.Strip.{strip, lstrip}
use veloce.Routing.Converters.Args.{
  Args, drop_last, is_identifier_start, is_identifier_char, parse_converter_args,
}

-- The keys of _BUILTIN
abbrev pub builtin_names : List Text
builtin_names =
    codes "str"
    ∷ codes "string"
    ∷ codes "int"
    ∷ codes "float"
    ∷ codes "uuid"
    ∷ codes "path"
    ∷ codes "date"
    ∷ codes "datetime"
    ∷ codes "time"
    ∷ codes "timedelta"
    ∷ codes "decimal"
    ∷ []

-- _PARAMETRIZED
abbrev pub parametrized : List Text
parametrized = codes "str" ∷ codes "string" ∷ codes "int" ∷ codes "float" ∷ []

unfoldable pub strip_prefix : Text → Text → Option Text
strip_prefix [] s = some s
strip_prefix (p ∷ ps) [] = none
strip_prefix (p ∷ ps) (c ∷ s) = if c == p then strip_prefix ps s else none

-- spec[4:-1], where spec.startswith("any(") and spec.endswith(")")
unfoldable pub any_body : Text → Option Text
unfolding drop_last strip_prefix
any_body s = and_then (strip_prefix (codes "any(") s) (drop_last b')')

-- The longest run of identifier characters, and what follows it.
unfoldable pub take_identifier : Text → Text × Text
take_identifier [] = ([], [])
take_identifier (c ∷ s) =
    let (name, rest) = take_identifier s in
    if is_identifier_char c then (c ∷ name, rest) else ([], c ∷ s)

abbrev pub starts_identifier : Text → Bool
starts_identifier [] = false
starts_identifier (c ∷ s) = is_identifier_start c

-- `(.*)\)$`, where `$` also stands before a last line feed
abbrev pub closed_body : Text → Option Text → Option Text
closed_body s (some body) = some body
closed_body s none = and_then (drop_last 10 s) (drop_last b')')

abbrev pub opened_body : Text → Option Text
opened_body [] = none
opened_body (c ∷ s) = if c == b'(' then closed_body s (drop_last b')' s) else none

abbrev pub with_name : Text → Option Text → Option (Text × Text)
with_name name none = none
with_name name (some body) = some (name, body)

-- _PARAM_SPEC_RE
unfoldable pub param_spec : Text → Option (Text × Text)
unfolding take_identifier drop_last lstrip
param_spec spec =
    let (name, rest) = take_identifier spec in
    if starts_identifier name then with_name name (opened_body (lstrip rest)) else none

abbrev pub is_line_end : Text → Bool
is_line_end [] = true
is_line_end (c ∷ []) = c == 10
is_line_end (c ∷ d ∷ s) = false

-- `_looks_like_regex`: _BARE_IDENT_RE does not match.
unfoldable pub looks_like_regex : Text → Bool
unfolding take_identifier
looks_like_regex conv =
    let (name, rest) = take_identifier conv in not (starts_identifier name && is_line_end rest)

abbrev pub is_parametrized_name : Option (Text × Text) → Bool
is_parametrized_name none = false
is_parametrized_name (some (name, body)) = is_in name parametrized

-- `_is_parametrized_spec`
unfoldable pub is_parametrized_spec : Text → Bool
unfolding param_spec is_in
is_parametrized_spec spec = is_parametrized_name (param_spec spec)

abbrev pub is_some {ℓ} : {A : Type ℓ} → Option A → Bool
is_some none = false
is_some (some a) = true

module _ {C : Type 0} where
  -- `register_converter` of a converter's class; `none` is ValueError.
  unfoldable pub register_converter : Text → C → Dict Text C → Option (Dict Text C)
  unfolding is_in
  register_converter name converter_cls custom =
      if is_in name builtin_names then none else some (put name converter_cls custom)

  unfoldable pub unregister_converter : Text → Dict Text C → Option (Dict Text C)
  unfolding is_in
  unregister_converter name custom =
      if is_in name builtin_names then none else some (pop name custom)

  -- `_is_tree_expressible_spec`
  unfoldable pub is_tree_expressible_spec : Dict Text C → Text → Bool
  unfolding any_body is_in is_parametrized_spec
  is_tree_expressible_spec custom spec =
      is_empty spec
      || (is_some (any_body spec)
          || ((is_in spec builtin_names || has spec custom) || is_parametrized_spec spec))

-- The classes: the built-in ones by their name, called with arguments or without, `AnyConverter` of
-- its choices, and a custom class called without arguments. `none` is ValueError or TypeError.
pub record Classes (F C D : Type 0) : Type 0 where
  pub construct : Text → Args F → Option D
  pub builtin : Text → D
  pub any_converter : List Text → D
  pub custom : C → D

module _ {F C D : Type 0} (float_of : Text → Option F) (classes : Classes F C D) where
  abbrev parse_any : Text → Option D
  parse_any body =
      if is_empty (strip body)
      then none
      else some (classes.any_converter (map strip (split b',' (strip body))))

  abbrev construct_args : Text → Option (Args F) → Option D
  construct_args name none = none
  construct_args name (some args) = classes.construct name args

  unfoldable pub parse_parametrized : Text → Text → Option D
  unfolding is_in parse_converter_args
  parse_parametrized name body =
      if not (is_in name parametrized)
      then none
      else construct_args name (parse_converter_args float_of body)

  abbrev of_class : Option C → Option D
  of_class none = none
  of_class (some converter_cls) = some (classes.custom converter_cls)

  -- A spec without arguments.
  unfoldable pub parse_name : Dict Text C → Text → Option D
  unfolding is_in
  parse_name registry spec =
      if is_in spec builtin_names then some (classes.builtin spec) else of_class (get spec registry)

  abbrev parse_other : Dict Text C → Text → Option (Text × Text) → Option D
  parse_other registry spec (some (name, body)) = parse_parametrized name body
  parse_other registry spec none = parse_name registry spec

  abbrev parse_spec : Dict Text C → Text → Option Text → Option D
  parse_spec registry spec (some body) = parse_any body
  parse_spec registry spec none = parse_other registry spec (param_spec spec)

  -- `parse_converter` of a text, which may be empty
  unfoldable pub parse_converter : Dict Text C → Text → Option D
  unfolding parse_parametrized parse_name any_body param_spec strip split
  parse_converter registry spec =
      if is_empty spec
      then some (classes.builtin (codes "str"))
      else parse_spec registry spec (any_body spec)

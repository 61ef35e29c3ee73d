-- ===== src/Routing/Converters/RegexPath.antt =====
-- `is_regex_path`, `extract_regex_converters` and `path_param_converters` of
-- src/veloce/routing/converters.py.
use veloce.Prelude.{
  Bool, true, false, not, ◌&&◌, ◌||◌, Option, none, some, List, [], ◌∷◌, nat_eq, nat_beq, ◌==◌,
  is_empty, length, codes, if◌then◌else◌,
}
use veloce.Prelude.Dict.{Dict, has, put}
use veloce.Text.{Text, text_eq, is_in}
use veloce.Text.Split.{split}
use veloce.Headers.Lists.{non_empty}
use veloce.Routing.Converters.Spec.{
  builtin_names, any_body, is_some, looks_like_regex, is_parametrized_spec,
  is_tree_expressible_spec, Classes, parse_converter,
}
use veloce.Routing.Converters.Placeholders.{Placeholder, iter_placeholders}

-- The text of a spec, empty for None.
abbrev spec_text : Option Text → Text
spec_text none = []
spec_text (some s) = s

abbrev is_whole : Text → List Placeholder → Bool
is_whole seg [] = true
is_whole seg (p ∷ []) = nat_beq p.start 0 && nat_beq p.end (length seg)
is_whole seg (p ∷ q ∷ ps) = false

module _ {C : Type 0} (custom : Dict Text C) where
  -- Whether a placeholder's spec forces the regex; `last` is that its segment is the last.
  unfoldable pub forces : Bool → Text → Bool
  unfolding is_tree_expressible_spec looks_like_regex
  forces last spec =
      (not (is_empty spec) && (not (is_tree_expressible_spec custom spec) && looks_like_regex spec))
      || (spec == codes "path" && not last)

  unfoldable pub any_forces : Bool → List Placeholder → Bool
  unfolding forces
  any_forces last [] = false
  any_forces last (p ∷ ps) = forces last (spec_text p.spec) || any_forces last ps

  -- The loop over the segments.
  unfoldable pub is_forced : List Text → Bool
  unfolding any_forces iter_placeholders
  is_forced [] = false
  is_forced (seg ∷ segs) =
      (not (is_whole seg (iter_placeholders seg))
        || any_forces (is_empty segs) (iter_placeholders seg))
      || is_forced segs

  -- `_validate_bare_word_spec`: whether it raises no ValueError
  unfoldable pub is_valid_spec : Text → Bool
  unfolding looks_like_regex is_tree_expressible_spec
  is_valid_spec spec =
      is_empty spec
      || (looks_like_regex spec || (not (has spec custom) && is_tree_expressible_spec custom spec))

  unfoldable pub all_valid : List Placeholder → Bool
  unfolding is_valid_spec
  all_valid [] = true
  all_valid (p ∷ ps) = is_valid_spec (spec_text p.spec) && all_valid ps

  unfoldable pub all_segments_valid : List Text → Bool
  unfolding all_valid iter_placeholders
  all_segments_valid [] = true
  all_segments_valid (seg ∷ segs) = all_valid (iter_placeholders seg) && all_segments_valid segs

  -- `none` is ValueError.
  unfoldable pub is_regex_path : Text → Option Bool
  unfolding is_forced all_segments_valid split non_empty
  is_regex_path path =
      let segments = non_empty (split b'/' path) in
      if is_forced segments
      then if all_segments_valid segments then some true else none
      else some false

  module _ {F D : Type 0} (float_of : Text → Option F) (classes : Classes F C D) where
    -- converters[name] = parse_converter(spec), or its ValueError
    abbrev put_parsed : Text → Option D → Dict Text D → Option (Dict Text D)
    put_parsed name none converters = none
    put_parsed name (some c) converters = some (put name c converters)

    abbrev is_named : Text → Bool
    is_named spec =
        is_in spec builtin_names || (is_parametrized_spec spec || is_some (any_body spec))

    -- The loop over the placeholders whose spec passes `keeps`.
    unfoldable pub converters_of :
        (Text → Bool) → List Placeholder → Option (Dict Text D) → Option (Dict Text D)
    unfolding parse_converter
    converters_of keeps ps none = none
    converters_of keeps [] (some converters) = some converters
    converters_of keeps (p ∷ ps) (some converters) =
        let spec = spec_text p.spec in
        let parsed = put_parsed p.name (parse_converter float_of classes custom spec) converters in
        converters_of keeps ps
          (if is_empty spec || not (keeps spec) then some converters else parsed)

    unfoldable pub extract_regex_converters : Text → Option (Dict Text D)
    unfolding converters_of iter_placeholders is_in is_parametrized_spec any_body
    extract_regex_converters path = converters_of is_named (iter_placeholders path) (some [])

    -- A built-in or custom name, or a parametrized one.
    unfoldable pub has_converter : Text → Bool
    unfolding any_body is_parametrized_spec looks_like_regex
    has_converter spec =
        is_some (any_body spec) || (is_parametrized_spec spec || not (looks_like_regex spec))

    unfoldable pub path_param_converters : Text → Option (Dict Text D)
    unfolding converters_of iter_placeholders has_converter
    path_param_converters template =
        converters_of has_converter (iter_placeholders template) (some [])

-- ===== src/Routing/Converters/RouteRegex.antt =====
-- `build_route_regex` of src/veloce/routing/converters.py; `escape`, re.escape, is a parameter.
pub mod Laws
use veloce.Prelude.{
  ℕ, Bool, Option, none, some, List, [], ◌∷◌, ◌++◌, nat_eq, ◌==◌, take, drop, codes, map,
  if◌then◌else◌,
}
use veloce.Prelude.Dict.{Dict, get}
use veloce.Text.{Text, text_eq, is_in}
use veloce.Text.Split.{split, join}
use veloce.Text.Strip.{strip}
use veloce.Routing.Converters.Spec.{any_body, param_spec, parametrized}
use veloce.Routing.Converters.Placeholders.{Placeholder, iter_placeholders}

abbrev uuid_pattern : Text
uuid_pattern = codes "[0-9a-fA-F]{8}-[0-9a-fA-F]{4}-[0-9a-fA-F]{4}-[0-9a-fA-F]{4}-[0-9a-fA-F]{12}"

-- _BUILTIN_REGEX
abbrev pub builtin_regex : Dict Text Text
builtin_regex =
    (codes "str", codes "[^/]+")
    ∷ (codes "string", codes "[^/]+")
    ∷ (codes "int", codes "-?\\d+")
    ∷ (codes "float", codes "[+-]?(?:\\d+\\.\\d*|\\.\\d+)")
    ∷ (codes "uuid", uuid_pattern)
    ∷ (codes "path", codes ".+")
    ∷ (codes "date", codes "\\d{4}-\\d{2}-\\d{2}")
    ∷ (codes "datetime", codes "\\d{4}-\\d{2}-\\d{2}[T ][\\d:.]+(?:[+-][\\d:]+|Z)?")
    ∷ (codes "time", codes "\\d{2}:\\d{2}(?::\\d{2}(?:\\.\\d+)?)?(?:[+-][\\d:]+|Z)?")
    ∷ (codes "timedelta", codes "P(?:\\d+D)?(?:T(?:\\d+H)?(?:\\d+M)?(?:\\d+(?:\\.\\d+)?S)?)?")
    ∷ (codes "decimal", codes "[+-]?\\d+(?:\\.\\d+)?")
    ∷ []

-- f"(?P<{name}>{body})"
abbrev pub group : Text → Text → Text
group name body = codes "(?P<" ++ (name ++ (codes ">" ++ (body ++ codes ")")))

abbrev pub or_text : Option Text → Text → Text
or_text none t = t
or_text (some s) t = s

-- _BUILTIN_REGEX[name] of a parametrized spec, or the spec as it is
abbrev pub base_fragment : Text → Option (Text × Text) → Text
base_fragment conv none = conv
base_fragment conv (some (name, args)) =
    let fragment = or_text (get name builtin_regex) [] in
    if is_in name parametrized then fragment else conv

-- path[i:j]
abbrev pub slice : ℕ → ℕ → Text → Text
slice i j s = drop i (take j s)

module _ (escape : Text → Text) where
  abbrev pub fragment_of : Text → Option Text → Option Text → Text
  fragment_of conv (some builtin) any = builtin
  fragment_of conv none (some body) =
      join b'|' (map (λ (c : Text). escape (strip c)) (split b',' body))
  fragment_of conv none none = base_fragment conv (param_spec conv)

  -- `_emit_placeholder`
  unfoldable pub emit_placeholder : Text → Option Text → Text
  unfolding get is_in any_body param_spec split join strip
  emit_placeholder name none = group name (codes "[^/]+")
  emit_placeholder name (some conv) =
      group name (fragment_of conv (get conv builtin_regex) (any_body conv))

  -- The loop, from `pos` on.
  unfoldable pub emit_from : ℕ → Text → List Placeholder → Text
  unfolding emit_placeholder
  emit_from pos path [] = escape (drop pos path)
  emit_from pos path (p ∷ ps) =
      escape (slice pos p.start path) ++ (emit_placeholder p.name p.spec ++ emit_from p.end path ps)

  -- The text that is compiled.
  unfoldable pub build_route_regex : Text → Text
  unfolding emit_from iter_placeholders
  build_route_regex path = b'^' ∷ (emit_from 0 path (iter_placeholders path) ++ (b'$' ∷ []))

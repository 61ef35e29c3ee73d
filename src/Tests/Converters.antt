-- ===== src/Tests/Converters.antt =====
-- Tests of Routing.Converters.
use veloce.Prelude.{
  ℕ, ◌≡◌, refl, true, false, none, some, List, [], ◌∷◌, ◌++◌, codes, nat_eq, ◌==◌, if◌then◌else◌,
  arith,
}
use veloce.Text.Strip.{has_char}
use veloce.Prelude.Int.{pos, negsuc}
use veloce.Text.{Text, text_beq}
use veloce.Prelude.Dict.{get, has, put}
use veloce.Routing.Node.{text, number, object}
use veloce.Routing.Converters.{rejects, coerces, value_error}
use veloce.Routing.Converters.Str
use veloce.Routing.Converters.Number
use veloce.Routing.Converters.Number.{IntConverter}
use veloce.Routing.Converters.Literal
use veloce.Routing.Converters.Args.{int_arg, text_arg, bool_arg, parse_converter_args}
use veloce.Routing.Converters.Spec.{Classes, parse_converter}
use veloce.Routing.Converters.RegexPath.{is_regex_path, path_param_converters}
use veloce.Routing.Converters.Placeholders.Laws.{Part, written, no_char, char, nest}
use veloce.Routing.Converters.RouteRegex.{build_route_regex}
use veloce.Routing.Converters.RouteRegex.Laws.{regex_of, build_route_regex-written}

abbrev page : IntConverter
page = record { min = some (pos 1); max = none; signed = true }

-- A superscript passes `isdigit`, and `int` refuses it.
int_tests :
    (Number.match page (codes "12") ≡ coerces (number (pos 12)))
    × (Number.match page (codes "-3") ≡ rejects)
    × (Number.match page (codes "0") ≡ rejects)
    × (Number.match page (codes "1_0") ≡ rejects)
    × (Number.match page (178 ∷ []) ≡ value_error)
unfolding Number.match
int_tests = (refl, refl, refl, refl, refl)

str_tests :
    (Str.init (some (pos 2)) (some (pos 1)) none ≡ none)
    × (Str.init none none (some (pos 0)) ≡ none)
    × (Str.match (record { minlength = pos 2; maxlength = some (pos 2) }) (codes "de")
        ≡ coerces (text (codes "de")))
    × (Str.match (record { minlength = pos 2; maxlength = some (pos 2) }) (codes "deu") ≡ rejects)
unfolding Str.init Str.match
str_tests = (refl, refl, refl, refl)

uuid_tests :
    (Literal.match_uuid (codes "00000000-0000-0000-0000-0000000000fF") ≡ coerces (object 255))
    × (Literal.match_uuid (codes "00000000-0000-0000-000000000-0000fF0") ≡ rejects)
unfolding Literal.match_uuid
uuid_tests = (refl, refl)

-- A converter, for what `parse_converter` would build.
abbrev classes : Classes ℕ ℕ Text
classes = record {
  construct = λ name args. some name;
  builtin = λ name. name;
  any_converter = λ choices. codes "any";
  custom = λ n. n ∷ [];
}

spec_tests :
    (parse_converter (λ s. none) classes [] (codes "int(min=1)") ≡ some (codes "int"))
    × (parse_converter (λ s. none) classes [] (codes "uuid(1)") ≡ none)
    × (parse_converter (λ s. none) classes [] (codes "any( )") ≡ none)
    × (parse_converter (λ s. none) classes ((codes "slug", 9) ∷ []) (codes "slug") ≡ some (9 ∷ []))
    × (parse_converter_args {F = ℕ} (λ s. none) (codes "1, x=-2,y=true,z='q'")
        ≡ some (
          int_arg (pos 1) ∷ [],
          (codes "x", int_arg (negsuc 1))
              ∷ (codes "y", bool_arg true)
              ∷ (codes "z", text_arg (codes "q"))
              ∷ [],
        ))
unfolding parse_converter parse_converter_args text_beq has get put
spec_tests = (refl, refl, refl, refl, refl)

-- `re.escape` of texts whose only special character is the dot
abbrev escape_dots : Text → Text
escape_dots [] = []
escape_dots (c ∷ s) = let rest = escape_dots s in if c == b'.' then b'\\' ∷ c ∷ rest else c ∷ rest

template_tests :
    (is_regex_path {C = ℕ} [] (codes "/users/{id:int(min=1)}") ≡ some false)
    × (is_regex_path {C = ℕ} [] (codes "/{id:[0-9]{2}}") ≡ some true)
    × (is_regex_path {C = ℕ} [] (codes "/{p:path}/x") ≡ some true)
    × (is_regex_path {C = ℕ} [] (codes "/v{version:int}/{id:bogus}") ≡ none)
    × (path_param_converters [] (λ s. none) classes (codes "/{a}/{b:int}/{c:[0-9]+}")
        ≡ some ((codes "b", codes "int") ∷ []))
    × (build_route_regex escape_dots (codes "/v{n:d{2}}.{ext}/{k:any(a, b.c)}{m:float(min=1)}/x")
        ≡ codes
            "^/v(?P<n>d{2})\\.(?P<ext>[^/]+)/(?P<k>a|b\\.c)(?P<m>[+-]?(?:\\d+\\.\\d*|\\.\\d+))/x$")
unfolding is_regex_path path_param_converters build_route_regex text_beq has get put
template_tests = (refl, refl, refl, refl, refl, refl)

-- The template `/v{n:d{2}}.{ext}/x`
abbrev parts : List Part
parts =
    record { before = codes "/v"; name = codes "n"; spec = some (codes "d{2}") }
    ∷ record { before = codes "."; name = codes "ext"; spec = none }
    ∷ []

build_route_regex-written_example :
    build_route_regex escape_dots (written parts (codes "/x"))
    ≡ b'^' ∷ (regex_of escape_dots parts (codes "/x") ++ (b'$' ∷ []))
unfolding has_char
build_route_regex-written_example =
    build_route_regex-written escape_dots parts (codes "/x")
      (
        (
          refl,
          refl,
          char b'n' (λ e. omega (arith, e)) (λ e. omega (arith, e))
              (char b':' (λ e. omega (arith, e)) (λ e. omega (arith, e))
                (char b'd' (λ e. omega (arith, e)) (λ e. omega (arith, e))
                  (nest (char b'2' (λ e. omega (arith, e)) (λ e. omega (arith, e)) no_char)
                    no_char))),
        ),
        (
          (
            refl,
            refl,
            char b'e' (λ e. omega (arith, e)) (λ e. omega (arith, e))
                (char b'x' (λ e. omega (arith, e)) (λ e. omega (arith, e))
                  (char b't' (λ e. omega (arith, e)) (λ e. omega (arith, e)) no_char)),
          ),
          tt,
        ),
      )
      refl

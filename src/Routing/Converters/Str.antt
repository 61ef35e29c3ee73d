-- ===== src/Routing/Converters/Str.antt =====
-- `StringConverter` and `PathConverter` of src/veloce/routing/converters.py.
use veloce.Prelude.{◌||◌, Option, none, some, length, is_empty, if◌then◌else◌}
use veloce.Prelude.Int.{ℤ, pos, ltb_ℤ}
use veloce.Text.{Text}
use veloce.Routing.Node.{text}
use veloce.Routing.Converters.{Match, rejects, coerces, is_given, is_above}

pub record StringConverter : Type 0 where
  pub minlength : ℤ
  pub maxlength : Option ℤ

abbrev or_one : Option ℤ → ℤ
or_one none = pos 1
or_one (some lo) = lo

-- `__init__` with length, minlength and maxlength; `none` is ValueError.
unfoldable pub init : Option ℤ → Option ℤ → Option ℤ → Option StringConverter
init (some size) minlength maxlength =
    if is_given minlength || is_given maxlength
    then none
    else if ltb_ℤ size (pos 1)
    then none
    else some (record { minlength = size; maxlength = some size })
init none minlength maxlength =
    let lo = or_one minlength in
    if ltb_ℤ lo (pos 1)
    then none
    else if is_above lo maxlength
    then none
    else some (record { minlength = lo; maxlength = maxlength })

unfoldable pub match : StringConverter → Text → Match
match c value =
    let size = pos (length value) in
    if ltb_ℤ size c.minlength
    then rejects
    else if is_above size c.maxlength
    then rejects
    else coerces (text value)

-- `PathConverter.match`
unfoldable pub match_path : Text → Match
match_path value = if is_empty value then rejects else coerces (text value)

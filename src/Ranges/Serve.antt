-- ===== src/Ranges/Serve.antt =====
-- `_negotiate_file_range` and the constructor of `FileResponse`, src/veloce/http/response.py, for a file that
-- is read whole; `_etag_matches_strong` of src/veloce/_internal.py, and `Request.if_range` of
-- src/veloce/http/request.py, where `parse_date` gives the seconds of an HTTP date.
use veloce.Prelude.{
  ℕ, ◌+◌, ◌-◌, Bool, true, false, not, ◌||◌, Option, none, some, List, [], ◌∷◌, ◌==◌, nat_eq,
  length, take, drop, is_empty, codes, if◌then◌else◌,
}
use veloce.Text.{Text, text_eq}
use veloce.Text.Strip.{strip, starts_with}
use veloce.Ranges.{Span, RangeSpec, parse, resolve_byte_range}

-- A request's method, `Range` and `If-Range`; the headers that are absent are `none` and the empty text.
pub record Request : Type 0 where
  pub method : Text
  pub range_header : Option Text
  pub if_range_header : Text

-- What is known of the file: the two headers that the decision looks at, its size and the second it was
-- last modified in.
pub record File : Type 0 where
  pub accept_ranges : Option Text
  pub etag : Option Text
  pub content : List ℕ
  pub mtime : ℕ

abbrev is_weak : Text → Bool
is_weak tag = starts_with (codes "W/") tag

-- `_etag_matches_strong`
unfoldable pub etag_matches_strong : Text → Text → Bool
unfolding strip starts_with
etag_matches_strong server_etag client_token =
    let a = strip server_etag in
    let b = strip client_token in if is_weak a || is_weak b then false else a == b

abbrev pub or_empty : Option Text → Text
or_empty none = []
or_empty (some s) = s

abbrev pub is_text : Option Text → Text → Bool
is_text none t = false
is_text (some s) t = s == t

-- Whether the validator is stale, so that the range is dropped.
abbrev pub is_stale : File → Text × Option ℕ → Bool
is_stale file ([], none) = false
is_stale file ([], some date) = not (file.mtime == date)
is_stale file (c ∷ tag, date) = not (etag_matches_strong (or_empty file.etag) (c ∷ tag))

-- `(true, none)` serves the whole file, `(false, none)` is 416.
abbrev pub whole : Bool × Option (ℕ × ℕ)
whole = (true, none)

abbrev pub satisfied : Option (ℕ × ℕ) → Bool × Option (ℕ × ℕ)
satisfied none = (false, none)
satisfied (some span) = (true, some span)

module _ (parse_date : Text → Option ℕ) where
  -- `Request.if_range`: an entity tag, or a date.
  unfoldable pub if_range : Text → Text × Option ℕ
  unfolding strip starts_with
  if_range raw =
      let stripped = strip raw in
      if is_empty raw
      then ([], none)
      else if starts_with (codes "\"") stripped || starts_with (codes "W/\"") stripped
      then (stripped, none)
      else ([], parse_date stripped)

  abbrev pub with_spans : File → Text → List Span → Bool × Option (ℕ × ℕ)
  with_spans file if_range_header [] = whole
  with_spans file if_range_header (span ∷ []) =
      if is_stale file (if_range if_range_header)
      then whole
      else satisfied (resolve_byte_range span (length file.content))
  with_spans file if_range_header (span ∷ span2 ∷ spans) = whole

  abbrev pub with_spec : File → Text → Option RangeSpec → Bool × Option (ℕ × ℕ)
  with_spec file if_range_header none = whole
  with_spec file if_range_header (some spec) =
      if spec.unit == codes "bytes" then with_spans file if_range_header spec.ranges else whole

  abbrev pub with_header : File → Text → Option Text → Bool × Option (ℕ × ℕ)
  with_header file if_range_header none = whole
  with_header file if_range_header (some header) =
      if is_text file.accept_ranges (codes "bytes")
      then with_spec file if_range_header (parse header)
      else whole

  -- `_negotiate_file_range`; there is no request where no range is to be negotiated.
  unfoldable pub negotiate_file_range : Option Request → File → Bool × Option (ℕ × ℕ)
  unfolding if_range etag_matches_strong resolve_byte_range parse
  negotiate_file_range none file = whole
  negotiate_file_range (some request) file =
      if request.method == codes "GET"
      then with_header file request.if_range_header request.range_header
      else whole

-- The status, the body, and what `set_content_range` is called with.
pub record FileResponse : Type 0 where
  pub status_code : ℕ
  pub body : List ℕ
  pub served : Option (Option (ℕ × ℕ) × ℕ)

-- f.seek(start), f.read(end - start + 1)
abbrev pub slice : List ℕ → ℕ → ℕ → List ℕ
slice content start end = take (end - start + 1) (drop start content)

abbrev pub respond : List ℕ → Bool × Option (ℕ × ℕ) → FileResponse
respond content (false, span) = record {
  status_code = 416;
  body = [];
  served = some (none, length content);
}
respond content (true, none) = record { status_code = 200; body = content; served = none }
respond content (true, some (start, end)) = record {
  status_code = 206;
  body = slice content start end;
  served = some (some (start, end), length content);
}

unfoldable pub file_response : (Text → Option ℕ) → Option Request → File → FileResponse
unfolding negotiate_file_range
file_response parse_date request file =
    respond file.content (negotiate_file_range parse_date request file)

-- ===== src/Ranges/Served.antt =====
-- The body of a partial response, src/veloce/http/response.py.
use veloce.Prelude.{
  either_branch, ℕ, zero, suc, ◌+◌, ◌-◌, ◌≤◌, ◌<◌, ◌≡◌, refl, ◌∙◌, Bool, true, false, Option, none,
  some, List, [], ◌∷◌, ◌++◌, ap, length, length-take, length-drop, take, drop, nat_eq, arith,
}
use veloce.Text.{Text, text_eq}
use veloce.Ranges.{Span, RangeSpec, parse, resolve_byte_range}
use veloce.Ranges.Serve.{
  Request, File, FileResponse, negotiate_file_range, satisfied, slice, respond, file_response,
  with_spans, with_spec, with_header, whole,
}

-- A span that lies in a file of that size.
abbrev pub IsWithin : ℕ → Bool × Option (ℕ × ℕ) → Type 0
IsWithin size (b, none) = Unit
IsWithin size (b, some (start, end)) = (start ≤ end) × (end < size)

resolve-IsWithin :
    (span : Span) (size : ℕ) → IsWithin size (satisfied (resolve_byte_range span size))
unfolding resolve_byte_range
resolve-IsWithin (none, none) size = ground arith
resolve-IsWithin (none, some end) size = ground arith
resolve-IsWithin (some start, none) size = ground arith
resolve-IsWithin (some start, some end) size = ground arith

module _ (parse_date : Text → Option ℕ) (file : File) where
  abbrev Ok : Bool × Option (ℕ × ℕ) → Type 0
  Ok = IsWithin (length file.content)

  with_spans-IsWithin :
      (if_range_header : Text) (spans : List Span)
      → Ok (with_spans parse_date file if_range_header spans)
  with_spans-IsWithin h [] = tt
  with_spans-IsWithin h (span ∷ []) =
      either_branch Ok _ whole _ (λ _. tt) (λ _. resolve-IsWithin span (length file.content))
  with_spans-IsWithin h (span ∷ span2 ∷ spans) = tt

  with_spec-IsWithin :
      (if_range_header : Text) (spec : Option RangeSpec)
      → Ok (with_spec parse_date file if_range_header spec)
  with_spec-IsWithin h none = tt
  with_spec-IsWithin h (some spec) =
      either_branch Ok _ _ whole (λ _. with_spans-IsWithin h spec.ranges) (λ _. tt)

  with_header-IsWithin :
      (if_range_header : Text) (header : Option Text)
      → Ok (with_header parse_date file if_range_header header)
  with_header-IsWithin h none = tt
  with_header-IsWithin h (some header) =
      either_branch Ok _ _ whole (λ _. with_spec-IsWithin h (parse header)) (λ _. tt)

  negotiate-IsWithin :
      (request : Option Request) → Ok (negotiate_file_range parse_date request file)
  unfolding negotiate_file_range
  negotiate-IsWithin none = tt
  negotiate-IsWithin (some request) =
      either_branch Ok _ _ whole
        (λ _. with_header-IsWithin request.if_range_header request.range_header) (λ _. tt)

take-drop : (n : ℕ) (xs : List ℕ) → xs ≡ take n xs ++ drop n xs
take-drop zero xs = refl
take-drop (suc n) [] = refl
take-drop (suc n) (x ∷ xs) = ap (◌∷◌ x) (take-drop n xs)

length-slice :
    (content : List ℕ) (start end : ℕ)
    → start ≤ end
    → end < length content
    → length (slice content start end) ≡ end - start + 1
length-slice content start end h h' =
    omega
      (arith, h, h', length-take (end - start + 1) (drop start content), length-drop start content)

-- What `Content-Range` says of the body: where it stands in the file.
abbrev pub IsPart : List ℕ → FileResponse → Type 0
IsPart content response =
    (start : ℕ) × (end : ℕ) × (response.served ≡ some (some (start, end), length content))
    × (start ≤ end)
    × (end < length content)
    × (length response.body ≡ end - start + 1)
    × (front : List ℕ) × (rest : List ℕ) × (length front ≡ start)
    × (content ≡ front ++ (response.body ++ rest))

respond-IsPart :
    (content : List ℕ) (n : Bool × Option (ℕ × ℕ))
    → IsWithin (length content) n
    → (respond content n).status_code ≡ 206
    → IsPart content (respond content n)
respond-IsPart content (false, span) w h = absurd (omega (arith, h))
respond-IsPart content (true, none) w h = absurd (omega (arith, h))
respond-IsPart content (true, some (start, end)) (w, w') h =
    let tail = drop start content in
    let n = end - start + 1 in
    (
      start,
      end,
      refl,
      w,
      w',
      length-slice content start end w w',
      take start content,
      drop n tail,
      omega (arith, w, w', length-take start content),
      take-drop start content ∙ ap (λ t. take start content ++ t) (take-drop n tail),
    )

-- A partial response names two positions of the file in their order, and the file's size. Its body has one
-- octet for each position from the one to the other, and stands in the file from the first of them on.
pub file_response-IsPart :
    (parse_date : Text → Option ℕ) (request : Option Request) (file : File)
    → (file_response parse_date request file).status_code ≡ 206
    → IsPart file.content (file_response parse_date request file)
unfolding file_response
file_response-IsPart parse_date request file h =
    respond-IsPart file.content (negotiate_file_range parse_date request file)
      (negotiate-IsWithin parse_date file request) h

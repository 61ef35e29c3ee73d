-- ===== src/Tests/Ranges.antt =====
-- Tests of Ranges.
use veloce.Prelude.{ℕ, ◌≡◌, ◌↔◌, refl, Option, none, some, [], ◌∷◌, codes}
use veloce.Text.{Text, text_beq, lower}
use veloce.Text.Split.{split}
use veloce.Text.Strip.{strip, lstrip, rstrip, has_char, partition, starts_with}
use veloce.Text.Number.{digits_value}
use veloce.Ranges.{parse, parse_chunks, parse_chunk, is_byte_pos, resolve_byte_range}
use veloce.Ranges.Serve.{
  Request, File, FileResponse, negotiate_file_range, if_range, etag_matches_strong, file_response,
}
use veloce.Ranges.Laws.{Selected, IsIn, resolve_byte_range-Selected}
use veloce.Ranges.Served.{IsPart, file_response-IsPart}

parse_tests :
    (parse (codes "Bytes = 0-4, 7- ,-3,x-2,-")
      ≡ some (record {
        unit = codes "bytes";
        ranges = (some 0, some 4) ∷ (some 7, none) ∷ (none, some 3) ∷ [];
      }))
    × (parse (codes "bytes=+1-2") ≡ none)
    × (parse (codes "bytes 0-4") ≡ none)
unfolding parse parse_chunks parse_chunk is_byte_pos split strip lstrip rstrip has_char partition
    lower digits_value
parse_tests = (refl, refl, refl)

abbrev no_date : Text → Option ℕ
no_date s = none

abbrev file : File
file = record {
  accept_ranges = some (codes "bytes");
  etag = some (codes "\"v1\"");
  content = 10 ∷ 11 ∷ 12 ∷ 13 ∷ 14 ∷ [];
  mtime = 100;
}

abbrev asking : Text → Text → Request
asking range if_range_header = record {
  method = codes "GET";
  range_header = some range;
  if_range_header = if_range_header;
}

abbrev answered : Text → Text → FileResponse
answered range if_range_header = file_response no_date (some (asking range if_range_header)) file

file_response_tests :
    ((answered (codes "bytes=-2") (codes "\"v1\"")).body ≡ 13 ∷ 14 ∷ [])
    × ((answered (codes "bytes=1-9") []).served ≡ some (some (1, 4), 5))
    × ((answered (codes "bytes=1-2") (codes "W/\"v1\"")).status_code ≡ 200)
    × ((answered (codes "bytes=5-") []).status_code ≡ 416)
    × ((answered (codes "bytes=0-1,3-4") []).status_code ≡ 200)
unfolding file_response negotiate_file_range if_range etag_matches_strong resolve_byte_range parse
    parse_chunks parse_chunk is_byte_pos split strip lstrip rstrip has_char partition starts_with
    lower digits_value text_beq
file_response_tests = (refl, refl, refl, refl, refl)

resolve_byte_range-Selected_example :
    IsIn (resolve_byte_range (some 2, some 9) 5) 3 ↔ Selected (some 2, some 9) 5 3
resolve_byte_range-Selected_example = resolve_byte_range-Selected (some 2, some 9) 5 3

file_response-IsPart_example : IsPart file.content (answered (codes "bytes=1-3") [])
unfolding file_response negotiate_file_range if_range etag_matches_strong resolve_byte_range parse
    parse_chunks parse_chunk is_byte_pos split strip lstrip rstrip has_char partition starts_with
    lower digits_value text_beq
file_response-IsPart_example =
    file_response-IsPart no_date (some (asking (codes "bytes=1-3") [])) file refl

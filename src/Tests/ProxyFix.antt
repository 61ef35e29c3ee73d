-- ===== src/Tests/ProxyFix.antt =====
-- Tests of ProxyFix.
use veloce.Prelude.{◌≡◌, refl, false, none, some, [], ◌∷◌, ◌++◌, codes, nat_eq, arith, ◌⊎◌}
use veloce.Prelude.Dict.{get, put}
use veloce.Text.{Text, text_eq, text_beq, lower}
use veloce.Text.Split.{split, all-Lacks}
use veloce.Text.Strip.{strip, lstrip, rstrip, has_char, partition}
use veloce.Text.Number.{int_of}
use veloce.Headers.Lists.{join_values, non_empty, entries}
use veloce.Headers.Quoted.{
  backslash, walk, split_outside_quotes_checked, split_outside_quotes, unquote_value, lstrip_quotes,
  rstrip_quotes,
}
use veloce.ProxyFix.{
  Headers, forwarded, x_forwarded_for, x_forwarded_proto, x_forwarded_host, x_forwarded_port,
  x_forwarded_prefix, ProxyFix, hop_header, from_right, pick_hop, put_pairs,
  parse_forwarded_element, elements_of, select, select_all, no_directives, parse_forwarded,
  count_char, extract_host, has_crlf, pick, fixes_of, process_request,
}
use veloce.ProxyFix.Laws.{process_request-front, parse_forwarded-front}

abbrev one_proxy : ProxyFix
one_proxy = record {
  x_for = 1;
  x_proto = 1;
  x_host = 0;
  x_port = 1;
  x_prefix = 0;
  trust_forwarded = false;
}

abbrev from_proxy : Headers
from_proxy x_forwarded_for = codes "10.0.0.7:555" ∷ []
from_proxy x_forwarded_proto = codes "HTTPS" ∷ []
from_proxy x_forwarded_port = codes "8443" ∷ []
from_proxy forwarded = codes "for=6.6.6.6" ∷ []
from_proxy x_forwarded_host = []
from_proxy x_forwarded_prefix = []

abbrev spoofed : Headers
spoofed x_forwarded_for = codes "1.1.1.1, 2.2.2.2" ∷ []
spoofed x_forwarded_host = codes "evil" ∷ []
spoofed forwarded = []
spoofed x_forwarded_proto = codes "gopher," ∷ []
spoofed x_forwarded_port = []
spoofed x_forwarded_prefix = []

proxy_tests :
    process_request one_proxy from_proxy
    ≡ some (record {
      client = some (codes "10.0.0.7");
      host = none;
      port = some 8443;
      proto = some (codes "HTTPS");
      scheme = some (codes "https");
      prefix = none;
    })
unfolding process_request pick fixes_of pick_hop hop_header from_right entries non_empty join_values
    split strip lstrip rstrip has_crlf extract_host has_char partition count_char int_of lower
proxy_tests = refl

process_request-front_example :
    process_request one_proxy (λ n. spoofed n ++ from_proxy n)
    ≡ process_request one_proxy from_proxy
unfolding entries non_empty split strip lstrip rstrip
process_request-front_example =
    process_request-front one_proxy spoofed from_proxy refl
      (omega arith, omega arith, omega arith, omega arith, omega arith)

abbrev trusted_end : Text
trusted_end = codes "for=\"[2001:db8::1]:80\";proto=https"

parse_forwarded_tests : parse_forwarded one_proxy (codes "for=x, " ++ trusted_end) ≡ record {
  for_ = some (codes "2001:db8::1");
  proto = some (codes "https");
  host = none;
  prefix = none;
}
unfolding parse_forwarded select_all select elements_of parse_forwarded_element put_pairs
    split_outside_quotes split_outside_quotes_checked walk unquote_value lstrip_quotes rstrip_quotes
    strip lstrip rstrip has_char partition from_right get put text_beq lower
parse_forwarded_tests = refl

parse_forwarded-front_example :
    (parse_forwarded one_proxy (codes "for=\"1.1.1.1" ++ (b',' ∷ trusted_end)) ≡ no_directives)
    ⊎ (parse_forwarded one_proxy (codes "for=\"1.1.1.1" ++ (b',' ∷ trusted_end))
        ≡ parse_forwarded one_proxy trusted_end)
unfolding elements_of split_outside_quotes_checked walk strip lstrip rstrip
parse_forwarded-front_example =
    parse_forwarded-front one_proxy (codes "for=\"1.1.1.1") trusted_end
      (all-Lacks backslash trusted_end refl) refl
      (omega arith, omega arith, omega arith, omega arith)

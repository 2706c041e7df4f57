-- ===== src/Client/Journey.antt =====
-- Requests over a small network that redirects once and sets a cookie on the way.
use blasthttp.Common.{
  ◌⊎◌, ℕ, zero, suc, ◌≡◌, refl, true, ◌||◌, none, some, List, [], ◌∷◌, ◌++◌, arith,
}
use blasthttp.Common.Bytes.{Bytes, codes}
use blasthttp.Common.Integer.{pos}
use blasthttp.Common.Maybe.{is_some, get_or_else}
use blasthttp.Common.Result.{Result, ok, err}
use blasthttp.Common.Integer.{digits}
use blasthttp.Common.Search.{position, filter}
use blasthttp.Common.Text.{
  ends_with, same, starts_with, trim_start_matches, trim_end_matches, split_once, split_first, join,
}
use blasthttp.Config.Address.{parse_ip, read_digits, read_groups}
use blasthttp.Config.Suffix.{eq_ignore_case, to_lower}
use blasthttp.Cookies.Chain.{settle}
use blasthttp.Cookies.Domain.{canonical_host, domain_matches, path_matches, default_path}
use blasthttp.Cookies.Parse.{
  store, store_loop, store_header, parse_set_cookie, scope, take_attributes, take_attribute,
}
use blasthttp.Cookies.Send.{applies, header_for, sort_by_path, insert_by_path}
use blasthttp.Common.Uri.{Uri}
use blasthttp.Client.Attempts.{IsAnswered, send-IsAnswered}
use blasthttp.Client.Error.{ClientError, error_of, connection}
use blasthttp.Client.Headers.{request_headers}
use blasthttp.Client.OneCookie.{
  cookie_headers, other_headers, WithCookies, added_headers, request_headers_lem,
}
use blasthttp.Client.Redirect.{
  Network, SingleResponse, Response, Walk, hop, go_on, start, moved_to, direct, from_config,
  send_inner, conn_mode, after, follow_redirect, resolve_redirect,
}
use blasthttp.Client.Retry.{Outcome, finished, send}
use blasthttp.Client.Sanitize.{sanitize_uri}
use blasthttp.Client.Walks.{IsFinal, IsOnTheWay, send_inner_ends}
use blasthttp.Client.Carried.{Visit, visit_of, CookiesFollow, Reached, Reached-IsOnTheWay}
use blasthttp.Client.Asked.{read_request, request_of, with_header, target_at}
use blasthttp.Client.Socks.{target_bytes, perform_socks5}
use blasthttp.Client.Tunnel.{Choice, Bound, tcp_of, hello_of, perform_socks5-opens}
use blasthttp.Config.Request.{RequestConfig}

abbrev a_uri : Bytes → Uri
a_uri text = record {
  scheme = some (codes "http");
  authority = some (codes "a.test");
  host = some (codes "a.test");
  path = codes "/";
  text = text;
}

abbrev reply : ℕ → SingleResponse
reply zero = record {
  status = 302;
  headers = (codes "Set-Cookie", codes "k=v") ∷ [];
  body_bytes = [];
  location = some (codes "http://a.test/in");
  decode_error = none;
}
reply (suc n) = record {
  status = 200;
  headers = [];
  body_bytes = codes "hello";
  location = none;
  decode_error = none;
}

abbrev small_network : Network
small_network = record {
  parse_uri = λ text. ok (a_uri text);
  domain_str = λ name. none;
  now = λ hop. pos 1700000000;
  get_or_build = λ mode. ok tt;
  dispatch_request = λ hop mode uri config cookies. ok (reply hop);
  dispatch_forward_proxy = λ hop proxy uri config cookies. ok (reply hop);
  dispatch_direct = λ uri config. ok (reply 0, none);
  recorded_peer = λ hop uri. none;
}

-- Redirects are followed.
abbrev following : RequestConfig
following = record {
  url = codes "http://a.test/";
  method = none;
  headers = some ((codes "Cookie", codes "mine=1; ") ∷ (codes "X-A", codes "b") ∷ []);
  body = none;
  timeout_seconds = none;
  max_body_size = none;
  follow_redirects = some true;
  max_redirects = some 3;
  redirect_cookies = none;
  verify_certs = none;
  proxy = none;
  no_proxy = [];
  cipher_string = none;
  min_tls_version = none;
  max_tls_version = none;
  retries = some 2;
  retry_wait_min_ms = none;
  retry_wait_max_ms = none;
  raw_path = none;
  request_target = none;
  resolve_ip = none;
  alpn_protocols = none;
  verbosity = 0;
}

send_inner_ends_example :
    (r : Result ClientError Response) × (send_inner small_network following 4 ≡ some r)
    × (((is_some following.resolve_ip || is_some following.request_target) ≡ true)
        ⊎ IsFinal small_network following r)
send_inner_ends_example = send_inner_ends small_network following (omega arith)

abbrev first : Walk
first = start small_network following (a_uri (codes "http://a.test/"))

abbrev second : Walk
second =
    moved_to small_network following first (direct (from_config following)) (reply 0)
      (a_uri (codes "http://a.test/in"))

redirected : hop small_network following first ≡ go_on second
unfolding hop conn_mode after follow_redirect resolve_redirect sanitize_uri
redirected = refl

chosen :
    conn_mode small_network following (a_uri (codes "http://a.test/"))
    ≡ ok (direct (from_config following))
unfolding conn_mode
chosen = refl

abbrev one_visit : List (Visit small_network following)
one_visit = visit_of small_network following first (reply 0) ∷ []

abbrev reached : Reached small_network following (a_uri (codes "http://a.test/")) one_visit second
reached =
    Reached.redirected [] first second (direct (from_config following)) (reply 0) Reached.begin
      chosen refl redirected

Reached-IsOnTheWay_example :
    IsOnTheWay small_network following second
    × CookiesFollow small_network following one_visit second
Reached-IsOnTheWay_example =
    Reached-IsOnTheWay small_network following (a_uri (codes "http://a.test/")) one_visit second
      (omega arith) reached

carried : second.hop_cookies ≡ some (codes "k=v")
unfolding store store_loop store_header parse_set_cookie scope take_attributes take_attribute settle
    position filter same starts_with ends_with trim_start_matches trim_end_matches split_once
    split_first join parse_ip read_digits read_groups eq_ignore_case to_lower canonical_host
    domain_matches path_matches default_path applies header_for sort_by_path insert_by_path digits
carried = refl

-- The first attempt fails to connect, the second gets an answer.
abbrev attempts : ℕ → Outcome SingleResponse
attempts zero = finished (err (error_of connection (codes "refused")))
attempts (suc n) = finished (ok (reply 1))

send-IsAnswered_example :
    IsAnswered (λ r. r.status) attempts following (send (λ r. r.status) attempts following)
send-IsAnswered_example = send-IsAnswered (λ r. r.status) attempts following refl

request_headers_lem_example :
    WithCookies
      (some (codes "k=v"))
      (cookie_headers (get_or_else following.headers []))
      (cookie_headers (request_headers (a_uri []) following true (some (codes "k=v"))))
    × (other_headers (request_headers (a_uri []) following true (some (codes "k=v")))
        ≡ added_headers (a_uri []) (get_or_else following.headers []) true
          ++ other_headers (get_or_else following.headers []))
request_headers_lem_example = request_headers_lem (a_uri []) following true (some (codes "k=v"))

abbrev zeros : Bytes
zeros = 0 ∷ 0 ∷ 0 ∷ 0 ∷ 0 ∷ 0 ∷ []

named : target_bytes (codes "a.test") ≡ ok (0x03 ∷ 6 ∷ codes "a.test")
unfolding parse_ip read_digits read_groups
named = refl

perform_socks5-opens_example :
    (perform_socks5 [] (codes "a.test") 443 (some (codes "me")) (some (codes "pw")) (
        tcp_of
          ((0x05 ∷ (0x02 ∷ (0x01 ∷ (0x00 ∷ []))))
            ++ (0x05 ∷ (0x00 ∷ (0x00 ∷ ((0x01 ∷ zeros) ++ codes "hi")))))
          [])
      ≡ ok (
          tcp_of (codes "hi") (
            (hello_of (some (codes "me")) (some (codes "pw"))
              ++ (0x01 ∷ (2 ∷ (codes "me" ++ (2 ∷ codes "pw")))))
            ++ with_header (0x03 ∷ 6 ∷ codes "a.test") 443)))
    × (read_request (with_header (0x03 ∷ 6 ∷ codes "a.test") 443)
        ≡ some (
            request_of
              (target_at (parse_ip (codes "a.test")) (codes "a.test")).0
              (target_at (parse_ip (codes "a.test")) (codes "a.test")).1
              443))
perform_socks5-opens_example =
    perform_socks5-opens [] (codes "a.test") (0x03 ∷ 6 ∷ codes "a.test") 443 (some (codes "me"))
      (some (codes "pw")) (0x05 ∷ (0x02 ∷ (0x01 ∷ (0x00 ∷ []))))
      (0x01 ∷ (2 ∷ (codes "me" ++ (2 ∷ codes "pw")))) (0x01 ∷ zeros) (codes "hi") 0x00 (omega arith)
      named (Choice.password (codes "me") (codes "pw") 0x01 (omega arith) (omega arith))
      (Bound.bound_v4 zeros refl)

-- ===== src/Cookies/Runs.antt =====
-- The cookies of a small chain of redirects: a caller's own cookie, a login at one host, and what
-- goes to another host of the same domain.
use blasthttp.Common.{
  ◌≡◌, ◌≤◌, ◌⊎◌, ◌↔◌, ◌≢◌, refl, true, false, if◌then◌else◌, Option, none, some, List, [], ◌∷◌, All,
  length,
}
use blasthttp.Common.Bytes.{Bytes, codes}
use blasthttp.Common.Integer.{ℤ, pos}
use blasthttp.Common.Search.{position, filter}
use blasthttp.Common.Text.{
  ends_with, same, starts_with, trim_start_matches, trim_end_matches, split_once, split_first, join,
}
use blasthttp.Common.Uri.{Uri}
use blasthttp.Config.Address.{parse_ip, read_digits, read_groups}
use blasthttp.Config.Suffix.{eq_ignore_case, to_lower}
use blasthttp.Cookies.Bounds.{Collected, Collected-IsValid, length-header_for}
use blasthttp.Cookies.Chain.{Cookie, ChainCookies, with_caller_cookies, settle}
use blasthttp.Cookies.Date.{days_from_civil, parse_http_date, days_from_march}
use blasthttp.Cookies.Domain.{canonical_host, domain_matches, path_matches, default_path}
use blasthttp.Cookies.Keeps.{IsValid}
use blasthttp.Cookies.Match.{IsFor, applies_iff}
use blasthttp.Cookies.Order.{IsSent, header_for-IsSent}
use blasthttp.Cookies.Parse.{
  store, store_loop, store_header, parse_set_cookie, scope, take_attributes, take_attribute,
}
use blasthttp.Cookies.Scope.{IsScope, parse_set_cookie-IsScope}
use blasthttp.Cookies.Send.{
  applies, cookie_header, header_for, sort_by_path, insert_by_path, caller_cookie_names,
}
use blasthttp.Common.Integer.{digits}

abbrev only_example : Bytes → Option Bytes
only_example name =
    if ends_with name (codes "example.com") then some (codes "example.com") else none

abbrev uri_of : Bytes → Bytes → Uri
uri_of host path = record {
  scheme = some (codes "https");
  authority = some host;
  host = some host;
  path = path;
  text = host;
}

abbrev login : Uri
login = uri_of (codes "auth.example.com") (codes "/login")

abbrev app : Uri
app = uri_of (codes "app.example.com") (codes "/login/a")

abbrev names : List Bytes
names = caller_cookie_names ((codes "Cookie", codes "mine=1; x") ∷ [])

abbrev answer : List (Bytes × Bytes)
answer =
    (codes "Set-Cookie", codes "mine=2")
    ∷ (codes "set-cookie", codes "sid=7; Domain=.Example.com; Path=/login")
    ∷ (codes "set-cookie", codes "far=7; Domain=example.com; Path=/")
    ∷ (codes "set-cookie", codes "evil=1; Domain=com")
    ∷ (codes "set-cookie", codes "old=1; Domain=example.com; Expires=Thu, 01-Jan-70 00:00:01 GMT")
    ∷ []

abbrev now : ℤ
now = pos 1700000000

abbrev after_login : ChainCookies
after_login = (store only_example now answer login (with_caller_cookies names)).0

abbrev built : Collected only_example names after_login
built = Collected.response (with_caller_cookies names) now answer login Collected.start

Collected-IsValid_example : IsValid after_login × (after_login.caller_names ≡ names)
Collected-IsValid_example = Collected-IsValid only_example names after_login built

sent : header_for after_login app ≡ some (codes "sid=7; far=7")
unfolding store store_loop store_header parse_set_cookie scope take_attributes take_attribute settle
    position filter same starts_with ends_with trim_start_matches trim_end_matches split_once
    split_first join parse_ip read_digits read_groups eq_ignore_case to_lower canonical_host
    domain_matches path_matches default_path applies header_for sort_by_path insert_by_path
    parse_http_date days_from_civil days_from_march digits
sent = refl

length-header_for_example : length (codes "sid=7; far=7") ≤ 8192
length-header_for_example =
    length-header_for only_example names after_login app (codes "sid=7; far=7") built sent

header_for-IsSent_example :
    ((header_for after_login app ≡ none)
      × All
          (λ c.
            applies (canonical_host (codes "app.example.com")) (codes "/login/a") true c ≡ false)
          after_login.cookies)
    ⊎ ((cs : List Cookie) × (header_for after_login app ≡ some (cookie_header cs))
        × IsSent after_login app (codes "app.example.com") cs)
unfolding same
header_for-IsSent_example = header_for-IsSent after_login app (codes "app.example.com") refl

abbrev sid : Cookie
sid = record {
  name = codes "sid";
  value = codes "7";
  domain = codes "example.com";
  host_only = false;
  path = codes "/login";
  secure = true;
}

applies_iff_example :
    (applies (codes "app.example.com") (codes "/login/a") true sid ≡ true)
    ↔ IsFor (codes "app.example.com") (codes "/login/a") true sid
applies_iff_example = applies_iff (codes "app.example.com") (codes "/login/a") true sid

parsed :
    parse_set_cookie only_example now
      (codes "sid=7; Domain=.Example.com; Path=/login; Secure")
      (codes "auth.example.com")
      (codes "/login")
    ≡ some (sid, false)
unfolding parse_set_cookie scope take_attributes take_attribute same starts_with ends_with
    trim_start_matches trim_end_matches split_once split_first parse_ip read_digits read_groups
    eq_ignore_case to_lower canonical_host domain_matches default_path
parsed = refl

parse_set_cookie-IsScope_example :
    (codes "sid" ≢ []) × IsScope only_example (codes "auth.example.com") (codes "example.com") false
parse_set_cookie-IsScope_example =
    parse_set_cookie-IsScope only_example now
      (codes "sid=7; Domain=.Example.com; Path=/login; Secure") (codes "auth.example.com")
      (codes "/login") sid false parsed

imf : parse_http_date (codes "Sun, 06 Nov 1994 08:49:37 GMT") ≡ some (pos 784111777)
unfolding parse_http_date same position split_first digits days_from_civil days_from_march to_lower
imf = refl

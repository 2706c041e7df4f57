-- ===== src/Client/OneCookie.antt =====
-- The cookies of a chain of redirects reach a request once: src/client/hyper.rs.
use blasthttp.Common.{
  ◌&&◌, if◌then◌else◌, ◌≡◌, refl, ap, ◌∙◌, Bool, true, false, not, Bool-cases, inl, inr, Option,
  none, some, List, [], ◌∷◌, ◌++◌,
}
use blasthttp.Common.Bytes.{Bytes, codes}
use blasthttp.Common.Maybe.{get_or_else}
use blasthttp.Common.Search.{filter, any}
use blasthttp.Common.Uri.{Uri}
use blasthttp.Client.Merged.{Joined, merge_cookies-Joined}
use blasthttp.Client.Headers.{
  Header, caller_headers, merge_cookies, own_cookies, is_named, default_headers, defaults,
  request_headers, host_header,
}
use blasthttp.Config.Request.{RequestConfig}
use blasthttp.Config.Suffix.{eq_ignore_case, to_lower}

abbrev pub cookie_headers : List Header → List Header
cookie_headers hs = filter (is_named (codes "cookie")) hs

abbrev pub other_headers : List Header → List Header
other_headers hs = filter (λ h. not (is_named (codes "cookie") h)) hs

-- The caller's `Cookie` headers with the chain's cookies: at the end of the first, or alone.
abbrev with_cookies : Option Bytes → List Header → List Header
with_cookies none hs = hs
with_cookies (some cookies) [] = (codes "Cookie", cookies) ∷ []
with_cookies (some cookies) ((name, value) ∷ hs) = (name, merge_cookies value cookies) ∷ hs

-- What is emitted after the caller's headers have been gone through.
abbrev emitted : Option Bytes → Bool → List Header → List Header
emitted extra merged hs = let r = caller_headers extra merged hs in r.0 ++ own_cookies extra r.1

emitted-none : (merged : Bool) (hs : List Header) → emitted none merged hs ≡ hs
unfolding caller_headers
emitted-none merged [] = refl
emitted-none merged (h ∷ hs) = ap (λ t. h ∷ t) (emitted-none merged hs)

emitted_merged : (cookies : Bytes) (hs : List Header) → emitted (some cookies) true hs ≡ hs
unfolding caller_headers
emitted_merged cookies [] = refl
emitted_merged cookies (h ∷ hs) = ap (λ t. h ∷ t) (emitted_merged cookies hs)

emitted_first :
    (cookies name value : Bytes) (hs : List Header)
    → eq_ignore_case name (codes "cookie") ≡ true
    → emitted (some cookies) false ((name, value) ∷ hs) ≡ (name, merge_cookies value cookies) ∷ hs
unfolding caller_headers
emitted_first cookies name value hs e =
    rw (e, caller_headers)
      (ap (λ t. (name, merge_cookies value cookies) ∷ t) (emitted_merged cookies hs))

emitted_later :
    (cookies name value : Bytes) (hs : List Header)
    → eq_ignore_case name (codes "cookie") ≡ false
    → emitted (some cookies) false ((name, value) ∷ hs)
      ≡ (name, value) ∷ emitted (some cookies) false hs
unfolding caller_headers
emitted_later cookies name value hs e = rw (e, caller_headers) refl

emitted_cookies :
    (cookies : Bytes) (hs : List Header)
    → cookie_headers (emitted (some cookies) false hs)
      ≡ with_cookies (some cookies) (cookie_headers hs)
unfolding caller_headers filter eq_ignore_case to_lower
emitted_cookies cookies [] = refl
emitted_cookies cookies ((name, value) ∷ hs) =
    elim (Bool-cases (eq_ignore_case name (codes "cookie"))) [
      | inl e ↦ ap cookie_headers (emitted_first cookies name value hs e) ∙ rw e refl
      | inr e ↦
          ap cookie_headers (emitted_later cookies name value hs e)
          ∙ rw e (emitted_cookies cookies hs)
    ]

emitted_others :
    (cookies : Bytes) (hs : List Header)
    → other_headers (emitted (some cookies) false hs) ≡ other_headers hs
unfolding caller_headers filter eq_ignore_case to_lower
emitted_others cookies [] = refl
emitted_others cookies ((name, value) ∷ hs) =
    elim (Bool-cases (eq_ignore_case name (codes "cookie"))) [
      | inl e ↦ ap other_headers (emitted_first cookies name value hs e) ∙ rw e refl
      | inr e ↦
          ap other_headers (emitted_later cookies name value hs e)
          ∙ rw e (ap (λ t. (name, value) ∷ t) (emitted_others cookies hs))
    ]

filter-append :
    (p : Header → Bool) (xs ys : List Header) → filter p (xs ++ ys) ≡ filter p xs ++ filter p ys
unfolding filter
filter-append p [] ys = refl
filter-append p (x ∷ xs) ys = elim (Bool-cases (p x)) [
  | inl e ↦ rw e (ap (λ t. x ∷ t) (filter-append p xs ys))
  | inr e ↦ rw e (filter-append p xs ys)
]

no_default_cookies :
    (add_host has_ua has_ae : Bool) (authority : Option Bytes)
    → cookie_headers (defaults add_host has_ua has_ae authority) ≡ []
unfolding filter eq_ignore_case to_lower
no_default_cookies true true true none = refl
no_default_cookies true true false none = refl
no_default_cookies true false true none = refl
no_default_cookies true false false none = refl
no_default_cookies true true true (some a) = refl
no_default_cookies true true false (some a) = refl
no_default_cookies true false true (some a) = refl
no_default_cookies true false false (some a) = refl
no_default_cookies false true true a = refl
no_default_cookies false true false a = refl
no_default_cookies false false true a = refl
no_default_cookies false false false a = refl

default_cookies :
    (uri : Uri) (custom : List Header) (manual : Bool)
    → cookie_headers (default_headers uri custom manual) ≡ []
default_cookies uri custom manual = no_default_cookies _ _ _ uri.authority

cookie_headers-emitted :
    (extra : Option Bytes) (hs : List Header)
    → cookie_headers (emitted extra false hs) ≡ with_cookies extra (cookie_headers hs)
cookie_headers-emitted none hs = ap cookie_headers (emitted-none false hs)
cookie_headers-emitted (some cookies) hs = emitted_cookies cookies hs

other_headers-emitted :
    (extra : Option Bytes) (hs : List Header)
    → other_headers (emitted extra false hs) ≡ other_headers hs
other_headers-emitted none hs = ap other_headers (emitted-none false hs)
other_headers-emitted (some cookies) hs = emitted_others cookies hs

request_cookies :
    (uri : Uri) (config : RequestConfig) (manual_host_header : Bool) (extra : Option Bytes)
    → cookie_headers (request_headers uri config manual_host_header extra)
      ≡ with_cookies extra (cookie_headers (get_or_else config.headers []))
unfolding request_headers
request_cookies uri config manual extra =
    let custom = get_or_else config.headers [] in
    filter-append (is_named (codes "cookie")) (default_headers uri custom manual)
      (emitted extra false custom)
    ∙ ap (λ t. t ++ cookie_headers (emitted extra false custom)) (default_cookies uri custom manual)
    ∙ cookie_headers-emitted extra custom

request_others :
    (uri : Uri) (config : RequestConfig) (manual_host_header : Bool) (extra : Option Bytes)
    → other_headers (request_headers uri config manual_host_header extra)
      ≡ other_headers (default_headers uri (get_or_else config.headers []) manual_host_header)
        ++ other_headers (get_or_else config.headers [])
unfolding request_headers
request_others uri config manual extra =
    let custom = get_or_else config.headers [] in
    filter-append (λ h. not (is_named (codes "cookie") h)) (default_headers uri custom manual)
      (emitted extra false custom)
    ∙ ap (λ t. other_headers (default_headers uri custom manual) ++ t)
        (other_headers-emitted extra custom)

-- What becomes of the caller's `Cookie` headers.
abbrev pub WithCookies : Option Bytes → List Header → List Header → Type 0
WithCookies none hs out = out ≡ hs
WithCookies (some cookies) [] out = out ≡ (codes "Cookie", cookies) ∷ []
WithCookies (some cookies) ((name, value) ∷ hs) out =
    (merged : Bytes) × Joined value cookies merged × (out ≡ (name, merged) ∷ hs)

with_cookies-WithCookies :
    (extra : Option Bytes) (hs out : List Header)
    → out ≡ with_cookies extra hs
    → WithCookies extra hs out
with_cookies-WithCookies none hs out e = e
with_cookies-WithCookies (some cookies) [] out e = e
with_cookies-WithCookies (some cookies) ((name, value) ∷ hs) out e =
    (merge_cookies value cookies, merge_cookies-Joined value cookies, e)

-- A default that the caller's headers may replace.
abbrev pub unless : Bool → Header → List Header
unless true h = []
unless false h = h ∷ []

abbrev pub own_host : Bool → Bool → Option Bytes → List Header
own_host true has_host (some authority) = unless has_host (codes "Host", authority)
own_host true has_host none = []
own_host false has_host authority = []

abbrev pub added_headers : Uri → List Header → Bool → List Header
added_headers uri custom manual_host_header =
    own_host manual_host_header (any (is_named (codes "host")) custom) uri.authority
    ++ (unless (any (is_named (codes "user-agent")) custom)
          (codes "User-Agent", codes "blasthttp/0.1.0")
        ++ unless (any (is_named (codes "accept-encoding")) custom)
            (codes "Accept-Encoding", codes "gzip, deflate, br"))

host_part :
    (manual has_host : Bool) (authority : Option Bytes)
    → other_headers (if manual && not has_host then host_header authority else [])
      ≡ own_host manual has_host authority
unfolding filter eq_ignore_case to_lower
host_part true true none = refl
host_part true true (some a) = refl
host_part true false none = refl
host_part true false (some a) = refl
host_part false has_host authority = refl

agent_part :
    (has : Bool)
    → other_headers (if has then [] else (codes "User-Agent", codes "blasthttp/0.1.0") ∷ [])
      ≡ unless has (codes "User-Agent", codes "blasthttp/0.1.0")
unfolding filter eq_ignore_case to_lower
agent_part true = refl
agent_part false = refl

encoding_part :
    (has : Bool)
    → other_headers (if has then [] else (codes "Accept-Encoding", codes "gzip, deflate, br") ∷ [])
      ≡ unless has (codes "Accept-Encoding", codes "gzip, deflate, br")
unfolding filter eq_ignore_case to_lower
encoding_part true = refl
encoding_part false = refl

other_headers-default_headers :
    (uri : Uri) (custom : List Header) (manual : Bool)
    → other_headers (default_headers uri custom manual) ≡ added_headers uri custom manual
other_headers-default_headers uri custom manual =
    let test : Header → Bool = λ h. not (is_named (codes "cookie") h) in
    let has_host = any (is_named (codes "host")) custom in
    let has_ua = any (is_named (codes "user-agent")) custom in
    let has_ae = any (is_named (codes "accept-encoding")) custom in
    let ua : List Header =
      if has_ua then [] else (codes "User-Agent", codes "blasthttp/0.1.0") ∷ [] in
    let ae : List Header =
      if has_ae then [] else (codes "Accept-Encoding", codes "gzip, deflate, br") ∷ [] in
    filter-append test (if manual && not has_host then host_header uri.authority else []) (ua ++ ae)
    ∙ ap (λ t. t ++ other_headers (ua ++ ae)) (host_part manual has_host uri.authority)
    ∙ ap (λ t. own_host manual has_host uri.authority ++ t)
        (filter-append test ua ae
          ∙ ap (λ t. t ++ other_headers ae) (agent_part has_ua)
          ∙ ap (λ t. unless has_ua (codes "User-Agent", codes "blasthttp/0.1.0") ++ t)
              (encoding_part has_ae))

-- A request has the `Cookie` headers that its caller set, in their order; the cookies of the
-- redirects before it, if there are any, stand behind those of the first of them, after one `; ` and
-- without the blanks and semicolons at its end, or else are the one `Cookie` header. All other headers are
-- the host, if it is asked for, the user agent and the encodings, each only if the caller has none of
-- its own, then the caller's in their order.
pub request_headers_lem :
    (uri : Uri) (config : RequestConfig) (manual_host_header : Bool) (extra : Option Bytes)
    → WithCookies extra
        (cookie_headers (get_or_else config.headers []))
        (cookie_headers (request_headers uri config manual_host_header extra))
      × (other_headers (request_headers uri config manual_host_header extra)
          ≡ added_headers uri (get_or_else config.headers []) manual_host_header
            ++ other_headers (get_or_else config.headers []))
request_headers_lem uri config manual extra =
    let custom = get_or_else config.headers [] in
    (
      with_cookies-WithCookies extra _ _ (request_cookies uri config manual extra),
      request_others uri config manual extra
          ∙ ap (λ t. t ++ other_headers custom) (other_headers-default_headers uri custom manual),
    )

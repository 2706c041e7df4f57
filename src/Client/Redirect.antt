-- ===== src/Client/Redirect.antt =====
-- `HyperClient::send_inner` of src/client/hyper.rs: the decisions along a chain of redirects. What
-- the connections do is a parameter, and so are the parser of `http::Uri`, the list of public
-- suffixes and the clock.
use blasthttp.Common.{
  ℕ, zero, suc, ◌+◌, ◌%◌, ◌^◌, Bool, ◌&&◌, ◌||◌, if◌then◌else◌, ltb, ◌==◌, Option, none, some, List,
  [], ◌∷◌, ◌++◌,
}
use blasthttp.Common.Bytes.{Bytes, codes}
use blasthttp.Common.Integer.{ℤ}
use blasthttp.Common.Maybe.{get_or_else, is_some}
use blasthttp.Common.Result.{Result, ok, err, ◌>>=◌}
use blasthttp.Common.Text.{same}
use blasthttp.Common.Uri.{Uri}
use blasthttp.Client.Error.{ClientError, error_of, decimal, invalid_url, too_many_redirects, other}
use blasthttp.Client.Sanitize.{sanitize_uri}
use blasthttp.Config.Bypass.{effective_proxy}
use blasthttp.Config.Request.{
  RequestConfig, should_verify_certs, should_follow_redirects, redirect_limit,
  should_forward_redirect_cookies, method_or_get,
}
use blasthttp.Cookies.Chain.{ChainCookies, with_caller_cookies}
use blasthttp.Cookies.Parse.{store}
use blasthttp.Cookies.Send.{header_for, caller_cookie_names, is_https}

pub record TlsKey : Type 0 where
  pub verify_certs : Bool
  pub cipher_string : Option Bytes
  pub min_tls_version : Option Bytes
  pub max_tls_version : Option Bytes
  pub alpn_protocols : Option (List Bytes)

abbrev pub from_config : RequestConfig → TlsKey
from_config config = record {
  verify_certs = should_verify_certs config;
  cipher_string = config.cipher_string;
  min_tls_version = config.min_tls_version;
  max_tls_version = config.max_tls_version;
  alpn_protocols = config.alpn_protocols;
}

pub data ConnMode : Type 0 where
  direct : TlsKey → ConnMode
  forward_proxy : Bytes → ConnMode
  tunnel : (proxy_url : Bytes) (tls : TlsKey) → ConnMode
  socks5 : (proxy_url : Bytes) (tls : TlsKey) → ConnMode

pub record SingleResponse : Type 0 where
  pub status : ℕ
  pub headers : List (Bytes × Bytes)
  pub body_bytes : Bytes
  pub location : Option Bytes
  pub decode_error : Option Bytes

pub record RedirectHop : Type 0 where
  pub url : Bytes
  pub status : ℕ
  pub peer_ip : Option Bytes

-- Without the times, the certificate, the debug log and the caches.
pub record Response : Type 0 where
  pub url : Bytes
  pub status : ℕ
  pub headers : List (Bytes × Bytes)
  pub body_bytes : Bytes
  pub redirect_chain : List RedirectHop
  pub peer_ip : Option Bytes
  pub request_url : Bytes
  pub request_method : Bytes
  pub decode_error : Option Bytes

abbrev pub is_redirect : ℕ → Bool
is_redirect status =
    status == 301 || status == 302 || status == 303 || status == 307 || status == 308

-- What happens outside, at each hop: the numbers of the hops are the first arguments.
pub record Network : Type 0 where
  pub parse_uri : Bytes → Result Bytes Uri
  pub domain_str : Bytes → Option Bytes
  pub now : ℕ → ℤ
  pub get_or_build : ConnMode → Result ClientError Unit
  pub dispatch_request :
      ℕ → ConnMode → Uri → RequestConfig → Option Bytes → Result ClientError SingleResponse
  pub dispatch_forward_proxy :
      ℕ → Bytes → Uri → RequestConfig → Option Bytes → Result ClientError SingleResponse
  pub dispatch_direct : Uri → RequestConfig → Result ClientError (SingleResponse × Option Bytes)
  pub recorded_peer : ℕ → Uri → Option Bytes

-- The error of the parser, under another message.
abbrev pub map_err : (Bytes → ClientError) → Result Bytes Uri → Result ClientError Uri
map_err f (ok uri) = ok uri
map_err f (err e) = err (f e)

-- Where one hop has got to.
pub record Walk : Type 0 where
  pub uri : Uri
  pub hops : ℕ
  pub redirect_chain : List RedirectHop
  pub chain_cookies : Option ChainCookies
  pub hop_cookies : Option Bytes

pub data Next : Type 0 where
  stop : Result ClientError Response → Next
  go_on : Walk → Next

module _ (network : Network) (config : RequestConfig) where
  unfoldable pub conn_mode : Uri → Result ClientError ConnMode
  conn_mode target_uri =
      let tls = from_config config in
      elim (effective_proxy config (get_or_else target_uri.host [])) [
        | none ↦ ok (direct tls)
        | some proxy_url ↦ do
          proxy_uri ←
              map_err (λ e. error_of invalid_url (codes "invalid proxy URL: " ++ e))
                (network.parse_uri proxy_url)
          let scheme = get_or_else proxy_uri.scheme []
          (if same scheme (codes "http") || same scheme (codes "https")
              then (if is_https target_uri.scheme
                  then ok (tunnel proxy_url tls)
                  else ok (forward_proxy proxy_url))
              else if same scheme (codes "socks5") || same scheme (codes "socks5h")
              then ok (socks5 proxy_url tls)
              else err (
                  error_of other (
                    codes "unsupported proxy scheme '"
                    ++ (scheme ++ codes "' (use http, https, socks5)"))))
      ]

  -- Whether a location is a URI of its own.
  abbrev pub absolute_uri : Result Bytes Uri → Option Uri
  absolute_uri (err e) = none
  absolute_uri (ok uri) = if is_some uri.scheme then some uri else none

  unfoldable pub resolve_redirect : Uri → Bytes → Result ClientError Uri
  resolve_redirect current location =
      let sanitized = sanitize_uri location in
      elim (absolute_uri (network.parse_uri sanitized)) [
        | some uri ↦ ok uri
        | none ↦
            let scheme = get_or_else current.scheme (codes "https") in
            elim current.authority [
              | none ↦ err (
                  error_of invalid_url (
                    codes "no authority in current URL to resolve relative redirect: " ++ location))
              | some authority ↦
                  let absolute = scheme ++ (codes "://" ++ (authority ++ sanitized)) in
                  map_err
                    (λ e.
                      error_of invalid_url
                        (codes "invalid redirect URL '" ++ (absolute ++ (codes "': " ++ e))))
                    (network.parse_uri absolute)
            ]
      ]

  -- A forward proxy is dispatched to directly, the other modes over a cached client.
  abbrev pub dispatch : ℕ → ConnMode → Uri → Option Bytes → Result ClientError SingleResponse
  dispatch hop (forward_proxy proxy_url) uri cookies =
      network.dispatch_forward_proxy hop proxy_url uri config cookies
  dispatch hop mode uri cookies =
      network.get_or_build mode >>= λ _. network.dispatch_request hop mode uri config cookies

  abbrev pub hop_peer_ip : ℕ → ConnMode → Uri → Option Bytes
  hop_peer_ip hop (forward_proxy proxy_url) uri = none
  hop_peer_ip hop mode uri = network.recorded_peer hop uri

  -- The cookies after a redirect, and the header for where it leads.
  abbrev pub next_cookies : Walk → List (Bytes × Bytes) → Uri → Option ChainCookies × Option Bytes
  next_cookies w headers next_uri = elim w.chain_cookies [
    | none ↦ (none, w.hop_cookies)
    | some chain ↦
        let chain' = (store network.domain_str (network.now w.hops) headers w.uri chain).0 in
        (some chain', header_for chain' next_uri)
  ]

  abbrev pub moved_to : Walk → ConnMode → SingleResponse → Uri → Walk
  moved_to w mode resp next_uri =
      let (chain_cookies, hop_cookies) = next_cookies w resp.headers next_uri in
      record {
        uri = next_uri;
        hops = (w.hops + 1) % 2 ^ 32;
        redirect_chain =
            w.redirect_chain
            ++ (record {
              url = w.uri.text;
              status = resp.status;
              peer_ip = hop_peer_ip w.hops mode w.uri;
            }
                ∷ []);
        chain_cookies = chain_cookies;
        hop_cookies = hop_cookies;
      }

  abbrev pub too_many : ClientError
  too_many =
      error_of too_many_redirects
        (codes "too many redirects (limit: " ++ (decimal (redirect_limit config) ++ codes ")"))

  abbrev pub no_location : ℕ → ClientError
  no_location status =
      error_of other (codes "redirect " ++ (decimal status ++ codes " but no Location header"))

  unfoldable pub follow_redirect : Walk → ConnMode → SingleResponse → Next
  follow_redirect w mode resp =
      if ltb (redirect_limit config) ((w.hops + 1) % 2 ^ 32)
      then stop (err too_many)
      else elim resp.location [
        | none ↦ stop (err (no_location resp.status))
        | some location ↦ elim (resolve_redirect w.uri location) [
          | err e ↦ stop (err e)
          | ok next_uri ↦ go_on (moved_to w mode resp next_uri)
        ]
      ]

  abbrev pub response_of : Uri → SingleResponse → List RedirectHop → Option Bytes → Response
  response_of uri resp redirect_chain peer_ip = record {
    url = uri.text;
    status = resp.status;
    headers = resp.headers;
    body_bytes = resp.body_bytes;
    redirect_chain = redirect_chain;
    peer_ip = peer_ip;
    request_url = config.url;
    request_method = method_or_get config;
    decode_error = resp.decode_error;
  }

  abbrev pub follows : SingleResponse → Bool
  follows resp = is_redirect resp.status && should_follow_redirects config

  -- What a hop does with the response it got.
  unfoldable pub after : Walk → ConnMode → SingleResponse → Next
  after w mode resp =
      if follows resp
      then follow_redirect w mode resp
      else stop (ok (response_of w.uri resp w.redirect_chain (hop_peer_ip w.hops mode w.uri)))

  -- The body of the loop.
  unfoldable pub hop : Walk → Next
  hop w = elim (conn_mode w.uri) [
    | err e ↦ stop (err e)
    | ok mode ↦ elim (dispatch w.hops mode w.uri w.hop_cookies) [
      | err e ↦ stop (err e)
      | ok resp ↦ after w mode resp
    ]
  ]

  -- The loop on fuel.
  unfoldable pub walk : ℕ → Walk → Option (Result ClientError Response)
  walk zero w = none
  walk (suc fuel) w = elim (hop w) [ stop r ↦ some r | go_on w' ↦ walk fuel w' ]

  abbrev pub custom_headers : List (Bytes × Bytes)
  custom_headers = get_or_else config.headers []

  abbrev pub start : Uri → Walk
  start uri = record {
    uri = uri;
    hops = 0;
    redirect_chain = [];
    chain_cookies =
        (if should_forward_redirect_cookies config
          then some (with_caller_cookies (caller_cookie_names custom_headers))
          else none);
    hop_cookies = none;
  }

  -- A fixed address or request target goes out without following redirects.
  unfoldable pub send_inner : ℕ → Option (Result ClientError Response)
  send_inner fuel =
      elim (map_err (λ e. error_of invalid_url (codes "invalid URL: " ++ e))
        (network.parse_uri (sanitize_uri config.url))) [
          | err e ↦ some (err e)
          | ok uri ↦
              if is_some config.resolve_ip || is_some config.request_target
              then elim (network.dispatch_direct uri config) [
                | err e ↦ some (err e)
                | ok (resp, peer_ip) ↦ some (ok (response_of uri resp [] peer_ip))
              ]
              else walk fuel (start uri)
        ]

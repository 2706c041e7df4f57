-- ===== src/Client/Dispatch.antt =====
-- `build_request`, `dispatch_request`, `dispatch_direct` and `dispatch_forward_proxy` of
-- src/client/hyper.rs. What hyper makes of a request is a parameter, and so is the parser of
-- `http::Uri`; the debug log and the certificate are left out.
use blasthttp.Common.{
  ℕ, Bool, true, false, not, ◌&&◌, ◌||◌, if◌then◌else◌, Option, none, some, List, [], ◌∷◌, ◌++◌,
  map,
}
use blasthttp.Common.Bytes.{Bytes, codes}
use blasthttp.Common.Maybe.{get_or_else, is_some}
use blasthttp.Common.Result.{Result, ok, err, ◌>>=◌}
use blasthttp.Common.Split.{split_at_text}
use blasthttp.Common.Text.{same, is_nil}
use blasthttp.Common.Uri.{Uri}
use blasthttp.Client.Answer.{HyperResponse, parse_response}
use blasthttp.Client.Connect.{Socket}
use blasthttp.Client.Error.{ClientError, error_of, connection, tls, invalid_url, other}
use blasthttp.Client.Headers.{Header, request_headers}
use blasthttp.Client.Inflate.{Decoder}
use blasthttp.Client.Redirect.{SingleResponse, ConnMode, map_err}
use blasthttp.Client.Stream.{Outside, Connected, connect_stream, address}
use blasthttp.Config.Cidr.{IpAddr}
use blasthttp.Config.Request.{RequestConfig, method_or_get}
use blasthttp.Config.Suffix.{to_lower}

pub record Request : Type 0 where
  pub method : Bytes
  pub uri : Uri
  pub headers : List Header
  pub body : Bytes

-- A connection of hyper's, by its protocol.
pub data Protocol : Type 0 where
  http1 http2 : Protocol

-- `build` gives the error with which the builder of a request refuses it, if it does. A pool is one of
-- the cached clients.
pub record Hyper : Type 0 where
  pub parse_uri : Bytes → Result Bytes Uri
  pub query : Uri → Option Bytes
  pub build : Request → Option Bytes
  pub handshake : Protocol → Socket → Option Bytes
  pub send : Protocol → Socket → Request → Result Bytes HyperResponse
  pub pool : ConnMode → Request → Result Bytes HyperResponse
  pub dial_proxy : Bytes → Result Bytes Socket
  pub to_str : Bytes → Option Bytes
  pub decoder : Decoder → Bytes → Bytes × Option Bytes

abbrev pub parsed_or : Uri → Result Bytes Uri → Uri
parsed_or uri (ok parsed) = parsed
parsed_or uri (err e) = uri

module _ (hyper : Hyper) where
  -- The path and the query alone.
  abbrev pub origin_uri : Uri → Option Bytes → Uri
  origin_uri uri (some q) = parsed_or uri (hyper.parse_uri (uri.path ++ (b'?' ∷ q)))
  origin_uri uri none =
      parsed_or uri (hyper.parse_uri (if is_nil uri.path then codes "/" else uri.path))

  abbrev pub effective_uri : Bool → Uri → Uri
  effective_uri true uri = origin_uri uri (hyper.query uri)
  effective_uri false uri = uri

  abbrev pub built : Request → Option Bytes → Result ClientError Request
  built request none = ok request
  built request (some e) = err (error_of other (codes "failed to build request: " ++ e))

  abbrev pub request_of : Uri → RequestConfig → Bool → Bool → Option Bytes → Request
  request_of uri config origin_form manual_host_header redirect_cookies = record {
    method = method_or_get config;
    uri = effective_uri origin_form uri;
    headers = request_headers uri config manual_host_header redirect_cookies;
    body = get_or_else config.body [];
  }

  abbrev pub build_request :
      Uri → RequestConfig → Bool → Bool → Option Bytes → Result ClientError Request
  build_request uri config origin_form manual_host_header redirect_cookies =
      let request = request_of uri config origin_form manual_host_header redirect_cookies in
      built request (hyper.build request)

  -- Whether the text of an error speaks of TLS.
  abbrev pub mentions : Bytes → Bytes → Bool
  mentions word text = is_some (split_at_text word text)

  abbrev pub of_tls : Bytes → Bool
  of_tls e =
      let text = map to_lower e in
      mentions (codes "ssl") text
      || (mentions (codes "tls") text || mentions (codes "certificate") text)

  abbrev pub failed_request : Bytes → Bytes → ClientError
  failed_request what e = error_of (if of_tls e then tls else connection) (what ++ e)

  abbrev pub answered :
      (Bytes → ClientError)
      → RequestConfig
      → Result Bytes HyperResponse
      → Result ClientError SingleResponse
  answered failure config (err e) = err (failure e)
  answered failure config (ok response) = parse_response hyper.to_str hyper.decoder config response

  abbrev pub dispatch_request :
      ConnMode → Uri → RequestConfig → Option Bytes → Result ClientError SingleResponse
  dispatch_request mode uri config redirect_cookies =
      build_request uri config false false redirect_cookies >>= λ request.
      answered (failed_request (codes "request failed: ")) config (hyper.pool mode request)

  abbrev pub is_h2 : Option Bytes → Bool
  is_h2 none = false
  is_h2 (some alpn) = same alpn (codes "h2")

  abbrev pub protocol_of : Bool → Protocol
  protocol_of h2 = if h2 then http2 else http1

  abbrev pub shaken : Bytes → Option Bytes → Result ClientError Unit
  shaken what none = ok tt
  shaken what (some e) = err (error_of connection (what ++ e))

  abbrev pub request_uri : Uri → Option Bytes → Result ClientError Uri
  request_uri target_uri none = ok target_uri
  request_uri target_uri (some rt) =
      map_err
        (λ e. error_of invalid_url (codes "invalid request_target '" ++ (rt ++ (codes "': " ++ e))))
        (hyper.parse_uri rt)

  -- HTTP/2 has no request line for a target of the caller's own.
  abbrev pub no_target_over_h2 : ClientError
  no_target_over_h2 = error_of other (
      codes
        "request_target cannot be sent over HTTP/2: hyper builds :path from the request URI, so a verbatim request target has nowhere to go. Offer http/1.1 in alpn_protocols, or use raw_connect with blasthttp.h2 to write the pseudo-headers yourself.")

  abbrev pub direct_request : Bool → Uri → RequestConfig → Result ClientError Request
  direct_request h2 uri config =
      if h2
      then build_request uri config false false none
      else build_request uri config (not (is_some config.request_target)) true none

  abbrev pub handshake_error : Bool → Bytes
  handshake_error h2 =
      if h2 then codes "HTTP/2 handshake failed: " else codes "HTTP handshake failed: "

  abbrev pub send_direct :
      Bool → Connected → Uri → RequestConfig → Result ClientError (SingleResponse × Option IpAddr)
  send_direct h2 c target_uri config =
      shaken (handshake_error h2) (hyper.handshake (protocol_of h2) c.stream) >>= λ _.
      request_uri target_uri config.request_target >>= λ uri.
      direct_request h2 uri config >>= λ request.
      answered (failed_request (codes "dispatch_direct request failed: ")) config
        (hyper.send (protocol_of h2) c.stream request)
      >>= λ resp. ok (resp, c.peer_ip)

  unfoldable pub dispatch_direct :
      Outside → Uri → RequestConfig → Result ClientError (SingleResponse × Option IpAddr)
  dispatch_direct outside target_uri config = connect_stream outside config target_uri >>= λ c.
      if is_h2 c.negotiated_alpn && is_some config.request_target
      then err no_target_over_h2
      else send_direct (is_h2 c.negotiated_alpn) c target_uri config

  abbrev pub proxy_host : Option Bytes → Result ClientError Bytes
  proxy_host none = err (error_of other (codes "proxy URL has no host"))
  proxy_host (some host) = ok host

  abbrev pub proxy_stream : Bytes → Result Bytes Socket → Result ClientError Socket
  proxy_stream addr (ok tcp) = ok tcp
  proxy_stream addr (err e) =
      err (error_of connection (codes "failed to connect to proxy " ++ (addr ++ (codes ": " ++ e))))

  unfoldable pub dispatch_forward_proxy :
      (Uri → Option ℕ)
      → Bytes
      → Uri
      → RequestConfig
      → Option Bytes
      → Result ClientError SingleResponse
  dispatch_forward_proxy port_u16 proxy_url target_uri config redirect_cookies =
      map_err (λ e. error_of invalid_url (codes "invalid proxy URL: " ++ e))
        (hyper.parse_uri proxy_url)
      >>= λ proxy_uri. proxy_host proxy_uri.host >>= λ host.
          let addr = address host (get_or_else (port_u16 proxy_uri) 8080) in
          proxy_stream addr (hyper.dial_proxy addr) >>= λ tcp.
          shaken (codes "proxy handshake failed: ") (hyper.handshake http1 tcp) >>= λ _.
          build_request target_uri config false true redirect_cookies >>= λ request.
          answered (λ e. error_of connection (codes "forward proxy request failed: " ++ e)) config
            (hyper.send http1 tcp request)

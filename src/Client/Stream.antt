-- ===== src/Client/Stream.antt =====
-- `connect_stream` of src/client/hyper.rs with `peer_slot_key`. What
-- `http::Uri` gives as the port, the connection, its peer, the time each step takes and OpenSSL are
-- parameters.
use blasthttp.Common.{ℕ, Bool, true, false, if◌then◌else◌, Option, none, some, List, [], ◌∷◌, ◌++◌}
use blasthttp.Common.Bytes.{Bytes, codes}
use blasthttp.Common.Maybe.{get_or_else}
use blasthttp.Common.Result.{Result, ok, err, ◌>>=◌}
use blasthttp.Common.Uri.{Uri}
use blasthttp.Client.Connect.{Socket, stream, perform_http_connect}
use blasthttp.Client.Error.{ClientError, error_of, decimal, connection, timeout, tls, other}
use blasthttp.Client.Proxy.{ProxyConfig, http, socks5, parse_proxy_url}
use blasthttp.Client.Socks.{Tcp, perform_socks5}
use blasthttp.Config.Bypass.{effective_proxy, validate_proxy}
use blasthttp.Config.Cidr.{IpAddr}
use blasthttp.Config.Request.{RequestConfig, timeout as seconds_allowed}
use blasthttp.Cookies.Send.{is_https}
use blasthttp.Client.Tls.{Setting, apply_calls, tls_calls}

-- `none` from a step is that it took too long.
pub record Outside : Type 0 where
  pub port_u16 : Uri → Option ℕ
  pub dial : Bytes → Option (Result Bytes (Socket × Option IpAddr))
  pub tunnel_in_time : Bool
  pub io_error : Bytes
  pub write_failure : Option Bytes
  pub debug_text : Bytes → Bytes
  pub lossy_text : Bytes → Bytes
  pub openssl : Setting → Result Bytes Unit
  pub handshake : List Setting → Socket → Option (Result Bytes (Socket × Option Bytes))

pub record Connected : Type 0 where
  pub stream : Socket
  pub settings : Option (List Setting)
  pub negotiated_alpn : Option Bytes
  pub peer_ip : Option IpAddr

abbrev pub address : Bytes → ℕ → Bytes
address host port = host ++ (b':' ∷ decimal port)

abbrev pub proxy_config : Option Bytes → Result ClientError (Option ProxyConfig)
proxy_config none = ok none
proxy_config (some p) = parse_proxy_url p >>= λ c. ok (some c)

abbrev pub connect_addr : RequestConfig → Bytes → ℕ → Option ProxyConfig → Bytes
connect_addr config host port (some p) = address p.host p.port
connect_addr config host port none = address (get_or_else config.resolve_ip host) port

abbrev pub checked_proxy : Result Bytes Unit → Result ClientError Unit
checked_proxy (ok _) = ok tt
checked_proxy (err e) = err (error_of other e)

-- SOCKS5 reads exact numbers of bytes, however they are cut into pieces.
abbrev pub on_stream : Result ClientError Tcp → Result ClientError Socket
on_stream r = r >>= λ tcp. ok record { reads = ok tcp.incoming ∷ []; written = tcp.written }

module _ (outside : Outside) (config : RequestConfig) where
  abbrev pub after_seconds : Bytes
  after_seconds = codes " timed out after " ++ (decimal (seconds_allowed config) ++ codes "s")

  abbrev pub late : Bytes → ClientError
  late what = error_of timeout (what ++ after_seconds)

  abbrev pub dialled :
      Bytes
      → Option (Result Bytes (Socket × Option IpAddr))
      → Result ClientError (Socket × Option IpAddr)
  dialled addr none = err (late (codes "TCP connect to " ++ addr))
  dialled addr (some (err e)) =
      err (error_of connection (codes "failed to connect to " ++ (addr ++ (codes ": " ++ e))))
  dialled addr (some (ok x)) = ok x

  -- The tunnel through the proxy.
  abbrev pub open_tunnel :
      Bytes → ℕ → Option ProxyConfig → Bool → Socket → Result ClientError Socket
  open_tunnel host port none _ tcp = ok tcp
  open_tunnel host port (some p) false tcp = elim p.scheme [
    | http ↦ err (late (codes "proxy CONNECT to " ++ address host port))
    | socks5 ↦ err (late (codes "SOCKS5 handshake"))
  ]
  open_tunnel host port (some p) true tcp = elim p.scheme [
    | http ↦
        perform_http_connect outside.debug_text outside.lossy_text outside.write_failure host port
          tcp
    | socks5 ↦ on_stream (
        perform_socks5 outside.io_error host port p.username p.password
          record { incoming = stream tcp.reads; written = tcp.written })
  ]

  abbrev pub secured :
      Bytes
      → List Setting
      → Option IpAddr
      → Option (Result Bytes (Socket × Option Bytes))
      → Result ClientError Connected
  secured host settings peer_ip none = err (late (codes "TLS handshake with " ++ host))
  secured host settings peer_ip (some (err e)) =
      err (error_of tls (codes "TLS handshake failed: " ++ e))
  secured host settings peer_ip (some (ok (tls_stream, alpn))) = ok record {
    stream = tls_stream;
    settings = some settings;
    negotiated_alpn = alpn;
    peer_ip = peer_ip;
  }

  -- TLS for an https target, and the bare stream for any other.
  abbrev pub start_tls : Bool → Bytes → Option IpAddr → Socket → Result ClientError Connected
  start_tls false host peer_ip tcp =
      ok record { stream = tcp; settings = none; negotiated_alpn = none; peer_ip = peer_ip }
  start_tls true host peer_ip tcp =
      apply_calls outside.openssl (tls_calls config host) >>= λ settings.
      secured host settings peer_ip (outside.handshake settings tcp)

  -- The address of a proxy says nothing of the target.
  abbrev pub reported_peer : Option ProxyConfig → Option IpAddr → Option IpAddr
  reported_peer (some p) peer = none
  reported_peer none peer = peer

  abbrev pub target_port : Uri → ℕ
  target_port uri = get_or_else (outside.port_u16 uri) (if is_https uri.scheme then 443 else 80)

  abbrev pub connect_by : Uri → Bytes → ℕ → Option ProxyConfig → Result ClientError Connected
  connect_by uri host port proxy =
      let addr = connect_addr config host port proxy in
      dialled addr (outside.dial addr) >>= λ (tcp, peer).
      open_tunnel host port proxy outside.tunnel_in_time tcp >>= λ tunnelled.
      start_tls (is_https uri.scheme) host (reported_peer proxy peer) tunnelled

  unfoldable pub connect_stream : Uri → Result ClientError Connected
  connect_stream uri =
      let host = get_or_else uri.host [] in
      checked_proxy (validate_proxy config) >>= λ _.
      proxy_config (effective_proxy config host) >>= connect_by uri host (target_port uri)

-- The key of the map of peers.
abbrev pub peer_slot_key : (Uri → Option ℕ) → Uri → Option Bytes
peer_slot_key port_u16 uri = elim uri.host [
  | none ↦ none
  | some host ↦
      some (address host (get_or_else (port_u16 uri) (if is_https uri.scheme then 443 else 80)))
]

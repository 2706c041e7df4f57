-- ===== src/Client/Reach.antt =====
-- `connect_stream` of src/client/hyper.rs reaches only the proxy when one applies.
use blasthttp.Common.{
  ℕ, ◌^◌, ◌<◌, ◌≡◌, refl, sym, ap, ◌∙◌, Bool, true, false, Option, none, some, [], ◌++◌,
}
use blasthttp.Common.Bytes.{Bytes, codes}
use blasthttp.Common.Maybe.{get_or_else}
use blasthttp.Common.Result.{Result, ok, err, ◌>>=◌, chain_agree}
use blasthttp.Common.Text.{contains, is_nil}
use blasthttp.Common.Uri.{Uri}
use blasthttp.Client.Connect.{Socket}
use blasthttp.Client.Proxy.{ProxyConfig, ProxyScheme, proxy_scheme}
use blasthttp.Client.ProxyText.{Login, Tail, address_text, parse_proxy_url-reads}
use blasthttp.Client.Stream.{
  Outside, open_tunnel, dialled, address, proxy_config, checked_proxy, connect_by, connect_stream,
  target_port, start_tls,
}
use blasthttp.Config.Bypass.{effective_proxy, validate_proxy}
use blasthttp.Config.Cidr.{IpAddr}
use blasthttp.Config.Request.{RequestConfig}
use blasthttp.Cookies.Send.{is_https}

-- The same world but for its connections.
abbrev pub with_dial : Outside → (Bytes → Option (Result Bytes (Socket × Option IpAddr))) → Outside
with_dial o dial = record {
  port_u16 = o.port_u16;
  dial = dial;
  tunnel_in_time = o.tunnel_in_time;
  io_error = o.io_error;
  write_failure = o.write_failure;
  debug_text = o.debug_text;
  lossy_text = o.lossy_text;
  openssl = o.openssl;
  handshake = o.handshake;
}

tunnel_elsewhere :
    (o : Outside) (f g : Bytes → Option (Result Bytes (Socket × Option IpAddr)))
    (config : RequestConfig) (host : Bytes) (port : ℕ) (c : ProxyConfig) (b : Bool) (tcp : Socket)
    → open_tunnel (with_dial o f) config host port (some c) b tcp
      ≡ open_tunnel (with_dial o g) config host port (some c) b tcp
tunnel_elsewhere o f g config host port c true tcp = refl
tunnel_elsewhere o f g config host port c false tcp = refl

tls_elsewhere :
    (o : Outside) (f g : Bytes → Option (Result Bytes (Socket × Option IpAddr)))
    (config : RequestConfig) (b : Bool) (host : Bytes) (peer : Option IpAddr) (tcp : Socket)
    → start_tls (with_dial o f) config b host peer tcp
      ≡ start_tls (with_dial o g) config b host peer tcp
tls_elsewhere o f g config true host peer tcp = refl
tls_elsewhere o f g config false host peer tcp = refl

dialled_elsewhere :
    (o : Outside) (f g : Bytes → Option (Result Bytes (Socket × Option IpAddr)))
    (config : RequestConfig) (addr : Bytes) (r : Option (Result Bytes (Socket × Option IpAddr)))
    → dialled (with_dial o f) config addr r ≡ dialled (with_dial o g) config addr r
dialled_elsewhere o f g config addr none = refl
dialled_elsewhere o f g config addr (some (ok x)) = refl
dialled_elsewhere o f g config addr (some (err e)) = refl

-- From the connection to the proxy on.
elsewhere :
    (o : Outside) (f g : Bytes → Option (Result Bytes (Socket × Option IpAddr)))
    (config : RequestConfig) (uri : Uri) (host : Bytes) (port : ℕ) (c : ProxyConfig)
    → f (address c.host c.port) ≡ g (address c.host c.port)
    → connect_by (with_dial o f) config uri host port (some c)
      ≡ connect_by (with_dial o g) config uri host port (some c)
elsewhere o f g config uri host port c agree =
    let addr = address c.host c.port in
    chain_agree
      (dialled_elsewhere o f g config addr (f addr)
        ∙ ap (dialled (with_dial o g) config addr) agree)
      (λ x.
        chain_agree (tunnel_elsewhere o f g config host port c o.tunnel_in_time x.0)
          (tls_elsewhere o f g config (is_https uri.scheme) host none))

-- When a proxy applies to the target, and its URL is written from parts as `parse_proxy_url` reads
-- them, the outcome depends on no connection but the one to the host and port of the proxy: neither
-- the target nor a fixed address is connected to.
pub connect_stream-proxied :
    (outside : Outside) (f g : Bytes → Option (Result Bytes (Socket × Option IpAddr)))
    (config : RequestConfig) (uri : Uri) (name login host tail : Bytes) (port : ℕ)
    (u p : Option Bytes) (s : ProxyScheme)
    → proxy_scheme name ≡ ok s
    → Login login u p
    → is_nil host ≡ false
    → contains b'/' host ≡ false
    → contains b'@' host ≡ false
    → port < 2 ^ 16
    → Tail tail
    → effective_proxy config (get_or_else uri.host [])
      ≡ some (name ++ (codes "://" ++ (login ++ (address_text host port ++ tail))))
    → f (address_text host port) ≡ g (address_text host port)
    → connect_stream (with_dial outside f) config uri
      ≡ connect_stream (with_dial outside g) config uri
unfolding connect_stream
connect_stream-proxied outside f g config uri name login host tail port u p s e who some_host slash
      at small behind proxied agree =
    let c : ProxyConfig = record {
      scheme = s;
      host = host;
      port = port;
      username = u;
      password = p;
    } in
    let target = get_or_else uri.host [] in
    let found : proxy_config (effective_proxy config target) ≡ ok (some c) =
      ap proxy_config proxied
      ∙ ap (λ r. r >>= λ x. ok (some x))
          (parse_proxy_url-reads name login host tail port u p s e who some_host slash at small
            behind) in
    let by = λ (d : Bytes → Option (Result Bytes (Socket × Option IpAddr))).
      connect_by (with_dial outside d) config uri target
        (target_port (with_dial outside d) config uri) in
    ap (λ r. checked_proxy (validate_proxy config) >>= λ _. r >>= by f) found
    ∙ ap (λ r. checked_proxy (validate_proxy config) >>= λ _. r)
        (elsewhere outside f g config uri target (target_port outside config uri) c agree)
    ∙ sym (ap (λ r. checked_proxy (validate_proxy config) >>= λ _. r >>= by g) found)

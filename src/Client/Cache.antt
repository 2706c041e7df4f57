-- ===== src/Client/Cache.antt =====
-- `HyperClient::get_or_build` of src/client/hyper.rs with the cache of clients, and what
-- `OpenSslConnector::new` sets up. OpenSSL and the parser of `http::Uri` are parameters.
use blasthttp.Common.{
  ℕ, Bool, true, false, ◌&&◌, if◌then◌else◌, Option, none, some, List, [], ◌∷◌, ◌++◌,
}
use blasthttp.Common.Bytes.{Bytes, codes}
use blasthttp.Common.Result.{Result, ok, err, ◌>>=◌}
use blasthttp.Common.Text.{same}
use blasthttp.Common.Uri.{Uri}
use blasthttp.Client.Error.{ClientError, error_of, invalid_url}
use blasthttp.Client.Redirect.{TlsKey, ConnMode, direct, forward_proxy, tunnel, socks5, map_err}
use blasthttp.Client.Tls.{
  Setting, builder, security_level, load_ca, verify_none, min_proto, max_proto, alpn_protos, Call,
  version_call, cipher_call, encode_alpn_protocols, apply_calls,
}
use blasthttp.Config.Request.{RequestConfig, should_verify_certs, timeout as seconds_allowed}

-- A pool offers HTTP/2 unless the caller says what to offer.
abbrev pub pool_alpn_call : Option (List Bytes) → Call
pool_alpn_call none = ok (alpn_protos (2 ∷ (codes "h2" ++ (8 ∷ codes "http/1.1"))))
pool_alpn_call (some protos) = encode_alpn_protocols protos >>= λ wire. ok (alpn_protos wire)

-- The calls to OpenSSL for a pool, in their order.
abbrev pub pool_calls : RequestConfig → List Call
pool_calls config =
    ok builder
    ∷ (ok (security_level 0)
        ∷ (ok (if should_verify_certs config then load_ca else verify_none)
            ∷ (cipher_call config.cipher_string
                ++ (version_call min_proto config.min_tls_version
                    ++ (version_call max_proto config.max_tls_version
                        ++ (pool_alpn_call config.alpn_protocols ∷ []))))))

-- The derived equality of the keys.
abbrev pub same_bool : Bool → Bool → Bool
same_bool true b = b
same_bool false true = false
same_bool false false = true

abbrev pub same_option : Option Bytes → Option Bytes → Bool
same_option none none = true
same_option (some a) (some b) = same a b
same_option _ _ = false

abbrev pub same_list : List Bytes → List Bytes → Bool
same_list [] [] = true
same_list (a ∷ xs) (b ∷ ys) = same a b && same_list xs ys
same_list _ _ = false

abbrev pub same_lists : Option (List Bytes) → Option (List Bytes) → Bool
same_lists none none = true
same_lists (some a) (some b) = same_list a b
same_lists _ _ = false

abbrev pub same_tls : TlsKey → TlsKey → Bool
same_tls a b =
    same_bool a.verify_certs b.verify_certs
    && (same_option a.cipher_string b.cipher_string
        && (same_option a.min_tls_version b.min_tls_version
            && (same_option a.max_tls_version b.max_tls_version
                && same_lists a.alpn_protocols b.alpn_protocols)))

unfoldable pub same_mode : ConnMode → ConnMode → Bool
same_mode (direct a) (direct b) = same_tls a b
same_mode (forward_proxy p) (forward_proxy q) = same p q
same_mode (tunnel p a) (tunnel q b) = same p q && same_tls a b
same_mode (socks5 p a) (socks5 q b) = same p q && same_tls a b
same_mode _ _ = false

-- A client as it was set up; its connections and its peers are not looked at.
pub record CachedClient : Type 0 where
  pub mode : ConnMode
  pub settings : List Setting
  pub connect_timeout : ℕ

abbrev pub Cached : Type 0
Cached = List (ConnMode × CachedClient)

unfoldable pub lookup : ConnMode → Cached → Option CachedClient
lookup mode [] = none
lookup mode ((key, client) ∷ cached) =
    let rest = lookup mode cached in if same_mode mode key then some client else rest

module _ (parse_uri : Bytes → Result Bytes Uri) (openssl : Setting → Result Bytes Unit)
    (config : RequestConfig) where
  abbrev pub client_of : ConnMode → List Setting → CachedClient
  client_of mode settings = record {
    mode = mode;
    settings = settings;
    connect_timeout = seconds_allowed config;
  }

  abbrev pub with_proxy : ConnMode → Bytes → List Setting → Option (Result ClientError CachedClient)
  with_proxy mode proxy_url settings = some (
      map_err (λ e. error_of invalid_url (codes "invalid proxy URL: " ++ e)) (parse_uri proxy_url)
      >>= λ proxy_uri. ok (client_of mode settings))

  -- The branch that is never reached is `none`.
  abbrev pub build_mode : ConnMode → List Setting → Option (Result ClientError CachedClient)
  build_mode (direct tls) settings = some (ok (client_of (direct tls) settings))
  build_mode (forward_proxy proxy_url) settings = none
  build_mode (tunnel proxy_url tls) settings = with_proxy (tunnel proxy_url tls) proxy_url settings
  build_mode (socks5 proxy_url tls) settings = with_proxy (socks5 proxy_url tls) proxy_url settings

  -- The connector comes first.
  abbrev pub build_client :
      ConnMode → Result ClientError (List Setting) → Option (Result ClientError CachedClient)
  build_client mode (err e) = some (err e)
  build_client mode (ok settings) = build_mode mode settings

  abbrev pub insert_client :
      ConnMode
      → Cached
      → Option (Result ClientError CachedClient)
      → Option (Result ClientError (CachedClient × Cached))
  insert_client mode cached none = none
  insert_client mode cached (some (err e)) = some (err e)
  insert_client mode cached (some (ok client)) = some (ok (client, (mode, client) ∷ cached))

  abbrev pub get_or_insert :
      ConnMode → Cached → Option CachedClient → Option (Result ClientError (CachedClient × Cached))
  get_or_insert mode cached (some client) = some (ok (client, cached))
  get_or_insert mode cached none =
      insert_client mode cached (build_client mode (apply_calls openssl (pool_calls config)))

  abbrev pub get_or_build : ConnMode → Cached → Option (Result ClientError (CachedClient × Cached))
  get_or_build mode cached = get_or_insert mode cached (lookup mode cached)

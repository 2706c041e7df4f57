-- ===== src/Client/SameClient.antt =====
-- The cache of clients of src/client/hyper.rs never hands out a client with other TLS settings.
use blasthttp.Common.{
  ◌≡◌, inl, inr, refl, sym, ap, ◌∙◌, ◌||◌, Bool-cases, Option-cases, Option, none, some, some_inj,
  List, [], ◌∷◌, ◌++◌, All, if◌then◌else◌,
}
use mathlib.Core.Path.{subst}
use blasthttp.Common.Bytes.{Bytes, codes}
use blasthttp.Common.Result.{Result, ok, err, ok_inj, >>=-eq-ok, Result-cases}
use blasthttp.Common.Text.{same}
use blasthttp.Common.Uri.{Uri}
use blasthttp.Client.Cache.{
  pool_calls, pool_alpn_call, same_mode, CachedClient, Cached, lookup, with_proxy, build_mode,
  build_client, insert_client, get_or_build,
}
use blasthttp.Client.Error.{ClientError, error_of, invalid_url, other}
use blasthttp.Client.Redirect.{
  TlsKey, ConnMode, direct, forward_proxy, tunnel, socks5, from_config, Network, conn_mode, map_err,
}
use blasthttp.Client.Tls.{
  Setting, builder, security_level, load_ca, verify_none, min_proto, max_proto, Call, version_call,
  cipher_call, apply_calls,
}
use blasthttp.Client.Verified.{okays, apply_calls-okays}
use blasthttp.Common.Maybe.{get_or_else}
use blasthttp.Cookies.Send.{is_https}
use blasthttp.Config.Bypass.{effective_proxy}
use blasthttp.Config.Request.{RequestConfig}
use blasthttp.Client.Keys.{same_mode→eq}

-- The calls that a key stands for.
abbrev key_calls : TlsKey → List Call
key_calls k =
    ok builder
    ∷ (ok (security_level 0)
        ∷ (ok (if k.verify_certs then load_ca else verify_none)
            ∷ (cipher_call k.cipher_string
                ++ (version_call min_proto k.min_tls_version
                    ++ (version_call max_proto k.max_tls_version
                        ++ (pool_alpn_call k.alpn_protocols ∷ []))))))

-- A client that is right for its mode; a forward proxy has none.
abbrev Served : ConnMode → CachedClient → Type 0
Served (direct tls) client = key_calls tls ≡ okays client.settings
Served (forward_proxy p) client = ⊥
Served (tunnel p tls) client = key_calls tls ≡ okays client.settings
Served (socks5 p tls) client = key_calls tls ≡ okays client.settings

abbrev IsFor : ConnMode → CachedClient → Type 0
IsFor mode client = (client.mode ≡ mode) × Served mode client

abbrev Right : Cached → Type 0
Right = All (λ (entry : ConnMode × CachedClient). IsFor entry.0 entry.1)

lookup-IsFor :
    (mode : ConnMode) (cached : Cached) (client : CachedClient)
    → lookup mode cached ≡ some client
    → Right cached
    → IsFor mode client
unfolding lookup
lookup-IsFor mode [] client h r = absurd cc
lookup-IsFor mode ((k, c) ∷ cached) client h (first, others) =
    elim (Bool-cases (same_mode mode k)) [
      | inl e ↦
          let found : c ≡ client = some_inj (rw e at h) in
          subst (λ x. IsFor x client) (sym (same_mode→eq mode k e)) (subst (IsFor k) found first)
      | inr e ↦ lookup-IsFor mode cached client (rw e at h) others
    ]

-- A mode that `conn_mode` has chosen for these settings.
abbrev pub Chosen : RequestConfig → ConnMode → Type 0
Chosen config (direct tls) = tls ≡ from_config config
Chosen config (forward_proxy p) = Unit
Chosen config (tunnel p tls) = tls ≡ from_config config
Chosen config (socks5 p tls) = tls ≡ from_config config

Served-calls :
    (config : RequestConfig) (mode : ConnMode) (client : CachedClient)
    → Chosen config mode
    → Served mode client
    → pool_calls config ≡ okays client.settings
Served-calls config (direct tls) client c s = ap key_calls (sym c) ∙ s
Served-calls config (forward_proxy p) client c s = absurd s
Served-calls config (tunnel p tls) client c s = ap key_calls (sym c) ∙ s
Served-calls config (socks5 p tls) client c s = ap key_calls (sym c) ∙ s

module _ (network : Network) (openssl : Setting → Result Bytes Unit) (config : RequestConfig) where
  abbrev obtained : ConnMode → Cached → Option (Result ClientError (CachedClient × Cached))
  obtained = get_or_build network.parse_uri openssl config

  with_proxy_made :
      (mode : ConnMode) (proxy_url : Bytes) (settings : List Setting) (client : CachedClient)
      → with_proxy network.parse_uri openssl config mode proxy_url settings ≡ some (ok client)
      → (client.mode ≡ mode) × (okays settings ≡ okays client.settings)
  with_proxy_made mode proxy_url settings client h =
      let (_, _, made) =
        >>=-eq-ok
          (map_err (λ x. error_of invalid_url (codes "invalid proxy URL: " ++ x))
            (network.parse_uri proxy_url))
          _ (some_inj h) in
      (sym (ap (λ c. c.mode) (ok_inj made)), ap (λ c. okays c.settings) (ok_inj made))

  build_mode-IsFor :
      (mode : ConnMode) (settings : List Setting) (client : CachedClient)
      → Chosen config mode
      → pool_calls config ≡ okays settings
      → build_mode network.parse_uri openssl config mode settings ≡ some (ok client)
      → IsFor mode client
  build_mode-IsFor (direct tls) settings client c e h =
      let made = ok_inj (some_inj h) in
      (sym (ap (λ x. x.mode) made), ap key_calls c ∙ e ∙ ap (λ x. okays x.settings) made)
  build_mode-IsFor (forward_proxy p) settings client c e h = absurd cc
  build_mode-IsFor (tunnel p tls) settings client c e h =
      let (m, kept) = with_proxy_made (tunnel p tls) p settings client h in
      (m, ap key_calls c ∙ e ∙ kept)
  build_mode-IsFor (socks5 p tls) settings client c e h =
      let (m, kept) = with_proxy_made (socks5 p tls) p settings client h in
      (m, ap key_calls c ∙ e ∙ kept)

  insert-IsFor :
      (mode : ConnMode) (cached cached' : Cached) (client : CachedClient)
      (o : Option (Result ClientError CachedClient))
      → insert_client network.parse_uri openssl config mode cached o ≡ some (ok (client, cached'))
      → (o ≡ some (ok client)) × (cached' ≡ (mode, client) ∷ cached)
  insert-IsFor mode cached cached' client none h = absurd cc
  insert-IsFor mode cached cached' client (some (err e)) h = absurd cc
  insert-IsFor mode cached cached' client (some (ok c)) h =
      let e = ok_inj (some_inj h) in
      (ap (λ x. some (ok x.0)) e, sym (ap (λ x. x.1) e) ∙ ap (λ x. (mode, x.0) ∷ cached) e)

  obtained-IsFor :
      (mode : ConnMode) (cached cached' : Cached) (client : CachedClient)
      → Chosen config mode
      → Right cached
      → obtained mode cached ≡ some (ok (client, cached'))
      → IsFor mode client × Right cached'
  obtained-IsFor mode cached cached' client c r h = elim (Option-cases (lookup mode cached)) [
    | inr (found, at) ↦
        let e = ok_inj (some_inj (rw at at h)) in
        let right = lookup-IsFor mode cached found at r in
        (subst (IsFor mode) (ap (λ x. x.0) e) right, subst Right (ap (λ x. x.1) e) r)
    | inl missing ↦
        let fresh = rw missing at h in
        let (built, grown) =
          insert-IsFor mode cached cached' client
            (build_client network.parse_uri openssl config mode
              (apply_calls openssl (pool_calls config)))
            fresh in
        elim (Result-cases (apply_calls openssl (pool_calls config))) [
          | inl (e, failed) ↦ let no = rw failed at built in absurd cc
          | inr (settings, applied) ↦
              let right : IsFor mode client =
                build_mode-IsFor mode settings client c
                  (apply_calls-okays openssl (pool_calls config) settings applied)
                  (rw applied at built) in
              (right, subst Right (sym grown) (right, r))
        ]
  ]

  scheme-Chosen :
      (uri : Uri) (p scheme : Bytes) (mode : ConnMode)
      → (if same scheme (codes "http") || same scheme (codes "https")
          then (if is_https uri.scheme
              then ok (tunnel p (from_config config))
              else ok (forward_proxy p))
          else if same scheme (codes "socks5") || same scheme (codes "socks5h")
          then ok (socks5 p (from_config config))
          else err (
              error_of other (
                codes "unsupported proxy scheme '"
                ++ (scheme ++ codes "' (use http, https, socks5)"))))
        ≡ ok mode
      → Chosen config mode
  scheme-Chosen uri p scheme mode h =
      elim (Bool-cases (same scheme (codes "http") || same scheme (codes "https"))) [
        | inl e ↦ elim (Bool-cases (is_https uri.scheme)) [
          | inl f ↦ subst (Chosen config) (ok_inj (rw (e, f) at h)) refl
          | inr f ↦ subst (Chosen config) (ok_inj (rw (e, f) at h)) tt
        ]
        | inr e ↦
            elim (Bool-cases (same scheme (codes "socks5") || same scheme (codes "socks5h"))) [
              | inl f ↦ subst (Chosen config) (ok_inj (rw (e, f) at h)) refl
              | inr f ↦ let no = rw (e, f) at h in absurd cc
            ]
      ]

  conn_mode-Chosen :
      (uri : Uri) (mode : ConnMode) → conn_mode network config uri ≡ ok mode → Chosen config mode
  unfolding conn_mode
  conn_mode-Chosen uri mode h =
      elim (Option-cases (effective_proxy config (get_or_else uri.host []))) [
        | inl none_applies ↦ subst (Chosen config) (ok_inj (rw (none_applies, conn_mode) at h)) refl
        | inr (p, applies) ↦
            let (proxy_uri, _, next) =
              >>=-eq-ok
                (map_err (λ e. error_of invalid_url (codes "invalid proxy URL: " ++ e))
                  (network.parse_uri p))
                _ (rw (applies, conn_mode) at h) in
            scheme-Chosen uri p (get_or_else proxy_uri.scheme []) mode next
      ]

  -- What the n-th request of a client finds in the cache that the requests before it have left.
  abbrev pub cache_after : Cached → Option (Result ClientError (CachedClient × Cached)) → Cached
  cache_after cached none = cached
  cache_after cached (some (err e)) = cached
  cache_after cached (some (ok (client, cached'))) = cached'

module _ (network : Network) (openssl : Setting → Result Bytes Unit) where
  -- One request: the cache that it leaves.
  abbrev pub request_step : RequestConfig → Cached → Result ClientError ConnMode → Cached
  request_step config cached (err e) = cached
  request_step config cached (ok mode) =
      cache_after network openssl config cached
        (get_or_build network.parse_uri openssl config mode cached)

  -- A client that serves requests in turn, each with its own settings.
  abbrev pub cache_of : List (RequestConfig × Uri) → Cached → Cached
  cache_of [] cached = cached
  cache_of ((config, uri) ∷ requests) cached =
      cache_of requests (request_step config cached (conn_mode network config uri))

  after-Right :
      (config : RequestConfig) (mode : ConnMode) (cached : Cached)
      (o : Option (Result ClientError (CachedClient × Cached)))
      → Chosen config mode
      → get_or_build network.parse_uri openssl config mode cached ≡ o
      → Right cached
      → Right (cache_after network openssl config cached o)
  after-Right config mode cached none c h r = r
  after-Right config mode cached (some (err e)) c h r = r
  after-Right config mode cached (some (ok (client, cached'))) c h r =
      (obtained-IsFor network openssl config mode cached cached' client c r h).1

  step-Right :
      (config : RequestConfig) (uri : Uri) (cached : Cached) (m : Result ClientError ConnMode)
      → conn_mode network config uri ≡ m
      → Right cached
      → Right (request_step config cached m)
  step-Right config uri cached (err e) h r = r
  step-Right config uri cached (ok mode) h r =
      after-Right config mode cached (get_or_build network.parse_uri openssl config mode cached)
        (conn_mode-Chosen network openssl config uri mode h) refl r

  cache_of-Right :
      (requests : List (RequestConfig × Uri)) (cached : Cached)
      → Right cached
      → Right (cache_of requests cached)
  cache_of-Right [] cached r = r
  cache_of-Right ((config, uri) ∷ requests) cached r =
      cache_of-Right requests (request_step config cached (conn_mode network config uri))
        (step-Right config uri cached (conn_mode network config uri) refl r)

  -- After any requests, with whatever settings, the client that a request gets, cached or new, is one
  -- for its own mode, and the calls to OpenSSL that set the client up, which all succeeded, are the
  -- ones that this request's own settings ask for.
  pub get_or_build-IsFor :
      (requests : List (RequestConfig × Uri)) (config : RequestConfig) (uri : Uri) (mode : ConnMode)
      (client : CachedClient) (cached' : Cached)
      → conn_mode network config uri ≡ ok mode
      → get_or_build network.parse_uri openssl config mode (cache_of requests [])
        ≡ some (ok (client, cached'))
      → (client.mode ≡ mode) × (pool_calls config ≡ okays client.settings)
  get_or_build-IsFor requests config uri mode client cached' h got =
      let chosen = conn_mode-Chosen network openssl config uri mode h in
      let (right, _) =
        obtained-IsFor network openssl config mode (cache_of requests []) cached' client chosen
          (cache_of-Right requests [] tt) got in
      (right.0, Served-calls config mode client chosen right.1)

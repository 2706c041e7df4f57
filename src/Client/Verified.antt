-- ===== src/Client/Verified.antt =====
-- `connect_stream` of src/client/hyper.rs tells OpenSSL whose certificate to look for.
use blasthttp.Common.{
  if◌then◌else◌, ◌≡◌, refl, sym, ap, ◌∙◌, true, false, inl, inr, Option, none, some, List, [], ◌∷◌,
  ◌++◌, append_assoc, All, All-append,
}
use mathlib.Core.Path.{subst}
use blasthttp.Common.Bytes.{Bytes}
use blasthttp.Common.Maybe.{get_or_else}
use blasthttp.Common.Result.{Result, ok, err, >>=-eq-ok, ok_inj, Result-cases}
use blasthttp.Common.Uri.{Uri}
use blasthttp.Client.Connect.{Socket}
use blasthttp.Client.Stream.{
  Outside, reported_peer, connect_addr, open_tunnel, dialled, Connected, proxy_config,
  checked_proxy, connect_stream, target_port, start_tls, secured,
}
use blasthttp.Client.Tls.{
  TlsVersion, Setting, builder, security_level, verify_none, load_ca, min_proto, max_proto, ssl_new,
  verify_ip, verify_host, ssl_stream, Call, clears, verify_mode, tried, apply_calls, tls_calls,
  builder_calls, cipher_call, version_call, alpn_call, sni_call, identity_call, parse_tls_version,
  encode_alpn_protocols,
}
use blasthttp.Config.Address.{parse_ip}
use blasthttp.Config.Bypass.{effective_proxy, validate_proxy}
use blasthttp.Config.Cidr.{IpAddr}
use blasthttp.Config.Request.{RequestConfig, should_verify_certs}
use blasthttp.Cookies.Send.{is_https}

abbrev pub okays : List Setting → List Call
okays [] = []
okays (s ∷ settings) = ok s ∷ okays settings

-- Calls that all succeed are the settings.
pub apply_calls-okays :
    (openssl : Setting → Result Bytes Unit) (calls : List Call) (settings : List Setting)
    → apply_calls openssl calls ≡ ok settings
    → calls ≡ okays settings
unfolding apply_calls
apply_calls-okays openssl [] settings h = ap okays (ok_inj h)
apply_calls-okays openssl (err e ∷ calls) settings h = absurd cc
apply_calls-okays openssl (ok s ∷ calls) settings h = elim (Result-cases (tried openssl s)) [
  | inl (e, failed) ↦ let no = rw (failed, apply_calls) at h in absurd cc
  | inr (_, done) ↦
      let (rest, more, end) =
        >>=-eq-ok (apply_calls openssl calls) _ (rw (done, apply_calls) at h) in
      ap (λ cs. ok s ∷ cs) (apply_calls-okays openssl calls rest more) ∙ ap okays (ok_inj end)
]

-- What OpenSSL is told to look for in the certificate.
abbrev pub identity : Bytes → Option IpAddr → Setting
identity host (some ip) = verify_ip ip
identity host none = verify_host host

okays-split :
    (front back : List Call) (settings : List Setting)
    → front ++ back ≡ okays settings
    → (before : List Setting) × (after : List Setting) × (settings ≡ before ++ after)
      × (front ≡ okays before)
      × (back ≡ okays after)
okays-split [] back settings h = ([], settings, refl, refl, h)
okays-split (c ∷ front) back [] h = absurd cc
okays-split (c ∷ front) back (t ∷ settings) h =
    let e : c ≡ ok t = cc in
    let tails : front ++ back ≡ okays settings = cc in
    let (before, after, split, f, b) = okays-split front back settings tails in
    (t ∷ before, after, ap (λ r. t ∷ r) split, ap (λ x. x ∷ front) e ∙ ap (λ r. ok t ∷ r) f, b)

okays_inj : (xs ys : List Setting) → okays xs ≡ okays ys → xs ≡ ys
okays_inj [] [] h = refl
okays_inj [] (y ∷ ys) h = absurd cc
okays_inj (x ∷ xs) [] h = absurd cc
okays_inj (x ∷ xs) (y ∷ ys) h =
    let first : ◌≡◌ {A = Call} (ok x) (ok y) = cc in
    let others : okays xs ≡ okays ys = cc in
    ap (λ s. s ∷ xs) (ok_inj first) ∙ ap (λ r. y ∷ r) (okays_inj xs ys others)

named_last :
    (host : Bytes) (ip : Option IpAddr) → identity_call true host ip ≡ ok (identity host ip) ∷ []
named_last host (some ip) = refl
named_last host none = refl

-- No call turns verification off.
abbrev Keeps : List Call → Type 0
Keeps calls = All (λ c. clears c ≡ false) calls

verify_mode-Keeps : (calls : List Call) → Keeps calls → verify_mode calls ≡ true
verify_mode-Keeps [] h = refl
verify_mode-Keeps (c ∷ calls) (h, hs) = rw h (verify_mode-Keeps calls hs)

cipher_call-Keeps : (ciphers : Option Bytes) → Keeps (cipher_call ciphers)
cipher_call-Keeps none = tt
cipher_call-Keeps (some ciphers) = (refl, tt)

version_call-Keeps :
    (call : TlsVersion → Setting)
    → ((v : TlsVersion) → clears (ok (call v)) ≡ false)
    → (version : Option Bytes) → Keeps (version_call call version)
version_call-Keeps call h none = tt
version_call-Keeps call h (some s) = elim (Result-cases (parse_tls_version s)) [
  | inl (e, f) ↦ rw f (refl, tt)
  | inr (v, f) ↦ rw f (h v, tt)
]

alpn_call-Keeps : (protocols : Option (List Bytes)) → clears (alpn_call protocols) ≡ false
alpn_call-Keeps none = refl
alpn_call-Keeps (some protos) = elim (Result-cases (encode_alpn_protocols protos)) [
  | inl (e, f) ↦ rw f refl
  | inr (wire, f) ↦ rw f refl
]

sni_call-Keeps : (host : Bytes) (ip : Option IpAddr) → Keeps (sni_call host ip)
sni_call-Keeps host none = (refl, tt)
sni_call-Keeps host (some ip) = tt

-- What stands between the authorities and the connection.
abbrev options : RequestConfig → List Call
options config =
    cipher_call config.cipher_string
    ++ (version_call min_proto config.min_tls_version
        ++ (version_call max_proto config.max_tls_version
            ++ (alpn_call config.alpn_protocols ∷ [])))

options-Keeps : (config : RequestConfig) → Keeps (options config)
options-Keeps config =
    All-append _ (cipher_call config.cipher_string) _ (cipher_call-Keeps config.cipher_string) (
      All-append _ (version_call min_proto config.min_tls_version) _
        (version_call-Keeps min_proto (λ v. refl) config.min_tls_version)
        (All-append _ (version_call max_proto config.max_tls_version) _
          (version_call-Keeps max_proto (λ v. refl) config.max_tls_version)
          (alpn_call-Keeps config.alpn_protocols, tt)))

abbrev set_up : List Setting
set_up = builder ∷ (security_level 0 ∷ (load_ca ∷ []))

abbrev between : RequestConfig → Bytes → List Call
between config host = options config ++ (ok ssl_new ∷ sni_call host (parse_ip host))

tls_calls-verified :
    (config : RequestConfig) (host : Bytes)
    → should_verify_certs config ≡ true
    → tls_calls config host
      ≡ okays set_up
        ++ (between config host ++ okays (identity host (parse_ip host) ∷ (ssl_stream ∷ [])))
unfolding tls_calls
tls_calls-verified config host verify =
    let ip = parse_ip host in
    let sni = sni_call host ip in
    let end = okays (identity host ip ∷ (ssl_stream ∷ [])) in
    let built : builder_calls config ≡ okays set_up ++ options config =
      ap
        (λ b.
          ok builder
          ∷ (ok (security_level 0) ∷ (ok (if b then load_ca else verify_none) ∷ options config)))
        verify in
    let mode : verify_mode (builder_calls config) ≡ true =
      ap verify_mode built ∙ verify_mode-Keeps (options config) (options-Keeps config) in
    let named : identity_call (verify_mode (builder_calls config)) host ip
        ≡ ok (identity host ip) ∷ [] =
      ap (λ b. identity_call b host ip) mode ∙ named_last host ip in
    ap (λ l. builder_calls config ++ (ok ssl_new ∷ (sni ++ (l ++ (ok ssl_stream ∷ []))))) named
    ∙ ap (λ l. l ++ (ok ssl_new ∷ (sni ++ end))) built
    ∙ ap (λ l. okays set_up ++ l) (sym (append_assoc (options config) (ok ssl_new ∷ sni) end))

not_none : (s : Setting) → clears (ok s) ≡ false → ¬ (s ≡ verify_none)
not_none s h e = let no : true ≡ false = ap (λ x. clears (ok x)) (sym e) ∙ h in absurd cc

okays-Keeps :
    (settings : List Setting) → Keeps (okays settings) → All (λ s. ¬ (s ≡ verify_none)) settings
okays-Keeps [] h = tt
okays-Keeps (s ∷ settings) (h, hs) = (not_none s h, okays-Keeps settings hs)

-- The calls that were made for a connection whose certificate is checked.
pub record Checked (host : Bytes) (settings : List Setting) : Type 0 where
  pub middle : List Setting
  pub calls :
      settings
      ≡ builder
        ∷ (security_level 0
            ∷ (load_ca ∷ (middle ++ (identity host (parse_ip host) ∷ (ssl_stream ∷ [])))))
  pub never_off : All (λ s. ¬ (s ≡ verify_none)) middle

applied-Checked :
    (openssl : Setting → Result Bytes Unit) (config : RequestConfig) (host : Bytes)
    (settings : List Setting)
    → should_verify_certs config ≡ true
    → apply_calls openssl (tls_calls config host) ≡ ok settings
    → Checked host settings
applied-Checked openssl config host settings verify applied =
    let end = identity host (parse_ip host) ∷ (ssl_stream ∷ []) in
    let made =
      sym (tls_calls-verified config host verify)
      ∙ apply_calls-okays openssl (tls_calls config host) settings applied in
    let (first, rest, split, f, r) =
      okays-split (okays set_up) (between config host ++ okays end) settings made in
    let (middle, last, split', m, l) = okays-split (between config host) (okays end) rest r in
    let keeps =
      All-append _ (options config) (ok ssl_new ∷ sni_call host (parse_ip host))
        (options-Keeps config) (refl, sni_call-Keeps host (parse_ip host)) in
    record {
      middle = middle;
      calls =
          split
          ∙ ap (λ x. x ++ rest) (sym (okays_inj set_up first f))
          ∙ ap (λ x. set_up ++ x) (split' ∙ ap (λ x. middle ++ x) (sym (okays_inj end last l)));
      never_off = okays-Keeps middle (subst Keeps m keeps);
    }

secured-settings :
    (outside : Outside) (config : RequestConfig) (host : Bytes) (settings : List Setting)
    (peer_ip : Option IpAddr) (r : Option (Result Bytes (Socket × Option Bytes))) (c : Connected)
    → secured outside config host settings peer_ip r ≡ ok c
    → c.settings ≡ some settings
secured-settings outside config host settings peer_ip none c h = absurd cc
secured-settings outside config host settings peer_ip (some (err e)) c h = absurd cc
secured-settings outside config host settings peer_ip (some (ok x)) c h =
    sym (ap (λ k. k.settings) (ok_inj h))

-- A connection to an https target with certificates verified has been set up by calls to OpenSSL that
-- load the system's authorities into a new builder, whose security level is 0, never turn verification
-- off, and at last, before the stream is made, name the address or, if the host is none, the name that
-- the certificate must be for.
pub connect_stream-IsVerified :
    (outside : Outside) (config : RequestConfig) (uri : Uri) (c : Connected)
    → connect_stream outside config uri ≡ ok c
    → is_https uri.scheme ≡ true
    → should_verify_certs config ≡ true
    → (settings : List Setting) × (c.settings ≡ some settings)
      × Checked (get_or_else uri.host []) settings
unfolding connect_stream
connect_stream-IsVerified outside config uri c h https verify =
    let host = get_or_else uri.host [] in
    let (_, _, by_proxy) = >>=-eq-ok (checked_proxy (validate_proxy config)) _ h in
    let (proxy, _, dialling) = >>=-eq-ok (proxy_config (effective_proxy config host)) _ by_proxy in
    let port = target_port outside config uri in
    let addr = connect_addr config host port proxy in
    let ((tcp, peer), _, tunnelling) =
      >>=-eq-ok (dialled outside config addr (outside.dial addr)) _ dialling in
    let (tunnelled, _, starting) =
      >>=-eq-ok (open_tunnel outside config host port proxy outside.tunnel_in_time tcp) _
        tunnelling in
    let peer_ip = reported_peer outside config proxy peer in
    let tls_start : start_tls outside config true host peer_ip tunnelled ≡ ok c =
      ap (λ b. start_tls outside config b host peer_ip tunnelled) (sym https) ∙ starting in
    let (settings, applied, end) =
      >>=-eq-ok (apply_calls outside.openssl (tls_calls config host)) _ tls_start in
    (
      settings,
      secured-settings outside config host settings peer_ip (outside.handshake settings tunnelled) c
          end,
      applied-Checked outside.openssl config host settings verify applied,
    )

-- ===== src/Client/Tls.antt =====
-- The set-up of TLS in `connect_stream` of src/client/hyper.rs, with `encode_alpn_protocols` and
-- `parse_tls_version`. OpenSSL is a parameter.
use blasthttp.Common.{
  ℕ, ◌%◌, Bool, true, false, ◌||◌, if◌then◌else◌, ltb, Option, none, some, List, [], ◌∷◌, ◌++◌, map,
  length,
}
use blasthttp.Common.Bytes.{Bytes, codes}
use blasthttp.Common.Result.{Result, ok, err, ◌>>=◌}
use blasthttp.Common.Text.{same, is_nil}
use blasthttp.Client.Error.{ClientError, error_of, decimal, tls, other}
use blasthttp.Config.Address.{parse_ip}
use blasthttp.Config.Cidr.{IpAddr}
use blasthttp.Config.Request.{RequestConfig, should_verify_certs}
use blasthttp.Config.Suffix.{to_lower}

abbrev pub check_protocol : Bytes → Result ClientError Bytes
check_protocol p =
    if is_nil p
    then err (error_of tls (codes "ALPN protocol name cannot be empty"))
    else if ltb 255 (length p)
    then err (
        error_of tls (
          codes "ALPN protocol name too long ("
          ++ (decimal (length p) ++ (codes "B > 255): " ++ p))))
    else ok (length p % 256 ∷ p)

unfoldable pub encode_alpn_protocols : List Bytes → Result ClientError Bytes
encode_alpn_protocols [] = ok []
encode_alpn_protocols (p ∷ protos) =
    check_protocol p >>= λ entry. encode_alpn_protocols protos >>= λ out. ok (entry ++ out)

pub data TlsVersion : Type 0 where
  tls1 tls1_1 tls1_2 tls1_3 : TlsVersion

-- The names of a version.
abbrev pub names_version : Bytes → Bytes → Bool
names_version number s =
    same s number || (same s (codes "tls" ++ number) || same s (codes "tlsv" ++ number))

unfoldable pub parse_tls_version : Bytes → Result ClientError TlsVersion
parse_tls_version s =
    let lowered = map to_lower s in
    if names_version (codes "1.0") lowered
    then ok tls1
    else if names_version (codes "1.1") lowered
    then ok tls1_1
    else if names_version (codes "1.2") lowered
    then ok tls1_2
    else if names_version (codes "1.3") lowered
    then ok tls1_3
    else err (
        error_of other (codes "unknown TLS version '" ++ (s ++ codes "' (use 1.0, 1.1, 1.2, 1.3)")))

-- The calls that set up OpenSSL for a connection.
pub data Setting : Type 0 where
  builder : Setting
  security_level : ℕ → Setting
  verify_none load_ca : Setting
  cipher_list : Bytes → Setting
  min_proto max_proto : TlsVersion → Setting
  alpn_protos : Bytes → Setting
  ssl_new : Setting
  hostname : Bytes → Setting
  verify_ip : IpAddr → Setting
  verify_host : Bytes → Setting
  ssl_stream : Setting

-- What stands before OpenSSL's own text when a call fails.
abbrev pub setting_error : Setting → Bytes → Bytes
setting_error builder e = codes "SSL setup failed: " ++ e
setting_error (security_level n) e = e
setting_error verify_none e = e
setting_error load_ca e = e
setting_error (cipher_list ciphers) e =
    codes "invalid cipher string '" ++ (ciphers ++ (codes "': " ++ e))
setting_error (min_proto v) e = codes "failed to set min TLS version: " ++ e
setting_error (max_proto v) e = codes "failed to set max TLS version: " ++ e
setting_error (alpn_protos wire) e = codes "failed to set ALPN: " ++ e
setting_error ssl_new e = codes "SSL conf failed: " ++ e
setting_error (hostname host) e = codes "SNI setup failed: " ++ e
setting_error (verify_ip ip) e = codes "hostname verify setup failed: " ++ e
setting_error (verify_host host) e = codes "hostname verify setup failed: " ++ e
setting_error ssl_stream e = codes "TLS stream setup failed: " ++ e

abbrev pub Call : Type 0
Call = Result ClientError Setting

abbrev pub version_call : (TlsVersion → Setting) → Option Bytes → List Call
version_call call none = []
version_call call (some s) = (parse_tls_version s >>= λ v. ok (call v)) ∷ []

abbrev pub cipher_call : Option Bytes → List Call
cipher_call none = []
cipher_call (some ciphers) = ok (cipher_list ciphers) ∷ []

abbrev pub alpn_call : Option (List Bytes) → Call
alpn_call none = ok (alpn_protos (8 ∷ codes "http/1.1"))
alpn_call (some protos) = encode_alpn_protocols protos >>= λ wire. ok (alpn_protos wire)

-- A name is sent to the server, an address is not.
abbrev pub sni_call : Bytes → Option IpAddr → List Call
sni_call host none = ok (hostname host) ∷ []
sni_call host (some ip) = []

abbrev pub identity_call : Bool → Bytes → Option IpAddr → List Call
identity_call false host _ = []
identity_call true host (some ip) = ok (verify_ip ip) ∷ []
identity_call true host none = ok (verify_host host) ∷ []

-- `set_verify` with the mode NONE.
abbrev pub clears : Call → Bool
clears (ok verify_none) = true
clears _ = false

-- Whether the mode is another than NONE after calls: a builder starts with the mode PEER.
abbrev pub verify_mode : List Call → Bool
verify_mode [] = true
verify_mode (call ∷ calls) = if clears call then false else verify_mode calls

-- The calls in their order: those on the builder, and those on the connection.
abbrev pub builder_calls : RequestConfig → List Call
builder_calls config =
    ok builder
    ∷ (ok (security_level 0)
        ∷ (ok (if should_verify_certs config then load_ca else verify_none)
            ∷ (cipher_call config.cipher_string
                ++ (version_call min_proto config.min_tls_version
                    ++ (version_call max_proto config.max_tls_version
                        ++ (alpn_call config.alpn_protocols ∷ []))))))

unfoldable pub tls_calls : RequestConfig → Bytes → List Call
tls_calls config host =
    builder_calls config
    ++ (ok ssl_new
        ∷ (sni_call host (parse_ip host)
            ++ (identity_call (verify_mode (builder_calls config)) host (parse_ip host)
                ++ (ok ssl_stream ∷ []))))

-- `set_security_level` and `set_verify` return nothing; what the others come to is a parameter.
abbrev pub tried : (Setting → Result Bytes Unit) → Setting → Result Bytes Unit
tried openssl (security_level n) = ok tt
tried openssl verify_none = ok tt
tried openssl s = openssl s

-- A call fails before OpenSSL, or in it.
unfoldable pub apply_calls :
    (Setting → Result Bytes Unit) → List Call → Result ClientError (List Setting)
apply_calls openssl [] = ok []
apply_calls openssl (err e ∷ calls) = err e
apply_calls openssl (ok s ∷ calls) =
    let rest = apply_calls openssl calls in
    elim (tried openssl s) [
      | err e ↦ err (error_of tls (setting_error s e))
      | ok _ ↦ rest >>= λ settings. ok (s ∷ settings)
    ]

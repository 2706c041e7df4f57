-- ===== src/Config/Bypass.antt =====
-- `host_bypasses_proxy`, `effective_proxy` and `validate_proxy` of src/config.rs.
use blasthttp.Common.{
  ℕ, Bool, true, false, not, ◌&&◌, if◌then◌else◌, ◌==◌, Option, none, some, List, [], ◌∷◌,
}
use blasthttp.Common.Bytes.{Bytes, codes}
use blasthttp.Common.Integer.{parse_unsigned}
use blasthttp.Common.Maybe.{◌>>=◌, get_or_else, is_some}
use blasthttp.Common.Result.{Result, ok, err}
use blasthttp.Common.Text.{
  same, is_nil, strip_prefix, strip_suffix, trim, trim_start_matches, trim_end_matches, split_once,
}
use blasthttp.Config.Address.{parse_ip}
use blasthttp.Config.Cidr.{IpAddr, v4, v6, ip_in_cidr}
use blasthttp.Config.Request.{RequestConfig}
use blasthttp.Config.Suffix.{host_matches_suffix}

abbrev pub is_byte : ℕ → ℕ → Bool
is_byte c b = b == c

abbrev pub unbracket : Bytes → Bytes
unbracket host =
    get_or_else (strip_prefix host (codes "[") >>= λ h. strip_suffix h (codes "]")) host

-- `==` on addresses
abbrev pub same_ip : IpAddr → IpAddr → Bool
same_ip (v4 a) (v4 b) = a == b
same_ip (v6 a) (v6 b) = a == b
same_ip _ _ = false

abbrev pub is_host_ip : IpAddr → Option IpAddr → Bool
is_host_ip ip none = false
is_host_ip ip (some host_ip) = same_ip ip host_ip

abbrev pub in_range : Option IpAddr → Option IpAddr → Option ℕ → Bool
in_range (some ip) (some net_ip) (some prefix_len) = ip_in_cidr ip net_ip prefix_len
in_range _ _ _ = false

-- The suffix that a pattern for names stands for.
abbrev pub name_of : Bytes → Bytes
name_of pattern =
    trim_end_matches (is_byte b'.')
      (trim_start_matches (is_byte b'.') (trim_start_matches (is_byte b'*') pattern))

-- The body of the loop: whether this pattern makes the loop return.
unfoldable pub pattern_matches : Option IpAddr → Bytes → Bytes → Bool
pattern_matches host_ip host pattern =
    if is_nil pattern
    then false
    else if same pattern (codes "*")
    then true
    else elim (split_once b'/' pattern) [
      | some (net, prefix) ↦
          in_range host_ip (parse_ip (trim net)) (parse_unsigned 255 (trim prefix))
      | none ↦ elim (parse_ip pattern) [
        | some pattern_ip ↦ is_host_ip pattern_ip host_ip
        | none ↦
            if is_some host_ip
            then false
            else not (is_nil (name_of pattern)) && host_matches_suffix host (name_of pattern)
      ]
    ]

abbrev pub any_pattern : Option IpAddr → Bytes → List Bytes → Bool
any_pattern host_ip host [] = false
any_pattern host_ip host (p ∷ ps) =
    if pattern_matches host_ip host (trim p) then true else any_pattern host_ip host ps

unfoldable pub host_bypasses_proxy : Bytes → List Bytes → Bool
host_bypasses_proxy host patterns =
    if is_nil host
    then false
    else any_pattern (parse_ip (unbracket host)) (trim_end_matches (is_byte b'.') (unbracket host))
        patterns

abbrev pub effective_proxy : RequestConfig → Bytes → Option Bytes
effective_proxy c target_host =
    c.proxy >>= λ proxy. if host_bypasses_proxy target_host c.no_proxy then none else some proxy

abbrev pub proxy_set : Option Bytes → Bool
proxy_set none = false
proxy_set (some p) = not (is_nil (trim p))

abbrev pub validate_proxy : RequestConfig → Result Bytes Unit
validate_proxy c =
    if not (is_nil c.no_proxy) && not (proxy_set c.proxy)
    then err (
        codes
          "no_proxy is set but no proxy is configured; no_proxy only has an effect when a proxy is also set")
    else ok tt

-- ===== src/Cookies/Domain.antt =====
-- Hosts, domains and paths in src/cookies.rs.
use blasthttp.Common.{
  ℕ, zero, suc, ◌-◌, Bool, true, false, not, ◌&&◌, ◌||◌, if◌then◌else◌, ltb, ◌==◌, Option, none,
  some, [], ◌∷◌, length, get_elem?, take,
}
use blasthttp.Common.Bytes.{Bytes, codes}
use blasthttp.Common.Maybe.{is_some}
use blasthttp.Common.Text.{same, starts_with, ends_with, byte_is, trim_end_matches}
use blasthttp.Config.Address.{parse_ip}
use blasthttp.Config.Bypass.{unbracket, is_byte}
use blasthttp.Config.Suffix.{lower}

unfoldable pub canonical_host : Bytes → Bytes
canonical_host host = lower (trim_end_matches (is_byte b'.') (unbracket host))

abbrev pub is_ip : Bytes → Bool
is_ip host = is_some (parse_ip host)

unfoldable pub domain_matches : Bytes → Bytes → Bool
domain_matches host domain =
    if same host domain
    then true
    else if is_ip host
    then false
    else ltb (length domain) (length host)
      && ends_with host domain
      && byte_is b'.' (get_elem? host (length host - length domain - 1))

unfoldable pub path_matches : Bytes → Bytes → Bool
path_matches request_path cookie_path =
    if same request_path cookie_path
    then true
    else if not (starts_with request_path cookie_path)
    then false
    else ends_with cookie_path (codes "/")
      || byte_is b'/' (get_elem? request_path (length cookie_path))

-- `rfind`
abbrev pub rfind : ℕ → Bytes → Option ℕ
rfind c [] = none
rfind c (x ∷ xs) = elim (rfind c xs) [
  | some i ↦ some (suc i)
  | none ↦ if x == c then some 0 else none
]

unfoldable pub default_path : Bytes → Bytes
default_path request_path =
    if not (starts_with request_path (codes "/"))
    then codes "/"
    else elim (rfind b'/' request_path) [
      | none ↦ codes "/"
      | some zero ↦ codes "/"
      | some (suc i) ↦ take (suc i) request_path
    ]

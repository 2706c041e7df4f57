-- ===== src/Config/Runs.antt =====
-- The proxy tests at concrete hosts.
use blasthttp.Common.{◌≡◌, refl, true, false, some, List, [], ◌∷◌}
use blasthttp.Common.Bytes.{Bytes, codes}
use blasthttp.Common.Integer.{digits}
use blasthttp.Common.Text.{
  same, starts_with, ends_with, trim_start_matches, trim_end_matches, split_once,
}
use blasthttp.Config.Address.{parse_ip, read_digits, read_groups}
use blasthttp.Config.Addressed.{AnyNames, host_bypasses_proxy-AnyNames}
use blasthttp.Config.Bypass.{host_bypasses_proxy, pattern_matches, unbracket}
use blasthttp.Config.Cidr.{IpAddr, v4, ip_in_cidr, same_network}
use blasthttp.Config.Suffix.{host_matches_suffix, eq_ignore_case, to_lower}

-- 10.1.2.3 and 10.0.0.0
abbrev inside : IpAddr
inside = v4 167838211

abbrev ten : IpAddr
ten = v4 167772160

in_eight : ip_in_cidr inside ten 8 ≡ true
unfolding ip_in_cidr same_network
in_eight = refl

not_in_sixteen : ip_in_cidr inside ten 16 ≡ false
unfolding ip_in_cidr same_network
not_in_sixteen = refl

subdomain : host_matches_suffix (codes "Api.Corp") (codes "corp") ≡ true
unfolding host_matches_suffix eq_ignore_case to_lower
subdomain = refl

-- A name that only ends in the same letters is no subdomain.
other_name : host_matches_suffix (codes "notcorp") (codes "corp") ≡ false
unfolding host_matches_suffix eq_ignore_case to_lower
other_name = refl

abbrev patterns : List Bytes
patterns = codes "corp" ∷ codes " 10.0.0.0/8" ∷ []

address_bypasses : host_bypasses_proxy (codes "10.1.2.3") patterns ≡ true
unfolding host_bypasses_proxy pattern_matches parse_ip read_digits read_groups same starts_with
    ends_with trim_start_matches trim_end_matches split_once digits ip_in_cidr same_network
address_bypasses = refl

an_address : parse_ip (unbracket (codes "10.1.2.3")) ≡ some inside
unfolding parse_ip read_digits read_groups starts_with ends_with
an_address = refl

host_bypasses_proxy-AnyNames_example : AnyNames inside patterns
host_bypasses_proxy-AnyNames_example =
    host_bypasses_proxy-AnyNames inside (codes "10.1.2.3") patterns an_address address_bypasses

-- ===== src/Config/Addressed.antt =====
-- When a target that is an IP address bypasses the proxy: src/config.rs.
use blasthttp.Common.{
  ℕ, ◌≡◌, ◌⊎◌, inl, inr, refl, true, false, Bool-cases, Option-cases, Option, none, some, List, [],
  ◌∷◌,
}
use blasthttp.Common.Bytes.{Bytes, codes}
use blasthttp.Common.Integer.{parse_unsigned}
use blasthttp.Common.Text.{is_nil, same, same_iff, split_once, trim, trim_end_matches}
use blasthttp.Config.Address.{parse_ip}
use blasthttp.Config.Bypass.{
  pattern_matches, any_pattern, host_bypasses_proxy, in_range, same_ip, unbracket, is_byte,
}
use blasthttp.Config.Cidr.{IpAddr, ip_in_cidr}

-- Everything; a range that the address is in; or the address itself.
abbrev pub NamesAddress : IpAddr → Bytes → Type 0
NamesAddress ip pattern =
    (pattern ≡ codes "*")
    ⊎ (((net : IpAddr) × (prefix_len : ℕ) × (parts : Bytes × Bytes) × (split_once b'/' pattern
            ≡ some parts)
          × (parse_ip (trim parts.0) ≡ some net)
          × (parse_unsigned 255 (trim parts.1) ≡ some prefix_len)
          × (ip_in_cidr ip net prefix_len ≡ true))
        ⊎ ((other : IpAddr) × (parse_ip pattern ≡ some other) × (same_ip other ip ≡ true)))

in_range_cases :
    (ip : IpAddr) (net : Option IpAddr) (prefix_len : Option ℕ)
    → in_range (some ip) net prefix_len ≡ true
    → (n : IpAddr) × (k : ℕ) × (net ≡ some n) × (prefix_len ≡ some k) × (ip_in_cidr ip n k ≡ true)
in_range_cases ip none k h = absurd cc
in_range_cases ip (some n) none h = absurd cc
in_range_cases ip (some n) (some k) h = (n, k, refl, refl, h)

pattern_matches-NamesAddress :
    (ip : IpAddr) (host pattern : Bytes)
    → pattern_matches (some ip) host pattern ≡ true
    → NamesAddress ip pattern
unfolding pattern_matches
pattern_matches-NamesAddress ip host pattern h = elim (Bool-cases (is_nil pattern)) [
  | inl e ↦ let wrong : false ≡ true = rw e at h in absurd cc
  | inr full ↦ elim (Bool-cases (same pattern (codes "*"))) [
    | inl e ↦ inl ((same_iff pattern (codes "*")).0 e)
    | inr star ↦ elim (Option-cases (split_once b'/' pattern)) [
      | inr (parts, s) ↦
          let (n, k, en, ek, inside) =
            in_range_cases ip (parse_ip (trim parts.0)) (parse_unsigned 255 (trim parts.1))
              (rw (full, star, s) at h) in
          inr (inl (n, k, parts, s, en, ek, inside))
      | inl s ↦ elim (Option-cases (parse_ip pattern)) [
        | inr (other, p) ↦ inr (inr (other, p, rw (full, star, s, p) at h))
        | inl p ↦ let wrong : false ≡ true = rw (full, star, s, p) at h in absurd cc
      ]
    ]
  ]
]

-- A pattern of the list, trimmed, that names the address.
pub data AnyNames (ip : IpAddr) : List Bytes → Type 0 where
  here : (p : Bytes) (ps : List Bytes) → NamesAddress ip (trim p) → AnyNames ip (p ∷ ps)
  there : (p : Bytes) (ps : List Bytes) → AnyNames ip ps → AnyNames ip (p ∷ ps)

any_pattern-AnyNames :
    (ip : IpAddr) (host : Bytes) (patterns : List Bytes)
    → any_pattern (some ip) host patterns ≡ true
    → AnyNames ip patterns
any_pattern-AnyNames ip host [] h = absurd cc
any_pattern-AnyNames ip host (p ∷ ps) h =
    elim (Bool-cases (pattern_matches (some ip) host (trim p))) [
      | inl e ↦ here p ps (pattern_matches-NamesAddress ip host (trim p) e)
      | inr e ↦ there p ps (any_pattern-AnyNames ip host ps (rw e at h))
    ]

-- A target that is an IP address, in brackets or not, bypasses the proxy only for a pattern `*`, a
-- range of addresses that it is in, or its own address, never for the name of a domain.
pub host_bypasses_proxy-AnyNames :
    (ip : IpAddr) (host : Bytes) (patterns : List Bytes)
    → parse_ip (unbracket host) ≡ some ip
    → host_bypasses_proxy host patterns ≡ true
    → AnyNames ip patterns
unfolding host_bypasses_proxy
host_bypasses_proxy-AnyNames ip host patterns address h = elim (Bool-cases (is_nil host)) [
  | inl e ↦ let wrong : false ≡ true = rw e at h in absurd cc
  | inr e ↦
      any_pattern-AnyNames ip (trim_end_matches (is_byte b'.') (unbracket host)) patterns
        (rw (e, address) at h)
]

-- ===== src/Cookies/Scope.antt =====
-- What a cookie that `parse_set_cookie` of src/cookies.rs accepts may reach.
use blasthttp.Common.{
  ◌≡◌, ◌≢◌, [], ◌⊎◌, inl, inr, refl, sym, ap, ◌∙◌, Bool, true, false, Bool-cases, Option-cases,
  Option, none, some, some_inj, ◌∷◌,
}
use blasthttp.Common.Bytes.{Bytes}
use blasthttp.Common.Integer.{ℤ}
use blasthttp.Common.Maybe.{>>=-eq-some}
use blasthttp.Common.Text.{same, same_iff, trim, split_first, split_once}
use blasthttp.Cookies.Chain.{Cookie}
use blasthttp.Cookies.Domain.{is_ip, domain_matches}
use blasthttp.Cookies.Match.{Under, domain_matches→Under}
use mathlib.Core.Path.{subst}
use blasthttp.Cookies.Parse.{
  parse_set_cookie, scope, is_public_suffix, same_name, take_attributes, no_attributes,
  non_empty_name,
}

same_name→eq : (a b : Option Bytes) → same_name a b ≡ true → a ≡ b
same_name→eq none none h = refl
same_name→eq none (some b) h = absurd cc
same_name→eq (some a) none h = absurd cc
same_name→eq (some a) (some b) h = ap some ((same_iff a b).0 h)

non_empty_name_sound : (n m : Bytes) → non_empty_name n ≡ some m → m ≢ []
non_empty_name_sound [] m h = absurd cc
non_empty_name_sound (b ∷ n) m h = λ e. let no : b ∷ n ≡ [] = some_inj h ∙ e in absurd cc

module _ (domain_str : Bytes → Option Bytes) where
  -- For the host alone; or for the names under a domain of the host's registrable domain, which is
  -- no public suffix.
  abbrev pub IsScope : Bytes → Bytes → Bool → Type 0
  IsScope request_host domain host_only =
      ((host_only ≡ true) × (domain ≡ request_host))
      ⊎ ((host_only ≡ false)
          × (is_ip request_host ≡ false)
          × Under request_host domain
          × (owner : Bytes) × (domain_str request_host ≡ some owner)
          × (domain_str domain ≡ some owner))

  registered :
      (d : Bytes)
      → is_public_suffix domain_str d ≡ false
      → (owner : Bytes) × (domain_str d ≡ some owner)
  registered d h = elim (Option-cases (domain_str d)) [
    | inr found ↦ found
    | inl n ↦ let no : true ≡ false = rw (n, is_public_suffix) at h in absurd cc
  ]

  scope-IsScope :
      (attribute : Option Bytes) (request_host : Bytes) (s : Bytes × Bool)
      → scope domain_str attribute request_host ≡ some s
      → IsScope request_host s.0 s.1
  unfolding scope
  scope-IsScope none request_host s h =
      let e = some_inj h in inl (sym (ap (λ p. p.1) e), sym (ap (λ p. p.0) e))
  scope-IsScope (some d) request_host s h = elim (Bool-cases (domain_matches request_host d)) [
    | inr e ↦ let no : none ≡ some s = rw e at h in absurd cc
    | inl covers ↦ elim (Bool-cases (is_ip request_host)) [
      | inl ip ↦
          let e : (request_host, true) ≡ s = some_inj (rw (covers, ip) at h) in
          inl (sym (ap (λ p. p.1) e), sym (ap (λ p. p.0) e))
      | inr name ↦ elim (Bool-cases (is_public_suffix domain_str d)) [
        | inl n ↦ elim (Bool-cases (same d request_host)) [
          | inr e ↦ let no : none ≡ some s = rw (covers, name, n, e) at h in absurd cc
          | inl it ↦
              let e : (request_host, true) ≡ s = some_inj (rw (covers, name, n, it) at h) in
              inl (sym (ap (λ p. p.1) e), sym (ap (λ p. p.0) e))
        ]
        | inr n ↦
            let (owner, own) = registered d n in
            elim (Bool-cases (same_name (domain_str request_host) (domain_str d))) [
              | inr e ↦ let no : none ≡ some s = rw (covers, name, n, e) at h in absurd cc
              | inl it ↦
                  let e : (d, false) ≡ s = some_inj (rw (covers, name, n, it) at h) in
                  let (to_d, only) : (s.0 ≡ d) × (s.1 ≡ false) =
                    (sym (ap (λ p. p.0) e), sym (ap (λ p. p.1) e)) in
                  inr (
                    only,
                    name,
                    rw to_d (domain_matches→Under request_host d covers),
                    owner,
                    same_name→eq _ _ it ∙ own,
                    rw to_d own,
                  )
            ]
      ]
    ]
  ]

  -- A cookie that is accepted has a name, and goes either to the host that set it alone or to the
  -- names under its domain; then that host is no IP address and one of those names, its domain is no
  -- public suffix, and both have the same registrable domain.
  pub parse_set_cookie-IsScope :
      (now : ℤ) (value request_host request_path : Bytes) (cookie : Cookie) (expired : Bool)
      → parse_set_cookie domain_str now value request_host request_path ≡ some (cookie, expired)
      → (cookie.name ≢ []) × IsScope request_host cookie.domain cookie.host_only
  unfolding parse_set_cookie
  parse_set_cookie-IsScope now value request_host request_path cookie expired h =
      let (pair, parts) = split_first b';' value in
      let (nv, _, r1) = >>=-eq-some (split_once b'=' (trim pair)) _ h in
      let (name, named, r2) = >>=-eq-some (non_empty_name (trim nv.0)) _ r1 in
      let a = take_attributes parts no_attributes in
      let (s, scoped, r3) = >>=-eq-some (scope domain_str a.domain request_host) _ r2 in
      let whole = ap (λ p. p.0) (some_inj r3) in
      subst (λ c. (c.name ≢ []) × IsScope request_host c.domain c.host_only) whole
        (non_empty_name_sound (trim nv.0) name named, scope-IsScope a.domain request_host s scoped)

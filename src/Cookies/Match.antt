-- ===== src/Cookies/Match.antt =====
-- When src/cookies.rs sends a cookie, described without its tests.
use blasthttp.Common.{
  ℕ, ◌+◌, ◌-◌, suc, ◌≡◌, ◌↔◌, ◌⊎◌, inl, inr, refl, sym, ap, ◌∙◌, Bool, true, false, not, ◌&&◌, ◌||◌,
  Bool-cases, both_true, ltb, ltb→lt, lt→ltb, [], ◌∷◌, ◌++◌, length, length-append, drop-append,
  ==_iff, take, drop, get_elem?, append-nil, append_assoc, arith,
}
use blasthttp.Common.Bytes.{Bytes, codes}
use blasthttp.Common.Text.{
  same, same_iff, starts_with, ends_with, starts_with_iff, ends_with_iff, byte_is, split_at_byte,
  byte_at,
}
use blasthttp.Cookies.Chain.{Cookie}
use blasthttp.Cookies.Domain.{domain_matches, path_matches, is_ip}
use blasthttp.Cookies.Send.{applies}

-- The domain itself, or a name below it.
abbrev pub Under : Bytes → Bytes → Type 0
Under host domain =
    (host ≡ domain) ⊎ ((is_ip host ≡ false) × (front : Bytes) × (host ≡ front ++ (b'.' ∷ domain)))

-- The path itself, or one that goes on at a slash.
abbrev pub Below : Bytes → Bytes → Type 0
Below path cookie_path =
    (rest : Bytes) × (path ≡ cookie_path ++ rest)
    × ((rest ≡ [])
        ⊎ (((front : Bytes) × (cookie_path ≡ front ++ codes "/"))
            ⊎ ((tail : Bytes) × (rest ≡ b'/' ∷ tail))))

pub domain_matches→Under :
    (host domain : Bytes) → domain_matches host domain ≡ true → Under host domain
unfolding domain_matches
domain_matches→Under host domain h = elim (Bool-cases (same host domain)) [
  | inl e ↦ inl ((same_iff _ _).0 e)
  | inr differs ↦ elim (Bool-cases (is_ip host)) [
    | inl e ↦ let no : false ≡ true = rw (differs, e) at h in absurd cc
    | inr name ↦
        let place : ℕ = length host - length domain in
        let (longer_ends, dot) =
          both_true (ltb (length domain) (length host) && ends_with host domain)
            (byte_is b'.' (get_elem? host (place - 1))) (rw (differs, name) at h) in
        let (longer, ends) =
          both_true (ltb (length domain) (length host)) (ends_with host domain) longer_ends in
        let (front, e) = (ends_with_iff host domain).0 ends in
        let len : length host ≡ length front + length domain =
          ap length e ∙ length-append front domain in
        let more = ltb→lt _ _ longer in
        let behind : drop (suc (place - 1)) host ≡ domain =
          ap (drop (suc (place - 1))) e
          ∙ drop-append (suc (place - 1)) front domain (omega arith) in
        inr (
          name,
          take (place - 1) host,
          split_at_byte b'.' host (place - 1) dot
              ∙ ap (λ t. take (place - 1) host ++ (b'.' ∷ t)) behind,
        )
  ]
]

pub Under→domain_matches :
    (host domain : Bytes) → Under host domain → domain_matches host domain ≡ true
unfolding domain_matches
Under→domain_matches host domain (inl e) = rw ((same_iff host domain).1 e) refl
Under→domain_matches host domain (inr (name, front, e)) =
    let place : ℕ = length host - length domain in
    let len : length host ≡ length front + suc (length domain) =
      ap length e ∙ length-append front (b'.' ∷ domain) in
    let longer : ltb (length domain) (length host) ≡ true = lt→ltb _ _ (omega arith) in
    let ends : ends_with host domain ≡ true =
      (ends_with_iff host domain).1
        (front ++ codes ".", e ∙ sym (append_assoc front (codes ".") domain)) in
    let before : place - 1 ≡ length front = omega arith in
    let dot : byte_is b'.' (get_elem? host (place - 1)) ≡ true =
      ap (λ i. byte_is b'.' (get_elem? host i)) before
      ∙ ap (λ l. byte_is b'.' (get_elem? l (length front))) e
      ∙ byte_at b'.' front domain in
    elim (Bool-cases (same host domain)) [
      | inl whole ↦ rw whole refl
      | inr differs ↦ rw (differs, name, longer, ends, dot) refl
    ]

-- What stands right after a prefix.
first_after :
    (c : ℕ) (p rest : Bytes)
    → byte_is c (get_elem? (p ++ rest) (length p)) ≡ true
    → (tail : Bytes) × (rest ≡ c ∷ tail)
first_after c [] [] h = absurd cc
first_after c [] (x ∷ rest) h = (rest, ap (λ y. y ∷ rest) ((==_iff x c).0 h))
first_after c (y ∷ p) rest h = first_after c p rest h

pub path_matches→Below :
    (path cookie_path : Bytes) → path_matches path cookie_path ≡ true → Below path cookie_path
unfolding path_matches
path_matches→Below path cookie_path h = elim (Bool-cases (same path cookie_path)) [
  | inl e ↦ ([], (same_iff _ _).0 e ∙ sym (append-nil cookie_path), inl refl)
  | inr differs ↦ elim (Bool-cases (starts_with path cookie_path)) [
    | inr e ↦ let no : false ≡ true = rw (differs, e) at h in absurd cc
    | inl starts ↦
        let (rest, e) = (starts_with_iff path cookie_path).0 starts in
        let either : (ends_with cookie_path (codes "/")
              || byte_is b'/' (get_elem? path (length cookie_path)))
            ≡ true =
          rw (differs, starts) at h in
        elim (Bool-cases (ends_with cookie_path (codes "/"))) [
          | inl slash ↦ (rest, e, inr (inl ((ends_with_iff cookie_path (codes "/")).0 slash)))
          | inr none_ ↦
              let next : byte_is b'/' (get_elem? path (length cookie_path)) ≡ true =
                rw none_ at either in
              (
                rest,
                e,
                inr (
                    inr (
                      first_after b'/' cookie_path rest (
                        ap (λ l. byte_is b'/' (get_elem? l (length cookie_path))) (sym e) ∙ next))),
              )
        ]
  ]
]

pub Below→path_matches :
    (path cookie_path : Bytes) → Below path cookie_path → path_matches path cookie_path ≡ true
unfolding path_matches
Below→path_matches path cookie_path (rest, e, at) =
    let starts : starts_with path cookie_path ≡ true =
      (starts_with_iff path cookie_path).1 (rest, e) in
    elim (Bool-cases (same path cookie_path)) [
      | inl whole ↦ rw whole refl
      | inr differs ↦ elim at [
        | inl nothing ↦
            let whole : same path cookie_path ≡ true =
              (same_iff _ _).1 (e ∙ ap (λ r. cookie_path ++ r) nothing ∙ append-nil cookie_path) in
            absurd cc
        | inr (inl slash) ↦
            rw (differs, starts, (ends_with_iff cookie_path (codes "/")).1 slash) refl
        | inr (inr (tail, t)) ↦
            let next : byte_is b'/' (get_elem? path (length cookie_path)) ≡ true =
              ap (λ l. byte_is b'/' (get_elem? l (length cookie_path)))
                (e ∙ ap (λ r. cookie_path ++ r) t)
              ∙ byte_at b'/' cookie_path tail in
            elim (Bool-cases (ends_with cookie_path (codes "/"))) [
              | inl ends ↦ rw (differs, starts, ends) refl
              | inr none_ ↦ rw (differs, starts, none_, next) refl
            ]
      ]
    ]

-- The rules of RFC 6265 for sending a cookie.
pub record IsFor (host path : Bytes) (secure_transport : Bool) (c : Cookie) : Type 0 where
  pub is_safe : (c.secure ≡ false) ⊎ (secure_transport ≡ true)
  pub scope :
      ((c.host_only ≡ true) × (host ≡ c.domain)) ⊎ ((c.host_only ≡ false) × Under host c.domain)
  pub covers : Below path c.path

safe_cases : (s t : Bool) → (s && not t) ≡ false → (s ≡ false) ⊎ (t ≡ true)
safe_cases false t h = inl refl
safe_cases true true h = inr refl
safe_cases true false h = absurd cc

cases_safe : (s t : Bool) → (s ≡ false) ⊎ (t ≡ true) → (s && not t) ≡ false
cases_safe false t h = refl
cases_safe true true h = refl
cases_safe true false (inl e) = absurd cc
cases_safe true false (inr e) = absurd cc

-- The three tests one after the other.
passed :
    (host path : Bytes) (secure_transport : Bool) (c : Cookie)
    → applies host path secure_transport c ≡ true
    → IsFor host path secure_transport c
unfolding applies
passed host path secure_transport c h = elim (Bool-cases (c.secure && not secure_transport)) [
  | inl e ↦ let no : false ≡ true = rw e at h in absurd cc
  | inr safe ↦ elim (Bool-cases c.host_only) [
    | inl only ↦ elim (Bool-cases (same host c.domain)) [
      | inr e ↦ let no : false ≡ true = rw (safe, only, e) at h in absurd cc
      | inl e ↦ record {
        is_safe = safe_cases c.secure secure_transport safe;
        scope = inl (only, (same_iff _ _).0 e);
        covers = path_matches→Below path c.path (rw (safe, only, e) at h);
      }
    ]
    | inr wide ↦ elim (Bool-cases (domain_matches host c.domain)) [
      | inr e ↦ let no : false ≡ true = rw (safe, wide, e) at h in absurd cc
      | inl e ↦ record {
        is_safe = safe_cases c.secure secure_transport safe;
        scope = inr (wide, domain_matches→Under host c.domain e);
        covers = path_matches→Below path c.path (rw (safe, wide, e) at h);
      }
    ]
  ]
]

passes :
    (host path : Bytes) (secure_transport : Bool) (c : Cookie)
    → IsFor host path secure_transport c
    → applies host path secure_transport c ≡ true
unfolding applies
passes host path secure_transport c f =
    let safe = cases_safe c.secure secure_transport f.is_safe in
    let below = Below→path_matches path c.path f.covers in
    elim f.scope [
      | inl (only, e) ↦ rw (safe, only, (same_iff host c.domain).1 e, below) refl
      | inr (wide, under) ↦ rw (safe, wide, Under→domain_matches host c.domain under, below) refl
    ]

-- A stored cookie passes the tests of `header_for` exactly when it is not secure or the transport
-- is; the host is its domain or, unless it is for its own host only, a name below the domain that
-- is no IP address; and the path is its path or goes on from it at a slash.
pub applies_iff :
    (host path : Bytes) (secure_transport : Bool) (c : Cookie)
    → (applies host path secure_transport c ≡ true) ↔ IsFor host path secure_transport c
applies_iff host path secure_transport c =
    (passed host path secure_transport c, passes host path secure_transport c)

-- ===== src/Cookies/Parse.antt =====
-- `parse_set_cookie` and `ChainCookies::store` of src/cookies.rs. `domain_str` stands for
-- `psl::domain_str`, and `now` for the system's clock in seconds since 1970.
use blasthttp.Common.{Bool, true, false, not, if◌then◌else◌, Option, none, some, List, [], ◌∷◌}
use blasthttp.Common.Bytes.{Bytes, codes}
use blasthttp.Common.Integer.{ℤ, pos, leℤ, parse_i64}
use blasthttp.Common.Maybe.{◌>>=◌, get_or_else}
use blasthttp.Common.Text.{
  same, is_nil, starts_with, trim, trim_start_matches, split_once, split_first,
}
use blasthttp.Config.Bypass.{is_byte}
use blasthttp.Config.Suffix.{eq_ignore_case}
use blasthttp.Cookies.Chain.{Cookie, Rejected, ChainCookies, settle}
use blasthttp.Cookies.Date.{parse_http_date}
use blasthttp.Common.Uri.{Uri}
use blasthttp.Cookies.Domain.{canonical_host, is_ip, domain_matches, default_path}

pub record Attributes : Type 0 where
  pub domain : Option Bytes
  pub path : Option Bytes
  pub secure : Bool
  pub max_age : Option ℤ
  pub expires : Option ℤ

abbrev pub no_attributes : Attributes
no_attributes = record {
  domain = none;
  path = none;
  secure = false;
  max_age = none;
  expires = none;
}

abbrev pub domain_of : Option Bytes → Bytes → Option Bytes
domain_of before value =
    let d = canonical_host (trim_start_matches (is_byte b'.') value) in
    if is_nil d then before else some d

-- The body of the loop over the attributes.
unfoldable pub take_attribute : Bytes → Bytes → Attributes → Attributes
take_attribute key value a =
    if eq_ignore_case key (codes "domain")
    then record {
      domain = domain_of a.domain value;
      path = a.path;
      secure = a.secure;
      max_age = a.max_age;
      expires = a.expires;
    }
    else if eq_ignore_case key (codes "path")
    then record {
      domain = a.domain;
      path = (if starts_with value (codes "/") then some value else a.path);
      secure = a.secure;
      max_age = a.max_age;
      expires = a.expires;
    }
    else if eq_ignore_case key (codes "secure")
    then record {
      domain = a.domain;
      path = a.path;
      secure = true;
      max_age = a.max_age;
      expires = a.expires;
    }
    else if eq_ignore_case key (codes "max-age")
    then record {
      domain = a.domain;
      path = a.path;
      secure = a.secure;
      max_age = parse_i64 value;
      expires = a.expires;
    }
    else if eq_ignore_case key (codes "expires")
    then record {
      domain = a.domain;
      path = a.path;
      secure = a.secure;
      max_age = a.max_age;
      expires = parse_http_date value;
    }
    else a

-- An attribute without a value has the empty one.
abbrev pub key_and_value : Bytes → Bytes × Bytes
key_and_value attr = elim (split_once b'=' (trim attr)) [
  | some (k, v) ↦ (trim k, trim v)
  | none ↦ (trim attr, [])
]

unfoldable pub take_attributes : List Bytes → Attributes → Attributes
take_attributes [] a = a
take_attributes (p ∷ ps) a =
    let (k, v) = key_and_value p in take_attributes ps (take_attribute k v a)

-- `==` on options of strings
abbrev pub same_name : Option Bytes → Option Bytes → Bool
same_name none none = true
same_name (some a) (some b) = same a b
same_name _ _ = false

-- Max-Age wins over Expires.
abbrev pub is_expired : ℤ → Attributes → Bool
is_expired now a = elim a.max_age [
  | some secs ↦ leℤ secs (pos 0)
  | none ↦ elim a.expires [ some when ↦ leℤ when now | none ↦ false ]
]

abbrev pub non_empty_name : Bytes → Option Bytes
non_empty_name name = if is_nil name then none else some name

module _ (domain_str : Bytes → Option Bytes) where
  abbrev pub is_public_suffix : Bytes → Bool
  is_public_suffix domain = elim (domain_str domain) [ none ↦ true | some d ↦ false ]

  abbrev pub registrable : Bytes → Option Bytes
  registrable host = domain_str host

  -- The domain of the cookie, and whether only its own host gets it back.
  unfoldable pub scope : Option Bytes → Bytes → Option (Bytes × Bool)
  scope none request_host = some (request_host, true)
  scope (some d) request_host =
      if not (domain_matches request_host d)
      then none
      else if is_ip request_host
      then some (request_host, true)
      else if is_public_suffix d
      then (if same d request_host then some (request_host, true) else none)
      else if not (same_name (registrable request_host) (registrable d))
      then none
      else some (d, false)

  unfoldable pub parse_set_cookie : ℤ → Bytes → Bytes → Bytes → Option (Cookie × Bool)
  parse_set_cookie now value request_host request_path = do
    let (pair, parts) = split_first b';' value
    (first, val) ← split_once b'=' (trim pair)
    name ← non_empty_name (trim first)
    let a = take_attributes parts no_attributes
    (domain, host_only) ← scope a.domain request_host
    some (
      record {
        name = name;
        value = trim val;
        domain = domain;
        host_only = host_only;
        path = get_or_else a.path (default_path request_path);
        secure = a.secure;
      },
      is_expired now a,
    )

  abbrev pub settle_parsed :
      Option (Cookie × Bool) → ChainCookies → Rejected → ChainCookies × Rejected
  settle_parsed none chain rejected = (chain, rejected)
  settle_parsed (some (cookie, expired)) chain rejected = settle cookie expired chain rejected

  -- The body of the loop of `store`.
  unfoldable pub store_header :
      ℤ → Bytes → Bytes → Bytes × Bytes → ChainCookies → Rejected → ChainCookies × Rejected
  store_header now host request_path (name, value) chain rejected =
      if eq_ignore_case name (codes "set-cookie")
      then settle_parsed (parse_set_cookie now value host request_path) chain rejected
      else (chain, rejected)

  unfoldable pub store_loop :
      ℤ → Bytes → Bytes → List (Bytes × Bytes) → ChainCookies → Rejected → ChainCookies × Rejected
  store_loop now host request_path [] chain rejected = (chain, rejected)
  store_loop now host request_path (h ∷ headers) chain rejected =
      let s = store_header now host request_path h chain rejected in
      store_loop now host request_path headers s.0 s.1

  unfoldable pub store : ℤ → List (Bytes × Bytes) → Uri → ChainCookies → ChainCookies × Rejected
  store now headers uri chain = elim uri.host [
    | none ↦ (chain, record { caller_owned = []; over_limit = [] })
    | some host ↦
        store_loop now (canonical_host host) uri.path headers chain
          (record { caller_owned = []; over_limit = [] })
  ]

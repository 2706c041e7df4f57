-- ===== src/Client/ProxyText.antt =====
-- What `parse_proxy_url` of src/client/proxy.rs reads from the parts of a URL.
use blasthttp.Common.{
  ℕ, ◌^◌, ◌<◌, ◌==◌, ◌≡◌, refl, sym, ap, ◌∙◌, true, false, Bool-cases, inl, inr, Option, none, some,
  [], ◌∷◌, ◌++◌, map, append_assoc, append-nil, arith,
}
use blasthttp.Common.Bytes.{Bytes, codes}
use blasthttp.Common.Result.{ok, ◌>>=◌}
use blasthttp.Common.Split.{
  contains-append, split_once-none, split_once-append, split_first-whole, split_first-append,
  rsplit_once-append, split_at_text-append,
}
use blasthttp.Common.Text.{same_iff, contains, is_nil, same, split_first}
use blasthttp.Client.Error.{decimal}
use blasthttp.Client.Numbers.{contains-decimal, parse_unsigned-decimal}
use blasthttp.Client.Proxy.{
  ProxyScheme, proxy_scheme, split_userinfo, login_of, split_host, host_port, config_of, parse_rest,
  parse_parts, parse_proxy_url,
}
use blasthttp.Config.Suffix.{to_lower}

-- The parts that may stand in front of a host, and what they name.
pub data Login : Bytes → Option Bytes → Option Bytes → Type 0 where
  no_login : Login [] none none
  user :
      (u : Bytes)
      → contains b'@' u ≡ false
      → contains b':' u ≡ false
      → Login (u ++ codes "@") (some u) none
  user_password :
      (u p : Bytes)
      → contains b'@' u ≡ false
      → contains b':' u ≡ false
      → contains b'@' p ≡ false
      → Login ((u ++ (b':' ∷ p)) ++ codes "@") (some u) (some p)

-- What may stand behind a port.
pub data Tail : Bytes → Type 0 where
  no_path : Tail []
  path : (p : Bytes) → contains b'@' p ≡ false → Tail (b'/' ∷ p)

abbrev pub address_text : Bytes → ℕ → Bytes
address_text host port = host ++ (b':' ∷ decimal port)

address_text-plain :
    (c : ℕ) (host : Bytes) (port : ℕ)
    → contains c host ≡ false
    → contains c (b':' ∷ decimal port) ≡ false
    → contains c (address_text host port) ≡ false
address_text-plain c host port h rest = contains-append c host (b':' ∷ decimal port) h rest

split_userinfo-Login :
    {login : Bytes} {u p : Option Bytes} (rest : Bytes)
    → Login login u p
    → contains b'@' rest ≡ false
    → (login_of (split_userinfo (login ++ rest)).0 ≡ (u, p))
      × ((split_userinfo (login ++ rest)).1 ≡ rest)
split_userinfo-Login rest no_login h = rw (split_userinfo, split_once-none b'@' rest h) (refl, refl)
split_userinfo-Login rest (user u at colon) h =
    rw
      (
        append_assoc u (codes "@") rest,
        split_userinfo,
        split_once-append b'@' u rest at,
        login_of,
        split_once-none b':' u colon,
      )
      (refl, refl)
split_userinfo-Login rest (user_password u p at colon at') h =
    let both = u ++ (b':' ∷ p) in
    rw
      (
        append_assoc both (codes "@") rest,
        split_userinfo,
        split_once-append b'@' both rest (contains-append b'@' u (b':' ∷ p) at at'),
        login_of,
        split_once-append b':' u p colon,
      )
      (refl, refl)

split_first-Tail :
    (front tail : Bytes)
    → contains b'/' front ≡ false
    → Tail tail
    → (split_first b'/' (front ++ tail)).0 ≡ front
split_first-Tail front tail h no_path =
    rw (append-nil front) (ap (λ r. r.0) (split_first-whole b'/' front h))
split_first-Tail front tail h (path p at) = split_first-append b'/' front p h

host_port_read :
    (url : Bytes) (s : ProxyScheme) (host : Bytes) (port : ℕ)
    → port < 2 ^ 16
    → host_port url s (address_text host port) ≡ ok (host, port)
host_port_read url s host port small =
    rw
      (
        host_port,
        rsplit_once-append b':' host (decimal port) (contains-decimal b':' port refl),
        split_host,
        parse_unsigned-decimal port small,
      )
      refl

Tail-plain : (tail : Bytes) → Tail tail → contains b'@' tail ≡ false
Tail-plain tail no_path = refl
Tail-plain tail (path p at) = at

colon_lower : (x : ℕ) → (to_lower x == b':') ≡ (x == b':')
unfolding to_lower
colon_lower x = ground arith

contains-lower : (xs : Bytes) → contains b':' (map to_lower xs) ≡ contains b':' xs
contains-lower [] = refl
contains-lower (x ∷ xs) = rw (contains-lower xs, colon_lower x) refl

named_plain :
    (name p : Bytes)
    → same (map to_lower name) p ≡ true
    → contains b':' p ≡ false
    → contains b':' name ≡ false
named_plain name p h plain =
    sym (contains-lower name) ∙ ap (contains b':') ((same_iff (map to_lower name) p).0 h) ∙ plain

-- The names of schemes.
proxy_scheme-plain :
    (name : Bytes) (s : ProxyScheme) → proxy_scheme name ≡ ok s → contains b':' name ≡ false
proxy_scheme-plain name s h =
    let lowered = map to_lower name in
    elim (Bool-cases (same lowered (codes "http"))) [
      | inl e ↦ named_plain name (codes "http") e refl
      | inr e ↦ elim (Bool-cases (same lowered (codes "socks5"))) [
        | inl f ↦ named_plain name (codes "socks5") f refl
        | inr f ↦ elim (Bool-cases (same lowered (codes "socks5h"))) [
          | inl g ↦ named_plain name (codes "socks5h") g refl
          | inr g ↦ let no = rw (proxy_scheme, e, f, g) at h in absurd cc
        ]
      ]
    ]

-- A proxy's URL is read as its parts: a scheme in any case of its letters, a user and a password if
-- they are there, a host and a 16-bit port; a path behind the port is dropped. A user must not hold
-- a colon, a host no slash, and neither they nor the password and the path an at sign.
pub parse_proxy_url-reads :
    (name login host tail : Bytes) (port : ℕ) (u p : Option Bytes) (s : ProxyScheme)
    → proxy_scheme name ≡ ok s
    → Login login u p
    → is_nil host ≡ false
    → contains b'/' host ≡ false
    → contains b'@' host ≡ false
    → port < 2 ^ 16
    → Tail tail
    → parse_proxy_url (name ++ (codes "://" ++ (login ++ (address_text host port ++ tail))))
      ≡ ok record { scheme = s; host = host; port = port; username = u; password = p }
unfolding parse_proxy_url
parse_proxy_url-reads name login host tail port u p s e who some_host slash at small behind =
    let addr = address_text host port in
    let rest = login ++ (addr ++ tail) in
    let url = name ++ (codes "://" ++ rest) in
    let no_at : contains b'@' (addr ++ tail) ≡ false =
      contains-append b'@' addr tail
        (contains-append b'@' host (b':' ∷ decimal port) at (contains-decimal b'@' port refl))
        (Tail-plain tail behind) in
    let no_slash : contains b'/' addr ≡ false =
      contains-append b'/' host (b':' ∷ decimal port) slash (contains-decimal b'/' port refl) in
    let (named, hosted) = split_userinfo-Login (addr ++ tail) who no_at in
    ap (parse_parts url)
      (split_at_text-append b':' (codes "//") name rest (proxy_scheme-plain name s e))
    ∙ ap (λ r. r >>= parse_rest url (split_userinfo rest)) e
    ∙ ap
        (λ h.
          host_port url s (split_first b'/' h).0
          >>= config_of url s (login_of (split_userinfo rest).0))
        hosted
    ∙ ap (λ h. host_port url s h >>= config_of url s (login_of (split_userinfo rest).0))
        (split_first-Tail addr tail no_slash behind)
    ∙ ap (λ h. h >>= config_of url s (login_of (split_userinfo rest).0))
        (host_port_read url s host port small)
    ∙ ap (λ l. config_of url s l (host, port)) named
    ∙ rw some_host refl

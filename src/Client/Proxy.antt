-- ===== src/Client/Proxy.antt =====
-- `ProxyConfig` and `parse_proxy_url` of src/client/proxy.rs.
use blasthttp.Common.{ℕ, ◌-◌, ◌^◌, ◌||◌, if◌then◌else◌, Option, none, some, map, ◌++◌}
use blasthttp.Common.Bytes.{Bytes, codes}
use blasthttp.Common.Integer.{parse_unsigned}
use blasthttp.Common.Result.{Result, ok, err, ◌>>=◌}
use blasthttp.Common.Split.{rsplit_once, split_at_text}
use blasthttp.Common.Text.{same, is_nil, split_once, split_first}
use blasthttp.Client.Error.{ClientError, error_of, other}
use blasthttp.Config.Suffix.{to_lower}

pub data ProxyScheme : Type 0 where
  http socks5 : ProxyScheme

pub record ProxyConfig : Type 0 where
  pub scheme : ProxyScheme
  pub host : Bytes
  pub port : ℕ
  pub username : Option Bytes
  pub password : Option Bytes

abbrev pub refused_url : Bytes → ClientError
refused_url message = error_of other message

abbrev pub proxy_scheme : Bytes → Result ClientError ProxyScheme
proxy_scheme scheme_str =
    let lowered = map to_lower scheme_str in
    if same lowered (codes "http")
    then ok http
    else if same lowered (codes "socks5") || same lowered (codes "socks5h")
    then ok socks5
    else err (
        refused_url
          (codes "unsupported proxy scheme '" ++ (lowered ++ codes "'; use http:// or socks5://")))

-- The userinfo, if there is any, and what stands behind it.
abbrev pub split_userinfo : Bytes → Option Bytes × Bytes
split_userinfo rest = elim (split_once b'@' rest) [
  | some (u, h) ↦ (some u, h)
  | none ↦ (none, rest)
]

abbrev pub login_of : Option Bytes → Option Bytes × Option Bytes
login_of none = (none, none)
login_of (some u) = elim (split_once b':' u) [
  | some (user, pass) ↦ (some user, some pass)
  | none ↦ (some u, none)
]

abbrev pub default_port : ProxyScheme → ℕ
default_port http = 8080
default_port socks5 = 1080

abbrev pub port_of : Bytes → Bytes → Option ℕ → Result ClientError ℕ
port_of proxy_url p (some port) = ok port
port_of proxy_url p none =
    err (refused_url (codes "invalid proxy port '" ++ (p ++ (codes "' in " ++ proxy_url))))

abbrev pub split_host :
    Bytes → ProxyScheme → Bytes → Option (Bytes × Bytes) → Result ClientError (Bytes × ℕ)
split_host proxy_url scheme hostport (some (h, p)) =
    port_of proxy_url p (parse_unsigned (2 ^ 16 - 1) p) >>= λ port. ok (h, port)
split_host proxy_url scheme hostport none = ok (hostport, default_port scheme)

abbrev pub host_port : Bytes → ProxyScheme → Bytes → Result ClientError (Bytes × ℕ)
host_port proxy_url scheme hostport =
    split_host proxy_url scheme hostport (rsplit_once b':' hostport)

abbrev pub config_of :
    Bytes → ProxyScheme → Option Bytes × Option Bytes → Bytes × ℕ → Result ClientError ProxyConfig
config_of proxy_url scheme (username, password) (host, port) =
    if is_nil host
    then err (refused_url (codes "invalid proxy URL (empty host): " ++ proxy_url))
    else ok record {
      scheme = scheme;
      host = host;
      port = port;
      username = username;
      password = password;
    }

-- Behind the scheme; a path is dropped.
abbrev pub parse_rest : Bytes → Option Bytes × Bytes → ProxyScheme → Result ClientError ProxyConfig
parse_rest proxy_url (userinfo, hostport_rest) scheme =
    host_port proxy_url scheme (split_first b'/' hostport_rest).0
    >>= config_of proxy_url scheme (login_of userinfo)

abbrev pub parse_parts : Bytes → Option (Bytes × Bytes) → Result ClientError ProxyConfig
parse_parts proxy_url none =
    err (refused_url (codes "invalid proxy URL (missing '://'): " ++ proxy_url))
parse_parts proxy_url (some (scheme_str, rest)) =
    proxy_scheme scheme_str >>= parse_rest proxy_url (split_userinfo rest)

unfoldable pub parse_proxy_url : Bytes → Result ClientError ProxyConfig
parse_proxy_url proxy_url = parse_parts proxy_url (split_at_text (codes "://") proxy_url)

-- ===== src/Client/Socks.antt =====
-- `perform_socks5` of src/client/proxy.rs. The socket is what the proxy still has to send and what
-- the client has written; a read beyond the end fails with the text that tokio gives.
use blasthttp.Common.{
  ℕ, suc, ◌+◌, ◌-◌, ◌/◌, ◌%◌, ◌^◌, Bool, not, ◌&&◌, ◌||◌, if◌then◌else◌, ltb, ◌==◌, Option, none,
  some, [], ◌∷◌, ◌++◌, length, take, drop,
}
use blasthttp.Common.Bytes.{Bytes, codes, be32}
use blasthttp.Common.Maybe.{is_some}
use blasthttp.Common.Result.{Result, ok, err, ◌>>=◌}
use blasthttp.Client.Error.{ClientError, error_of, decimal, connection}
use blasthttp.Config.Address.{parse_ip}
use blasthttp.Config.Cidr.{IpAddr, v4, v6}

pub record Tcp : Type 0 where
  pub incoming : Bytes
  pub written : Bytes

abbrev pub write_all : Bytes → Tcp → Tcp
write_all bytes tcp = record { incoming = tcp.incoming; written = tcp.written ++ bytes }

-- `{:02x}` of a byte
abbrev pub hex_digit : ℕ → ℕ
hex_digit d = if ltb d 10 then d + b'0' else d - 10 + b'a'

abbrev pub hex2 : ℕ → Bytes
hex2 b = hex_digit (b / 16) ∷ hex_digit (b % 16) ∷ []

abbrev pub refused : Bytes → ClientError
refused message = error_of connection message

-- One octet of a reply.
abbrev pub octet : ℕ → Bytes → ℕ
octet i [] = 0
octet ℕ.zero (b ∷ bs) = b
octet (suc i) (b ∷ bs) = octet i bs

abbrev pub offered : Bool → Bytes
offered has_creds = if has_creds then 0x00 ∷ 0x02 ∷ [] else 0x00 ∷ []

abbrev pub greeting : Bool → Bytes
greeting has_creds = 0x05 ∷ length (offered has_creds) % 256 ∷ offered has_creds

-- The sixteen octets of an IPv6 address.
abbrev pub be128 : ℕ → Bytes
be128 n = be32 (n / 2 ^ 96) (be32 (n / 2 ^ 64) (be32 (n / 2 ^ 32) (be32 n [])))

-- The type and the address of the target.
abbrev pub address_bytes : Option IpAddr → Bytes → Result ClientError Bytes
address_bytes (some (v4 n)) target_host = ok (0x01 ∷ be32 n [])
address_bytes (some (v6 n)) target_host = ok (0x04 ∷ be128 n)
address_bytes none target_host =
    if ltb 255 (length target_host)
    then err (refused (codes "SOCKS5 target hostname must be <=255 bytes"))
    else ok (0x03 ∷ length target_host % 256 ∷ target_host)

abbrev pub target_bytes : Bytes → Result ClientError Bytes
target_bytes target_host = address_bytes (parse_ip target_host) target_host

abbrev pub port_bytes : ℕ → Bytes
port_bytes port = port / 256 % 256 ∷ port % 256 ∷ []

abbrev pub socks5_error_text : ℕ → Bytes
socks5_error_text code =
    if code == 1
    then codes "general SOCKS server failure"
    else if code == 2
    then codes "connection not allowed by ruleset"
    else if code == 3
    then codes "network unreachable"
    else if code == 4
    then codes "host unreachable"
    else if code == 5
    then codes "connection refused"
    else if code == 6
    then codes "TTL expired"
    else if code == 7
    then codes "command not supported"
    else if code == 8
    then codes "address type not supported"
    else codes "unknown SOCKS5 error"

abbrev pub credentials : Option Bytes → Option Bytes → Result ClientError (Bytes × Bytes)
credentials (some u) (some p) =
    if ltb 255 (length u) || ltb 255 (length p)
    then err (refused (codes "SOCKS5 username/password must be <=255 bytes each"))
    else ok (u, p)
credentials _ _ = err (refused (codes "SOCKS5 proxy required username/password but none provided"))

abbrev pub auth_bytes : Bytes → Bytes → Bytes
auth_bytes u p = 0x01 ∷ length u % 256 ∷ (u ++ (length p % 256 ∷ p))

module _ (io_error : Bytes) where
  abbrev pub read_exact : Bytes → ℕ → Tcp → Result ClientError (Bytes × Tcp)
  read_exact what n tcp =
      if ltb (length tcp.incoming) n
      then err (refused (what ++ io_error))
      else ok
          (take n tcp.incoming, record { incoming = drop n tcp.incoming; written = tcp.written })

  abbrev pub check_auth : Bytes × Tcp → Result ClientError Tcp
  check_auth (auth_reply, after) =
      if octet 1 auth_reply == 0x00
      then ok after
      else err (
          refused (
            codes "SOCKS5 username/password auth rejected (status 0x"
            ++ (hex2 (octet 1 auth_reply) ++ codes ")")))

  abbrev pub authenticate : Bytes × Bytes → Tcp → Result ClientError Tcp
  authenticate (u, p) tcp =
      read_exact (codes "SOCKS5 auth read failed: ") 2 (write_all (auth_bytes u p) tcp)
      >>= check_auth

  -- What the method that the proxy has chosen asks for.
  abbrev pub use_method : Option Bytes → Option Bytes → ℕ → Tcp → Result ClientError Tcp
  use_method username password method tcp =
      if method == 0x00
      then ok tcp
      else if method == 0x02
      then (credentials username password >>= λ c. authenticate c tcp)
      else if method == 0xff
      then err (refused (codes "SOCKS5 proxy rejected all offered authentication methods"))
      else err (refused (codes "SOCKS5 proxy selected unexpected auth method: 0x" ++ hex2 method))

  abbrev pub check_choice : Option Bytes → Option Bytes → Bytes × Tcp → Result ClientError Tcp
  check_choice username password (chosen, after) =
      if octet 0 chosen == 0x05
      then use_method username password (octet 1 chosen) after
      else err
          (refused (codes "SOCKS5 invalid version in greeting reply: 0x" ++ hex2 (octet 0 chosen)))

  -- The first exchange.
  abbrev pub negotiate : Option Bytes → Option Bytes → Tcp → Result ClientError Tcp
  negotiate username password tcp =
      read_exact (codes "SOCKS5 greeting read failed: ") 2
        (write_all (greeting (is_some username && is_some password)) tcp)
      >>= check_choice username password

  -- The length of the bound address, which may stand in front of it.
  abbrev pub address_length : ℕ → Tcp → Result ClientError (ℕ × Tcp)
  address_length atyp tcp =
      if atyp == 0x01
      then ok (4, tcp)
      else if atyp == 0x04
      then ok (16, tcp)
      else if atyp == 0x03
      then (read_exact (codes "SOCKS5 reply read failed: ") 1 tcp >>= λ r. ok (octet 0 r.0, r.1))
      else err (refused (codes "SOCKS5 reply had unexpected ATYP: 0x" ++ hex2 atyp))

  -- The bound address and its port are read and dropped.
  abbrev pub drain : ℕ × Tcp → Result ClientError Tcp
  drain (addr_len, tcp) =
      read_exact (codes "SOCKS5 reply drain failed: ") (addr_len + 2) tcp >>= λ r. ok r.1

  abbrev pub check_reply : Bytes → ℕ → Bytes × Tcp → Result ClientError Tcp
  check_reply target_host target_port (hdr, after) =
      if not (octet 0 hdr == 0x05)
      then err (refused (codes "SOCKS5 invalid version in connect reply: 0x" ++ hex2 (octet 0 hdr)))
      else if not (octet 1 hdr == 0x00)
      then err (
          refused (
            codes "SOCKS5 CONNECT to "
            ++ (target_host
                ++ (codes ":"
                    ++ (decimal target_port
                        ++ (codes " failed: " ++ socks5_error_text (octet 1 hdr)))))))
      else address_length (octet 3 hdr) after >>= drain

  abbrev pub read_reply : Bytes → ℕ → Tcp → Result ClientError Tcp
  read_reply target_host target_port tcp =
      read_exact (codes "SOCKS5 connect read failed: ") 4 tcp
      >>= check_reply target_host target_port

  -- The second exchange.
  abbrev pub send_request : Bytes → ℕ → Tcp → Result ClientError Tcp
  send_request target_host target_port tcp = target_bytes target_host >>= λ target.
      read_reply target_host target_port
        (write_all (0x05 ∷ (0x01 ∷ (0x00 ∷ (target ++ port_bytes target_port)))) tcp)

  unfoldable pub perform_socks5 :
      Bytes → ℕ → Option Bytes → Option Bytes → Tcp → Result ClientError Tcp
  perform_socks5 target_host target_port username password tcp =
      negotiate username password tcp >>= send_request target_host target_port

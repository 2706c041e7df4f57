-- ===== src/Client/Asked.antt =====
-- A request of SOCKS5 as a proxy reads it after RFC 1928, held against src/client/proxy.rs.
use blasthttp.Common.{
  ℕ, ◌+◌, ◌*◌, ◌/◌, ◌%◌, ◌^◌, ◌<◌, ◌≡◌, inl, inr, refl, sym, ap, ◌∙◌, false, if◌then◌else◌, ◌&&◌,
  Bool-cases, ltb, ◌==◌, Option, none, some, [], ◌∷◌, ◌++◌, length, length-append, take, drop,
  take-append, drop-append, arith,
}
use blasthttp.Common.Bytes.{Bytes, be32}
use blasthttp.Common.Maybe.{◌>>=◌}
use blasthttp.Common.Result.{ok, err, ok_inj}
use blasthttp.Client.Socks.{address_bytes, port_bytes, be128}
use blasthttp.Config.Cidr.{IpAddr, v4, v6}

-- A request as a proxy reads it: the type and the octets of the address, the port, and the rest.
pub record Request : Type 0 where
  pub atyp : ℕ
  pub address : Bytes
  pub port : ℕ
  pub rest : Bytes

abbrev pub split_at : ℕ → Bytes → Option (Bytes × Bytes)
split_at n bs = if ltb (length bs) n then none else some (take n bs, drop n bs)

abbrev pub read_port : ℕ → Bytes × Bytes → Option Request
read_port atyp (address, (high ∷ (low ∷ rest))) =
    some record { atyp = atyp; address = address; port = high * 256 + low; rest = rest }
read_port atyp _ = none

abbrev pub read_name : Bytes → Option Request
read_name [] = none
read_name (n ∷ bs) = split_at n bs >>= read_port 3

-- By the type of the address, RFC 1928, section 5.
abbrev pub read_address : ℕ → Bytes → Option Request
read_address atyp bs =
    if atyp == 1
    then (split_at 4 bs >>= read_port 1)
    else if atyp == 4
    then (split_at 16 bs >>= read_port 4)
    else if atyp == 3
    then read_name bs
    else none

abbrev pub read_request : Bytes → Option Request
read_request (version ∷ (command ∷ (reserved ∷ (atyp ∷ bs)))) =
    if version == 5 && command == 1 then read_address atyp bs else none
read_request _ = none

-- The target of a host: its address, or its name.
abbrev pub target_at : Option IpAddr → Bytes → ℕ × Bytes
target_at (some (v4 n)) host = (1, be32 n [])
target_at (some (v6 n)) host = (4, be128 n)
target_at none host = (3, host)

split_at-append : (n : ℕ) (xs ys : Bytes) → n ≡ length xs → split_at n (xs ++ ys) ≡ some (xs, ys)
split_at-append n xs ys e =
    let fits : ltb (length (xs ++ ys)) n ≡ false = ground (arith, length-append xs ys) in
    rw (fits, take-append n xs ys e, drop-append n xs ys e) refl

port_back : (port : ℕ) → port < 2 ^ 16 → port / 256 % 256 * 256 + port % 256 ≡ port
port_back port h = omega arith

abbrev pub request_of : ℕ → Bytes → ℕ → Request
request_of atyp address port = record { atyp = atyp; address = address; port = port; rest = [] }

abbrev pub with_header : Bytes → ℕ → Bytes
with_header t port = 0x05 ∷ (0x01 ∷ (0x00 ∷ (t ++ port_bytes port)))

-- What follows the address is read as the port.
read_port-split_at :
    (atyp n port : ℕ) (address : Bytes)
    → port < 2 ^ 16
    → n ≡ length address
    → (split_at n (address ++ port_bytes port) >>= read_port atyp)
      ≡ some (request_of atyp address port)
read_port-split_at atyp n port address small e =
    ap (λ o. o >>= read_port atyp) (split_at-append n address (port_bytes port) e)
    ∙ ap (λ p. some (request_of atyp address p)) (port_back port small)

-- A proxy reads the target and the port.
pub read_request-address_bytes :
    (ip : Option IpAddr) (host t : Bytes) (port : ℕ)
    → port < 2 ^ 16
    → address_bytes ip host ≡ ok t
    → read_request (with_header t port)
      ≡ some (request_of (target_at ip host).0 (target_at ip host).1 port)
read_request-address_bytes (some (v4 n)) host t port small h =
    ap (λ z. read_request (with_header z port)) (sym (ok_inj h))
    ∙ read_port-split_at 1 4 port (be32 n []) small refl
read_request-address_bytes (some (v6 n)) host t port small h =
    ap (λ z. read_request (with_header z port)) (sym (ok_inj h))
    ∙ read_port-split_at 4 16 port (be128 n) small refl
read_request-address_bytes none host t port small h = elim (Bool-cases (ltb 255 (length host))) [
  | inl e ↦ let wrong : err _ ≡ ok t = rw e at h in absurd cc
  | inr e ↦
      let it : 0x03 ∷ (length host % 256 ∷ host) ≡ t = ok_inj (rw e at h) in
      ap (λ z. read_request (with_header z port)) (sym it)
      ∙ read_port-split_at 3 (length host % 256) port host small (ground arith)
]

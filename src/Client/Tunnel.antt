-- ===== src/Client/Tunnel.antt =====
-- `perform_socks5` of src/client/proxy.rs with a proxy that opens the tunnel: what it reads, and what is
-- left for the tunnel.
use blasthttp.Common.{
  ℕ, ◌+◌, ◌^◌, ◌%◌, ◌≤◌, ◌<◌, ◌≡◌, refl, sym, ap, ◌∙◌, true, false, ◌&&◌, ltb, Option, none, some,
  [], ◌∷◌, ◌++◌, length, length-append, take-append, drop-append, append-nil, ◌||◌, arith,
}
use blasthttp.Common.Bytes.{Bytes, codes}
use blasthttp.Common.Maybe.{is_some}
use blasthttp.Common.Result.{ok, ◌>>=◌}
use blasthttp.Client.Socks.{
  Tcp, write_all, greeting, target_bytes, auth_bytes, octet, read_exact, check_choice, check_auth,
  drain, check_reply, negotiate, read_reply, perform_socks5, send_request,
}
use blasthttp.Config.Address.{parse_ip}
use blasthttp.Client.Asked.{
  read_request, request_of, with_header, target_at, read_request-address_bytes,
}

-- What a proxy sends that opens the tunnel: the reply with the address it has bound.
pub data Bound : Bytes → Type 0 where
  bound_v4 : (a : Bytes) → length a ≡ 6 → Bound (0x01 ∷ a)
  bound_v6 : (a : Bytes) → length a ≡ 18 → Bound (0x04 ∷ a)
  bound_name : (n : ℕ) (a : Bytes) → length a ≡ n + 2 → Bound (0x03 ∷ (n ∷ a))

-- The choice of a method, and the reply to the password if it was asked for: what the proxy sends
-- before the reply to the request, and what the client is to write for it.
pub data Choice : Option Bytes → Option Bytes → Bytes → Bytes → Type 0 where
  no_method : (u p : Option Bytes) → Choice u p (0x05 ∷ (0x00 ∷ [])) []
  password :
      (u p : Bytes) (version : ℕ)
      → length u ≤ 255
      → length p ≤ 255
      → Choice
          (some u)
          (some p)
          (0x05 ∷ (0x02 ∷ (version ∷ (0x00 ∷ []))))
          (0x01 ∷ (length u ∷ (u ++ (length p ∷ p))))

-- The greeting of RFC 1928: no authentication, and the password method only with a name and a password.
abbrev pub hello_of : Option Bytes → Option Bytes → Bytes
hello_of (some u) (some p) = 0x05 ∷ (2 ∷ (0x00 ∷ (0x02 ∷ [])))
hello_of (some u) none = 0x05 ∷ (1 ∷ (0x00 ∷ []))
hello_of none p = 0x05 ∷ (1 ∷ (0x00 ∷ []))

greeting_lem : (u p : Option Bytes) → greeting (is_some u && is_some p) ≡ hello_of u p
greeting_lem (some u) (some p) = refl
greeting_lem (some u) none = refl
greeting_lem none p = refl

auth_bytes_lem :
    (u p : Bytes)
    → length u ≤ 255
    → length p ≤ 255
    → auth_bytes u p ≡ 0x01 ∷ (length u ∷ (u ++ (length p ∷ p)))
auth_bytes_lem u p hu hp =
    let a : length u % 256 ≡ length u = omega arith in
    let b : length p % 256 ≡ length p = omega arith in rw (a, b) refl

abbrev pub tcp_of : Bytes → Bytes → Tcp
tcp_of incoming written = record { incoming = incoming; written = written }

module _ (io_error : Bytes) where
  read_exact-append :
      (what : Bytes) (n : ℕ) (xs ys w : Bytes)
      → n ≡ length xs
      → read_exact io_error what n (tcp_of (xs ++ ys) w) ≡ ok (xs, tcp_of ys w)
  read_exact-append what n xs ys w e =
      let fits : ltb (length (xs ++ ys)) n ≡ false = ground (arith, length-append xs ys) in
      rw (fits, take-append n xs ys e, drop-append n xs ys e) refl

  negotiate-Choice :
      {u p : Option Bytes} {replies auth : Bytes} (rest : Bytes)
      → Choice u p replies auth
      → negotiate io_error u p (tcp_of (replies ++ rest) [])
        ≡ ok (tcp_of rest (hello_of u p ++ auth))
  negotiate-Choice rest (no_method u p) =
      let hello = greeting (is_some u && is_some p) in
      ap (λ r. r >>= check_choice io_error u p)
        (read_exact-append (codes "SOCKS5 greeting read failed: ") 2 (0x05 ∷ (0x00 ∷ [])) rest hello
          refl)
      ∙ ap (λ w. ok (tcp_of rest w)) (greeting_lem u p ∙ sym (append-nil (hello_of u p)))
  negotiate-Choice rest (password u p version hu hp) =
      let hello = greeting true in
      let short : (ltb 255 (length u) || ltb 255 (length p)) ≡ false = ground arith in
      ap (λ r. r >>= check_choice io_error (some u) (some p))
        (read_exact-append (codes "SOCKS5 greeting read failed: ") 2 (0x05 ∷ (0x02 ∷ []))
          (version ∷ (0x00 ∷ rest)) hello refl)
      ∙ rw short (
          ap (λ r. r >>= check_auth io_error)
            (read_exact-append (codes "SOCKS5 auth read failed: ") 2 (version ∷ (0x00 ∷ [])) rest
              (hello ++ auth_bytes u p) refl))
      ∙ ap (λ a. ok (tcp_of rest (hello ++ a))) (auth_bytes_lem u p hu hp)

  drained :
      (n : ℕ) (a tunnel w : Bytes)
      → length a ≡ n + 2
      → drain io_error (n, tcp_of (a ++ tunnel) w) ≡ ok (tcp_of tunnel w)
  drained n a tunnel w e =
      ap (λ r. r >>= λ x. ok x.1)
        (read_exact-append (codes "SOCKS5 reply drain failed: ") (n + 2) a tunnel w (sym e))

  read_reply-Bound :
      (host : Bytes) (port : ℕ) (reserved : ℕ) {bound : Bytes} (tunnel w : Bytes)
      → Bound bound
      → read_reply io_error host port (tcp_of (0x05 ∷ (0x00 ∷ (reserved ∷ (bound ++ tunnel)))) w)
        ≡ ok (tcp_of tunnel w)
  read_reply-Bound host port reserved tunnel w (bound_v4 a e) =
      ap (λ r. r >>= check_reply io_error host port)
        (read_exact-append (codes "SOCKS5 connect read failed: ") 4
          (0x05 ∷ (0x00 ∷ (reserved ∷ (0x01 ∷ [])))) (a ++ tunnel) w refl)
      ∙ drained 4 a tunnel w e
  read_reply-Bound host port reserved tunnel w (bound_v6 a e) =
      ap (λ r. r >>= check_reply io_error host port)
        (read_exact-append (codes "SOCKS5 connect read failed: ") 4
          (0x05 ∷ (0x00 ∷ (reserved ∷ (0x04 ∷ [])))) (a ++ tunnel) w refl)
      ∙ drained 16 a tunnel w e
  read_reply-Bound host port reserved tunnel w (bound_name n a e) =
      ap (λ r. r >>= check_reply io_error host port)
        (read_exact-append (codes "SOCKS5 connect read failed: ") 4
          (0x05 ∷ (0x00 ∷ (reserved ∷ (0x03 ∷ [])))) (n ∷ (a ++ tunnel)) w refl)
      ∙ ap (λ r. (r >>= λ x. ok (octet 0 x.0, x.1)) >>= drain io_error)
          (read_exact-append (codes "SOCKS5 reply read failed: ") 1 (n ∷ []) (a ++ tunnel) w refl)
      ∙ drained n a tunnel w e

  -- With a proxy that takes the request, and a password if it asks for one, the socket is left
  -- before the first byte of the tunnel; the client has written the greeting, which offers no
  -- authentication, and the password method only if it has a name and a password; the name and the
  -- password, each behind its length, if the proxy chose that method; and a request that a proxy reads as the host's address, or else its
  -- name, and the port.
  pub perform_socks5-opens :
      (host t : Bytes) (port : ℕ) (u p : Option Bytes) (replies auth bound tunnel : Bytes)
      (reserved : ℕ)
      → port < 2 ^ 16
      → target_bytes host ≡ ok t
      → Choice u p replies auth
      → Bound bound
      → (perform_socks5 io_error host port u p
            (tcp_of (replies ++ (0x05 ∷ (0x00 ∷ (reserved ∷ (bound ++ tunnel))))) [])
          ≡ ok (tcp_of tunnel ((hello_of u p ++ auth) ++ with_header t port)))
        × (read_request (with_header t port)
            ≡ some (
                request_of
                  (target_at (parse_ip host) host).0
                  (target_at (parse_ip host) host).1
                  port))
  unfolding perform_socks5
  perform_socks5-opens host t port u p replies auth bound tunnel reserved small fits choice opened =
      let rest = 0x05 ∷ (0x00 ∷ (reserved ∷ (bound ++ tunnel))) in
      let w = hello_of u p ++ auth in
      (
        ap (λ r. r >>= send_request io_error host port) (negotiate-Choice rest choice)
            ∙ ap
                (λ r. r >>= λ target.
                  read_reply io_error host port
                    (write_all (with_header target port) (tcp_of rest w)))
                fits
            ∙ read_reply-Bound host port reserved tunnel (w ++ with_header t port) opened,
        read_request-address_bytes (parse_ip host) host t port small fits,
      )

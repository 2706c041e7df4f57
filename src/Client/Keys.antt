-- ===== src/Client/Keys.antt =====
-- Modes of src/client/hyper.rs that are equal as keys of the cache are the same.
use blasthttp.Common.{
  ◌≡◌, refl, sym, ap, ◌∙◌, Bool, true, false, both_true, Option, none, some, List, [], ◌∷◌,
}
use blasthttp.Common.Bytes.{Bytes}
use blasthttp.Common.Text.{same, same_iff}
use blasthttp.Client.Cache.{same_bool, same_option, same_list, same_lists, same_tls, same_mode}
use blasthttp.Client.Redirect.{TlsKey, ConnMode, direct, forward_proxy, tunnel, socks5}

same_bool→eq : (a b : Bool) → same_bool a b ≡ true → a ≡ b
same_bool→eq true b h = sym h
same_bool→eq false true h = absurd cc
same_bool→eq false false h = refl

same_option→eq : (a b : Option Bytes) → same_option a b ≡ true → a ≡ b
same_option→eq none none h = refl
same_option→eq (some a) (some b) h = ap some ((same_iff a b).0 h)
same_option→eq none (some b) h = absurd cc
same_option→eq (some a) none h = absurd cc

same_list→eq : (xs ys : List Bytes) → same_list xs ys ≡ true → xs ≡ ys
same_list→eq [] [] h = refl
same_list→eq [] (b ∷ ys) h = absurd cc
same_list→eq (a ∷ xs) [] h = absurd cc
same_list→eq (a ∷ xs) (b ∷ ys) h =
    let (first, others) = both_true (same a b) (same_list xs ys) h in
    ap (λ x. x ∷ xs) ((same_iff a b).0 first) ∙ ap (λ l. b ∷ l) (same_list→eq xs ys others)

same_lists→eq : (a b : Option (List Bytes)) → same_lists a b ≡ true → a ≡ b
same_lists→eq none none h = refl
same_lists→eq (some a) (some b) h = ap some (same_list→eq a b h)
same_lists→eq none (some b) h = absurd cc
same_lists→eq (some a) none h = absurd cc

abbrev key : Bool → Option Bytes → Option Bytes → Option Bytes → Option (List Bytes) → TlsKey
key v c least most alpn = record {
  verify_certs = v;
  cipher_string = c;
  min_tls_version = least;
  max_tls_version = most;
  alpn_protocols = alpn;
}

same_tls→eq : (a b : TlsKey) → same_tls a b ≡ true → a ≡ b
same_tls→eq a b h =
    let (v, h1) = both_true (same_bool a.verify_certs b.verify_certs) _ h in
    let (c, h2) = both_true (same_option a.cipher_string b.cipher_string) _ h1 in
    let (least, h3) = both_true (same_option a.min_tls_version b.min_tls_version) _ h2 in
    let (most, alpn) = both_true (same_option a.max_tls_version b.max_tls_version) _ h3 in
    ap (λ x. key x a.cipher_string a.min_tls_version a.max_tls_version a.alpn_protocols)
      (same_bool→eq a.verify_certs b.verify_certs v)
    ∙ ap (λ x. key b.verify_certs x a.min_tls_version a.max_tls_version a.alpn_protocols)
        (same_option→eq a.cipher_string b.cipher_string c)
    ∙ ap (λ x. key b.verify_certs b.cipher_string x a.max_tls_version a.alpn_protocols)
        (same_option→eq a.min_tls_version b.min_tls_version least)
    ∙ ap (λ x. key b.verify_certs b.cipher_string b.min_tls_version x a.alpn_protocols)
        (same_option→eq a.max_tls_version b.max_tls_version most)
    ∙ ap (λ x. key b.verify_certs b.cipher_string b.min_tls_version b.max_tls_version x)
        (same_lists→eq a.alpn_protocols b.alpn_protocols alpn)

pub same_mode→eq : (a b : ConnMode) → same_mode a b ≡ true → a ≡ b
unfolding same_mode
same_mode→eq (direct a) (direct b) h = ap direct (same_tls→eq a b h)
same_mode→eq (forward_proxy p) (forward_proxy q) h = ap forward_proxy ((same_iff p q).0 h)
same_mode→eq (tunnel p a) (tunnel q b) h =
    let (first, others) = both_true (same p q) (same_tls a b) h in
    ap (λ x. tunnel x a) ((same_iff p q).0 first) ∙ ap (tunnel q) (same_tls→eq a b others)
same_mode→eq (socks5 p a) (socks5 q b) h =
    let (first, others) = both_true (same p q) (same_tls a b) h in
    ap (λ x. socks5 x a) ((same_iff p q).0 first) ∙ ap (socks5 q) (same_tls→eq a b others)
same_mode→eq (direct a) (forward_proxy q) h = absurd cc
same_mode→eq (direct a) (tunnel q b) h = absurd cc
same_mode→eq (direct a) (socks5 q b) h = absurd cc
same_mode→eq (forward_proxy p) (direct b) h = absurd cc
same_mode→eq (forward_proxy p) (tunnel q b) h = absurd cc
same_mode→eq (forward_proxy p) (socks5 q b) h = absurd cc
same_mode→eq (tunnel p a) (direct b) h = absurd cc
same_mode→eq (tunnel p a) (forward_proxy q) h = absurd cc
same_mode→eq (tunnel p a) (socks5 q b) h = absurd cc
same_mode→eq (socks5 p a) (direct b) h = absurd cc
same_mode→eq (socks5 p a) (forward_proxy q) h = absurd cc
same_mode→eq (socks5 p a) (tunnel q b) h = absurd cc

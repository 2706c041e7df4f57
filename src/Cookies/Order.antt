-- ===== src/Cookies/Order.antt =====
-- `header_for` of src/cookies.rs: which cookies are in the header, and in which order.
use blasthttp.Common.{
  ℕ, ◌≤◌, ◌≡◌, ◌⊎◌, inl, inr, refl, ap, ◌∙◌, Bool, true, false, Bool-cases, if◌then◌else◌, ◌==◌,
  leb, leb→le, List, [], ◌∷◌, length, All, none, some, arith,
}
use blasthttp.Common.Bytes.{Bytes}
use blasthttp.Common.Search.{filter, filter_passes, All-map}
use blasthttp.Common.Text.{is_nil}
use blasthttp.Cookies.Chain.{Cookie, ChainCookies}
use blasthttp.Common.Uri.{Uri}
use blasthttp.Cookies.Domain.{canonical_host}
use blasthttp.Cookies.Send.{
  applies, is_https, cookie_header, sort_by_path, insert_by_path, header_for,
}
use blasthttp.Cookies.Match.{IsFor, applies_iff}

abbrev pub path_length : Cookie → ℕ
path_length c = length c.path

-- No path is longer than one before it.
abbrev pub IsOrdered : List Cookie → Type 0
IsOrdered [] = Unit
IsOrdered (c ∷ cs) = All (λ d. path_length d ≤ path_length c) cs × IsOrdered cs

-- The cookies whose path has a length.
abbrev pub of_length : ℕ → List Cookie → List Cookie
of_length k cs = filter (λ c. path_length c == k) cs

insert-All :
    (P : Cookie → Type 0) (c : Cookie) (cs : List Cookie)
    → P c
    → All P cs
    → All P (insert_by_path c cs)
unfolding insert_by_path
insert-All P c [] h hs = (h, tt)
insert-All P c (d ∷ ds) h hs = elim (Bool-cases (leb (path_length d) (path_length c))) [
  | inl e ↦ rw e (h, hs)
  | inr e ↦ rw e (hs.0, insert-All P c ds h hs.1)
]

sort-All : (P : Cookie → Type 0) (cs : List Cookie) → All P cs → All P (sort_by_path cs)
unfolding sort_by_path
sort-All P [] h = tt
sort-All P (c ∷ cs) h = insert-All P c (sort_by_path cs) h.0 (sort-All P cs h.1)

insert-IsOrdered : (c : Cookie) (cs : List Cookie) → IsOrdered cs → IsOrdered (insert_by_path c cs)
unfolding insert_by_path
insert-IsOrdered c [] h = (tt, tt)
insert-IsOrdered c (d ∷ ds) h = elim (Bool-cases (leb (path_length d) (path_length c))) [
  | inl e ↦
      let le = leb→le _ _ e in
      rw e ((le, All-map _ _ (λ x (p : path_length x ≤ path_length d). omega arith) ds h.0), h)
  | inr e ↦ rw e (insert-All _ c ds (ground arith) h.0, insert-IsOrdered c ds h.1)
]

sort-IsOrdered : (cs : List Cookie) → IsOrdered (sort_by_path cs)
unfolding sort_by_path
sort-IsOrdered [] = tt
sort-IsOrdered (c ∷ cs) = insert-IsOrdered c (sort_by_path cs) (sort-IsOrdered cs)

insert-not_nil : (c : Cookie) (cs : List Cookie) → is_nil (insert_by_path c cs) ≡ false
unfolding insert_by_path
insert-not_nil c [] = refl
insert-not_nil c (d ∷ ds) = elim (Bool-cases (leb (path_length d) (path_length c))) [
  | inl e ↦ rw e refl
  | inr e ↦ rw e refl
]

sort-not_nil : (cs : List Cookie) → is_nil cs ≡ false → is_nil (sort_by_path cs) ≡ false
unfolding sort_by_path
sort-not_nil [] h = h
sort-not_nil (c ∷ cs) h = insert-not_nil c (sort_by_path cs)

of_length-insert :
    (k : ℕ) (c : Cookie) (cs : List Cookie)
    → of_length k (insert_by_path c cs) ≡ of_length k (c ∷ cs)
unfolding insert_by_path filter
of_length-insert k c [] = refl
of_length-insert k c (d ∷ ds) = elim (Bool-cases (leb (path_length d) (path_length c))) [
  | inl e ↦ rw e refl
  | inr e ↦ elim (Bool-cases (path_length c == k)) [
    | inl same ↦
        let other : (path_length d == k) ≡ false = ground arith in
        rw (e, of_length-insert k c ds, same, other) refl
    | inr differs ↦ rw (e, of_length-insert k c ds, differs) refl
  ]
]

of_length-sort : (k : ℕ) (cs : List Cookie) → of_length k (sort_by_path cs) ≡ of_length k cs
unfolding sort_by_path filter
of_length-sort k [] = refl
of_length-sort k (c ∷ cs) =
    of_length-insert k c (sort_by_path cs)
    ∙ ap (λ rest. if path_length c == k then c ∷ rest else rest) (of_length-sort k cs)

none_pass :
    {A : Type 0} (p : A → Bool) (xs : List A)
    → is_nil (filter p xs) ≡ true
    → All (λ x. p x ≡ false) xs
unfolding filter
none_pass p [] h = tt
none_pass p (x ∷ xs) h = elim (Bool-cases (p x)) [
  | inl e ↦ let no : false ≡ true = rw e at h in absurd cc
  | inr e ↦ (e, none_pass p xs (rw e at h))
]

-- The cookies of a header: stored ones that may be sent, one at least, the longer path first, and those with
-- paths of one length all there and in the order in which the chain has them.
pub record IsSent (chain : ChainCookies) (uri : Uri) (host : Bytes) (sent : List Cookie)
    : Type 0 where
  pub allowed : All (IsFor (canonical_host host) uri.path (is_https uri.scheme)) sent
  pub some_sent : is_nil sent ≡ false
  pub ordered : IsOrdered sent
  pub complete :
      (k : ℕ)
      → of_length k sent
        ≡ of_length k
            (filter (applies (canonical_host host) uri.path (is_https uri.scheme)) chain.cookies)

-- To a URI with a host, a chain sends no header exactly when no stored cookie passes the tests;
-- otherwise the header joins the cookies that pass them, at least one and every one of them, the longer path first
-- and those with equally long paths in the order of the chain.
pub header_for-IsSent :
    (chain : ChainCookies) (uri : Uri) (host : Bytes)
    → uri.host ≡ some host
    → ((header_for chain uri ≡ none)
        × All
            (λ c. applies (canonical_host host) uri.path (is_https uri.scheme) c ≡ false)
            chain.cookies)
      ⊎ ((sent : List Cookie) × (header_for chain uri ≡ some (cookie_header sent))
          × IsSent chain uri host sent)
unfolding header_for
header_for-IsSent chain uri host h =
    let test = applies (canonical_host host) uri.path (is_https uri.scheme) in
    let matched = filter test chain.cookies in
    elim (Bool-cases (is_nil matched)) [
      | inl e ↦ inl (rw (h, e) refl, none_pass test chain.cookies e)
      | inr e ↦ inr (
        sort_by_path matched,
        rw (h, e) refl,
        record {
          allowed = sort-All _ matched (
              All-map _ _ (λ c. (applies_iff _ _ _ c).0) matched
                (filter_passes test chain.cookies));
          some_sent = sort-not_nil matched e;
          ordered = sort-IsOrdered matched;
          complete = λ k. of_length-sort k matched;
        },
      )
    ]

-- ===== src/Cookies/Bounds.antt =====
-- The limits of src/cookies.rs over a whole chain of redirects, and over the header it sends.
use blasthttp.Common.{
  ◌+◌, ◌≤◌, ◌≡◌, refl, ap, ◌∙◌, Bool, ◌||◌, ltb, ◌-◌, Bool-cases, inl, inr, Option-cases, List, [],
  ◌∷◌, ◌++◌, length, length-append, Option, none, some, some_inj, leb, arith,
}
use blasthttp.Common.Bytes.{Bytes, codes}
use blasthttp.Common.Integer.{ℤ}
use blasthttp.Common.Maybe.{>>=-eq-some}
use blasthttp.Common.Search.{filter}
use blasthttp.Common.Text.{is_nil, join}
use blasthttp.Config.Suffix.{eq_ignore_case}
use blasthttp.Cookies.Chain.{
  Cookie, Rejected, ChainCookies, cost, cost_all, with_caller_cookies, max_chain_bytes, settle,
  owned, replacing, held, freed, bytes, max_cookies, max_cookie_bytes,
}
use blasthttp.Common.Uri.{Uri}
use blasthttp.Cookies.Domain.{canonical_host}
use blasthttp.Cookies.Keeps.{IsValid, settle-IsValid}
use blasthttp.Cookies.Parse.{store, store_loop, store_header, parse_set_cookie}
use blasthttp.Cookies.Send.{
  applies, is_https, pair, cookie_header, sort_by_path, insert_by_path, header_for,
}

-- What is settled leaves the caller's names.
settle-caller_names :
    (cookie : Cookie) (expired : Bool) (chain : ChainCookies) (rejected : Rejected)
    → (settle cookie expired chain rejected).0.caller_names ≡ chain.caller_names
unfolding settle
settle-caller_names cookie expired chain rejected =
    let place = replacing chain cookie in
    let full = leb max_cookies (held chain place) in
    let heavy = ltb max_chain_bytes (bytes chain - freed chain place + cost cookie) in
    elim (Bool-cases (owned chain cookie.name)) [
      | inl e ↦ rw e refl
      | inr mine ↦ elim (Bool-cases (ltb max_cookie_bytes (cost cookie))) [
        | inl e ↦ rw (mine, e) refl
        | inr fits ↦ elim (Bool-cases expired) [
          | inl e ↦ rw (mine, fits, e) refl
          | inr fresh ↦ elim (Bool-cases (full || heavy)) [
            | inl e ↦ rw (mine, fits, fresh, e) refl
            | inr e ↦ rw (mine, fits, fresh, e) refl
          ]
        ]
      ]
    ]

module _ (domain_str : Bytes → Option Bytes) where
  store_header-IsValid :
      (now : ℤ) (host path : Bytes) (header : Bytes × Bytes) (chain : ChainCookies)
      (rejected : Rejected)
      → IsValid chain
      → IsValid (store_header domain_str now host path header chain rejected).0
  unfolding store_header
  store_header-IsValid now host path (name, value) chain rejected valid =
      elim (Bool-cases (eq_ignore_case name (codes "set-cookie"))) [
        | inr e ↦ rw e valid
        | inl e ↦ elim (Option-cases (parse_set_cookie domain_str now value host path)) [
          | inl n ↦ rw (e, n) valid
          | inr ((cookie, expired), s) ↦
              rw (e, s) (settle-IsValid cookie expired chain rejected valid)
        ]
      ]

  store_loop-IsValid :
      (now : ℤ) (host path : Bytes) (headers : List (Bytes × Bytes)) (chain : ChainCookies)
      (rejected : Rejected)
      → IsValid chain
      → IsValid (store_loop domain_str now host path headers chain rejected).0
  unfolding store_loop
  store_loop-IsValid now host path [] chain rejected valid = valid
  store_loop-IsValid now host path (h ∷ headers) chain rejected valid =
      store_loop-IsValid now host path headers _ _
        (store_header-IsValid now host path h chain rejected valid)

  store_header-caller_names :
      (now : ℤ) (host path : Bytes) (header : Bytes × Bytes) (chain : ChainCookies)
      (rejected : Rejected)
      → (store_header domain_str now host path header chain rejected).0.caller_names
        ≡ chain.caller_names
  unfolding store_header
  store_header-caller_names now host path (name, value) chain rejected =
      elim (Bool-cases (eq_ignore_case name (codes "set-cookie"))) [
        | inr e ↦ rw e refl
        | inl e ↦ elim (Option-cases (parse_set_cookie domain_str now value host path)) [
          | inl n ↦ rw (e, n) refl
          | inr ((cookie, expired), s) ↦
              rw (e, s) (settle-caller_names cookie expired chain rejected)
        ]
      ]

  store_loop-caller_names :
      (now : ℤ) (host path : Bytes) (headers : List (Bytes × Bytes)) (chain : ChainCookies)
      (rejected : Rejected)
      → (store_loop domain_str now host path headers chain rejected).0.caller_names
        ≡ chain.caller_names
  unfolding store_loop
  store_loop-caller_names now host path [] chain rejected = refl
  store_loop-caller_names now host path (h ∷ headers) chain rejected =
      store_loop-caller_names now host path headers _ _
      ∙ store_header-caller_names now host path h chain rejected

  store-caller_names :
      (now : ℤ) (headers : List (Bytes × Bytes)) (uri : Uri) (chain : ChainCookies)
      → (store domain_str now headers uri chain).0.caller_names ≡ chain.caller_names
  unfolding store
  store-caller_names now headers uri chain = elim (Option-cases uri.host) [
    | inl n ↦ rw n refl
    | inr (host, s) ↦
        rw s (store_loop-caller_names now (canonical_host host) uri.path headers chain _)
  ]

  pub store-IsValid :
      (now : ℤ) (headers : List (Bytes × Bytes)) (uri : Uri) (chain : ChainCookies)
      → IsValid chain
      → IsValid (store domain_str now headers uri chain).0
  unfolding store
  store-IsValid now headers uri chain valid = elim (Option-cases uri.host) [
    | inl n ↦ rw n valid
    | inr (host, s) ↦
        rw s (store_loop-IsValid now (canonical_host host) uri.path headers chain _ valid)
  ]

  -- The chains that responses can build: the caller's names, then one response after another, each
  -- with its own time, headers and URI.
  pub data Collected (caller_names : List Bytes) : ChainCookies → Type 0 where
    start : Collected caller_names (with_caller_cookies caller_names)
    response :
        (chain : ChainCookies) (now : ℤ) (headers : List (Bytes × Bytes)) (uri : Uri)
        → Collected caller_names chain
        → Collected caller_names (store domain_str now headers uri chain).0

  -- Whatever the responses of a chain of redirects carry, the chain holds at most 50 cookies of at
  -- most 4096 bytes each and 8192 bytes together, no cookie under a name that the caller set, and no
  -- two cookies of the same name, domain and path. The names it keeps from are the caller's own, whatever
  -- has been stored.
  pub Collected-IsValid :
      (caller_names : List Bytes) (chain : ChainCookies)
      → Collected caller_names chain
      → IsValid chain × (chain.caller_names ≡ caller_names)
  Collected-IsValid names _ start = (
    record { few = omega arith; small = omega arith; each = tt; theirs = tt; distinct = tt },
    refl,
  )
  Collected-IsValid names _ (response chain now headers uri before) =
      let (valid, kept) = Collected-IsValid names chain before in
      (store-IsValid now headers uri chain valid, store-caller_names now headers uri chain ∙ kept)

cost_all-insert :
    (c : Cookie) (cs : List Cookie) → cost_all (insert_by_path c cs) ≡ cost c + cost_all cs
unfolding insert_by_path
cost_all-insert c [] = refl
cost_all-insert c (d ∷ ds) = elim (Bool-cases (leb (length d.path) (length c.path))) [
  | inl e ↦ rw e refl
  | inr e ↦ rw (e, cost_all-insert c ds) (omega arith)
]

cost_all-sort : (cs : List Cookie) → cost_all (sort_by_path cs) ≡ cost_all cs
unfolding sort_by_path
cost_all-sort [] = refl
cost_all-sort (c ∷ cs) =
    cost_all-insert c (sort_by_path cs) ∙ ap (λ n. cost c + n) (cost_all-sort cs)

cost_all-filter : (p : Cookie → Bool) (cs : List Cookie) → cost_all (filter p cs) ≤ cost_all cs
unfolding filter
cost_all-filter p [] = omega arith
cost_all-filter p (c ∷ cs) = elim (Bool-cases (p c)) [
  | inl e ↦ rw e (omega (arith, cost_all-filter p cs))
  | inr e ↦ rw e (omega (arith, cost_all-filter p cs))
]

length-pair : (c : Cookie) → length (pair c) + 2 ≡ cost c
length-pair c = omega (arith, length-append c.name (b'=' ∷ c.value))

length-cookie_header : (cs : List Cookie) → length (cookie_header cs) ≤ cost_all cs
unfolding join
length-cookie_header [] = omega arith
length-cookie_header (c ∷ []) = omega (arith, length-pair c)
length-cookie_header (c ∷ (d ∷ ds)) =
    let rest = cookie_header (d ∷ ds) in
    let outer : length (pair c ++ (codes "; " ++ rest))
        ≡ length (pair c) + length (codes "; " ++ rest) =
      length-append (pair c) (codes "; " ++ rest) in
    let below : length rest ≤ cost_all (d ∷ ds) = length-cookie_header (d ∷ ds) in
    omega (arith, length-pair c)

valid_header :
    (chain : ChainCookies) (uri : Uri) (value : Bytes)
    → IsValid chain
    → header_for chain uri ≡ some value
    → length value ≤ max_chain_bytes
unfolding header_for
valid_header chain uri value valid h =
    let (host, _, rest) = >>=-eq-some uri.host _ h in
    let test = applies (canonical_host host) uri.path (is_https uri.scheme) in
    let matched = filter test chain.cookies in
    elim (Bool-cases (is_nil matched)) [
      | inl e ↦ let no : none ≡ some value = rw e at rest in absurd cc
      | inr e ↦
          let it : cookie_header (sort_by_path matched) ≡ value = some_inj (rw e at rest) in
          let a = length-cookie_header (sort_by_path matched) in
          let b = cost_all-sort matched in
          let c = cost_all-filter test chain.cookies in
          let d = ap length it in omega (arith, valid.small)
    ]

-- The `Cookie` header that a chain built from responses sends has at most 8192 bytes.
pub length-header_for :
    (domain_str : Bytes → Option Bytes) (caller_names : List Bytes) (chain : ChainCookies)
    (uri : Uri) (value : Bytes)
    → Collected domain_str caller_names chain
    → header_for chain uri ≡ some value
    → length value ≤ max_chain_bytes
length-header_for domain_str caller_names chain uri value built h =
    valid_header chain uri value (Collected-IsValid domain_str caller_names chain built).0 h

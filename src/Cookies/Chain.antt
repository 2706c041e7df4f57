-- ===== src/Cookies/Chain.antt =====
-- `Cookie`, `Rejected` and `ChainCookies` of src/cookies.rs, and what a response may change in them.
use blasthttp.Common.{
  ℕ, ◌+◌, ◌-◌, Bool, ◌&&◌, ◌||◌, if◌then◌else◌, ltb, leb, Option, none, some, List, [], ◌∷◌, ◌++◌,
  length, get_elem?,
}
use blasthttp.Common.Bytes.{Bytes}
use blasthttp.Common.Search.{any, position, remove}
use blasthttp.Common.Text.{same, is_nil}

abbrev pub max_cookie_bytes : ℕ
max_cookie_bytes = 4096

abbrev pub max_cookies : ℕ
max_cookies = 50

abbrev pub max_chain_bytes : ℕ
max_chain_bytes = 8192

abbrev pub entry_size : Bytes → Bytes → ℕ
entry_size name value = length name + length value + 3

pub record Cookie : Type 0 where
  pub name : Bytes
  pub value : Bytes
  pub domain : Bytes
  pub host_only : Bool
  pub path : Bytes
  pub secure : Bool

pub record Rejected : Type 0 where
  pub caller_owned : List Bytes
  pub over_limit : List Bytes

abbrev pub note : List Bytes → Bytes → List Bytes
note list name = if any (same name) list then list else list ++ (name ∷ [])

pub record ChainCookies : Type 0 where
  pub cookies : List Cookie
  pub caller_names : List Bytes

abbrev pub with_caller_cookies : List Bytes → ChainCookies
with_caller_cookies caller_names = record { cookies = []; caller_names = caller_names }

abbrev pub empty : ChainCookies
empty = with_caller_cookies []

abbrev pub is_empty : ChainCookies → Bool
is_empty chain = is_nil chain.cookies

-- What one cookie costs.
abbrev pub cost : Cookie → ℕ
cost c = entry_size c.name c.value

abbrev pub cost_all : List Cookie → ℕ
cost_all [] = 0
cost_all (c ∷ cs) = cost c + cost_all cs

abbrev pub bytes : ChainCookies → ℕ
bytes chain = cost_all chain.cookies

-- The same name, domain and path.
abbrev pub same_slot : Cookie → Cookie → Bool
same_slot cookie c =
    same c.name cookie.name && same c.domain cookie.domain && same c.path cookie.path

abbrev pub replacing : ChainCookies → Cookie → Option ℕ
replacing chain cookie = position (same_slot cookie) chain.cookies

abbrev pub cost_at : Option Cookie → ℕ
cost_at none = 0
cost_at (some c) = cost c

abbrev pub freed : ChainCookies → Option ℕ → ℕ
freed chain none = 0
freed chain (some i) = cost_at (get_elem? chain.cookies i)

abbrev pub held : ChainCookies → Option ℕ → ℕ
held chain none = length chain.cookies
held chain (some i) = length chain.cookies - 1

abbrev pub without : ChainCookies → Option ℕ → List Cookie
without chain none = chain.cookies
without chain (some i) = remove chain.cookies i

abbrev pub with_cookies : ChainCookies → List Cookie → ChainCookies
with_cookies chain cookies = record { cookies = cookies; caller_names = chain.caller_names }

abbrev pub owned : ChainCookies → Bytes → Bool
owned chain name = any (λ n. same n name) chain.caller_names

-- The body of the loop of `store`, once the header is parsed.
unfoldable pub settle : Cookie → Bool → ChainCookies → Rejected → ChainCookies × Rejected
settle cookie expired chain rejected =
    let place = replacing chain cookie in
    if owned chain cookie.name
    then (
      chain,
      record {
        caller_owned = note rejected.caller_owned cookie.name;
        over_limit = rejected.over_limit;
      },
    )
    else if ltb max_cookie_bytes (cost cookie)
    then (
      chain,
      record {
        caller_owned = rejected.caller_owned;
        over_limit = note rejected.over_limit cookie.name;
      },
    )
    else if expired
    then (with_cookies chain (without chain place), rejected)
    else if leb max_cookies (held chain place)
        || ltb max_chain_bytes (bytes chain - freed chain place + cost cookie)
    then (
      chain,
      record {
        caller_owned = rejected.caller_owned;
        over_limit = note rejected.over_limit cookie.name;
      },
    )
    else (with_cookies chain (without chain place ++ (cookie ∷ [])), rejected)

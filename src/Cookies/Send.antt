-- ===== src/Cookies/Send.antt =====
-- `header_for` and `caller_cookie_names` of src/cookies.rs.
use blasthttp.Common.{
  Bool, false, not, ◌&&◌, if◌then◌else◌, leb, Option, none, some, List, [], ◌∷◌, ◌++◌, map, length,
}
use blasthttp.Common.Bytes.{Bytes, codes}
use blasthttp.Common.Maybe.{◌>>=◌}
use blasthttp.Common.Search.{any, filter}
use blasthttp.Common.Text.{same, is_nil, trim, split, split_once, join}
use blasthttp.Config.Suffix.{eq_ignore_case}
use blasthttp.Cookies.Chain.{Cookie, ChainCookies}
use blasthttp.Common.Uri.{Uri}
use blasthttp.Cookies.Domain.{canonical_host, domain_matches, path_matches}

abbrev pub is_https : Option Bytes → Bool
is_https none = false
is_https (some s) = same s (codes "https")

-- The test of the filter.
unfoldable pub applies : Bytes → Bytes → Bool → Cookie → Bool
applies host path secure_transport c =
    if c.secure && not secure_transport
    then false
    else if c.host_only
    then (if not (same host c.domain) then false else path_matches path c.path)
    else if not (domain_matches host c.domain)
    then false
    else path_matches path c.path

-- The stable sort of the standard library, by `Reverse(path.len())`.
unfoldable pub insert_by_path : Cookie → List Cookie → List Cookie
insert_by_path c [] = c ∷ []
insert_by_path c (d ∷ ds) =
    let rest = insert_by_path c ds in
    if leb (length d.path) (length c.path) then c ∷ (d ∷ ds) else d ∷ rest

unfoldable pub sort_by_path : List Cookie → List Cookie
sort_by_path [] = []
sort_by_path (c ∷ cs) = insert_by_path c (sort_by_path cs)

abbrev pub pair : Cookie → Bytes
pair c = c.name ++ (b'=' ∷ c.value)

abbrev pub cookie_header : List Cookie → Bytes
cookie_header cs = join (codes "; ") (map pair cs)

unfoldable pub header_for : ChainCookies → Uri → Option Bytes
header_for chain uri = uri.host >>= λ h.
    let matched =
      filter (applies (canonical_host h) uri.path (is_https uri.scheme)) chain.cookies in
    if is_nil matched then none else some (cookie_header (sort_by_path matched))

-- The name in front of the first `=` of a pair, unless the list has it.
abbrev pub add_name : Bytes → List Bytes → List Bytes
add_name pair names = elim (split_once b'=' pair) [
  | none ↦ names
  | some (front, _) ↦
      let n = trim front in
      if not (is_nil n) && not (any (λ existing. same existing n) names)
      then names ++ (n ∷ [])
      else names
]

abbrev pub add_names : List Bytes → List Bytes → List Bytes
add_names [] names = names
add_names (p ∷ ps) names = add_names ps (add_name p names)

abbrev pub collect_names : List (Bytes × Bytes) → List Bytes → List Bytes
collect_names [] names = names
collect_names ((name, value) ∷ headers) names =
    collect_names headers
      (if eq_ignore_case name (codes "cookie") then add_names (split b';' value) names else names)

abbrev pub caller_cookie_names : List (Bytes × Bytes) → List Bytes
caller_cookie_names headers = collect_names headers []

-- ===== src/Client/Headers.antt =====
-- The headers that `build_request` of src/client/hyper.rs puts on a request.
use blasthttp.Common.{
  ℕ, Bool, true, false, not, ◌&&◌, ◌||◌, if◌then◌else◌, ◌==◌, Option, none, some, List, [], ◌∷◌,
  ◌++◌,
}
use blasthttp.Common.Bytes.{Bytes, codes}
use blasthttp.Common.Maybe.{get_or_else}
use blasthttp.Common.Search.{any}
use blasthttp.Common.Text.{trim, trim_end_matches, is_nil}
use blasthttp.Common.Uri.{Uri}
use blasthttp.Config.Request.{RequestConfig}
use blasthttp.Config.Suffix.{eq_ignore_case}

abbrev pub Header : Type 0
Header = Bytes × Bytes

abbrev pub is_named : Bytes → Header → Bool
is_named name h = eq_ignore_case h.0 name

abbrev pub is_separator : ℕ → Bool
is_separator b = b == b';' || b == b' '

-- One `; ` between the caller's cookies and the chain's.
abbrev pub merge_cookies : Bytes → Bytes → Bytes
merge_cookies value extra =
    let caller = trim_end_matches is_separator (trim value) in
    if is_nil caller then extra else caller ++ (codes "; " ++ extra)

-- The loop over the caller's headers, and whether the cookies were merged.
unfoldable pub caller_headers : Option Bytes → Bool → List Header → List Header × Bool
caller_headers extra merged [] = ([], merged)
caller_headers none merged (h ∷ hs) =
    let (rest, end) = caller_headers none merged hs in (h ∷ rest, end)
caller_headers (some cookies) merged ((name, value) ∷ hs) =
    elim (not merged && eq_ignore_case name (codes "cookie")) [
      | true ↦
          let (rest, end) = caller_headers (some cookies) true hs in
          ((name, merge_cookies value cookies) ∷ rest, end)
      | false ↦
          let (rest, end) = caller_headers (some cookies) merged hs in ((name, value) ∷ rest, end)
    ]

abbrev pub own_cookies : Option Bytes → Bool → List Header
own_cookies none merged = []
own_cookies (some cookies) merged = if merged then [] else (codes "Cookie", cookies) ∷ []

abbrev pub host_header : Option Bytes → List Header
host_header none = []
host_header (some authority) = (codes "Host", authority) ∷ []

-- The defaults: whether to add the host, and whether the caller has the two others.
abbrev pub defaults : Bool → Bool → Bool → Option Bytes → List Header
defaults add_host has_custom_ua has_custom_ae authority =
    (if add_host then host_header authority else [])
    ++ ((if has_custom_ua then [] else (codes "User-Agent", codes "blasthttp/0.1.0") ∷ [])
        ++ (if has_custom_ae
            then []
            else (codes "Accept-Encoding", codes "gzip, deflate, br") ∷ []))

-- What the client adds in front of the caller's headers.
abbrev pub default_headers : Uri → List Header → Bool → List Header
default_headers uri custom manual_host_header =
    defaults (manual_host_header && not (any (is_named (codes "host")) custom))
      (any (is_named (codes "user-agent")) custom) (any (is_named (codes "accept-encoding")) custom)
      uri.authority

unfoldable pub request_headers : Uri → RequestConfig → Bool → Option Bytes → List Header
request_headers uri config manual_host_header redirect_cookies =
    let custom = get_or_else config.headers [] in
    let (emitted, merged) = caller_headers redirect_cookies false custom in
    default_headers uri custom manual_host_header
    ++ (emitted ++ own_cookies redirect_cookies merged)

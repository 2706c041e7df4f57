-- ===== src/Response/Runs.antt =====
-- A response with two cookies of one name.
use blasthttp.Common.{◌≡◌, refl, some, List, [], ◌∷◌}
use blasthttp.Common.Bytes.{Bytes, codes}
use blasthttp.Common.Text.{same, split_first, split_once, trim_start_matches, trim_end_matches}
use blasthttp.Config.Suffix.{eq_ignore_case, to_lower}
use blasthttp.Response.Fields.{parse_set_cookies, get}
use blasthttp.Response.Lookup.{IsLast, last_value, get-parse_set_cookies}

abbrev two_cookies : List (Bytes × Bytes)
two_cookies =
    (codes "Set-Cookie", codes "a=1; Path=/")
    ∷ ((codes "Server", codes "x: y") ∷ ((codes "set-cookie", codes " a = 2 ;HttpOnly") ∷ []))

get-parse_set_cookies_example :
    IsLast (codes "a") two_cookies (get (codes "a") (parse_set_cookies two_cookies))
get-parse_set_cookies_example = get-parse_set_cookies (codes "a") two_cookies

last_value_test : last_value (codes "a") two_cookies ≡ some (codes "2")
unfolding eq_ignore_case to_lower split_first split_once trim_start_matches trim_end_matches same
last_value_test = refl

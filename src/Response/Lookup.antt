-- ===== src/Response/Lookup.antt =====
-- The cookies of src/response.rs: the last `Set-Cookie` header of a name gives its value.
use blasthttp.Common.{
  ◌≡◌, inl, inr, refl, sym, ap, ◌∙◌, true, false, Bool-cases, Option-cases, if◌then◌else◌, Option,
  none, some, some_inj, List, [], ◌∷◌, ◌++◌, append-nil, All,
}
use mathlib.Core.Path.{subst}
use blasthttp.Common.Bytes.{Bytes, codes}
use blasthttp.Common.Maybe.{or_else}
use blasthttp.Common.Split.{
  split_first-append, split_first-whole, split_once-append, split_once_parts, split_first_parts,
}
use blasthttp.Common.Text.{same, same_iff, contains, split_first, split_once, trim}
use blasthttp.Config.Suffix.{eq_ignore_case}
use blasthttp.Response.Fields.{
  Map, insert, get, cookie_pair, insert_pair, set_cookies_loop, parse_set_cookies,
}

-- The value that a pair gives to a name.
abbrev pub value_for : Bytes → Option (Bytes × Bytes) → Option Bytes
value_for name none = none
value_for name (some (n, value)) = if same n name then some value else none

-- From the last header back.
abbrev pub last_value : Bytes → List (Bytes × Bytes) → Option Bytes
last_value name [] = none
last_value name (header ∷ headers) =
    or_else (last_value name headers) (value_for name (cookie_pair header))

get-insert :
    (name key value : Bytes) (out : Map)
    → get name (insert key value out) ≡ (if same key name then some value else get name out)
unfolding get
get-insert name key value [] = refl
get-insert name key value ((k, v) ∷ entries) = elim (Bool-cases (same k key)) [
  | inl e ↦
      let k_is : k ≡ key = (same_iff k key).0 e in
      rw e (
        ap (λ x. if same x name then some value else get name entries) k_is
        ∙ elim (Bool-cases (same key name)) [
          | inl f ↦ rw f refl
          | inr f ↦
              rw f
                (sym (ap (λ x. if same x name then some v else get name entries) k_is ∙ rw f refl))
        ])
  | inr e ↦ elim (Bool-cases (same k name)) [
    | inl f ↦ elim (Bool-cases (same key name)) [
      | inl g ↦
          let k_is : k ≡ key = (same_iff k name).0 f ∙ sym ((same_iff key name).0 g) in
          let no : false ≡ true = sym e ∙ (same_iff k key).1 k_is in absurd cc
      | inr g ↦ rw (e, f, g) refl
    ]
    | inr f ↦ rw (e, f) (get-insert name key value entries)
  ]
]

get-insert_pair :
    (name : Bytes) (pair : Option (Bytes × Bytes)) (out : Map)
    → get name (insert_pair pair out) ≡ or_else (value_for name pair) (get name out)
get-insert_pair name none out = refl
get-insert_pair name (some (n, value)) out =
    get-insert name n value out
    ∙ elim (Bool-cases (same n name)) [ inl e ↦ rw e refl | inr e ↦ rw e refl ]

or_else_assoc : (a b c : Option Bytes) → or_else a (or_else b c) ≡ or_else (or_else a b) c
or_else_assoc none b c = refl
or_else_assoc (some x) b c = refl

or_else-none : (a : Option Bytes) → or_else a none ≡ a
or_else-none none = refl
or_else-none (some x) = refl

get-set_cookies_loop :
    (name : Bytes) (headers : List (Bytes × Bytes)) (out : Map)
    → get name (set_cookies_loop out headers) ≡ or_else (last_value name headers) (get name out)
get-set_cookies_loop name [] out = refl
get-set_cookies_loop name (header ∷ headers) out =
    get-set_cookies_loop name headers (insert_pair (cookie_pair header) out)
    ∙ ap (or_else (last_value name headers)) (get-insert_pair name (cookie_pair header) out)
    ∙ or_else_assoc (last_value name headers) (value_for name (cookie_pair header)) (get name out)

-- What follows the pair of a header.
abbrev pub Attributes : Bytes → Type 0
Attributes [] = Unit
Attributes (c ∷ attributes) = c ≡ b';'

-- A `Set-Cookie` header, its name in whatever case, whose value starts with a name, `=` and a value,
-- with blanks around them, and then ends or has a `;`.
pub record Gives (header pair : Bytes × Bytes) : Type 0 where
  pub name : Bytes
  pub value : Bytes
  pub attributes : Bytes
  pub named : eq_ignore_case header.0 (codes "set-cookie") ≡ true
  pub text : header.1 ≡ (name ++ (b'=' ∷ value)) ++ attributes
  pub first_equals : contains b'=' name ≡ false
  pub before : contains b';' (name ++ (b'=' ∷ value)) ≡ false
  pub behind : Attributes attributes
  pub is_pair : pair ≡ (trim name, trim value)

cookie_pair-Gives :
    (header pair : Bytes × Bytes) → cookie_pair header ≡ some pair → Gives header pair
cookie_pair-Gives (k, v) pair h = elim (Bool-cases (eq_ignore_case k (codes "set-cookie"))) [
  | inr e ↦ let no = rw e at h in absurd cc
  | inl e ↦ elim (Option-cases (split_once b'=' (split_first b';' v).0)) [
    | inl n ↦ let no = rw (e, n) at h in absurd cc
    | inr ((name, value), s) ↦
        let (t, q) = split_once_parts b'=' _ name value s in
        let (free, parts) = split_first_parts b';' v in
        let found = sym (some_inj (rw (e, s) at h)) in
        let before = subst (λ x. contains b';' x ≡ false) t free in
        elim parts [
          | inl whole ↦ record {
            name = name;
            value = value;
            attributes = [];
            named = e;
            text = whole ∙ t ∙ sym (append-nil (name ++ (b'=' ∷ value)));
            first_equals = q;
            before = before;
            behind = tt;
            is_pair = found;
          }
          | inr (rest, whole) ↦ record {
            name = name;
            value = value;
            attributes = b';' ∷ rest;
            named = e;
            text = whole ∙ ap (λ x. x ++ (b';' ∷ rest)) t;
            first_equals = q;
            before = before;
            behind = refl;
            is_pair = found;
          }
        ]
  ]
]

first_part :
    (pair attributes : Bytes)
    → contains b';' pair ≡ false
    → Attributes attributes
    → (split_first b';' (pair ++ attributes)).0 ≡ pair
first_part pair [] free h =
    ap (λ x. (split_first b';' x).0) (append-nil pair)
    ∙ ap (λ r. r.0) (split_first-whole b';' pair free)
first_part pair (c ∷ rest) free h =
    ap (λ x. (split_first b';' (pair ++ (x ∷ rest))).0) h ∙ split_first-append b';' pair rest free

Gives-cookie_pair :
    (header pair : Bytes × Bytes) → Gives header pair → cookie_pair header ≡ some pair
Gives-cookie_pair (k, v) pair g =
    let cut : (split_first b';' v).0 ≡ g.name ++ (b'=' ∷ g.value) =
      ap (λ x. (split_first b';' x).0) g.text
      ∙ first_part (g.name ++ (b'=' ∷ g.value)) g.attributes g.before g.behind in
    let found : split_once b'=' (split_first b';' v).0 ≡ some (g.name, g.value) =
      ap (split_once b'=') cut ∙ split_once-append b'=' g.name g.value g.first_equals in
    let named : eq_ignore_case k (codes "set-cookie") ≡ true = g.named in
    rw (named, found) (ap some (sym g.is_pair))

abbrev pub GivesNone : Bytes → Bytes × Bytes → Type 0
GivesNone name header = (value : Bytes) → ¬ Gives header (name, value)

-- The value of the last header that gives one to a name.
abbrev pub IsLast : Bytes → List (Bytes × Bytes) → Option Bytes → Type 0
IsLast name headers none = All (GivesNone name) headers
IsLast name headers (some value) =
    (front : List (Bytes × Bytes)) × (header : Bytes × Bytes) × (back : List (Bytes × Bytes))
    × (headers ≡ front ++ (header ∷ back))
    × Gives header (name, value)
    × All (GivesNone name) back

value_for-Gives :
    (name : Bytes) (header : Bytes × Bytes) (value : Bytes)
    → value_for name (cookie_pair header) ≡ some value
    → Gives header (name, value)
value_for-Gives name header value h = elim (Option-cases (cookie_pair header)) [
  | inl n ↦ let no = rw n at h in absurd cc
  | inr ((k, v), s) ↦
      let found = rw s at h in
      elim (Bool-cases (same k name)) [
        | inr e ↦ let no = rw e at found in absurd cc
        | inl e ↦
            let is_name : k ≡ name = (same_iff k name).0 e in
            let is_value : v ≡ value = some_inj (rw e at found) in
            let is_pair : (k, v) ≡ (name, value) = cc in
            subst (Gives header) is_pair (cookie_pair-Gives header (k, v) s)
      ]
]

value_for-GivesNone :
    (name : Bytes) (header : Bytes × Bytes)
    → value_for name (cookie_pair header) ≡ none
    → GivesNone name header
value_for-GivesNone name header h value g =
    let found : value_for name (some (name, value)) ≡ none =
      ap (value_for name) (sym (Gives-cookie_pair header (name, value) g)) ∙ h in
    let itself : same name name ≡ true = (same_iff name name).1 refl in
    let no = rw itself at found in absurd cc

last_value-IsLast :
    (name : Bytes) (headers : List (Bytes × Bytes)) → IsLast name headers (last_value name headers)
last_value-IsLast name [] = tt
last_value-IsLast name (header ∷ headers) =
    let others = last_value-IsLast name headers in
    elim (Option-cases (last_value name headers)) [
      | inr (value, e) ↦
          let (front, h, back, split, gives, last) = subst (IsLast name headers) e others in
          rw e (header ∷ front, h, back, ap (λ t. header ∷ t) split, gives, last)
      | inl e ↦
          let missing = subst (IsLast name headers) e others in
          elim (Option-cases (value_for name (cookie_pair header))) [
            | inr (value, f) ↦
                rw (e, f) ([], header, headers, refl, value_for-Gives name header value f, missing)
            | inl f ↦ rw (e, f) (value_for-GivesNone name header f, missing)
          ]
    ]

-- The cookies of a response map a name to the value in the last `Set-Cookie` header that gives it one,
-- which is the text behind the first `=` and before the `;`, without the blanks around it; and they
-- have no value for a name to which no header gives one.
pub get-parse_set_cookies :
    (name : Bytes) (headers : List (Bytes × Bytes))
    → IsLast name headers (get name (parse_set_cookies headers))
unfolding parse_set_cookies get
get-parse_set_cookies name headers =
    subst (IsLast name headers)
      (sym (get-set_cookies_loop name headers [] ∙ or_else-none (last_value name headers)))
      (last_value-IsLast name headers)

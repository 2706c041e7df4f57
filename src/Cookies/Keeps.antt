-- ===== src/Cookies/Keeps.antt =====
-- The invariant of `ChainCookies` of src/cookies.rs, and that every `Set-Cookie` keeps it.
use blasthttp.Common.{
  ℕ, ◌+◌, ◌-◌, ◌≤◌, ◌≡◌, refl, sym, ap, ◌∙◌, Bool, true, false, ◌||◌, Bool-cases, both_true,
  both_false, ◌<◌, ◌↔◌, inl, inr, Option-cases, ltb, leb, List, [], ◌∷◌, ◌++◌, length,
  length-append, get_elem?, All, All-append, some, Option, arith,
}
use blasthttp.Common.Search.{
  remove, position-Found, position-none, remove-middle, All-front, All-back, All-map,
}
use blasthttp.Common.Text.{same_iff}
use blasthttp.Cookies.Chain.{
  Cookie, Rejected, ChainCookies, cost, cost_at, cost_all, bytes, same_slot, replacing, freed, held,
  without, with_cookies, owned, settle, max_cookies, max_cookie_bytes, max_chain_bytes,
}
use mathlib.Core.Path.{subst}

-- Another cookie has another name, domain or path.
abbrev pub Distinct : List Cookie → Type 0
Distinct [] = Unit
Distinct (c ∷ cs) = All (λ d. same_slot c d ≡ false) cs × Distinct cs

pub record IsValid (chain : ChainCookies) : Type 0 where
  pub few : length chain.cookies ≤ max_cookies
  pub small : bytes chain ≤ max_chain_bytes
  pub each : All (λ c. cost c ≤ max_cookie_bytes) chain.cookies
  pub theirs : All (λ c. owned chain c.name ≡ false) chain.cookies
  pub distinct : Distinct chain.cookies

pub cost_all-append : (cs ds : List Cookie) → cost_all (cs ++ ds) ≡ cost_all cs + cost_all ds
cost_all-append [] ds = omega arith
cost_all-append (c ∷ cs) ds = omega (arith, cost_all-append cs ds)

get_elem?-middle :
    {A : Type 0} (front : List A) (x : A) (back : List A)
    → get_elem? (front ++ (x ∷ back)) (length front) ≡ some x
get_elem?-middle [] x back = refl
get_elem?-middle (y ∷ front) x back = get_elem?-middle front x back

-- What a list of cookies is after the one that is replaced has left.
record Room (chain : ChainCookies) (cookie : Cookie) (place : Option ℕ) : Type 0 where
  count : length (without chain place) ≡ held chain place
  weight : cost_all (without chain place) ≡ bytes chain - freed chain place
  fewer : length (without chain place) ≤ length chain.cookies
  lighter : cost_all (without chain place) ≤ bytes chain
  others : All (λ d. same_slot cookie d ≡ false) (without chain place)
  kept : Distinct (without chain place)

same_slot_iff :
    (c d : Cookie)
    → (same_slot c d ≡ true) ↔ ((d.name ≡ c.name) × (d.domain ≡ c.domain) × (d.path ≡ c.path))
same_slot_iff c d = (
  λ h.
      let (first, path) = both_true _ _ h in
      let (name, domain) = both_true _ _ first in
      ((same_iff _ _).0 name, (same_iff _ _).0 domain, (same_iff _ _).0 path),
  λ (name, domain, path).
      rw ((same_iff d.name c.name).1 name, (same_iff d.domain c.domain).1 domain)
        ((same_iff d.path c.path).1 path),
)

-- A cookie in the slot of one that another is distinct from is distinct from that other too.
same_slot_moves :
    (cookie c d : Cookie)
    → same_slot cookie c ≡ true
    → same_slot c d ≡ false
    → same_slot cookie d ≡ false
same_slot_moves cookie c d h differs = elim (Bool-cases (same_slot cookie d)) [
  | inr e ↦ e
  | inl e ↦
      let (n, o, p) = (same_slot_iff cookie c).0 h in
      let (n', o', p') = (same_slot_iff cookie d).0 e in
      let again : same_slot c d ≡ true =
        (same_slot_iff c d).1 (n' ∙ sym n, o' ∙ sym o, p' ∙ sym p) in
      absurd cc
]

same_slot_sym : (c d : Cookie) → same_slot c d ≡ false → same_slot d c ≡ false
same_slot_sym c d differs = elim (Bool-cases (same_slot d c)) [
  | inr e ↦ e
  | inl e ↦
      let (n, o, p) = (same_slot_iff d c).0 e in
      let again : same_slot c d ≡ true = (same_slot_iff c d).1 (sym n, sym o, sym p) in absurd cc
]

Distinct-front : (cs ds : List Cookie) → Distinct (cs ++ ds) → Distinct cs
Distinct-front [] ds h = tt
Distinct-front (c ∷ cs) ds h = (All-front _ cs ds h.0, Distinct-front cs ds h.1)

-- The one in the middle differs from those on both sides, which stay distinct without it.
Distinct-middle :
    (front : List Cookie) (c : Cookie) (back : List Cookie)
    → Distinct (front ++ (c ∷ back))
    → All (λ d. same_slot c d ≡ false) (front ++ back) × Distinct (front ++ back)
Distinct-middle [] c back h = h
Distinct-middle (x ∷ front) c back h =
    let (differs, distinct) = Distinct-middle front c back h.1 in
    let to_c : same_slot x c ≡ false = (All-back _ front (c ∷ back) h.0).0 in
    (
      (same_slot_sym x c to_c, differs),
      (
        All-append _ front back (All-front _ front (c ∷ back) h.0)
            (All-back _ front (c ∷ back) h.0).1,
        distinct,
      ),
    )

Distinct-push :
    (cs : List Cookie) (cookie : Cookie)
    → All (λ d. same_slot cookie d ≡ false) cs
    → Distinct cs
    → Distinct (cs ++ (cookie ∷ []))
Distinct-push [] cookie others h = (tt, tt)
Distinct-push (c ∷ cs) cookie others h = (
  All-append _ cs (cookie ∷ []) h.0 (same_slot_sym cookie c others.0, tt),
  Distinct-push cs cookie others.1 h.1,
)

-- Without the cookie that is replaced.
room :
    (chain : ChainCookies) (cookie : Cookie)
    → Distinct chain.cookies
    → Room chain cookie (replacing chain cookie)
room chain cookie distinct = elim (Option-cases (replacing chain cookie)) [
  | inl e ↦ rw e record {
    count = refl;
    weight = omega arith;
    fewer = omega arith;
    lighter = omega arith;
    others = position-none (same_slot cookie) chain.cookies e;
    kept = distinct;
  }
  | inr (i, e) ↦
      let f = position-Found (same_slot cookie) chain.cookies i e in
      let gone : remove chain.cookies i ≡ f.front ++ f.back =
        ap (λ cs. remove cs i) f.split ∙ remove-middle f.front f.found f.back i f.at in
      let there : get_elem? chain.cookies i ≡ some f.found =
        ap (λ cs. get_elem? cs i) f.split
        ∙ ap (λ j. get_elem? (f.front ++ (f.found ∷ f.back)) j) (sym f.at)
        ∙ get_elem?-middle f.front f.found f.back in
      let (differs, kept) =
        Distinct-middle f.front f.found f.back (subst Distinct f.split distinct) in
      let n : length chain.cookies ≡ length f.front + length (f.found ∷ f.back) =
        ap length f.split ∙ length-append f.front (f.found ∷ f.back) in
      let n' : length (f.front ++ f.back) ≡ length f.front + length f.back =
        length-append f.front f.back in
      let w : bytes chain ≡ cost_all f.front + cost_all (f.found ∷ f.back) =
        ap cost_all f.split ∙ cost_all-append f.front (f.found ∷ f.back) in
      let w' : cost_all (f.front ++ f.back) ≡ cost_all f.front + cost_all f.back =
        cost_all-append f.front f.back in
      let was : freed chain (some i) ≡ cost f.found = ap cost_at there in
      let count : length (remove chain.cookies i) ≡ length f.front + length f.back =
        ap length gone ∙ n' in
      let weight : cost_all (remove chain.cookies i) ≡ cost_all f.front + cost_all f.back =
        ap cost_all gone ∙ w' in
      rw e record {
        count = omega arith;
        weight = omega arith;
        fewer = omega arith;
        lighter = omega arith;
        others =
            subst (All (λ d. same_slot cookie d ≡ false)) (sym gone)
              (All-map _ _ (λ d. same_slot_moves cookie f.found d f.passes) _ differs);
        kept = subst Distinct (sym gone) kept;
      }
]

All-without :
    (P : Cookie → Type 0) (chain : ChainCookies) (cookie : Cookie)
    → All P chain.cookies
    → All P (without chain (replacing chain cookie))
All-without P chain cookie h = elim (Option-cases (replacing chain cookie)) [
  | inl e ↦ rw e h
  | inr (i, e) ↦
      let f = position-Found (same_slot cookie) chain.cookies i e in
      let gone : remove chain.cookies i ≡ f.front ++ f.back =
        ap (λ cs. remove cs i) f.split ∙ remove-middle f.front f.found f.back i f.at in
      let parts : All P (f.front ++ (f.found ∷ f.back)) = subst (All P) f.split h in
      rw (e, gone)
        (All-append P f.front f.back (All-front P f.front _ parts)
          (All-back P f.front (f.found ∷ f.back) parts).1)
]

settled :
    (chain : ChainCookies) (cookie : Cookie)
    → IsValid chain
    → owned chain cookie.name ≡ false
    → cost cookie ≤ max_cookie_bytes
    → length (without chain (replacing chain cookie)) < max_cookies
    → cost_all (without chain (replacing chain cookie)) + cost cookie ≤ max_chain_bytes
    → IsValid (with_cookies chain (without chain (replacing chain cookie) ++ (cookie ∷ [])))
settled chain cookie valid mine fits count weight =
    let rest = without chain (replacing chain cookie) in
    let left = room chain cookie valid.distinct in
    let n : length (rest ++ (cookie ∷ [])) ≡ length rest + 1 = length-append rest (cookie ∷ []) in
    let w : cost_all (rest ++ (cookie ∷ [])) ≡ cost_all rest + (cost cookie + 0) =
      cost_all-append rest (cookie ∷ []) in
    record {
      few = omega arith;
      small = omega arith;
      each = All-append _ rest _ (All-without _ chain cookie valid.each) (fits, tt);
      theirs = All-append _ rest _ (All-without _ chain cookie valid.theirs) (mine, tt);
      distinct = Distinct-push rest cookie left.others left.kept;
    }

-- One parsed `Set-Cookie`, expired or not, keeps the invariant.
pub settle-IsValid :
    (cookie : Cookie) (expired : Bool) (chain : ChainCookies) (rejected : Rejected)
    → IsValid chain
    → IsValid (settle cookie expired chain rejected).0
unfolding settle
settle-IsValid cookie expired chain rejected valid =
    let place = replacing chain cookie in
    let left = room chain cookie valid.distinct in
    let full = leb max_cookies (held chain place) in
    let heavy = ltb max_chain_bytes (bytes chain - freed chain place + cost cookie) in
    elim (Bool-cases (owned chain cookie.name)) [
      | inl e ↦ rw e valid
      | inr mine ↦ elim (Bool-cases (ltb max_cookie_bytes (cost cookie))) [
        | inl e ↦ rw (mine, e) valid
        | inr fits ↦ elim (Bool-cases expired) [
          | inl e ↦
              rw (mine, fits, e)
                record {
                  few = omega (arith, left.fewer, valid.few);
                  small = omega (arith, left.lighter, valid.small);
                  each = All-without _ chain cookie valid.each;
                  theirs = All-without _ chain cookie valid.theirs;
                  distinct = left.kept;
                }
          | inr fresh ↦ elim (Bool-cases (full || heavy)) [
            | inl e ↦ rw (mine, fits, fresh, e) valid
            | inr e ↦
                let (count, weight) = both_false full heavy e in
                let c = left.count in
                let w = left.weight in
                rw (mine, fits, fresh, e)
                  (settled chain cookie valid mine (ground arith) (ground arith) (ground arith))
          ]
        ]
      ]
    ]

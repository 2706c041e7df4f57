-- ===== src/Client/Carried.antt =====
-- The cookies that go with the hops of a request: `send_inner` of src/client/hyper.rs with
-- src/cookies.rs.
use blasthttp.Common.{
  ℕ, ◌+◌, ◌-◌, ◌%◌, ◌^◌, ◌<◌, ◌≡◌, inl, inr, refl, sym, ◌∙◌, true, false, Bool-cases, Option-cases,
  ltb, if◌then◌else◌, ap, none, some, List, [], ◌∷◌, ◌++◌,
}
use mathlib.Core.Path.{subst}
use blasthttp.Common.Bytes.{Bytes}
use blasthttp.Common.Search.{filter}
use blasthttp.Common.Maybe.{◌>>=◌}
use blasthttp.Common.Result.{ok, err, ok_inj}
use blasthttp.Common.Uri.{Uri}
use blasthttp.Client.Redirect.{
  Network, ConnMode, SingleResponse, Walk, stop, go_on, conn_mode, dispatch, hop, start, follows,
  moved_to, custom_headers,
}
use blasthttp.Config.Request.{RequestConfig, redirect_limit, should_forward_redirect_cookies}
use blasthttp.Cookies.Chain.{ChainCookies, with_caller_cookies}
use blasthttp.Cookies.Parse.{store}
use blasthttp.Cookies.Send.{header_for, caller_cookie_names}
use blasthttp.Client.Walks.{IsOnTheWay, hop_cases, start-IsOnTheWay, moved_to-IsOnTheWay}

module _ (network : Network) (config : RequestConfig) where
  -- A hop that has been made: its number, its URI, and the headers that came back.
  pub record Visit : Type 0 where
    pub number : ℕ
    pub uri : Uri
    pub headers : List (Bytes × Bytes)

  abbrev pub visit_of : Walk → SingleResponse → Visit
  visit_of w resp = record { number = w.hops; uri = w.uri; headers = resp.headers }

  -- The states that the loop can be in, with the hops before it, each answered over the network.
  pub data Reached (uri : Uri) : List Visit → Walk → Type 0 where
    begin : Reached uri [] (start network config uri)
    redirected :
        (visits : List Visit) (w next : Walk) (mode : ConnMode) (resp : SingleResponse)
        → Reached uri visits w
        → conn_mode network config w.uri ≡ ok mode
        → dispatch network config w.hops mode w.uri w.hop_cookies ≡ ok resp
        → hop network config w ≡ go_on next
        → Reached uri (visits ++ (visit_of w resp ∷ [])) next

  -- A chain of cookies after hops: each stores what its response sets for its own URI.
  abbrev pub gathered : List Visit → ChainCookies → ChainCookies
  gathered [] chain = chain
  gathered (v ∷ visits) chain =
      gathered visits (store network.domain_str (network.now v.number) v.headers v.uri chain).0

  gathered-append :
      (visits : List Visit) (v : Visit) (chain : ChainCookies)
      → gathered (visits ++ (v ∷ [])) chain
        ≡ (store network.domain_str
            (network.now v.number)
            v.headers
            v.uri
            (gathered visits chain)).0
  gathered-append [] v chain = refl
  gathered-append (u ∷ visits) v chain = gathered-append visits v _

  abbrev pub own_names : ChainCookies
  own_names = with_caller_cookies (caller_cookie_names (custom_headers network config))

  -- The chain is that of all the hops before, if the settings ask for one; what goes out with the hop is
  -- exactly the chain's header for its URI.
  abbrev pub CookiesFollow : List Visit → Walk → Type 0
  CookiesFollow visits w =
      (w.chain_cookies ≡ (
        if should_forward_redirect_cookies config then some (gathered visits own_names) else none))
      × (w.hop_cookies ≡ (w.chain_cookies >>= λ chain. header_for chain w.uri))

  no_header : (names : List Bytes) (uri : Uri) → none ≡ header_for (with_caller_cookies names) uri
  unfolding header_for filter
  no_header names uri = elim (Option-cases uri.host) [
    | inl n ↦ rw n refl
    | inr (host, s) ↦ rw s refl
  ]

  start-CookiesFollow : (uri : Uri) → CookiesFollow [] (start network config uri)
  start-CookiesFollow uri = elim (Bool-cases (should_forward_redirect_cookies config)) [
    | inl e ↦ (refl, rw e (no_header (caller_cookie_names (custom_headers network config)) uri))
    | inr e ↦ (refl, rw e refl)
  ]

  moved_to-CookiesFollow :
      (visits : List Visit) (w : Walk) (mode : ConnMode) (resp : SingleResponse) (next_uri : Uri)
      → CookiesFollow visits w
      → CookiesFollow
          (visits ++ (visit_of w resp ∷ []))
          (moved_to network config w mode resp next_uri)
  moved_to-CookiesFollow visits w mode resp next_uri (held, sent) =
      elim (Bool-cases (should_forward_redirect_cookies config)) [
        | inl e ↦
            let chain : w.chain_cookies ≡ some (gathered visits own_names) =
              held ∙ ap (λ b. if b then some (gathered visits own_names) else none) e in
            let more = gathered-append visits (visit_of w resp) own_names in
            (rw (e, chain) (ap some (sym more)), rw chain refl)
        | inr e ↦
            let chain : w.chain_cookies ≡ none =
              held ∙ ap (λ b. if b then some (gathered visits own_names) else none) e in
            let nothing : w.hop_cookies ≡ none =
              sent ∙ ap (λ c. c >>= λ chain. header_for chain w.uri) chain in
            (rw (e, chain) refl, rw chain nothing)
      ]

  go_on_inj : {w v : Walk} → go_on w ≡ go_on v → w ≡ v
  go_on_inj h = cc

  -- A hop that goes on moves to where its own response redirects.
  hop_moves :
      (w next : Walk) (mode : ConnMode) (resp : SingleResponse)
      → conn_mode network config w.uri ≡ ok mode
      → dispatch network config w.hops mode w.uri w.hop_cookies ≡ ok resp
      → hop network config w ≡ go_on next
      → (next_uri : Uri) × (moved_to network config w mode resp next_uri ≡ next)
        × (follows network config resp ≡ true)
        × (ltb (redirect_limit config) ((w.hops + 1) % 2 ^ 32) ≡ false)
  hop_moves w next mode resp chosen answered step = elim (hop_cases network config w) [
    | inl g ↦
        let m : g.mode ≡ mode = ok_inj (sym g.chosen ∙ chosen) in
        let a : dispatch network config w.hops mode w.uri w.hop_cookies ≡ ok g.resp =
          ap (λ x. dispatch network config w.hops x w.uri w.hop_cookies) (sym m) ∙ g.answered in
        let r : g.resp ≡ resp = ok_inj (sym a ∙ answered) in
        (
          g.next_uri,
          ap (λ x. moved_to network config w mode x g.next_uri) (sym r)
              ∙ ap (λ x. moved_to network config w x g.resp g.next_uri) (sym m)
              ∙ go_on_inj (sym g.next ∙ step),
          ap (follows network config) (sym r) ∙ g.wanted,
          g.room,
        )
    | inr (inl a) ↦ let other : stop _ ≡ go_on next = sym a.result ∙ step in absurd cc
    | inr (inr (e, f)) ↦ let other : stop (err e) ≡ go_on next = sym f ∙ step in absurd cc
  ]

  -- At every hop that a request can get to, it has followed at most `redirect_limit` redirects, and
  -- its chain lists one response with a redirect status for each. If the settings forward cookies of
  -- redirects, the cookies it holds are exactly those that the hops so far, each for its own URI, have
  -- stored in a chain that knows the caller's names, and what it sends is exactly their header for the
  -- URI of this hop; if not, it holds and sends none.
  pub Reached-IsOnTheWay :
      (uri : Uri) (visits : List Visit) (w : Walk)
      → redirect_limit config < 2 ^ 32 - 1
      → Reached uri visits w
      → IsOnTheWay network config w × CookiesFollow visits w
  Reached-IsOnTheWay uri _ _ small begin =
      (start-IsOnTheWay network config uri, start-CookiesFollow uri)
  Reached-IsOnTheWay uri _ next small
        (redirected visits w _ mode resp before chosen answered step) =
      let (on, cookies) = Reached-IsOnTheWay uri visits w small before in
      let (next_uri, there, wanted, room) = hop_moves w next mode resp chosen answered step in
      (
        subst (IsOnTheWay network config) there
            (moved_to-IsOnTheWay network config w mode resp next_uri small wanted room on).2,
        subst (CookiesFollow (visits ++ (visit_of w resp ∷ []))) there
            (moved_to-CookiesFollow visits w mode resp next_uri cookies),
      )

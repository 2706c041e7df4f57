-- ===== src/Client/Walks.antt =====
-- The chain of redirects of src/client/hyper.rs ends, and what holds at every hop of it.
use blasthttp.Common.{
  ℕ, zero, suc, ◌+◌, ◌-◌, ◌%◌, ◌^◌, ◌≤◌, ◌<◌, ◌≡◌, ◌⊎◌, inl, inr, refl, ◌∙◌, true, false, ◌&&◌,
  ◌||◌, both_true, Bool-cases, Option-cases, ltb, some, [], ◌++◌, length, length-append, All,
  All-append, arith,
}
use blasthttp.Common.Bytes.{codes}
use blasthttp.Common.Maybe.{is_some}
use blasthttp.Client.Sanitize.{sanitize_uri}
use blasthttp.Common.Result.{Result, ok, err, Result-cases}
use blasthttp.Common.Uri.{Uri}
use blasthttp.Client.Error.{ClientError, error_of, invalid_url}
use blasthttp.Client.Redirect.{
  Network, ConnMode, SingleResponse, RedirectHop, Response, Walk, stop, go_on, is_redirect,
  conn_mode, dispatch, resolve_redirect, follow_redirect, after, hop, walk, start, follows,
  too_many, no_location, moved_to, response_of, map_err, hop_peer_ip, send_inner,
}
use blasthttp.Config.Request.{RequestConfig, redirect_limit, should_follow_redirects}

module _ (network : Network) (config : RequestConfig) where
  -- A redirect that is followed.
  pub record GoesOn (w : Walk) : Type 0 where
    pub mode : ConnMode
    pub resp : SingleResponse
    pub next_uri : Uri
    pub next : hop network config w ≡ go_on (moved_to network config w mode resp next_uri)
    pub wanted : follows network config resp ≡ true
    pub room : ltb (redirect_limit config) ((w.hops + 1) % 2 ^ 32) ≡ false
    pub chosen : conn_mode network config w.uri ≡ ok mode
    pub answered : dispatch network config w.hops mode w.uri w.hop_cookies ≡ ok resp

  -- The response that the caller gets.
  pub record Arrives (w : Walk) : Type 0 where
    pub mode : ConnMode
    pub resp : SingleResponse
    pub result :
        hop network config w
        ≡ stop (
            ok (
              response_of network config w.uri resp w.redirect_chain
                (hop_peer_ip network config w.hops mode w.uri)))
    pub final : follows network config resp ≡ false

  abbrev pub Fails : Walk → Type 0
  Fails w = (e : ClientError) × (hop network config w ≡ stop (err e))

  pub follow_redirect_cases :
      (w : Walk) (mode : ConnMode) (resp : SingleResponse)
      → ((next_uri : Uri) × (follow_redirect network config w mode resp
            ≡ go_on (moved_to network config w mode resp next_uri))
          × (ltb (redirect_limit config) ((w.hops + 1) % 2 ^ 32) ≡ false))
        ⊎ ((e : ClientError) × (follow_redirect network config w mode resp ≡ stop (err e)))
  unfolding follow_redirect
  follow_redirect_cases w mode resp =
      elim (Bool-cases (ltb (redirect_limit config) ((w.hops + 1) % 2 ^ 32))) [
        | inl e ↦ inr (too_many network config, rw e refl)
        | inr room ↦ elim (Option-cases resp.location) [
          | inl n ↦ inr (no_location network config resp.status, rw (room, n) refl)
          | inr (location, l) ↦
              elim (Result-cases (resolve_redirect network config w.uri location)) [
                | inl (e, r) ↦ inr (e, rw (room, l, r) refl)
                | inr (next_uri, r) ↦ inl (next_uri, rw (room, l, r) refl, room)
              ]
        ]
      ]

  pub hop_cases : (w : Walk) → GoesOn w ⊎ (Arrives w ⊎ Fails w)
  unfolding hop after
  hop_cases w = elim (Result-cases (conn_mode network config w.uri)) [
    | inl (e, m) ↦ inr (inr (e, rw (m, hop) refl))
    | inr (mode, m) ↦
        elim (Result-cases (dispatch network config w.hops mode w.uri w.hop_cookies)) [
          | inl (e, d) ↦ inr (inr (e, rw (m, hop, d) refl))
          | inr (resp, d) ↦ elim (Bool-cases (follows network config resp)) [
            | inr f ↦ inr (
                inl record {
                  mode = mode;
                  resp = resp;
                  result = rw (m, hop, d, after, f) refl;
                  final = f;
                })
            | inl f ↦ elim (follow_redirect_cases w mode resp) [
              | inl (next_uri, step, room) ↦ inl record {
                mode = mode;
                resp = resp;
                next_uri = next_uri;
                next = rw (m, hop, d, after, f) step;
                wanted = f;
                room = room;
                chosen = m;
                answered = d;
              }
              | inr (e, step) ↦ inr (inr (e, rw (m, hop, d, after, f) step))
            ]
          ]
        ]
  ]

  pub record IsOnTheWay (w : Walk) : Type 0 where
    pub few : w.hops ≤ redirect_limit config
    pub counted : length w.redirect_chain ≡ w.hops
    pub redirects : All (λ (h : RedirectHop). is_redirect h.status ≡ true) w.redirect_chain

  pub start-IsOnTheWay : (uri : Uri) → IsOnTheWay (start network config uri)
  start-IsOnTheWay uri = record { few = omega arith; counted = refl; redirects = tt }

  pub moved_to-IsOnTheWay :
      (w : Walk) (mode : ConnMode) (resp : SingleResponse) (next_uri : Uri)
      → redirect_limit config < 2 ^ 32 - 1
      → follows network config resp ≡ true
      → ltb (redirect_limit config) ((w.hops + 1) % 2 ^ 32) ≡ false
      → IsOnTheWay w
      → (w.hops < redirect_limit config)
        × ((w.hops + 1) % 2 ^ 32 ≡ suc w.hops)
        × IsOnTheWay (moved_to network config w mode resp next_uri)
  moved_to-IsOnTheWay w mode resp next_uri small wanted room on =
      let few = on.few in
      let counted = on.counted in
      let count : (w.hops + 1) % 2 ^ 32 ≡ suc w.hops = omega arith in
      let below : w.hops < redirect_limit config = ground arith in
      let (redirect, _) =
        both_true (is_redirect resp.status) (should_follow_redirects config) wanted in
      (
        below,
        count,
        record {
          few = omega arith;
          counted = length-append w.redirect_chain _ ∙ omega arith;
          redirects = All-append _ w.redirect_chain _ on.redirects (redirect, tt);
        },
      )

  -- What the caller gets: an error, or a response that is not to be followed, with its redirects.
  abbrev pub IsFinal : Result ClientError Response → Type 0
  IsFinal (err e) = Unit
  IsFinal (ok r) =
      ((is_redirect r.status && should_follow_redirects config) ≡ false)
      × (length r.redirect_chain ≤ redirect_limit config)
      × All (λ (h : RedirectHop). is_redirect h.status ≡ true) r.redirect_chain

  abbrev Ends : ℕ → Walk → Type 0
  Ends fuel w =
      (r : Result ClientError Response) × (walk network config fuel w ≡ some r) × IsFinal r

  walk_on :
      (left : ℕ) (w next : Walk)
      → hop network config w ≡ go_on next
      → walk network config (suc left) w ≡ walk network config left next
  unfolding walk
  walk_on left w next h = rw (h, walk) refl

  one_hop :
      (left : ℕ) (w : Walk)
      → redirect_limit config < 2 ^ 32 - 1
      → IsOnTheWay w
      → ((next : Walk)
          → w.hops < redirect_limit config
          → next.hops ≡ suc w.hops
          → IsOnTheWay next
          → Ends left next)
      → Ends (suc left) w
  unfolding walk
  one_hop left w small on again = elim (hop_cases w) [
    | inr (inr (e, f)) ↦ (err e, rw (f, walk) refl, tt)
    | inr (inl a) ↦
        let few : length w.redirect_chain ≤ redirect_limit config =
          omega (arith, on.few, on.counted) in
        (
          ok (
              response_of network config w.uri a.resp w.redirect_chain
                (hop_peer_ip network config w.hops a.mode w.uri)),
          rw (a.result, walk) refl,
          (a.final, few, on.redirects),
        )
    | inl g ↦
        let (below, count, next) =
          moved_to-IsOnTheWay w g.mode g.resp g.next_uri small g.wanted g.room on in
        let (r, result, final) = again _ below count next in
        (r, walk_on left w _ g.next ∙ result, final)
  ]

  walk-Ends :
      (left : ℕ) (w : Walk)
      → redirect_limit config < 2 ^ 32 - 1
      → w.hops + left ≡ redirect_limit config
      → IsOnTheWay w
      → Ends (suc left) w
  walk-Ends zero w small total on =
      one_hop zero w small on (λ next below count on'. absurd (omega arith))
  walk-Ends (suc left) w small total on =
      one_hop (suc left) w small on
        (λ next below count on'. walk-Ends left next small (omega arith) on')

  -- If the limit of redirects is not the greatest `u32`, the loop ends: with fuel for one hop more
  -- than the limit a request has a result. Unless the settings fix the address or the request
  -- target, it is an error, or a response that is no redirect to follow, with a chain of at most so
  -- many responses, each with a redirect status.
  pub send_inner_ends :
      redirect_limit config < 2 ^ 32 - 1
      → (r : Result ClientError Response) × (send_inner network config (suc (redirect_limit config))
          ≡ some r)
        × (((is_some config.resolve_ip || is_some config.request_target) ≡ true) ⊎ IsFinal r)
  unfolding send_inner
  send_inner_ends small =
      let url =
        map_err (λ e. error_of invalid_url (codes "invalid URL: " ++ e))
          (network.parse_uri (sanitize_uri config.url)) in
      elim (Result-cases url) [
        | inl (e, u) ↦ (err e, rw (u, send_inner) refl, inr tt)
        | inr (uri, u) ↦
            elim (Bool-cases (is_some config.resolve_ip || is_some config.request_target)) [
              | inr loop ↦
                  let (r, result, final) =
                    walk-Ends (redirect_limit config) (start network config uri) small (omega arith)
                      (start-IsOnTheWay uri) in
                  (r, rw (u, send_inner, loop) result, inr final)
              | inl fixed ↦ elim (Result-cases (network.dispatch_direct uri config)) [
                | inl (e, d) ↦ (err e, rw (u, send_inner, fixed, d) refl, inr tt)
                | inr ((resp, peer_ip), d) ↦ (
                  ok (response_of network config uri resp [] peer_ip),
                  rw (u, send_inner, fixed, d) refl,
                  inl fixed,
                )
              ]
            ]
      ]

-- ===== src/Client/Bounded.antt =====
-- Whatever way a request of src/client/hyper.rs takes, the body that comes back is within the bound of
-- its settings.
use blasthttp.Common.{
  ℕ, zero, suc, ◌≤◌, ◌≡◌, ◌++◌, ◌⊎◌, inl, inr, refl, sym, ap, ◌∙◌, true, false, ◌||◌, Bool-cases,
  Option, some, some_inj, length,
}
use mathlib.Core.Path.{subst}
use blasthttp.Common.Bytes.{Bytes, codes}
use blasthttp.Common.Maybe.{is_some, get_or_else}
use blasthttp.Common.Result.{Result, ok, err, ok_inj, >>=-eq-ok, Result-cases}
use blasthttp.Common.Uri.{Uri}
use blasthttp.Client.Answer.{HyperResponse, parse_response}
use blasthttp.Client.Dispatch.{
  Hyper, http1, answered, failed_request, build_request, shaken, proxy_host, proxy_stream,
  dispatch_request, dispatch_forward_proxy, dispatch_direct,
}
use blasthttp.Client.Error.{ClientError, error_of, connection, invalid_url}
use blasthttp.Client.Received.{parse_response-Outcome}
use blasthttp.Client.Redirect.{
  ConnMode, direct, forward_proxy, tunnel, socks5, SingleResponse, Response, Walk, Next, stop,
  go_on, map_err, conn_mode, dispatch, follows, after, hop, walk, start, send_inner,
}
use blasthttp.Client.Sanitize.{sanitize_uri}
use blasthttp.Client.Stream.{address}
use blasthttp.Client.Verbatim.{dispatch_direct-IsSent}
use blasthttp.Client.Walks.{follow_redirect_cases}
use blasthttp.Client.Wired.{Surroundings, network_of}
use blasthttp.Config.Request.{RequestConfig, max_body}

module _ (config : RequestConfig) where
  abbrev Bounded : SingleResponse → Type 0
  Bounded resp = length resp.body_bytes ≤ max_body config

  parsed-Bounded :
      (hyper : Hyper) (response : HyperResponse) (resp : SingleResponse)
      → parse_response hyper.to_str hyper.decoder config response ≡ ok resp
      → Bounded resp
  parsed-Bounded hyper response resp h =
      elim (parse_response-Outcome hyper.to_str hyper.decoder config response) [
        | inl (e, broken, fits, failed) ↦ let no : err _ ≡ ok resp = sym failed ∙ h in absurd cc
        | inr (r, made, status, bound) ↦ subst Bounded (ok_inj (sym made ∙ h)) bound
      ]

  answered-Bounded :
      (hyper : Hyper) (failure : Bytes → ClientError) (r : Result Bytes HyperResponse)
      (resp : SingleResponse)
      → answered hyper failure config r ≡ ok resp
      → Bounded resp
  answered-Bounded hyper failure (err e) resp h = absurd cc
  answered-Bounded hyper failure (ok response) resp h = parsed-Bounded hyper response resp h

  dispatch_request-Bounded :
      (hyper : Hyper) (mode : ConnMode) (uri : Uri) (cookies : Option Bytes) (resp : SingleResponse)
      → dispatch_request hyper mode uri config cookies ≡ ok resp
      → Bounded resp
  dispatch_request-Bounded hyper mode uri cookies resp h =
      let (request, _, sent) = >>=-eq-ok (build_request hyper uri config false false cookies) _ h in
      answered-Bounded hyper (failed_request hyper (codes "request failed: "))
        (hyper.pool mode request) resp sent

  dispatch_forward_proxy-Bounded :
      (hyper : Hyper) (port_u16 : Uri → Option ℕ) (proxy_url : Bytes) (uri : Uri)
      (cookies : Option Bytes) (resp : SingleResponse)
      → dispatch_forward_proxy hyper port_u16 proxy_url uri config cookies ≡ ok resp
      → Bounded resp
  unfolding dispatch_forward_proxy
  dispatch_forward_proxy-Bounded hyper port_u16 proxy_url uri cookies resp h =
      let (proxy_uri, _, h1) =
        >>=-eq-ok
          (map_err (λ e. error_of invalid_url (codes "invalid proxy URL: " ++ e))
            (hyper.parse_uri proxy_url))
          _ h in
      let (host, _, h2) = >>=-eq-ok (proxy_host hyper proxy_uri.host) _ h1 in
      let addr = address host (get_or_else (port_u16 proxy_uri) 8080) in
      let (tcp, _, h3) = >>=-eq-ok (proxy_stream hyper addr (hyper.dial_proxy addr)) _ h2 in
      let (_, _, h4) =
        >>=-eq-ok (shaken hyper (codes "proxy handshake failed: ") (hyper.handshake http1 tcp)) _
          h3 in
      let (request, _, sent) = >>=-eq-ok (build_request hyper uri config false true cookies) _ h4 in
      answered-Bounded hyper
        (λ e. error_of connection (codes "forward proxy request failed: " ++ e))
        (hyper.send http1 tcp request) resp sent

  module _ (s : Surroundings) where
    dispatch-Bounded :
        (n : ℕ) (mode : ConnMode) (uri : Uri) (cookies : Option Bytes) (resp : SingleResponse)
        → dispatch (network_of s) config n mode uri cookies ≡ ok resp
        → Bounded resp
    dispatch-Bounded n (forward_proxy p) uri cookies resp h =
        dispatch_forward_proxy-Bounded (s.hyper n) s.outside.port_u16 p uri cookies resp h
    dispatch-Bounded n (direct tls) uri cookies resp h =
        let (_, _, sent) = >>=-eq-ok (s.clients (direct tls)) _ h in
        dispatch_request-Bounded (s.hyper n) (direct tls) uri cookies resp sent
    dispatch-Bounded n (tunnel p tls) uri cookies resp h =
        let (_, _, sent) = >>=-eq-ok (s.clients (tunnel p tls)) _ h in
        dispatch_request-Bounded (s.hyper n) (tunnel p tls) uri cookies resp sent
    dispatch-Bounded n (socks5 p tls) uri cookies resp h =
        let (_, _, sent) = >>=-eq-ok (s.clients (socks5 p tls)) _ h in
        dispatch_request-Bounded (s.hyper n) (socks5 p tls) uri cookies resp sent

    abbrev Small : Response → Type 0
    Small r = length r.body_bytes ≤ max_body config

    stop_inj : {a b : Result ClientError Response} → stop a ≡ stop b → a ≡ b
    stop_inj h = cc

    after-Small :
        (w : Walk) (mode : ConnMode) (resp : SingleResponse) (r : Response)
        → Bounded resp
        → after (network_of s) config w mode resp ≡ stop (ok r)
        → Small r
    unfolding after
    after-Small w mode resp r b h = elim (Bool-cases (follows (network_of s) config resp)) [
      | inr e ↦ subst Small (ok_inj (stop_inj (rw (e, after) at h))) b
      | inl e ↦
          let moved = rw (e, after) at h in
          elim (follow_redirect_cases (network_of s) config w mode resp) [
            | inl (next_uri, g, room) ↦ let no : go_on _ ≡ stop (ok r) = sym g ∙ moved in absurd cc
            | inr (x, f) ↦ let no : stop (err x) ≡ stop (ok r) = sym f ∙ moved in absurd cc
          ]
    ]

    hop-Small : (w : Walk) (r : Response) → hop (network_of s) config w ≡ stop (ok r) → Small r
    unfolding hop
    hop-Small w r h = elim (Result-cases (conn_mode (network_of s) config w.uri)) [
      | inl (e, f) ↦ let no : stop (err e) ≡ stop (ok r) = rw (f, hop) at h in absurd cc
      | inr (mode, m) ↦
          elim (Result-cases (dispatch (network_of s) config w.hops mode w.uri w.hop_cookies)) [
            | inl (e, f) ↦ let no : stop (err e) ≡ stop (ok r) = rw (m, f, hop) at h in absurd cc
            | inr (resp, d) ↦
                after-Small w mode resp r (dispatch-Bounded w.hops mode w.uri w.hop_cookies resp d)
                  (rw (m, d, hop) at h)
          ]
    ]

    Next-cases :
        (n : Next)
        → ((r : Result ClientError Response) × (n ≡ stop r)) ⊎ ((w : Walk) × (n ≡ go_on w))
    Next-cases (stop r) = inl (r, refl)
    Next-cases (go_on w) = inr (w, refl)

    walk-Small :
        (fuel : ℕ) (w : Walk) (r : Response)
        → walk (network_of s) config fuel w ≡ some (ok r)
        → Small r
    unfolding walk
    walk-Small zero w r h = absurd cc
    walk-Small (suc fuel) w r h = elim (Next-cases (hop (network_of s) config w)) [
      | inl (x, e) ↦ hop-Small w r (e ∙ ap stop (some_inj (rw (e, walk) at h)))
      | inr (w', e) ↦ walk-Small fuel w' r (rw (e, walk) at h)
    ]

    direct-Bounded :
        (uri : Uri) (resp : SingleResponse) (peer_ip : Option Bytes)
        → (network_of s).dispatch_direct uri config ≡ ok (resp, peer_ip)
        → Bounded resp
    direct-Bounded uri resp peer_ip h =
        let ((got, peer), sent, end) =
          >>=-eq-ok (dispatch_direct (s.hyper 0) s.outside uri config) _ h in
        let way = dispatch_direct-IsSent (s.hyper 0) config s.outside uri got peer sent in
        subst Bounded (ap (λ x. x.0) (ok_inj end))
          (parsed-Bounded (s.hyper 0) way.response got way.parsed)

    -- When a request of the client comes back with a response, over whatever number of redirects, by a
    -- proxy, a tunnel, a fixed address or directly, its body is not longer than the bound on bodies of
    -- its settings.
    pub send_inner-Small :
        (fuel : ℕ) (r : Response)
        → send_inner (network_of s) config fuel ≡ some (ok r)
        → length r.body_bytes ≤ max_body config
    unfolding send_inner
    send_inner-Small fuel r h =
        elim (Result-cases (
          map_err (λ e. error_of invalid_url (codes "invalid URL: " ++ e))
            ((s.hyper 0).parse_uri (sanitize_uri config.url)))) [
              | inl (e, f) ↦ let no : err e ≡ ok r = some_inj (rw (f, send_inner) at h) in absurd cc
              | inr (uri, f) ↦
                  let parsed = rw (f, send_inner) at h in
                  elim (Bool-cases (is_some config.resolve_ip || is_some config.request_target)) [
                    | inr e ↦ walk-Small fuel (start (network_of s) config uri) r (rw e at parsed)
                    | inl e ↦
                        let fixed = rw e at parsed in
                        elim (Result-cases ((network_of s).dispatch_direct uri config)) [
                          | inl (x, g) ↦
                              let no : err x ≡ ok r = some_inj (rw g at fixed) in absurd cc
                          | inr ((resp, peer_ip), g) ↦
                              subst Small (ok_inj (some_inj (rw g at fixed)))
                                (direct-Bounded uri resp peer_ip g)
                        ]
                  ]
            ]

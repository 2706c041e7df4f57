-- ===== src/Client/Verbatim.antt =====
-- What `dispatch_direct` of src/client/hyper.rs has sent when it answers.
use blasthttp.Common.{
  ◌≡◌, ◌⊎◌, inl, inr, refl, sym, ap, ◌∙◌, Bool, true, false, not, ◌&&◌, Bool-cases, Option-cases,
  Option, none, some, [], ◌++◌,
}
use blasthttp.Common.Bytes.{Bytes, codes}
use blasthttp.Common.Maybe.{is_some, get_or_else}
use blasthttp.Common.Result.{Result, ok, err, ok_inj, >>=-eq-ok}
use blasthttp.Common.Uri.{Uri}
use blasthttp.Client.Answer.{HyperResponse, parse_response}
use blasthttp.Client.Dispatch.{
  Request, Hyper, built, request_of, answered, failed_request, shaken, handshake_error, protocol_of,
  is_h2, request_uri, direct_request, send_direct, dispatch_direct,
}
use blasthttp.Client.Error.{ClientError, error_of, invalid_url}
use blasthttp.Client.Redirect.{SingleResponse, map_err}
use blasthttp.Client.Stream.{Outside, Connected, connect_stream}
use blasthttp.Config.Cidr.{IpAddr}
use blasthttp.Config.Request.{RequestConfig, method_or_get}

module _ (hyper : Hyper) (config : RequestConfig) where
  built-ok :
      (request made : Request) (o : Option Bytes) → built hyper request o ≡ ok made → request ≡ made
  built-ok request made none h = ok_inj h
  built-ok request made (some e) h = absurd cc

  answered-ok :
      (failure : Bytes → ClientError) (r : Result Bytes HyperResponse) (resp : SingleResponse)
      → answered hyper failure config r ≡ ok resp
      → (response : HyperResponse) × (r ≡ ok response)
        × (parse_response hyper.to_str hyper.decoder config response ≡ ok resp)
  answered-ok failure (err e) resp h = absurd cc
  answered-ok failure (ok response) resp h = (response, refl, h)

  map_err-ok :
      (f : Bytes → ClientError) (r : Result Bytes Uri) (uri : Uri)
      → map_err f r ≡ ok uri
      → r ≡ ok uri
  map_err-ok f (err e) uri h = absurd cc
  map_err-ok f (ok u) uri h = ap ok (ok_inj h)

  -- The target of a request: the URI asked for, or what the caller's own target is read as, which is
  -- never sent over HTTP/2.
  abbrev pub Target : Uri → Bool → Uri → Type 0
  Target target_uri h2 uri =
      (config.request_target ≡ none)
      ⊎ ((rt : Bytes) × (config.request_target ≡ some rt)
          × (h2 ≡ false)
          × (hyper.parse_uri rt ≡ ok uri))

  -- What was sent over the connection for an answer.
  pub record IsSent (outside : Outside) (target_uri : Uri) (resp : SingleResponse)
      (peer : Option IpAddr) : Type 0 where
    pub connected : Connected
    pub request : Request
    pub response : HyperResponse
    pub over : connect_stream outside config target_uri ≡ ok connected
    pub sent :
        hyper.send
          (protocol_of hyper (is_h2 hyper connected.negotiated_alpn))
          connected.stream
          request
        ≡ ok response
    pub parsed : parse_response hyper.to_str hyper.decoder config response ≡ ok resp
    pub reported : peer ≡ connected.peer_ip
    pub method : request.method ≡ method_or_get config
    pub body : request.body ≡ get_or_else config.body []
    pub target : Target target_uri (is_h2 hyper connected.negotiated_alpn) request.uri

  -- The request that is built: with the URI as it is over HTTP/2 and for a target of the caller's.
  direct_request-ok :
      (h2 : Bool) (uri : Uri) (request : Request)
      → direct_request hyper h2 uri config ≡ ok request
      → (manual : Bool) × (request_of hyper uri config
            (not h2 && not (is_some config.request_target))
            manual
            none
          ≡ request)
  direct_request-ok true uri request made = (
    false,
    built-ok (request_of hyper uri config false false none) request
        (hyper.build (request_of hyper uri config false false none)) made,
  )
  direct_request-ok false uri request made =
      let form = not (is_some config.request_target) in
      (
        true,
        built-ok (request_of hyper uri config form true none) request
            (hyper.build (request_of hyper uri config form true none)) made,
      )

  target_kept :
      (h2 : Bool) (uri target_uri : Uri) (request : Request) (manual : Bool)
      → (h2 && is_some config.request_target) ≡ false
      → request_uri hyper target_uri config.request_target ≡ ok uri
      → request_of hyper uri config (not h2 && not (is_some config.request_target)) manual none
        ≡ request
      → Target target_uri h2 request.uri
  target_kept true uri target_uri request manual guard found made =
      elim (Option-cases config.request_target) [
        | inl e ↦ inl e
        | inr (rt, e) ↦ let no = rw e at guard in absurd cc
      ]
  target_kept false uri target_uri request manual guard found made =
      elim (Option-cases config.request_target) [
        | inl e ↦ inl e
        | inr (rt, e) ↦
            let kept : request_of hyper uri config false manual none ≡ request =
              ap (λ o. request_of hyper uri config (not (is_some o)) manual none) (sym e) ∙ made in
            let read : hyper.parse_uri rt ≡ ok uri =
              map_err-ok
                (λ x.
                  error_of invalid_url
                    (codes "invalid request_target '" ++ (rt ++ (codes "': " ++ x))))
                (hyper.parse_uri rt) uri (ap (request_uri hyper target_uri) (sym e) ∙ found) in
            inr (rt, e, refl, read ∙ ap (λ r. ok r.uri) kept)
      ]

  -- An answer of `dispatch_direct` is what `parse_response` makes of what came back over the stream
  -- that `connect_stream` opened to the target, for a request with the method and the body of the
  -- settings; a request target of the caller's own goes out as it is read, without being cut down to a
  -- path, and never over HTTP/2.
  pub dispatch_direct-IsSent :
      (outside : Outside) (target_uri : Uri) (resp : SingleResponse) (peer : Option IpAddr)
      → dispatch_direct hyper outside target_uri config ≡ ok (resp, peer)
      → IsSent outside target_uri resp peer
  unfolding dispatch_direct
  dispatch_direct-IsSent outside target_uri resp peer h =
      let (c, over, guarded) = >>=-eq-ok (connect_stream outside config target_uri) _ h in
      let h2 = is_h2 hyper c.negotiated_alpn in
      elim (Bool-cases (h2 && is_some config.request_target)) [
        | inl refused ↦ let no = rw refused at guarded in absurd cc
        | inr guard ↦
            let going : send_direct hyper h2 c target_uri config ≡ ok (resp, peer) =
              rw guard at guarded in
            let (_, _, asking) =
              >>=-eq-ok
                (shaken hyper (handshake_error hyper h2)
                  (hyper.handshake (protocol_of hyper h2) c.stream))
                _ going in
            let (uri, found, building) =
              >>=-eq-ok (request_uri hyper target_uri config.request_target) _ asking in
            let (request, made, sending) =
              >>=-eq-ok (direct_request hyper h2 uri config) _ building in
            let failure = failed_request hyper (codes "dispatch_direct request failed: ") in
            let outcome = hyper.send (protocol_of hyper h2) c.stream request in
            let (resp', got, end) = >>=-eq-ok (answered hyper failure config outcome) _ sending in
            let (response, sent, parsed) = answered-ok failure outcome resp' got in
            let (manual, is_request) = direct_request-ok h2 uri request made in
            let e = ok_inj end in
            record {
              connected = c;
              request = request;
              response = response;
              over = over;
              sent = sent;
              parsed = parsed ∙ ap (λ x. ok x.0) e;
              reported = sym (ap (λ x. x.1) e);
              method = ap (λ r. r.method) (sym is_request);
              body = ap (λ r. r.body) (sym is_request);
              target = target_kept h2 uri target_uri request manual guard found is_request;
            }
      ]

-- ===== src/Client/Attempts.antt =====
-- How often `HyperClient::send` of src/client/hyper.rs tries, and what it answers.
use blasthttp.Common.{
  ℕ, zero, suc, ◌+◌, ◌-◌, ◌*◌, ◌%◌, ◌^◌, ◌==◌, min, ◌≤◌, ◌<◌, ◌≡◌, ◌⊎◌, inl, inr, refl, sym, ap,
  ◌∙◌, Bool, true, false, ◌&&◌, Bool-cases, both_true, ltb, ltb→lt, lt→ltb, Option, none, List, [],
  ◌∷◌, ◌++◌, arith,
}
use mathlib.Core.Path.{subst}
use blasthttp.Common.Result.{Result, ok, err}
use blasthttp.Client.Error.{
  ErrorKind, connection, timeout, tls, invalid_url, too_many_redirects, other, status, is_retryable,
  ClientError,
}
use blasthttp.Client.Backoff.{retry_backoff, duration_max}
use blasthttp.Client.Retry.{
  Outcome, timed_out, finished, backoff_before, waits_until, timeout_error, send_loop, send,
}
use blasthttp.Config.Bypass.{validate_proxy}
use blasthttp.Config.Request.{RequestConfig, max_retries, retry_wait_min, retry_wait_max}

Outcome-cases :
    {Response : Type 0} (o : Outcome Response)
    → (o ≡ timed_out)
      ⊎ (((r : Response) × (o ≡ finished (ok r))) ⊎ ((e : ClientError) × (o ≡ finished (err e))))
Outcome-cases timed_out = inl refl
Outcome-cases (finished (ok r)) = inr (inl (r, refl))
Outcome-cases (finished (err e)) = inr (inr (e, refl))

-- A failed connection, or a status of 429.
abbrev pub of_kind : ErrorKind → Bool
of_kind connection = true
of_kind (status code) = code == 429
of_kind timeout = false
of_kind tls = false
of_kind invalid_url = false
of_kind too_many_redirects = false
of_kind other = false

is_retryable_lem : (kind : ErrorKind) → is_retryable kind ≡ of_kind kind
is_retryable_lem connection = refl
is_retryable_lem (status code) = refl
is_retryable_lem timeout = refl
is_retryable_lem tls = refl
is_retryable_lem invalid_url = refl
is_retryable_lem too_many_redirects = refl
is_retryable_lem other = refl

module _ {Response : Type 0} (code_of : Response → ℕ) (attempts : ℕ → Outcome Response)
    (config : RequestConfig) where
  -- An answer with status 429, or a connection that failed.
  abbrev pub wants_retry : Outcome Response → Bool
  wants_retry timed_out = false
  wants_retry (finished (ok response)) = code_of response == 429
  wants_retry (finished (err e)) = of_kind e.kind

  abbrev pub answer_of : Outcome Response → Result ClientError Response
  answer_of timed_out = err (timeout_error code_of attempts config)
  answer_of (finished r) = r

  -- The wait before the retry `k`, counted from 0, in nanoseconds: the minimum times 2 to the power `k`,
  -- a power that is cut to 64 and then to 32 bits, and the maximum at most.
  abbrev pub wait_before : ℕ → ℕ
  wait_before k =
      min (min (retry_wait_min config * 1000000 * (min (2 ^ k) (2 ^ 64 - 1) % 2 ^ 32)) duration_max)
        (retry_wait_max config * 1000000)

  -- The waits before the first attempts.
  abbrev pub waits_to : ℕ → List ℕ
  waits_to zero = []
  waits_to (suc k) = waits_to k ++ (wait_before k ∷ [])

  backoff_before_lem : (k : ℕ) → backoff_before code_of attempts config (suc k) ≡ wait_before k
  unfolding retry_backoff
  backoff_before_lem k =
      let counted : suc k - 1 ≡ k = omega arith in
      ap (λ j. retry_backoff j (retry_wait_min config * 1000000) (retry_wait_max config * 1000000))
        counted

  -- The answer is that of one attempt, which is the first that wants no retry or else the last one
  -- allowed; before every retry there was the backoff of that retry.
  pub record IsAnswered (r : Result ClientError Response × List ℕ) : Type 0 where
    pub last : ℕ
    pub allowed : last ≤ max_retries config
    pub before : (k : ℕ) → k < last → wants_retry (attempts k) ≡ true
    pub stops : (wants_retry (attempts last) ≡ false) ⊎ (last ≡ max_retries config)
    pub answer : r.0 ≡ answer_of (attempts last)
    pub waits : r.1 ≡ waits_to last

  -- The sleeps of a retry follow those of the attempts before it.
  retried :
      (n : ℕ) (ws : List ℕ)
      → waits_until code_of attempts config n ws ≡ waits_to n
      → waits_until code_of attempts config (suc n) (waits_until code_of attempts config n ws)
        ≡ waits_to (suc n)
  retried n ws e =
      ap (waits_until code_of attempts config (suc n)) e
      ∙ rw (lt→ltb 0 (suc n) (omega arith))
          (ap (λ w. waits_to n ++ (w ∷ [])) (backoff_before_lem n))

  one_more :
      (n : ℕ)
      → ((k : ℕ) → k < n → wants_retry (attempts k) ≡ true)
      → wants_retry (attempts n) ≡ true
      → (k : ℕ) → k < suc n
      → wants_retry (attempts k) ≡ true
  one_more n before this k h = elim (Bool-cases (ltb k n)) [
    | inl e ↦ before k (ltb→lt k n e)
    | inr e ↦ let it : k ≡ n = ground arith in ap (λ j. wants_retry (attempts j)) it ∙ this
  ]

  -- The last attempt, or one that wants no retry.
  halts :
      (retry : Bool) (n : ℕ)
      → n ≤ max_retries config
      → (retry && ltb n (max_retries config)) ≡ false
      → (retry ≡ false) ⊎ (n ≡ max_retries config)
  halts false n h e = inl refl
  halts true n h e = inr (ground arith)

  -- This attempt ends the loop.
  ends_here :
      (attempt : ℕ) (r : Result ClientError Response × List ℕ)
      → attempt ≤ max_retries config
      → ((k : ℕ) → k < attempt → wants_retry (attempts k) ≡ true)
      → (wants_retry (attempts attempt) ≡ false) ⊎ (attempt ≡ max_retries config)
      → r.0 ≡ answer_of (attempts attempt)
      → r.1 ≡ waits_to attempt
      → IsAnswered r
  ends_here attempt r allowed before stops answer waits = record {
    last = attempt;
    allowed = allowed;
    before = before;
    stops = stops;
    answer = answer;
    waits = waits;
  }

  -- One round, if the rounds after it are right.
  round :
      (left attempt : ℕ) (last_err : Option ClientError) (ws : List ℕ)
      → attempt ≤ max_retries config
      → ((k : ℕ) → k < attempt → wants_retry (attempts k) ≡ true)
      → waits_until code_of attempts config attempt ws ≡ waits_to attempt
      → ((last_err' : Option ClientError)
          → wants_retry (attempts attempt) ≡ true
          → attempt < max_retries config
          → IsAnswered (
              send_loop code_of attempts config left
                (suc attempt)
                last_err'
                (waits_until code_of attempts config attempt ws)))
      → IsAnswered (send_loop code_of attempts config (suc left) attempt last_err ws)
  unfolding send_loop
  round left attempt last_err ws allowed before waited again =
      elim (Outcome-cases (attempts attempt)) [
        | inl e ↦
            rw (e, send_loop)
              (ends_here attempt _ allowed before (inl (ap wants_retry e)) (sym (ap answer_of e))
                waited)
        | inr (inl (r, e)) ↦
            let retry = is_retryable (status (code_of r)) in
            elim (Bool-cases (retry && ltb attempt (max_retries config))) [
              | inl more ↦
                  let (wants, room) = both_true retry (ltb attempt (max_retries config)) more in
                  rw (e, send_loop, more) (again _ (ap wants_retry e ∙ wants) (ltb→lt _ _ room))
              | inr last ↦
                  rw (e, send_loop, last)
                    (ends_here attempt _ allowed before (rw e (halts retry attempt allowed last))
                      (sym (ap answer_of e)) waited)
            ]
        | inr (inr (x, e)) ↦
            let retry = is_retryable x.kind in
            elim (Bool-cases (retry && ltb attempt (max_retries config))) [
              | inl more ↦
                  let (wants, room) = both_true retry (ltb attempt (max_retries config)) more in
                  rw (e, send_loop, more)
                    (again _ (ap wants_retry e ∙ sym (is_retryable_lem x.kind) ∙ wants)
                      (ltb→lt _ _ room))
              | inr last ↦
                  rw (e, send_loop, last)
                    (ends_here attempt _ allowed before
                      (rw e (
                        subst (λ (b : Bool). (b ≡ false) ⊎ (attempt ≡ max_retries config))
                          (is_retryable_lem x.kind) (halts retry attempt allowed last)))
                      (sym (ap answer_of e)) waited)
            ]
      ]

  send_loop-IsAnswered :
      (left attempt : ℕ) (last_err : Option ClientError) (ws : List ℕ)
      → left + attempt ≡ max_retries config
      → ((k : ℕ) → k < attempt → wants_retry (attempts k) ≡ true)
      → waits_until code_of attempts config attempt ws ≡ waits_to attempt
      → IsAnswered (send_loop code_of attempts config (suc left) attempt last_err ws)
  send_loop-IsAnswered zero attempt last_err ws total before waited =
      round zero attempt last_err ws (omega arith) before waited
        (λ x wants more. absurd (omega arith))
  send_loop-IsAnswered (suc left) attempt last_err ws total before waited =
      round (suc left) attempt last_err ws (omega arith) before waited (λ x wants more.
        send_loop-IsAnswered left (suc attempt) x _ (omega arith) (one_more attempt before wants)
          (retried attempt ws waited))

  -- With valid proxy settings, whatever the attempts do: at most `max_retries` of them are followed
  -- by another; the answer is that of the last one made, a timeout's being an error; every one
  -- before it ended with the status 429 or a failed connection; the last one did not, or was the
  -- last allowed; and before the retry `k`, counted from 0, there was a wait of the minimum
  -- times 2 to the power `k`, cut to 32 bits, and at most the maximum.
  pub send-IsAnswered : validate_proxy config ≡ ok tt → IsAnswered (send code_of attempts config)
  unfolding send
  send-IsAnswered valid =
      rw (valid, send)
        (send_loop-IsAnswered (max_retries config) 0 none [] (omega arith)
          (λ k h. absurd (omega arith)) refl)

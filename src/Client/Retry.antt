-- ===== src/Client/Retry.antt =====
-- `HyperClient::send` of src/client/hyper.rs: the attempts of a request. What the network does is a
-- parameter: the outcome of each call of `send_inner`, under its timeout.
use blasthttp.Common.{
  ℕ, zero, suc, ◌-◌, ◌*◌, true, false, ◌&&◌, if◌then◌else◌, ltb, Option, none, some, List, [], ◌∷◌,
  ◌++◌,
}
use blasthttp.Common.Bytes.{codes}
use blasthttp.Common.Maybe.{get_or_else}
use blasthttp.Common.Result.{Result, ok, err}
use blasthttp.Client.Backoff.{retry_backoff}
use blasthttp.Client.Error.{status, is_retryable, ClientError, error_of, decimal, timeout, other}
use blasthttp.Config.Bypass.{validate_proxy}
use blasthttp.Config.Request.{RequestConfig, max_retries, retry_wait_min, retry_wait_max}
use blasthttp.Config.Request

pub data Outcome (Response : Type 0) : Type 0 where
  timed_out : Outcome Response
  finished : Result ClientError Response → Outcome Response

module _ {Response : Type 0} (code_of : Response → ℕ) (attempts : ℕ → Outcome Response)
    (config : RequestConfig) where
  -- In nanoseconds.
  abbrev pub backoff_before : ℕ → ℕ
  backoff_before attempt =
      retry_backoff (attempt - 1) (retry_wait_min config * 1000000)
        (retry_wait_max config * 1000000)

  -- The sleep before every attempt but the first.
  abbrev pub waits_until : ℕ → List ℕ → List ℕ
  waits_until attempt waits =
      if ltb 0 attempt then waits ++ (backoff_before attempt ∷ []) else waits

  abbrev pub timeout_error : ClientError
  timeout_error =
      error_of timeout
        (codes "request timed out after " ++ (decimal (Request.timeout config) ++ codes "s"))

  abbrev pub status_error : ℕ → ClientError
  status_error code =
      error_of (status code)
        (codes "server returned " ++ (decimal code ++ (codes " for " ++ config.url)))

  -- `left` attempts from `attempt` on, with the last error and the sleeps so far.
  unfoldable pub send_loop :
      ℕ → ℕ → Option ClientError → List ℕ → Result ClientError Response × List ℕ
  send_loop zero attempt last_err waits =
      (err (get_or_else last_err (error_of other (codes "all retries exhausted"))), waits)
  send_loop (suc left) attempt last_err waits = elim (attempts attempt) [
    | timed_out ↦ (err timeout_error, waits_until attempt waits)
    | finished (ok response) ↦
        elim (is_retryable (status (code_of response)) && ltb attempt (max_retries config)) [
          | true ↦
              send_loop left (suc attempt) (some (status_error (code_of response)))
                (waits_until attempt waits)
          | false ↦ (ok response, waits_until attempt waits)
        ]
    | finished (err e) ↦ elim (is_retryable e.kind && ltb attempt (max_retries config)) [
      | true ↦ send_loop left (suc attempt) (some e) (waits_until attempt waits)
      | false ↦ (err e, waits_until attempt waits)
    ]
  ]

  -- The result, and the sleeps between the attempts.
  unfoldable pub send : Result ClientError Response × List ℕ
  send = elim (validate_proxy config) [
    | err message ↦ (err (error_of other message), [])
    | ok _ ↦ send_loop (suc (max_retries config)) 0 none []
  ]

-- ===== src/Batch/BatchRuns.antt =====
-- Batches of three requests, two of them under way at once.
use blasthttp.Common.{ℕ, ◌+◌, ◌≤◌, ◌≡◌, refl, some, List, [], ◌∷◌, arith}
use mathlib.Core.List.{Perm}
use blasthttp.Common.Bytes.{codes}
use blasthttp.Common.Result.{Result, err}
use blasthttp.Batch.Completes.{answers, one_by_one, send_batch_completes}
use blasthttp.Batch.Engine.{
  Event, dispatch, start, finish, panic, BatchResult, answer, panic_result, batch_of, run,
  send_batch, send_batch_stream, stream_step,
}
use blasthttp.Batch.InFlight.{in_flight, in_flight_bounded}
use blasthttp.Batch.Streamed.{send_batch_stream-Perm}
use blasthttp.Client.Error.{ClientError, error_of, connection}
use blasthttp.Client.Redirect.{Response}
use blasthttp.Config.Request.{RequestConfig, new}

abbrev refusing : ℕ → RequestConfig → Result ClientError Response
refusing n config = err (error_of connection config.url)

abbrev three : List RequestConfig
three = new (codes "http://a/") ∷ (new (codes "http://b/") ∷ (new (codes "http://c/") ∷ []))

-- The second ends first, and the third panics.
abbrev out_of_order : List Event
out_of_order =
    dispatch
    ∷ (dispatch
        ∷ (start 0
            ∷ (start 1
                ∷ (dispatch
                    ∷ (start 2
                        ∷ (finish 1 ∷ (start 2 ∷ (panic 2 (codes "boom") ∷ (finish 0 ∷ [])))))))))

abbrev three_results : List BatchResult
three_results =
    answer refusing 0 (new (codes "http://a/"))
    ∷ (answer refusing 1 (new (codes "http://b/")) ∷ (panic_result (codes "boom") ∷ []))

send_batch_completes_example :
    send_batch refusing 2 three (one_by_one refusing 0 three) ≡ some (answers refusing 0 three)
send_batch_completes_example = send_batch_completes refusing 2 three (omega arith)

in_flight_bounded_example :
    (let b = run refusing out_of_order (batch_of 2 three) in
      let s = send_batch_stream refusing out_of_order (batch_of 2 three) in
      (in_flight b.tasks + b.permits ≡ 2)
      × (in_flight s.tasks + s.permits ≡ 2)
      × (in_flight b.tasks ≤ 2)
      × (in_flight s.tasks ≤ 2))
in_flight_bounded_example = in_flight_bounded refusing 2 three out_of_order

abbrev streaming : List Event
streaming =
    dispatch ∷ (dispatch ∷ (dispatch ∷ (finish 1 ∷ (dispatch ∷ (finish 2 ∷ (finish 0 ∷ []))))))

send_batch_stream-Perm_example :
    Perm (send_batch_stream refusing streaming (batch_of 2 three)).sent (answers refusing 0 three)
unfolding stream_step
send_batch_stream-Perm_example =
    send_batch_stream-Perm refusing 2 three streaming refl (tt, (tt, (tt, tt)))

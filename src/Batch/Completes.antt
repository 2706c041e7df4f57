-- ===== src/Batch/Completes.antt =====
-- `send_batch` of src/batch.rs can return.
use blasthttp.Common.{
  ℕ, suc, ◌+◌, ◌-◌, ◌≤◌, ◌≡◌, refl, sym, ap, ◌∙◌, true, leb, some, List, [], ◌∷◌, ◌++◌, length,
  length-append, get_elem?, set, append-nil, append_assoc, arith,
}
use blasthttp.Common.Maybe.{◌>>=◌}
use blasthttp.Common.Result.{Result}
use blasthttp.Batch.Engine.{
  BatchResult, Task, queued, running, finished, Batch, Event, dispatch, start, finish, start_step,
  finish_step, awaited, collected, answer, step, run, send_batch,
}
use blasthttp.Client.Error.{ClientError}
use blasthttp.Client.Redirect.{Response}
use blasthttp.Config.Request.{RequestConfig}

get_elem-end : (done : List Task) (t : Task) → get_elem? (done ++ (t ∷ [])) (length done) ≡ some t
get_elem-end [] t = refl
get_elem-end (x ∷ done) t = get_elem-end done t

set-end :
    (done : List Task) (t t' : Task) → set (done ++ (t ∷ [])) (length done) t' ≡ done ++ (t' ∷ [])
set-end [] t t' = refl
set-end (x ∷ done) t t' = ap (λ l. x ∷ l) (set-end done t t')

abbrev with_tasks : List RequestConfig → List Task → ℕ → List BatchResult → Batch
with_tasks waiting tasks permits sent = record {
  waiting = waiting;
  tasks = tasks;
  permits = permits;
  sent = sent;
}

module _ (client : ℕ → RequestConfig → Result ClientError Response) where
  abbrev pub answers : ℕ → List RequestConfig → List BatchResult
  answers n [] = []
  answers n (c ∷ configs) = answer client n c ∷ answers (suc n) configs

  -- One request after the other.
  abbrev pub one_by_one : ℕ → List RequestConfig → List Event
  one_by_one n [] = []
  one_by_one n (c ∷ configs) = dispatch ∷ (start n ∷ (finish n ∷ one_by_one (suc n) configs))

  abbrev ended : ℕ → List RequestConfig → List Task
  ended n [] = []
  ended n (c ∷ configs) = finished c (answer client n c) ∷ ended (suc n) configs

  started :
      (c : RequestConfig) (rest : List RequestConfig) (done : List Task) (permits : ℕ)
      (sent : List BatchResult)
      → 1 ≤ permits
      → step client (start (length done)) (with_tasks rest (done ++ (queued c ∷ [])) permits sent)
        ≡ with_tasks rest (done ++ (running c ∷ [])) (permits - 1) sent
  unfolding step
  started c rest done permits sent h =
      let free : leb 1 permits ≡ true = ground arith in
      let b = with_tasks rest (done ++ (queued c ∷ [])) permits sent in
      ap (λ o. start_step (length done) o b) (get_elem-end done (queued c))
      ∙ rw free
          (ap (λ l. with_tasks rest l (permits - 1) sent) (set-end done (queued c) (running c)))

  step-finished :
      (c : RequestConfig) (rest : List RequestConfig) (done : List Task) (permits : ℕ)
      (sent : List BatchResult)
      → 1 ≤ permits
      → step client
          (finish (length done))
          (with_tasks rest (done ++ (running c ∷ [])) (permits - 1) sent)
        ≡ with_tasks rest
            (done ++ (finished c (answer client (length done) c) ∷ []))
            permits
            (sent ++ (answer client (length done) c ∷ []))
  unfolding step
  step-finished c rest done permits sent h =
      let b = with_tasks rest (done ++ (running c ∷ [])) (permits - 1) sent in
      let r = answer client (length done) c in
      let back : permits - 1 + 1 ≡ permits = omega arith in
      ap (λ o. finish_step client (length done) o b) (get_elem-end done (running c))
      ∙ ap (λ l. with_tasks rest l (permits - 1 + 1) (sent ++ (r ∷ [])))
          (set-end done (running c) (finished c r))
      ∙ ap (λ p. with_tasks rest (done ++ (finished c r ∷ [])) p (sent ++ (r ∷ []))) back

  -- The requests left, behind tasks that have ended.
  all_end :
      (configs : List RequestConfig) (n : ℕ) (done : List Task) (permits : ℕ)
      (sent : List BatchResult)
      → n ≡ length done
      → 1 ≤ permits
      → (let b = run client (one_by_one n configs) (with_tasks configs done permits sent) in
          collected b.waiting b.tasks)
        ≡ awaited (done ++ ended n configs)
  unfolding step
  all_end [] n done permits sent e h = ap awaited (sym (append-nil done))
  all_end (c ∷ configs) n done permits sent e h =
      let r = answer client n c in
      let done' = done ++ (finished c r ∷ []) in
      let longer : suc n ≡ length done' = omega (arith, length-append done (finished c r ∷ [])) in
      let finish_all = λ (b : Batch). run client (one_by_one (suc n) configs) b in
      let outcome = λ (b : Batch). collected b.waiting b.tasks in
      ap (λ (b : Batch). outcome (finish_all (step client (finish n) b)))
        (ap (λ k. step client (start k) (with_tasks configs (done ++ (queued c ∷ [])) permits sent))
            e
          ∙ started c configs done permits sent h)
      ∙ ap
          (λ k. outcome (
            finish_all (
              step client (finish k)
                (with_tasks configs (done ++ (running c ∷ [])) (permits - 1) sent))))
          e
      ∙ ap (λ b. outcome (finish_all b)) (step-finished c configs done permits sent h)
      ∙ ap
          (λ k. outcome (
            finish_all (
              with_tasks configs (done ++ (finished c (answer client k c) ∷ [])) permits
                (sent ++ (answer client k c ∷ [])))))
          (sym e)
      ∙ all_end configs (suc n) done' permits (sent ++ (r ∷ [])) longer h
      ∙ ap awaited (append_assoc done (finished c r ∷ []) (ended (suc n) configs))

  awaited-ended :
      (n : ℕ) (configs : List RequestConfig) → awaited (ended n configs) ≡ some (answers n configs)
  unfolding awaited
  awaited-ended n [] = refl
  awaited-ended n (c ∷ configs) =
      ap (λ o. o >>= λ results. some (answer client n c ∷ results)) (awaited-ended (suc n) configs)

  -- With at least one permit a batch returns every request's answer, in the order of the requests,
  -- when each request is dispatched, starts and ends before the next.
  pub send_batch_completes :
      (concurrency : ℕ) (configs : List RequestConfig)
      → 1 ≤ concurrency
      → send_batch client concurrency configs (one_by_one 0 configs) ≡ some (answers 0 configs)
  send_batch_completes concurrency configs h =
      all_end configs 0 [] concurrency [] refl h ∙ awaited-ended 0 configs

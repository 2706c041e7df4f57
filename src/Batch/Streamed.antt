-- ===== src/Batch/Streamed.antt =====
-- `send_batch_stream` of src/batch.rs delivers the answers of the requests that have ended, in some
-- order.
use blasthttp.Common.{
  ℕ, zero, suc, ◌≡◌, inl, inr, refl, sym, ap, ◌∙◌, Bool-cases, leb, Option, none, some, some_inj,
  List, [], ◌∷◌, ◌++◌, map, get_elem?, set, append-nil, append_assoc, All, ◌-◌,
}
use mathlib.Core.Path.{subst}
use mathlib.Core.List.{Perm, perm_middle}
use mathlib.Core.List.Perm
use blasthttp.Common.Bytes.{Bytes}
use blasthttp.Common.Result.{Result}
use blasthttp.Batch.Completes.{answers}
use blasthttp.Batch.Engine.{
  BatchResult, Task, queued, running, finished, panicked, Batch, batch_of, Event, dispatch, start,
  finish, panic, finish_step, panic_step, dispatch_running, spawn, answer, stream_step,
  send_batch_stream,
}
use blasthttp.Batch.Sound.{config_of, Answered, Sound, finish_step-Sound, panic_step-Sound, spawned}
use blasthttp.Client.Error.{ClientError}
use blasthttp.Client.Redirect.{Response}
use blasthttp.Config.Request.{RequestConfig}

abbrev pub outcome_of : Task → List BatchResult
outcome_of (finished config result) = result ∷ []
outcome_of _ = []

abbrev pub outcomes : List Task → List BatchResult
outcomes [] = []
outcomes (t ∷ tasks) = outcome_of t ++ outcomes tasks

-- A task that ends without a result, and one that ends with it.
outcomes_panicked :
    (tasks : List Task) (i : ℕ) (c : RequestConfig) (text : Bytes)
    → get_elem? tasks i ≡ some (running c)
    → outcomes (set tasks i (panicked c text)) ≡ outcomes tasks
outcomes_panicked [] i c text h = absurd cc
outcomes_panicked (x ∷ tasks) zero c text h =
    ap (λ t. outcome_of t ++ outcomes tasks) (sym (some_inj h))
outcomes_panicked (x ∷ tasks) (suc i) c text h =
    ap (λ l. outcome_of x ++ l) (outcomes_panicked tasks i c text h)

outcomes_finished :
    (tasks : List Task) (i : ℕ) (c : RequestConfig) (r : BatchResult)
    → get_elem? tasks i ≡ some (running c)
    → Perm (outcomes (set tasks i (finished c r))) (r ∷ outcomes tasks)
outcomes_finished [] i c r h = absurd cc
outcomes_finished (x ∷ tasks) zero c r h =
    subst (λ t. Perm (r ∷ outcomes tasks) (r ∷ (outcome_of t ++ outcomes tasks))) (sym (some_inj h))
      Perm.rfl
outcomes_finished (x ∷ tasks) (suc i) c r h =
    Perm.trans (Perm.append_left (outcome_of x) (outcomes_finished tasks i c r h))
      (perm_middle (outcome_of x) (outcomes tasks))

outcomes-append :
    (tasks : List Task) (t : Task) → outcomes (tasks ++ (t ∷ [])) ≡ outcomes tasks ++ outcome_of t
outcomes-append [] t = append-nil (outcome_of t)
outcomes-append (x ∷ tasks) t =
    ap (λ l. outcome_of x ++ l) (outcomes-append tasks t)
    ∙ sym (append_assoc (outcome_of x) (outcomes tasks) (outcome_of t))

-- What has been sent is what has ended.
abbrev Delivered : Batch → Type 0
Delivered b = Perm b.sent (outcomes b.tasks)

module _ (client : ℕ → RequestConfig → Result ClientError Response) where
  finish_step-Delivered :
      (i : ℕ) (o : Option Task) (b : Batch)
      → get_elem? b.tasks i ≡ o
      → Delivered b
      → Delivered (finish_step client i o b)
  finish_step-Delivered i none b at d = d
  finish_step-Delivered i (some (queued c)) b at d = d
  finish_step-Delivered i (some (finished c r)) b at d = d
  finish_step-Delivered i (some (panicked c t)) b at d = d
  finish_step-Delivered i (some (running c)) b at d =
      let r = answer client i c in
      Perm.trans (perm_middle b.sent []) (
        Perm.trans (subst (λ l. Perm (r ∷ l) (r ∷ b.sent)) (sym (append-nil b.sent)) Perm.rfl)
          (Perm.trans (Perm.cons r d) (Perm.symm (outcomes_finished b.tasks i c r at))))

  panic_step-Delivered :
      (i : ℕ) (text : Bytes) (o : Option Task) (b : Batch)
      → get_elem? b.tasks i ≡ o
      → Delivered b
      → Delivered (panic_step i text o b)
  panic_step-Delivered i text none b at d = d
  panic_step-Delivered i text (some (queued c)) b at d = d
  panic_step-Delivered i text (some (finished c r)) b at d = d
  panic_step-Delivered i text (some (panicked c t)) b at d = d
  panic_step-Delivered i text (some (running c)) b at d =
      subst (λ l. Perm l (outcomes (set b.tasks i (panicked c text)))) (sym (append-nil b.sent))
        (subst (Perm b.sent) (sym (outcomes_panicked b.tasks i c text at)) d)

  dispatch-Delivered :
      (waiting : List RequestConfig) (b : Batch)
      → Delivered b
      → Delivered (dispatch_running waiting b)
  dispatch-Delivered [] b d = d
  dispatch-Delivered (c ∷ rest) b d = elim (Bool-cases (leb 1 b.permits)) [
    | inl e ↦ rw e (
        subst (Perm b.sent)
          (sym (outcomes-append b.tasks (running c) ∙ append-nil (outcomes b.tasks))) d)
    | inr e ↦ rw e d
  ]

  dispatch-Sound :
      (configs waiting : List RequestConfig) (b : Batch)
      → b.waiting ≡ waiting
      → Sound client configs b
      → Sound client configs (dispatch_running waiting b)
  dispatch-Sound configs [] b w s = s
  dispatch-Sound configs (c ∷ rest) b w s = elim (Bool-cases (leb 1 b.permits)) [
    | inl e ↦ rw e (
        spawned client configs b (spawn (running c) rest (b.permits - 1) b) (running c) (λ k. tt) w
          refl s)
    | inr e ↦ rw e s
  ]

  -- The two together, over a run.
  abbrev Streams : List RequestConfig → Batch → Type 0
  Streams configs b = Sound client configs b × Delivered b

  stream_step-Streams :
      (configs : List RequestConfig) (e : Event) (b : Batch)
      → Streams configs b
      → Streams configs (stream_step client e b)
  unfolding stream_step
  stream_step-Streams configs dispatch b (s, d) =
      (dispatch-Sound configs b.waiting b refl s, dispatch-Delivered b.waiting b d)
  stream_step-Streams configs (start i) b s = s
  stream_step-Streams configs (finish i) b (s, d) =
      let o = get_elem? b.tasks i in
      (finish_step-Sound client configs i o b refl s, finish_step-Delivered i o b refl d)
  stream_step-Streams configs (panic i text) b (s, d) =
      let o = get_elem? b.tasks i in
      (panic_step-Sound client configs i text o b refl s, panic_step-Delivered i text o b refl d)

  run-Streams :
      (configs : List RequestConfig) (events : List Event) (b : Batch)
      → Streams configs b
      → Streams configs (send_batch_stream client events b)
  run-Streams configs [] b s = s
  run-Streams configs (e ∷ events) b s =
      run-Streams configs events (stream_step client e b) (stream_step-Streams configs e b s)

  -- A task that ended without a panic.
  abbrev pub IsFinished : Task → Type 0
  IsFinished (finished config result) = Unit
  IsFinished _ = ⊥

  outcomes-answers :
      (n : ℕ) (tasks : List Task)
      → All IsFinished tasks
      → Answered client n tasks
      → outcomes tasks ≡ answers client n (map config_of tasks)
  outcomes-answers n [] f a = refl
  outcomes-answers n (finished c r ∷ tasks) (f, fs) (e, a) =
      ap (λ x. x ∷ outcomes tasks) e
      ∙ ap (λ l. answer client n c ∷ l) (outcomes-answers (suc n) tasks fs a)
  outcomes-answers n (queued c ∷ tasks) (f, fs) a = absurd f
  outcomes-answers n (running c ∷ tasks) (f, fs) a = absurd f
  outcomes-answers n (panicked c t ∷ tasks) (f, fs) a = absurd f

  -- Whatever the order of steps, when nothing waits and every task has ended without a panic, the
  -- stream has delivered, in some order, the client's answer to each request under its URL.
  pub send_batch_stream-Perm :
      (concurrency : ℕ) (configs : List RequestConfig) (events : List Event)
      → (send_batch_stream client events (batch_of concurrency configs)).waiting ≡ []
      → All IsFinished (send_batch_stream client events (batch_of concurrency configs)).tasks
      → Perm
          (send_batch_stream client events (batch_of concurrency configs)).sent
          (answers client 0 configs)
  send_batch_stream-Perm concurrency configs events none_waits all_end =
      let b = send_batch_stream client events (batch_of concurrency configs) in
      let (s, d) =
        run-Streams configs events (batch_of concurrency configs)
          (record { whole = refl; answered = tt }, Perm.rfl) in
      let all : map config_of b.tasks ≡ configs =
        sym (append-nil (map config_of b.tasks))
        ∙ ap (λ l. map config_of b.tasks ++ l) (sym none_waits)
        ∙ s.whole in
      subst (Perm b.sent)
        (outcomes-answers 0 b.tasks all_end s.answered ∙ ap (answers client 0) all) d

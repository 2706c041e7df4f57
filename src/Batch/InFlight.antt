-- ===== src/Batch/InFlight.antt =====
-- A batch of src/batch.rs never has more requests under way than its concurrency.
use blasthttp.Common.{
  ℕ, zero, suc, ◌+◌, ◌≤◌, ◌≡◌, inl, inr, refl, ap, Bool-cases, leb, Option, none, some, some_inj,
  List, [], ◌∷◌, ◌++◌, get_elem?, set, arith,
}
use blasthttp.Common.Bytes.{Bytes}
use blasthttp.Common.Result.{Result}
use blasthttp.Batch.Engine.{
  Task, queued, running, finished, panicked, Batch, batch_of, Event, dispatch, start, finish, panic,
  start_step, finish_step, panic_step, dispatch_queued, dispatch_running, answer, step, run,
  stream_step, send_batch_stream,
}
use blasthttp.Client.Error.{ClientError}
use blasthttp.Client.Redirect.{Response}
use blasthttp.Config.Request.{RequestConfig}

abbrev pub flying : Task → ℕ
flying (running config) = 1
flying _ = 0

abbrev pub in_flight : List Task → ℕ
in_flight [] = 0
in_flight (t ∷ tasks) = flying t + in_flight tasks

in_flight-set :
    (tasks : List Task) (i : ℕ) (t t' : Task)
    → get_elem? tasks i ≡ some t
    → in_flight (set tasks i t') + flying t ≡ in_flight tasks + flying t'
in_flight-set [] i t t' h = absurd cc
in_flight-set (x ∷ tasks) zero t t' h = omega (arith, ap flying (some_inj h))
in_flight-set (x ∷ tasks) (suc i) t t' h = omega (arith, in_flight-set tasks i t t' h)

in_flight-append :
    (tasks : List Task) (t : Task) → in_flight (tasks ++ (t ∷ [])) ≡ in_flight tasks + flying t
in_flight-append [] t = omega arith
in_flight-append (x ∷ tasks) t = omega (arith, in_flight-append tasks t)

-- Every permit is free or with a request under way.
abbrev Accounted : ℕ → Batch → Type 0
Accounted concurrency b = in_flight b.tasks + b.permits ≡ concurrency

module _ (n : ℕ) where
  start_step-Accounted :
      (i : ℕ) (o : Option Task) (b : Batch)
      → get_elem? b.tasks i ≡ o
      → Accounted n b
      → Accounted n (start_step i o b)
  start_step-Accounted i none b at a = a
  start_step-Accounted i (some (running c)) b at a = a
  start_step-Accounted i (some (finished c r)) b at a = a
  start_step-Accounted i (some (panicked c t)) b at a = a
  start_step-Accounted i (some (queued c)) b at a = elim (Bool-cases (leb 1 b.permits)) [
    | inl e ↦ let one = in_flight-set b.tasks i (queued c) (running c) at in rw e (ground arith)
    | inr e ↦ rw e a
  ]

  panic_step-Accounted :
      (i : ℕ) (text : Bytes) (o : Option Task) (b : Batch)
      → get_elem? b.tasks i ≡ o
      → Accounted n b
      → Accounted n (panic_step i text o b)
  panic_step-Accounted i text none b at a = a
  panic_step-Accounted i text (some (queued c)) b at a = a
  panic_step-Accounted i text (some (finished c r)) b at a = a
  panic_step-Accounted i text (some (panicked c t)) b at a = a
  panic_step-Accounted i text (some (running c)) b at a =
      omega (arith, in_flight-set b.tasks i (running c) (panicked c text) at)

  queued-Accounted :
      (waiting : List RequestConfig) (b : Batch)
      → Accounted n b
      → Accounted n (dispatch_queued waiting b)
  queued-Accounted [] b a = a
  queued-Accounted (c ∷ rest) b a = omega (arith, in_flight-append b.tasks (queued c))

  running-Accounted :
      (waiting : List RequestConfig) (b : Batch)
      → Accounted n b
      → Accounted n (dispatch_running waiting b)
  running-Accounted [] b a = a
  running-Accounted (c ∷ rest) b a = elim (Bool-cases (leb 1 b.permits)) [
    | inl e ↦ let one = in_flight-append b.tasks (running c) in rw e (ground arith)
    | inr e ↦ rw e a
  ]

  module _ (client : ℕ → RequestConfig → Result ClientError Response) where
    finish_step-Accounted :
        (i : ℕ) (o : Option Task) (b : Batch)
        → get_elem? b.tasks i ≡ o
        → Accounted n b
        → Accounted n (finish_step client i o b)
    finish_step-Accounted i none b at a = a
    finish_step-Accounted i (some (queued c)) b at a = a
    finish_step-Accounted i (some (finished c r)) b at a = a
    finish_step-Accounted i (some (panicked c t)) b at a = a
    finish_step-Accounted i (some (running c)) b at a =
        omega (arith, in_flight-set b.tasks i (running c) (finished c (answer client i c)) at)

    step-Accounted : (e : Event) (b : Batch) → Accounted n b → Accounted n (step client e b)
    unfolding step
    step-Accounted dispatch b a = queued-Accounted b.waiting b a
    step-Accounted (start i) b a = start_step-Accounted i (get_elem? b.tasks i) b refl a
    step-Accounted (finish i) b a = finish_step-Accounted i (get_elem? b.tasks i) b refl a
    step-Accounted (panic i text) b a = panic_step-Accounted i text (get_elem? b.tasks i) b refl a

    stream_step-Accounted :
        (e : Event) (b : Batch) → Accounted n b → Accounted n (stream_step client e b)
    unfolding stream_step
    stream_step-Accounted dispatch b a = running-Accounted b.waiting b a
    stream_step-Accounted (start i) b a = a
    stream_step-Accounted (finish i) b a = finish_step-Accounted i (get_elem? b.tasks i) b refl a
    stream_step-Accounted (panic i text) b a =
        panic_step-Accounted i text (get_elem? b.tasks i) b refl a

    run-Accounted :
        (events : List Event) (b : Batch) → Accounted n b → Accounted n (run client events b)
    run-Accounted [] b a = a
    run-Accounted (e ∷ events) b a = run-Accounted events (step client e b) (step-Accounted e b a)

    stream-Accounted :
        (events : List Event) (b : Batch)
        → Accounted n b
        → Accounted n (send_batch_stream client events b)
    stream-Accounted [] b a = a
    stream-Accounted (e ∷ events) b a =
        stream-Accounted events (stream_step client e b) (stream_step-Accounted e b a)

-- Whatever the order of steps, in a batch and in a stream of results the requests under way and the
-- free permits together are the concurrency, so no more requests than that are under way at once.
pub in_flight_bounded :
    (client : ℕ → RequestConfig → Result ClientError Response) (concurrency : ℕ)
    (configs : List RequestConfig) (events : List Event)
    → (let b = run client events (batch_of concurrency configs) in
        let s = send_batch_stream client events (batch_of concurrency configs) in
        (in_flight b.tasks + b.permits ≡ concurrency)
        × (in_flight s.tasks + s.permits ≡ concurrency)
        × (in_flight b.tasks ≤ concurrency)
        × (in_flight s.tasks ≤ concurrency))
in_flight_bounded client concurrency configs events =
    let b = batch_of concurrency configs in
    let start_sum : 0 + concurrency ≡ concurrency = omega arith in
    let one = run-Accounted concurrency client events b start_sum in
    let two = stream-Accounted concurrency client events b start_sum in
    (one, two, omega arith, omega arith)

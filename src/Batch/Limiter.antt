-- ===== src/Batch/Limiter.antt =====
-- `RateLimiter::acquire` of src/batch.rs, as the steps of workers that race for the cursor. A worker
-- loads the cursor, reads the clock, and tries to exchange the cursor; between two of its steps any
-- other worker may step and time may pass.
use blasthttp.Common.{
  ℕ, ◌+◌, ◌-◌, ◌^◌, min, Bool, if◌then◌else◌, leb, ◌==◌, List, [], ◌∷◌, Option, some, get_elem?,
  set,
}

-- What a worker holds at its place in `acquire`. A granted worker has left the loop.
pub data Worker : Type 0 where
  ready : Worker
  loaded : (current : ℕ) → Worker
  clocked : (current now_ns : ℕ) → Worker
  granted : (slot_ns : ℕ) → Worker

-- `elapsed` is the clock of the limiter, `slots` the slots granted so far, the latest first.
pub record Limiter : Type 0 where
  pub interval_ns : ℕ
  pub next_ns : ℕ
  pub elapsed : ℕ
  pub workers : List Worker
  pub slots : List ℕ

abbrev pub idle : ℕ → List Worker → Limiter
idle interval_ns workers = record {
  interval_ns = interval_ns;
  next_ns = 0;
  elapsed = 0;
  workers = workers;
  slots = [];
}

abbrev pub u64_max : ℕ
u64_max = 2 ^ 64 - 1

abbrev pub saturating_add : ℕ → ℕ → ℕ
saturating_add a b = min (a + b) u64_max

abbrev pub max : ℕ → ℕ → ℕ
max a b = if leb a b then b else a

-- A weak exchange may fail although the cursor is the expected one.
pub data Event : Type 0 where
  tick : (nanoseconds : ℕ) → Event
  load : (worker : ℕ) → Event
  read_clock : (worker : ℕ) → Event
  exchange : (worker : ℕ) (spurious : Bool) → Event

abbrev pub with_worker : ℕ → Worker → Limiter → Limiter
with_worker i w s = record {
  interval_ns = s.interval_ns;
  next_ns = s.next_ns;
  elapsed = s.elapsed;
  workers = set s.workers i w;
  slots = s.slots;
}

-- The exchange has put the next slot in the cursor: the loop ends with this one.
abbrev pub grant : ℕ → ℕ → Limiter → Limiter
grant i base s = record {
  interval_ns = s.interval_ns;
  next_ns = saturating_add base s.interval_ns;
  elapsed = s.elapsed;
  workers = set s.workers i (granted base);
  slots = base ∷ s.slots;
}

abbrev pub load_step : ℕ → Option Worker → Limiter → Limiter
load_step i (some ready) s = with_worker i (loaded s.next_ns) s
load_step i _ s = s

abbrev pub clock_step : ℕ → Option Worker → Limiter → Limiter
clock_step i (some (loaded current)) s = with_worker i (clocked current s.elapsed) s
clock_step i _ s = s

abbrev pub exchange_step : ℕ → Bool → Option Worker → Limiter → Limiter
exchange_step i spurious (some (clocked current now_ns)) s =
    if spurious
    then with_worker i ready s
    else if s.next_ns == current
    then grant i (max current now_ns) s
    else with_worker i ready s
exchange_step i spurious _ s = s

-- A step of a worker that is not at that place changes nothing.
unfoldable pub step : Event → Limiter → Limiter
step (tick n) s = record {
  interval_ns = s.interval_ns;
  next_ns = s.next_ns;
  elapsed = s.elapsed + n;
  workers = s.workers;
  slots = s.slots;
}
step (load i) s = load_step i (get_elem? s.workers i) s
step (read_clock i) s = clock_step i (get_elem? s.workers i) s
step (exchange i spurious) s = exchange_step i spurious (get_elem? s.workers i) s

unfoldable pub run : List Event → Limiter → Limiter
run [] s = s
run (e ∷ es) s = run es (step e s)

-- What a granted worker sleeps, in nanoseconds; a sleep below a millisecond is skipped.
unfoldable pub sleep_ns : ℕ → ℕ → ℕ
sleep_ns slot_ns now_ns =
    if leb slot_ns now_ns then 0 else if leb 1000000 (slot_ns - now_ns) then slot_ns - now_ns else 0

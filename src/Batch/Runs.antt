-- ===== src/Batch/Runs.antt =====
-- Two workers race for the cursor of one limiter.
use blasthttp.Common.{
  ◌+◌, ◌*◌, ◌≤◌, ◌<◌, ◌≡◌, ◌⊎◌, refl, false, some, List, [], ◌∷◌, length, get_elem?, arith,
}
use blasthttp.Batch.Limiter.{
  Worker, ready, clocked, granted, idle, Event, tick, load, read_clock, exchange, step, run,
}
use blasthttp.Batch.Progress.{exchange_progress}
use blasthttp.Batch.Spacing.{count_inside, run-slots_window}

abbrev two : List Worker
two = ready ∷ ready ∷ []

-- The second worker takes the slot between the first one's load and its exchange.
abbrev race : List Event
race =
    tick 5
    ∷ load 0
    ∷ load 1
    ∷ read_clock 0
    ∷ read_clock 1
    ∷ exchange 1 false
    ∷ exchange 0 false
    ∷ load 0
    ∷ read_clock 0
    ∷ exchange 0 false
    ∷ []

raced : (run race (idle 10 two)).slots ≡ 15 ∷ 5 ∷ []
unfolding run step
raced = refl

run-slots_window_example : 0 + count_inside 0 20 (run race (idle 10 two)).slots * 10 ≤ 20 + 10
run-slots_window_example = run-slots_window 10 two race 0 20 (omega arith) (omega arith)

abbrev others : List Event
others = load 0 ∷ load 1 ∷ read_clock 0 ∷ read_clock 1 ∷ exchange 1 false ∷ []

waiting : get_elem? (run others (idle 10 two)).workers 0 ≡ some (clocked 0 0)
unfolding run step
waiting = refl

exchange_progress_example :
    (get_elem? (step (exchange 0 false) (run others (idle 10 two))).workers 0 ≡ some (granted 0))
    ⊎ (0 < length (run others (idle 10 two)).slots)
exchange_progress_example = exchange_progress 0 0 (idle 10 two) others waiting

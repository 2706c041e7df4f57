-- ===== src/Batch/Spacing.antt =====
-- The slots that the rate limiter of src/batch.rs grants, whatever the interleaving of its workers.
use blasthttp.Common.{
  ℕ, ◌+◌, ◌*◌, ◌≤◌, ◌<◌, ◌≡◌, ◌⊎◌, inl, inr, refl, Bool, true, false, ◌&&◌, both_true, Bool-cases,
  leb, leb→le, ◌==◌, ==_iff, List, [], ◌∷◌, length, All, Option, none, some, get_elem?, arith,
}
use blasthttp.Common.Search.{filter, All-map}
use mathlib.Core.Path.{subst}
use blasthttp.Batch.Limiter.{
  Worker, ready, loaded, clocked, granted, Limiter, idle, Event, tick, load, read_clock, exchange,
  step, run, load_step, clock_step, exchange_step, grant, saturating_add, max, u64_max, sleep_ns,
}

-- Every slot is an interval after each one granted before it, or at the end of the counter.
abbrev pub IsSpaced : ℕ → List ℕ → Type 0
IsSpaced interval [] = Unit
IsSpaced interval (s ∷ older) =
    All (λ x. saturating_add x interval ≤ s) older × IsSpaced interval older

-- The cursor is an interval after every slot.
record IsPaced (interval : ℕ) (s : Limiter) : Type 0 where
  unchanged : s.interval_ns ≡ interval
  spaced : IsSpaced s.interval_ns s.slots
  ahead : All (λ x. saturating_add x s.interval_ns ≤ s.next_ns) s.slots

grant-IsPaced :
    {I : ℕ} (i now_ns : ℕ) (s : Limiter)
    → IsPaced I s
    → IsPaced I (grant i (max s.next_ns now_ns) s)
grant-IsPaced i now_ns s p =
    let base = max s.next_ns now_ns in
    let up : s.next_ns ≤ base = ground arith in
    let further =
      All-map _ (λ x. saturating_add x s.interval_ns ≤ base)
        (λ x (h : saturating_add x s.interval_ns ≤ s.next_ns). omega arith) s.slots p.ahead in
    record {
      unchanged = p.unchanged;
      spaced = (further, p.spaced);
      ahead = (
        omega arith,
        All-map _ _ (λ x (h : saturating_add x s.interval_ns ≤ base). omega arith) s.slots further,
      );
    }

exchange_step-IsPaced :
    {I : ℕ} (i : ℕ) (spurious : Bool) (w : Option Worker) (s : Limiter)
    → IsPaced I s
    → IsPaced I (exchange_step i spurious w s)
exchange_step-IsPaced i spurious none s p = p
exchange_step-IsPaced i spurious (some ready) s p = p
exchange_step-IsPaced i spurious (some (loaded c)) s p = p
exchange_step-IsPaced i spurious (some (granted c)) s p = p
exchange_step-IsPaced i true (some (clocked current now_ns)) s p = record {
  unchanged = p.unchanged;
  spaced = p.spaced;
  ahead = p.ahead;
}
exchange_step-IsPaced {I = I} i false (some (clocked current now_ns)) s p =
    elim (Bool-cases (s.next_ns == current)) [
      | inl e ↦
          let it = (==_iff s.next_ns current).0 e in
          rw e (subst (λ c. IsPaced I (grant i (max c now_ns) s)) it (grant-IsPaced i now_ns s p))
      | inr e ↦ rw e record { unchanged = p.unchanged; spaced = p.spaced; ahead = p.ahead }
    ]

load_step-IsPaced :
    {I : ℕ} (i : ℕ) (w : Option Worker) (s : Limiter) → IsPaced I s → IsPaced I (load_step i w s)
load_step-IsPaced i none s p = p
load_step-IsPaced i (some ready) s p = record {
  unchanged = p.unchanged;
  spaced = p.spaced;
  ahead = p.ahead;
}
load_step-IsPaced i (some (loaded c)) s p = p
load_step-IsPaced i (some (clocked c n)) s p = p
load_step-IsPaced i (some (granted c)) s p = p

clock_step-IsPaced :
    {I : ℕ} (i : ℕ) (w : Option Worker) (s : Limiter) → IsPaced I s → IsPaced I (clock_step i w s)
clock_step-IsPaced i none s p = p
clock_step-IsPaced i (some ready) s p = p
clock_step-IsPaced i (some (loaded c)) s p = record {
  unchanged = p.unchanged;
  spaced = p.spaced;
  ahead = p.ahead;
}
clock_step-IsPaced i (some (clocked c n)) s p = p
clock_step-IsPaced i (some (granted c)) s p = p

run-IsPaced : {I : ℕ} (es : List Event) (s : Limiter) → IsPaced I s → IsPaced I (run es s)
unfolding run step
run-IsPaced [] s p = p
run-IsPaced (tick n ∷ es) s p =
    run-IsPaced es _ (record { unchanged = p.unchanged; spaced = p.spaced; ahead = p.ahead })
run-IsPaced (load i ∷ es) s p = run-IsPaced es _ (load_step-IsPaced i (get_elem? s.workers i) s p)
run-IsPaced (read_clock i ∷ es) s p =
    run-IsPaced es _ (clock_step-IsPaced i (get_elem? s.workers i) s p)
run-IsPaced (exchange i spurious ∷ es) s p =
    run-IsPaced es _ (exchange_step-IsPaced i spurious (get_elem? s.workers i) s p)

-- Whether a slot lies in a window of time.
abbrev pub inside : ℕ → ℕ → ℕ → Bool
inside a b x = leb a x && leb x b

abbrev pub count_inside : ℕ → ℕ → List ℕ → ℕ
count_inside a b slots = length (filter (inside a b) slots)

count_bound :
    (a b interval end : ℕ) (slots : List ℕ)
    → b < u64_max
    → All (λ x. (inside a b x ≡ false) ⊎ (x + interval ≤ end)) slots
    → IsSpaced interval slots
    → (count_inside a b slots ≡ 0) ⊎ (a + count_inside a b slots * interval ≤ end)
unfolding filter
count_bound a b interval end [] small reach spaced = inl refl
count_bound a b interval end (s ∷ older) small reach spaced = elim (Bool-cases (inside a b s)) [
  | inr e ↦ rw e (count_bound a b interval end older small reach.1 spaced.1)
  | inl e ↦
      let (above, below) = both_true (leb a s) (leb s b) e in
      let lo : a ≤ s = leb→le _ _ above in
      let hi : s ≤ b = leb→le _ _ below in
      let last : s + interval ≤ end = elim reach.0 [ inl outside ↦ absurd cc | inr le ↦ le ] in
      let before : All (λ x. (inside a b x ≡ false) ⊎ (x + interval ≤ s)) older =
        All-map _ _ (λ x (h : saturating_add x interval ≤ s). inr (omega arith)) older spaced.0 in
      rw e (
        inr (elim (count_bound a b interval s older small before spaced.1) [
          | inl none_ ↦ rw none_ (omega arith)
          | inr le ↦ omega (arith, le)
        ]))
]

All-within :
    (a b interval : ℕ) (slots : List ℕ)
    → All (λ x. (inside a b x ≡ false) ⊎ (x + interval ≤ b + interval)) slots
All-within a b interval [] = tt
All-within a b interval (x ∷ slots) = (
  elim (Bool-cases (inside a b x)) [
    | inr e ↦ inl e
    | inl e ↦
        let (_, below) = both_true (leb a x) (leb x b) e in
        let hi = leb→le x b below in inr (omega arith)
  ],
  All-within a b interval slots,
)

-- However the workers interleave, in any window of time from a to b, the number of slots that they
-- were granted in it, times the interval, is at most b - a plus one interval, as long as the window
-- ends before the greatest value of the counter.
pub run-slots_window :
    (interval_ns : ℕ) (workers : List Worker) (events : List Event) (a b : ℕ)
    → a ≤ b
    → b < u64_max
    → a + count_inside a b (run events (idle interval_ns workers)).slots * interval_ns
      ≤ b + interval_ns
run-slots_window interval_ns workers events a b le small =
    let end = run events (idle interval_ns workers) in
    let paced =
      run-IsPaced events (idle interval_ns workers)
        (record { unchanged = refl; spaced = tt; ahead = tt }) in
    let spaced : IsSpaced interval_ns end.slots =
      subst (λ n. IsSpaced n end.slots) paced.unchanged paced.spaced in
    elim (count_bound a b interval_ns (b + interval_ns) end.slots small
      (All-within a b interval_ns end.slots) spaced) [
        | inl none_ ↦ rw none_ (omega arith)
        | inr bound ↦ bound
      ]

-- A worker never starts later than at its slot or at once, and less than a millisecond before it.
sleep_ns_lem :
    (slot_ns now_ns : ℕ)
    → (now_ns + sleep_ns slot_ns now_ns ≤ max slot_ns now_ns)
      × (slot_ns ≤ now_ns + sleep_ns slot_ns now_ns + 999999)
unfolding sleep_ns
sleep_ns_lem slot_ns now_ns = ground arith

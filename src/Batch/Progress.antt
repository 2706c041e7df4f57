-- ===== src/Batch/Progress.antt =====
-- The loop of `acquire` of src/batch.rs makes progress: a worker alone is granted a slot at once, and
-- one that loses a race has lost it to a grant.
use blasthttp.Common.{
  ℕ, zero, suc, ◌≤◌, ◌<◌, ◌≡◌, ◌⊎◌, inl, inr, refl, ◌∙◌, Bool, true, false, Bool-cases, ◌==◌,
  ==_iff, List, [], ◌∷◌, length, Option, none, some, get_elem?, set, arith,
}
use blasthttp.Batch.Limiter.{
  Worker, ready, loaded, clocked, granted, Limiter, Event, tick, load, read_clock, exchange, step,
  run, load_step, clock_step, exchange_step, with_worker, saturating_add, max,
}

get_elem?-set :
    {A : Type 0} (xs : List A) (i : ℕ) (v w : A)
    → get_elem? xs i ≡ some w
    → get_elem? (set xs i v) i ≡ some v
get_elem?-set [] i v w h = absurd cc
get_elem?-set (x ∷ xs) zero v w h = refl
get_elem?-set (x ∷ xs) (suc i) v w h = get_elem?-set xs i v w h

-- Alone, a worker at the top of the loop leaves it after one round, with the later of the cursor and
-- the clock as its slot, and the cursor is an interval behind that slot.
acquire_alone :
    (i : ℕ) (s : Limiter)
    → get_elem? s.workers i ≡ some ready
    → let end = run (load i ∷ read_clock i ∷ exchange i false ∷ []) s in
      (get_elem? end.workers i ≡ some (granted (max s.next_ns s.elapsed)))
      × (end.slots ≡ max s.next_ns s.elapsed ∷ s.slots)
      × (end.next_ns ≡ saturating_add (max s.next_ns s.elapsed) s.interval_ns)
unfolding run step
acquire_alone i s h =
    let s1 = with_worker i (loaded s.next_ns) s in
    let e1 = get_elem?-set s.workers i (loaded s.next_ns) ready h in
    let e2 = get_elem?-set s1.workers i (clocked s.next_ns s.elapsed) (loaded s.next_ns) e1 in
    let e3 =
      get_elem?-set (set s1.workers i (clocked s.next_ns s.elapsed)) i
        (granted (max s.next_ns s.elapsed)) (clocked s.next_ns s.elapsed) e2 in
    let same : (s.next_ns == s.next_ns) ≡ true = (==_iff s.next_ns s.next_ns).1 refl in
    rw (h, e1, e2, same) (e3, refl, refl)

-- Between two states, either the cursor has stayed or a slot was granted.
record Moved (s t : Limiter) : Type 0 where
  more : length s.slots ≤ length t.slots
  cursor : (t.next_ns ≡ s.next_ns) ⊎ (length s.slots < length t.slots)

stays : (s : Limiter) → Moved s s
stays s = record { more = omega arith; cursor = inl refl }

Moved-trans : {s t u : Limiter} → Moved s t → Moved t u → Moved s u
Moved-trans p q = record {
  more = omega (arith, p.more, q.more);
  cursor = elim p.cursor [
    | inr more ↦ inr (omega (arith, more, q.more))
    | inl e ↦ elim q.cursor [ inr more ↦ inr (omega (arith, more, p.more)) | inl e' ↦ inl (e' ∙ e) ]
  ];
}

exchange_step-Moved :
    (i : ℕ) (spurious : Bool) (w : Option Worker) (s : Limiter)
    → Moved s (exchange_step i spurious w s)
exchange_step-Moved i spurious none s = stays s
exchange_step-Moved i spurious (some ready) s = stays s
exchange_step-Moved i spurious (some (loaded c)) s = stays s
exchange_step-Moved i spurious (some (granted c)) s = stays s
exchange_step-Moved i true (some (clocked c n)) s = record { more = omega arith; cursor = inl refl }
exchange_step-Moved i false (some (clocked c n)) s = elim (Bool-cases (s.next_ns == c)) [
  | inl e ↦ rw e record { more = omega arith; cursor = inr (omega arith) }
  | inr e ↦ rw e record { more = omega arith; cursor = inl refl }
]

load_step-Moved : (i : ℕ) (w : Option Worker) (s : Limiter) → Moved s (load_step i w s)
load_step-Moved i none s = stays s
load_step-Moved i (some ready) s = record { more = omega arith; cursor = inl refl }
load_step-Moved i (some (loaded c)) s = stays s
load_step-Moved i (some (clocked c n)) s = stays s
load_step-Moved i (some (granted c)) s = stays s

clock_step-Moved : (i : ℕ) (w : Option Worker) (s : Limiter) → Moved s (clock_step i w s)
clock_step-Moved i none s = stays s
clock_step-Moved i (some ready) s = stays s
clock_step-Moved i (some (loaded c)) s = record { more = omega arith; cursor = inl refl }
clock_step-Moved i (some (clocked c n)) s = stays s
clock_step-Moved i (some (granted c)) s = stays s

run-Moved : (es : List Event) (s : Limiter) → Moved s (run es s)
unfolding run step
run-Moved [] s = stays s
run-Moved (tick n ∷ es) s =
    Moved-trans {t = step (tick n) s} (record { more = omega arith; cursor = inl refl })
      (run-Moved es _)
run-Moved (load i ∷ es) s =
    Moved-trans (load_step-Moved i (get_elem? s.workers i) s) (run-Moved es _)
run-Moved (read_clock i ∷ es) s =
    Moved-trans (clock_step-Moved i (get_elem? s.workers i) s) (run-Moved es _)
run-Moved (exchange i spurious ∷ es) s =
    Moved-trans (exchange_step-Moved i spurious (get_elem? s.workers i) s) (run-Moved es _)

-- A worker that has loaded the cursor and, after any steps of the others, tries an exchange that
-- does not fail spuriously, is granted a slot, unless another worker was granted one meanwhile.
pub exchange_progress :
    (i now_ns : ℕ) (s : Limiter) (events : List Event)
    → get_elem? (run events s).workers i ≡ some (clocked s.next_ns now_ns)
    → (get_elem? (step (exchange i false) (run events s)).workers i
        ≡ some (granted (max s.next_ns now_ns)))
      ⊎ (length s.slots < length (run events s).slots)
unfolding step
exchange_progress i now_ns s events h = elim (run-Moved events s).cursor [
  | inr more ↦ inr more
  | inl stayed ↦
      let same : ((run events s).next_ns == s.next_ns) ≡ true = (==_iff _ _).1 stayed in
      inl (rw (h, same) (get_elem?-set (run events s).workers i _ _ h))
]

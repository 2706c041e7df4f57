-- ===== src/Batch/Sound.antt =====
-- Every step of a batch of src/batch.rs keeps its requests in order, with the answers of those that
-- have finished.
use blasthttp.Common.{
  ℕ, zero, suc, ◌+◌, ◌-◌, ◌≡◌, inl, inr, refl, sym, ap, ◌∙◌, Bool-cases, leb, Option, none, some,
  some_inj, List, [], ◌∷◌, ◌++◌, map, get_elem?, set, append_assoc, arith,
}
use blasthttp.Common.Bytes.{Bytes}
use blasthttp.Common.Result.{Result}
use mathlib.Core.Path.{subst}
use blasthttp.Batch.Engine.{
  Task, queued, running, finished, panicked, Batch, start_step, panic_step, answer, finish_step,
}
use blasthttp.Client.Error.{ClientError}
use blasthttp.Client.Redirect.{Response}
use blasthttp.Config.Request.{RequestConfig}

abbrev pub config_of : Task → RequestConfig
config_of (queued config) = config
config_of (running config) = config
config_of (finished config result) = config
config_of (panicked config text) = config

-- A task replaced by one with the same request.
map-set :
    (tasks : List Task) (i : ℕ) (t t' : Task)
    → get_elem? tasks i ≡ some t
    → config_of t' ≡ config_of t
    → map config_of (set tasks i t') ≡ map config_of tasks
map-set [] i t t' h e = absurd cc
map-set (x ∷ tasks) zero t t' h e =
    ap (λ c. c ∷ map config_of tasks) (e ∙ ap config_of (sym (some_inj h)))
map-set (x ∷ tasks) (suc i) t t' h e = ap (λ l. config_of x ∷ l) (map-set tasks i t t' h e)

map-append : (xs ys : List Task) → map config_of (xs ++ ys) ≡ map config_of xs ++ map config_of ys
map-append [] ys = refl
map-append (x ∷ xs) ys = ap (λ l. config_of x ∷ l) (map-append xs ys)

module _ (client : ℕ → RequestConfig → Result ClientError Response) where
  -- A task that has finished has the client's answer.
  abbrev pub Fits : ℕ → Task → Type 0
  Fits n (queued config) = Unit
  Fits n (running config) = Unit
  Fits n (finished config result) = result ≡ answer client n config
  Fits n (panicked config text) = Unit

  abbrev pub Answered : ℕ → List Task → Type 0
  Answered n [] = Unit
  Answered n (t ∷ tasks) = Fits n t × Answered (suc n) tasks

  set-Answered :
      (n : ℕ) (tasks : List Task) (i : ℕ) (t : Task)
      → Fits (n + i) t
      → Answered n tasks
      → Answered n (set tasks i t)
  set-Answered n [] i t fits h = tt
  set-Answered n (x ∷ tasks) zero t fits h =
      let e : n + 0 ≡ n = omega arith in (subst (λ k. Fits k t) e fits, h.1)
  set-Answered n (x ∷ tasks) (suc i) t fits h =
      let e : n + suc i ≡ suc n + i = omega arith in
      (h.0, set-Answered (suc n) tasks i t (subst (λ k. Fits k t) e fits) h.1)

  append-Answered :
      (n : ℕ) (tasks : List Task) (t : Task)
      → ((k : ℕ) → Fits k t)
      → Answered n tasks
      → Answered n (tasks ++ (t ∷ []))
  append-Answered n [] t fits h = (fits n, tt)
  append-Answered n (x ∷ tasks) t fits h = (h.0, append-Answered (suc n) tasks t fits h.1)

  -- The requests are the tasks and what waits, and the finished tasks have their answers.
  pub record Sound (configs : List RequestConfig) (b : Batch) : Type 0 where
    pub whole : map config_of b.tasks ++ b.waiting ≡ configs
    pub answered : Answered 0 b.tasks

  -- One task has moved on.
  moved :
      (configs : List RequestConfig) (b b' : Batch) (i : ℕ) (t t' : Task)
      → get_elem? b.tasks i ≡ some t
      → config_of t' ≡ config_of t
      → Fits i t'
      → b'.tasks ≡ set b.tasks i t'
      → b'.waiting ≡ b.waiting
      → Sound configs b
      → Sound configs b'
  moved configs b b' i t t' at same fits e w s = record {
    whole =
        ap (λ l. map config_of l ++ b'.waiting) e
        ∙ ap (λ l. l ++ b'.waiting) (map-set b.tasks i t t' at same)
        ∙ ap (λ l. map config_of b.tasks ++ l) w
        ∙ s.whole;
    answered =
        let e0 : 0 + i ≡ i = omega arith in
        subst (Answered 0) (sym e)
          (set-Answered 0 b.tasks i t' (subst (λ k. Fits k t') (sym e0) fits) s.answered);
  }

  pub finish_step-Sound :
      (configs : List RequestConfig) (i : ℕ) (o : Option Task) (b : Batch)
      → get_elem? b.tasks i ≡ o
      → Sound configs b
      → Sound configs (finish_step client i o b)
  finish_step-Sound configs i none b at s = s
  finish_step-Sound configs i (some (queued c)) b at s = s
  finish_step-Sound configs i (some (finished c r)) b at s = s
  finish_step-Sound configs i (some (panicked c text)) b at s = s
  finish_step-Sound configs i (some (running c)) b at s =
      moved configs b (finish_step client i (some (running c)) b) i (running c)
        (finished c (answer client i c)) at refl refl refl refl s

  pub panic_step-Sound :
      (configs : List RequestConfig) (i : ℕ) (text : Bytes) (o : Option Task) (b : Batch)
      → get_elem? b.tasks i ≡ o
      → Sound configs b
      → Sound configs (panic_step i text o b)
  panic_step-Sound configs i text none b at s = s
  panic_step-Sound configs i text (some (queued c)) b at s = s
  panic_step-Sound configs i text (some (finished c r)) b at s = s
  panic_step-Sound configs i text (some (panicked c t)) b at s = s
  panic_step-Sound configs i text (some (running c)) b at s =
      moved configs b (panic_step i text (some (running c)) b) i (running c) (panicked c text) at
        refl tt refl refl s

  pub start_step-Sound :
      (configs : List RequestConfig) (i : ℕ) (o : Option Task) (b : Batch)
      → get_elem? b.tasks i ≡ o
      → Sound configs b
      → Sound configs (start_step i o b)
  start_step-Sound configs i none b at s = s
  start_step-Sound configs i (some (running c)) b at s = s
  start_step-Sound configs i (some (finished c r)) b at s = s
  start_step-Sound configs i (some (panicked c t)) b at s = s
  start_step-Sound configs i (some (queued c)) b at s = elim (Bool-cases (leb 1 b.permits)) [
    | inl e ↦ rw e (
        moved configs b
          record {
            waiting = b.waiting;
            tasks = set b.tasks i (running c);
            permits = b.permits - 1;
            sent = b.sent;
          }
          i (queued c) (running c) at refl tt refl refl s)
    | inr e ↦ rw e s
  ]

  -- One more task.
  pub spawned :
      (configs : List RequestConfig) (b b' : Batch) (t : Task)
      → ((k : ℕ) → Fits k t)
      → b.waiting ≡ config_of t ∷ b'.waiting
      → b'.tasks ≡ b.tasks ++ (t ∷ [])
      → Sound configs b
      → Sound configs b'
  spawned configs b b' t fits w e s = record {
    whole =
        ap (λ l. map config_of l ++ b'.waiting) e
        ∙ ap (λ l. l ++ b'.waiting) (map-append b.tasks (t ∷ []))
        ∙ append_assoc (map config_of b.tasks) (config_of t ∷ []) b'.waiting
        ∙ ap (λ l. map config_of b.tasks ++ l) (sym w)
        ∙ s.whole;
    answered = subst (Answered 0) (sym e) (append-Answered 0 b.tasks t fits s.answered);
  }

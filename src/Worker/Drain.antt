-- ===== src/Worker/Drain.antt =====
-- Stop drops no job, and it returns.
use go_blueprint.Prelude.{
  length, ◌<◌, ℕ, zero, suc, ◌+◌, ◌≡◌, inl, inr, none, some, Bool, List, [], ◌∷◌, ◌++◌, arith,
  Option-cases, if◌then◌else◌,
}
use mathlib.Core.Path.{refl, ap}
use go_blueprint.Prelude.{inl, inr}
use go_blueprint.Worker.Counts.{IsValid, run-new-IsValid}
use mathlib.Core.Path.{ap}
use go_blueprint.Worker.{
  new, run, Pool, Event, accepted, submits, arrives, takes, exits, closes, finishes, pick, submit,
  step,
}

-- How many jobs of a list pass a test.
abbrev pub count {ℓ} : {A : Type ℓ} → (A → Bool) → List A → ℕ
count test [] = 0
count test (x ∷ xs) = if test x then suc (count test xs) else count test xs

nil_of_length {ℓ} : {A : Type ℓ} (xs : List A) → length xs ≡ 0 → xs ≡ []
nil_of_length [] e = refl
nil_of_length (x ∷ xs) e = absurd (omega arith)

module _ {A : Type 0} (test : A → Bool) where
  pub count-append : (xs ys : List A) → count test (xs ++ ys) ≡ count test xs + count test ys
  count-append [] ys = omega arith
  count-append (x ∷ xs) ys = ground (arith, count-append xs ys)

  count-pick :
      (xs : List A) (i : ℕ) (y : A) (rest : List A)
      → pick xs i ≡ some (y, rest)
      → count test xs ≡ count test (y ∷ rest)
  unfolding pick
  count-pick [] i y rest e = ground arith
  count-pick (x ∷ xs) zero y rest e = ground arith
  count-pick (x ∷ xs) (suc i) y rest e = elim (Option-cases (pick xs i)) [
    | inl missing ↦ cc (rw (missing, pick) at e)
    | inr ((z, zs), found) ↦ ground (arith, count-pick xs i z zs)
  ]

-- The jobs that Submit accepts, and those that a worker finishes, in a step and in a schedule.
module _ {J : Type 0} where
  accepts : Pool J → Event J → List J
  accepts p (submits job) = elim (submit p job).1 [ accepted ↦ job ∷ [] | _ ↦ [] ]
  accepts p _ = []

  finished : Pool J → Event J → List J
  finished p (finishes i) = elim (pick p.running i) [ none ↦ [] | some (job, rest) ↦ job ∷ [] ]
  finished p _ = []

  abbrev pub held : Pool J → List J
  held p = p.queue ++ p.running

  pub accepted_jobs : Pool J → List (Event J) → List J
  unfolding accepts
  accepted_jobs p [] = []
  accepted_jobs p (e ∷ es) = elim (step p e) [
    | none ↦ accepted_jobs p es
    | some q ↦ accepts p e ++ accepted_jobs q es
  ]

  pub finished_jobs : Pool J → List (Event J) → List J
  unfolding finished
  finished_jobs p [] = []
  finished_jobs p (e ∷ es) = elim (step p e) [
    | none ↦ finished_jobs p es
    | some q ↦ finished p e ++ finished_jobs q es
  ]

module _ {J : Type 0} (test : J → Bool) where
  step_keeps_jobs :
      (p q : Pool J) (e : Event J)
      → step p e ≡ some q
      → count test (p.queue) + count test (p.running) + count test (accepts p e)
        ≡ count test (q.queue) + count test q.running + count test (finished p e)
  unfolding step accepts finished
  step_keeps_jobs p q (submits job) h = ground (arith, count-append test p.queue (job ∷ []))
  step_keeps_jobs p q arrives h = ground arith
  step_keeps_jobs p q takes h = ground arith
  step_keeps_jobs p q exits h = ground arith
  step_keeps_jobs p q closes h = ground arith
  step_keeps_jobs p q (finishes i) h = elim (Option-cases (pick p.running i)) [
    | inl missing ↦ ground arith
    | inr ((job, rest), found) ↦ ground (arith, count-pick test p.running i job rest)
  ]

  run_keeps_jobs :
      (p : Pool J) (es : List (Event J))
      → count test p.queue + count test p.running + count test (accepted_jobs p es)
        ≡ count test (run p es).queue
          + count test (run p es).running
          + count test (finished_jobs p es)
  unfolding run accepted_jobs finished_jobs
  run_keeps_jobs p [] = omega arith
  run_keeps_jobs p (e ∷ es) = elim (Option-cases (step p e)) [
    | inl off ↦ ground (arith, run_keeps_jobs p es)
    | inr (q, on) ↦ ground (
      arith,
      step_keeps_jobs p q e on,
      run_keeps_jobs q es,
      count-append test (accepts p e) (accepted_jobs q es),
      count-append test (finished p e) (finished_jobs q es),
    )
  ]

  -- Under every schedule: when all of at least one worker have returned, the jobs that Submit
  -- accepted and the jobs that ran are the same, as often: for every test on jobs, as many pass it.
  pub stopped_ran_all :
      (workers queue_size : ℕ) (es : List (Event J))
      → 0 < workers
      → (run (new workers queue_size) es).exited ≡ workers
      → count test (finished_jobs (new workers queue_size) es)
        ≡ count test (accepted_jobs (new workers queue_size) es)
  unfolding new
  stopped_ran_all workers queue_size es some_worker all_out = omega (
    arith,
    run_keeps_jobs (new workers queue_size) es,
    ap (count test) empty_queue,
    ap (count test) (nil_of_length _ none_running),
  )
    where
      v : IsValid workers (run (new workers queue_size) es)
      v = run-new-IsValid workers queue_size es

      empty_queue : (run (new workers queue_size) es).queue ≡ []
      empty_queue = v.drained (omega arith)

      none_running : length (run (new workers queue_size) es).running ≡ 0
      none_running = omega (arith, v.manned)

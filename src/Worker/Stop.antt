-- ===== src/Worker/Stop.antt =====
-- Pool.Stop returns, having run every job.
use go_blueprint.Prelude.{
  ◌∙◌, false, true, ltb, ◌≤◌, length, ◌*◌, ◌<◌, ℕ, zero, suc, ◌+◌, ◌≡◌, inl, inr, none, some, List,
  [], ◌∷◌, arith, Option-cases,
}
use mathlib.Core.Path.{refl, ap}
use go_blueprint.Prelude.{◌∙◌, inl, inr, Bool-cases, not_ltb}
use go_blueprint.Worker.Counts.{length-pick, IsValid, step-IsValid}
use mathlib.Core.Path.{ap}
use mathlib.Core.Logic.{◌≢◌}
use go_blueprint.Prelude.{◌∙◌, ◌==◌, ==_iff}
use go_blueprint.Worker.{
  close, stop, open_for_jobs, busy_event, wait, shut, next_event, Pool, Event, submits, arrives,
  takes, exits, closes, finishes, pick, step,
}

-- Steps left until all workers have returned.
abbrev pub remaining {ℓ} : {J : Type ℓ} → Pool J → ℕ
remaining p = 3 * length p.queue + 3 * length p.running + 2 * p.between + p.waiting

-- The jobs done and the jobs to do.
abbrev work {ℓ} : {J : Type ℓ} → Pool J → ℕ
work p = p.executed + length p.queue + length p.running

module _ {J : Type 0} where
  -- Events of the workers: all but a send and the close.
  abbrev IsWorkers : Event J → Type 0
  IsWorkers (submits job) = ⊥
  IsWorkers closes = ⊥
  IsWorkers _ = Unit

  worker_event_decreases :
      (p q : Pool J) (e : Event J)
      → IsWorkers e
      → p.channel ≡ shut
      → step p e ≡ some q
      → (remaining q < remaining p) × (q.channel ≡ shut) × (work q ≡ work p)
  unfolding step
  worker_event_decreases p q (submits job) w c h = absurd w
  worker_event_decreases p q closes w c h = absurd w
  worker_event_decreases p q arrives w c h = ground arith
  worker_event_decreases p q takes w c h = ground arith
  worker_event_decreases p q exits w c h = ground arith
  worker_event_decreases p q (finishes i) w c h = elim (Option-cases (pick p.running i)) [
    | inl missing ↦ ground arith
    | inr ((job, rest), found) ↦ ground (arith, length-pick p.running i job rest)
  ]

  busy_event-IsWorkers : (running queue : List J) → IsWorkers (busy_event running queue)
  unfolding busy_event
  busy_event-IsWorkers (job ∷ rest) queue = tt
  busy_event-IsWorkers [] [] = tt
  busy_event-IsWorkers [] (job ∷ rest) = tt

  next_event-IsWorkers : (p : Pool J) → IsWorkers (next_event p)
  unfolding next_event
  next_event-IsWorkers p = elim (Bool-cases (ltb 0 p.between)) [
    | inl b ↦ rw b tt
    | inr b ↦ rw b (busy_event-IsWorkers p.running p.queue)
  ]

  busy_event_enabled :
      (p : Pool J) (running queue : List J)
      → p.running ≡ running
      → p.queue ≡ queue
      → p.channel ≡ shut
      → (p.running ≡ [] → 0 < p.waiting)
      → step p (busy_event running queue) ≢ none
  unfolding step busy_event pick
  busy_event_enabled p (job ∷ rest) queue r q c w = ground arith
  busy_event_enabled p [] [] r q c w = ground (arith, w r)
  busy_event_enabled p [] (job ∷ rest) r q c w = ground (arith, w r)

  arrives_enabled : (p : Pool J) → p.channel ≡ shut → ltb 0 p.between ≡ true → step p arrives ≢ none
  unfolding step
  arrives_enabled p c b = ground arith

  next_event_enabled :
      (workers : ℕ) (p : Pool J)
      → IsValid workers p
      → p.channel ≡ shut
      → p.exited < workers
      → step p (next_event p) ≢ none
  unfolding next_event
  next_event_enabled workers p v c h = elim (Bool-cases (ltb 0 p.between)) [
    | inl b ↦ rw b (arrives_enabled p c b)
    | inr b ↦ rw b (
        busy_event_enabled p p.running p.queue refl refl c
          (λ e. omega (arith, ap length e, not_ltb _ _ b)))
  ]

  next_event_decreases :
      (p q : Pool J)
      → p.channel ≡ shut
      → step p (next_event p) ≡ some q
      → (remaining q < remaining p) × (q.channel ≡ shut) × (work q ≡ work p)
  next_event_decreases p q c on =
      worker_event_decreases p q (next_event p) (next_event-IsWorkers p) c on

  some_inside :
      (workers : ℕ) (p : Pool J)
      → IsValid workers p
      → (p.exited == workers) ≡ false
      → p.exited < workers
  some_inside workers p v h = ground arith

  wait_returns :
      (fuel workers : ℕ) (p : Pool J)
      → IsValid workers p
      → p.channel ≡ shut
      → remaining p ≤ fuel
      → (q : Pool J) × (wait fuel workers p ≡ some q)
        × (q.exited ≡ workers)
        × IsValid workers q
        × (work q ≡ work p)
  unfolding wait
  wait_returns zero workers p v c h = (p, ground arith, omega arith, v, refl)
  wait_returns (suc fuel) workers p v c h = elim (Bool-cases (p.exited == workers)) [
    | inl all_out ↦ (p, rw all_out, (==_iff _ _).0 all_out, v, refl)
    | inr some_in ↦ elim (Option-cases (step p (next_event p))) [
      | inl off ↦ absurd (next_event_enabled workers p v c (some_inside workers p v some_in) off)
      | inr (q, on) ↦
          let (less, shut', same) = next_event_decreases p q c on in
          let (r, e, out, v', same') =
            wait_returns fuel workers q (step-IsValid workers p q (next_event p) v on) shut'
              (omega arith) in
          (r, rw (some_in, on, wait) e, out, v', same' ∙ same)
    ]
  ]

  abbrev closed_pool : Pool J → Pool J
  closed_pool p = record p { channel = shut }

  closed_pool-IsValid :
      {workers : ℕ} {p : Pool J} → IsValid workers p → IsValid workers (closed_pool p)
  closed_pool-IsValid v = record {
    bounded = v.bounded;
    manned = v.manned;
    drained = v.drained;
    closed = λ _. inl refl;
  }

  close_lem : (p : Pool J) → p.channel ≡ open_for_jobs → close p ≡ closed_pool p
  unfolding close
  close_lem p e = ground arith

  -- Stop on a valid, open pool with at least one worker returns within three steps for each job and each
  -- worker: then all workers have returned, no job is left, each queued or running job has run, and
  -- the number that Stop reports is the number of those jobs.
  pub stop_drains :
      (fuel workers : ℕ) (p : Pool J)
      → IsValid workers p
      → 0 < workers
      → p.channel ≡ open_for_jobs
      → remaining p ≤ fuel
      → (q : Pool J) × (stop fuel workers p ≡ some (q, length p.queue + length p.running))
        × (q.exited ≡ workers)
        × (length q.queue + length q.running ≡ 0)
        × (q.executed ≡ p.executed + length p.queue + length p.running)
  unfolding stop
  stop_drains fuel workers p v w c h =
      let (q, e, out, v', same) =
        wait_returns fuel workers (closed_pool p) (closed_pool-IsValid v) refl h in
      let empty : length q.queue ≡ 0 = ap length (v'.drained (omega arith)) in
      (
        q,
        rw (close_lem p c, e, stop) (ap (λ n. some (q, n)) (omega (arith, v'.manned))),
        out,
        omega (arith, v'.manned),
        omega (arith, v'.manned),
      )

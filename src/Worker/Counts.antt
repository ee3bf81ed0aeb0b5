-- ===== src/Worker/Counts.antt =====
-- What holds of the pool between two steps, for any schedule.
use go_blueprint.Prelude.{
  ℕ, zero, suc, ◌+◌, ◌≤◌, ◌<◌, ◌≡◌, ◌⊎◌, some, List, [], ◌∷◌, arith, length, length-append,
  Option-cases, inl, inr,
}
use go_blueprint.Worker.{
  Pool, Event, submits, arrives, takes, exits, closes, finishes, pick, new, step, run, shut,
  panicked,
}

module _ {ℓ} {A : Type ℓ} where
  pub length-pick :
      (xs : List A) (i : ℕ) (y : A) (rest : List A)
      → pick xs i ≡ some (y, rest)
      → length xs ≡ suc (length rest)
  unfolding pick
  length-pick [] i y rest e = ground arith
  length-pick (x ∷ xs) zero y rest e = ground arith
  length-pick (x ∷ xs) (suc i) y rest e = elim (Option-cases (pick xs i)) [
    | inl missing ↦ cc (rw (missing, pick) at e)
    | inr ((z, zs), found) ↦ ground (arith, length-pick xs i z zs)
  ]

-- The buffer is within its bound, no worker is lost, and a worker returns only from a closed, empty
-- channel.
pub record IsValid {ℓ} {J : Type ℓ} (workers : ℕ) (p : Pool J) : Type ℓ where
  pub bounded : length p.queue ≤ p.queue_size
  pub manned : p.between + p.waiting + length p.running + p.exited ≡ workers
  pub drained : 0 < p.exited → p.queue ≡ []
  pub closed : 0 < p.exited → (p.channel ≡ shut) ⊎ (p.channel ≡ panicked)

module _ {J : Type 0} (workers : ℕ) where
  pub new-IsValid : (queue_size : ℕ) → IsValid workers (new {J = J} workers queue_size)
  unfolding new
  new-IsValid queue_size = ground arith

  pub step-IsValid :
      (p q : Pool J) (e : Event J) → IsValid workers p → step p e ≡ some q → IsValid workers q
  unfolding step
  step-IsValid p q (submits job) v h = ground (arith, length-append p.queue (job ∷ []))
  step-IsValid p q arrives v h = ground arith
  step-IsValid p q takes v h = ground arith
  step-IsValid p q exits v h = ground arith
  step-IsValid p q closes v h = ground arith
  step-IsValid p q (finishes i) v h = elim (Option-cases (pick p.running i)) [
    | inl missing ↦ ground arith
    | inr ((job, rest), found) ↦ ground (arith, length-pick p.running i job rest)
  ]

  run-IsValid : (p : Pool J) (es : List (Event J)) → IsValid workers p → IsValid workers (run p es)
  unfolding run
  run-IsValid p [] v = v
  run-IsValid p (e ∷ es) v = elim (Option-cases (step p e)) [
    | inl off ↦ rw (off, run) (run-IsValid p es v)
    | inr (q, on) ↦ rw (on, run) (run-IsValid q es (step-IsValid p q e v on))
  ]

  -- Under every schedule the buffer stays within `queue_size`, each of the workers is in exactly one
  -- place, and none has returned while the channel is open or holds a job.
  pub run-new-IsValid :
      (queue_size : ℕ) (es : List (Event J)) → IsValid workers (run (new workers queue_size) es)
  run-new-IsValid queue_size es = run-IsValid _ es (new-IsValid queue_size)

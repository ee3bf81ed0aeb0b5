-- ===== src/Process/Channel.antt =====
-- The invariant of the shutdown of cmd/api/main.go, and how the steps of the pool act on its channel.
use go_blueprint.Prelude.{
  ℕ, ◌<◌, ◌≡◌, ◌≢◌, refl, ap, ◌∙◌, ◌⊎◌, inl, inr, Bool, true, false, some, List, [], ◌∷◌, ◌++◌,
  arith, Option-cases,
}
use go_blueprint.Process.Shutdown.{
  System, Main, Phase, start, is_panicked, is_worker_event, in_start, in_grpc_stop, before_stop,
  in_wait, returned, aborted, gone, selecting, claiming, submitting,
}
use go_blueprint.Worker
use go_blueprint.Worker.{
  Pool, Event, submits, arrives, takes, exits, closes, finishes, accepted, queue_full, send_panics,
  shut, panicked, open_for_jobs, Channel, submit, send, close, step, new,
}
use go_blueprint.Worker.Drain.{count, finished_jobs, accepted_jobs, stopped_ran_all}

pub run-snoc :
    (p : Pool ℕ) (es : List (Event ℕ)) (e : Event ℕ) (q : Pool ℕ)
    → step (Worker.run p es) e ≡ some q
    → Worker.run p (es ++ e ∷ []) ≡ q
unfolding Worker.run
run-snoc p [] e q h = rw (h, Worker.run) refl
run-snoc p (d ∷ es) e q h = elim (Option-cases (step p d)) [
  | inl off ↦ rw (off, Worker.run) (run-snoc p es e q (rw (off, Worker.run) at h))
  | inr (r, on) ↦ rw (on, Worker.run) (run-snoc r es e q (rw (on, Worker.run) at h))
]

pub submit_steps :
    (p : Pool ℕ) (m : ℕ) → is_panicked p.channel ≡ false → step p (submits m) ≡ some (submit p m).0
unfolding step
submit_steps p m h = ground arith

pub close_steps : (p : Pool ℕ) → is_panicked p.channel ≡ false → step p closes ≡ some (close p)
unfolding step
close_steps p h = ground arith

pub submit_keeps :
    (p : Pool ℕ) (m : ℕ) → (submit p m).1 ≡ accepted → (submit p m).0.channel ≡ p.channel
unfolding submit send
submit_keeps p m h = ground arith

pub worker_keeps :
    (p q : Pool ℕ) (e : Event ℕ)
    → is_worker_event e ≡ true
    → step p e ≡ some q
    → q.channel ≡ p.channel
unfolding step
worker_keeps p q e w h = ground arith

pub open_never_panics :
    (p : Pool ℕ) (m : ℕ) → p.channel ≡ open_for_jobs → (submit p m).1 ≢ send_panics
unfolding submit send
open_never_panics p m h k = ground arith

pub close_shuts : (p : Pool ℕ) → p.channel ≡ open_for_jobs → is_panicked (close p).channel ≡ false
unfolding close
close_shuts p h = ground arith

pub shut_panics :
    (p : Pool ℕ) (m : ℕ)
    → p.channel ≡ open_for_jobs
    → ((submit (close p) m).1 ≡ send_panics) × (is_panicked (submit (close p) m).0.channel ≡ true)
unfolding submit close
shut_panics p m h = ground arith

-- Main has not closed the channel.
abbrev pub is_before : Main → Bool
is_before in_start = true
is_before in_grpc_stop = true
is_before before_stop = true
is_before _ = false

pub record Inv (workers queue_size : ℕ) (s : System) : Type 0 where
  pub pool_is : Worker.run (new workers queue_size) s.past ≡ s.pool
  pub opened : is_before s.main ≡ true → s.pool.channel ≡ open_for_jobs
  pub calm : s.poller ≡ gone → is_panicked s.pool.channel ≡ false
  pub ended : s.main ≡ returned → s.pool.exited ≡ workers

pub start-Inv : (workers queue_size : ℕ) → Inv workers queue_size (start workers queue_size)
unfolding new Worker.run
start-Inv workers queue_size = record {
  pool_is = refl;
  opened = λ h. refl;
  calm = λ h. refl;
  ended = λ h. cc;
}

pub no_panic :
    (phase : Phase) (p : Pool ℕ)
    → (phase ≡ gone → is_panicked p.channel ≡ false)
    → (phase ≢ gone) ⊎ (is_panicked p.channel ≡ false)
no_panic gone p h = inr (h refl)
no_panic selecting p h = inl (λ k. cc)
no_panic claiming p h = inl (λ k. cc)
no_panic (submitting ms) p h = inl (λ k. cc)

is_returned : Main → Bool
is_returned returned = true
is_returned _ = false

pub all_ran :
    {workers queue_size : ℕ} {s : System}
    → Inv workers queue_size s
    → (test : ℕ → Bool) → 0 < workers
    → (main : Main) → s.main ≡ main
    → (main ≢ returned)
      ⊎ (count test (finished_jobs (new workers queue_size) s.past)
          ≡ count test (accepted_jobs (new workers queue_size) s.past))
all_ran {workers} {queue_size} {s} v test some_worker returned h = inr (
    stopped_ran_all test workers queue_size s.past some_worker
      (ap (λ p. p.exited) v.pool_is ∙ v.ended h))
all_ran v test some_worker in_start h = inl (λ k. cc)
all_ran v test some_worker in_grpc_stop h = inl (λ k. cc)
all_ran v test some_worker before_stop h = inl (λ k. cc)
all_ran v test some_worker in_wait h = inl (λ k. cc)
all_ran v test some_worker aborted h = inl (λ k. cc)

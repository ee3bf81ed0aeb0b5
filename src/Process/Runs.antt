-- ===== src/Process/Runs.antt =====
-- Two shutdowns, step by step.
use go_blueprint.Prelude.{ℕ, ◌≡◌, refl, Bool, true, List, [], ◌∷◌}
use go_blueprint.Process.Shutdown.{
  System, Main, Phase, Move, Steps, moves, here, after, start, is_panicked, in_start, submitting,
}
use go_blueprint.Process.Closing.{early_close_panics}
use go_blueprint.Worker.{
  shut, Pool, Event, submits, arrives, takes, exits, closes, finishes, new, open_for_jobs,
}

-- A state of a process with one worker and a buffer of one job.
abbrev state : Main → Bool → Phase → Pool ℕ → List (Event ℕ) → System
state main signalled poller pool past = record {
  main = main;
  signalled = signalled;
  streams = 0;
  poller = poller;
  pool = pool;
  past = past;
}

abbrev fresh : Pool ℕ
fresh = record {
  channel = open_for_jobs;
  queue_size = 1;
  queue = [];
  between = 1;
  waiting = 0;
  running = [];
  exited = 0;
  executed = 0;
}

-- The poller got two messages and the signal came before it submitted the first.
interrupted : Steps 1 (start 1 1) (state in_start true (submitting (7 ∷ 8 ∷ [])) fresh [])
unfolding new
interrupted =
    after
      (after (after here (moves refl (Move.tick_begins refl refl)))
        (moves refl (Move.claim_gives (7 ∷ 8 ∷ []) refl)))
      (moves refl Move.signals)

early_close_panics_example :
    (t : System) × Steps 1 (state in_start true (submitting (7 ∷ 8 ∷ [])) fresh []) t
    × (is_panicked t.pool.channel ≡ true)
early_close_panics_example = early_close_panics 1 1 7 (8 ∷ []) interrupted refl refl refl refl refl

-- The first job is queued, and the poller returns.
abbrev history : List (Event ℕ)
history = submits 7 ∷ closes ∷ arrives ∷ takes ∷ finishes 0 ∷ arrives ∷ exits ∷ []

abbrev finished : Pool ℕ
finished = record fresh { channel = shut; between = 0; exited = 1; executed = 1 }

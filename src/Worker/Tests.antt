-- ===== src/Worker/Tests.antt =====
-- Concrete runs of the pool.
use go_blueprint.Worker.{
  Pool, Event, submits, arrives, takes, exits, closes, finishes, new, run, stop, step, move, send,
  submit, take_oldest, leave, close, finish, arrive, pick,
}
use go_blueprint.Worker.Counts.{IsValid, run-new-IsValid}
use go_blueprint.Worker.Drain.{count, finished_jobs, accepted_jobs, stopped_ran_all}
use go_blueprint.Worker.Stop.{stop_drains}
use go_blueprint.Prelude.{ℕ, ◌+◌, ◌≡◌, refl, some, List, [], ◌∷◌, arith, ◌==◌, length}

abbrev one_job : List (Event ℕ)
one_job = submits 7 ∷ arrives ∷ takes ∷ finishes 0 ∷ closes ∷ arrives ∷ exits ∷ []

run-new-IsValid_example : IsValid 1 (run (new 1 2) one_job)
run-new-IsValid_example = run-new-IsValid 1 2 one_job

stopped_ran_all_example :
    count (λ j. j == 7) (finished_jobs (new 1 2) one_job)
    ≡ count (λ j. j == 7) (accepted_jobs (new 1 2) one_job)
unfolding run step move submit send take_oldest leave close finish arrive pick new
stopped_ran_all_example = stopped_ran_all (λ j. j == 7) 1 2 one_job (omega arith) refl

abbrev loaded : Pool ℕ
loaded = run (new 1 2) (submits 7 ∷ arrives ∷ [])

stop_drains_example :
    (q : Pool ℕ) × (stop 12 1 loaded ≡ some (q, length loaded.queue + length loaded.running))
    × (q.exited ≡ 1)
    × (length q.queue + length q.running ≡ 0)
    × (q.executed ≡ loaded.executed + length loaded.queue + length loaded.running)
unfolding run step move submit send take_oldest leave close finish arrive pick new
stop_drains_example =
    stop_drains 12 1 loaded (run-new-IsValid 1 2 (submits 7 ∷ arrives ∷ [])) (omega arith) refl
      (omega arith)

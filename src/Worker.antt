-- ===== src/Worker.antt =====
-- The bounded goroutine pool: internal/worker/pool.go.
-- A job is a value of any type. The scheduler of the Go runtime is the list of events: each event is
-- one step of one goroutine, and an event that is not enabled is refused with `none`.
pub mod Drain
pub mod Counts
pub mod Stop
pub mod Tests
use go_blueprint.Prelude.{
  ℕ, zero, suc, ◌+◌, ◌-◌, Bool, true, false, ◌&&◌, Option, none, some, List, [], ◌∷◌, ◌++◌, length,
  is_empty, ltb, if◌then◌else◌, ◌==◌,
}

-- The channel `jobs`. A send on a closed channel, and a second close, panic.
pub data Channel : Type 0 where
  open_for_jobs shut panicked : Channel

-- A worker stands between two receives, waits at the channel, runs a job, or has returned.
pub record Pool {ℓ} (J : Type ℓ) : Type ℓ where
  pub channel : Channel
  pub queue_size : ℕ
  pub queue : List J
  pub between : ℕ
  pub waiting : ℕ
  pub running : List J
  pub exited : ℕ
  pub executed : ℕ

pub data Submitted : Type 0 where
  accepted queue_full send_panics : Submitted

pub data Event {ℓ} (J : Type ℓ) : Type ℓ where
  submits : J → Event J
  arrives takes exits closes : Event J
  finishes : ℕ → Event J

-- What a slice holds at an index, with the rest.
unfoldable pub pick {ℓ} : {A : Type ℓ} → List A → ℕ → Option (A × List A)
pick [] i = none
pick (x ∷ xs) zero = some (x, xs)
pick (x ∷ xs) (suc i) = elim (pick xs i) [ none ↦ none | some (y, rest) ↦ some (y, x ∷ rest) ]

module _ {ℓ} {J : Type ℓ} where
  -- New: the workers are launched, and none has reached the channel yet.
  unfoldable pub new : ℕ → ℕ → Pool J
  new workers queue_size = record {
    channel = open_for_jobs;
    queue_size = queue_size;
    queue = [];
    between = workers;
    waiting = 0;
    running = [];
    exited = 0;
    executed = 0;
  }

  -- A send proceeds if the buffer has room, or if it is empty and a worker waits at the channel.
  unfoldable pub send : Pool J → J → Pool J × Submitted
  send p job =
      if ltb (length p.queue) p.queue_size
      then (record p { queue = p.queue ++ job ∷ [] }, accepted)
      else if is_empty p.queue && ltb 0 p.waiting
      then (record p { waiting = p.waiting - 1; running = job ∷ p.running }, accepted)
      else (p, queue_full)

  -- Pool.Submit.
  unfoldable pub submit : Pool J → J → Pool J × Submitted
  unfolding send
  submit p job = elim p.channel [
    | open_for_jobs ↦ send p job
    | _ ↦ (record p { channel = panicked }, send_panics)
  ]

  -- `for job := range p.jobs`: a worker that waits gets the oldest job of the buffer.
  take_oldest : List J → Pool J → Option (Pool J)
  take_oldest [] p = none
  take_oldest (job ∷ rest) p =
      if ltb 0 p.waiting
      then some (record p { queue = rest; waiting = p.waiting - 1; running = job ∷ p.running })
      else none

  -- The loop ends when the channel is closed and empty.
  leave : Pool J → Option (Pool J)
  leave p = elim p.channel [
    | shut ↦
        if is_empty p.queue && ltb 0 p.waiting
        then some (record p { waiting = p.waiting - 1; exited = p.exited + 1 })
        else none
    | _ ↦ none
  ]

  -- The first half of Stop: close(p.jobs).
  unfoldable pub close : Pool J → Pool J
  close p = elim p.channel [
    | open_for_jobs ↦ record p { channel = shut }
    | _ ↦ record p { channel = panicked }
  ]

  -- A job returns, with or without an error, and `executed` is incremented.
  finish : Pool J → ℕ → Option (Pool J)
  finish p i = elim (pick p.running i) [
    | none ↦ none
    | some (job, rest) ↦
        some (record p { running = rest; between = p.between + 1; executed = p.executed + 1 })
  ]

  -- A worker reaches the receive of its loop.
  arrive : Pool J → Option (Pool J)
  arrive p =
      if ltb 0 p.between
      then some (record p { between = p.between - 1; waiting = p.waiting + 1 })
      else none

  move : Pool J → Event J → Option (Pool J)
  unfolding submit take_oldest leave close finish arrive
  move p (submits job) = some (submit p job).0
  move p arrives = arrive p
  move p takes = take_oldest p.queue p
  move p exits = leave p
  move p closes = some (close p)
  move p (finishes i) = finish p i

  -- A panic that nothing recovers ends the process.
  unfoldable pub step : Pool J → Event J → Option (Pool J)
  unfolding move
  step p e = elim p.channel [ panicked ↦ none | _ ↦ move p e ]

  -- A schedule: an event that is not enabled is passed over.
  unfoldable pub run : Pool J → List (Event J) → Pool J
  run p [] = p
  run p (e ∷ es) = elim (step p e) [ none ↦ run p es | some q ↦ run q es ]

  -- What some worker can do next, once nothing is sent any more.
  pub busy_event : List J → List J → Event J
  busy_event (job ∷ rest) queue = finishes 0
  busy_event [] [] = exits
  busy_event [] (job ∷ rest) = takes

  pub next_event : Pool J → Event J
  next_event p = if ltb 0 p.between then arrives else busy_event p.running p.queue

  -- wg.Wait, on fuel: the workers go on until all have returned.
  pub wait : ℕ → ℕ → Pool J → Option (Pool J)
  wait zero workers p = if p.exited == workers then some p else none
  wait (suc fuel) workers p =
      let rest : Option (Pool J) = elim (step p (next_event p)) [
        | none ↦ none
        | some q ↦ wait fuel workers q
      ] in
      if p.exited == workers then some p else rest

  -- Pool.Stop, with the number of jobs that it reports.
  pub stop : ℕ → ℕ → Pool J → Option (Pool J × ℕ)
  unfolding close
  stop fuel workers p = elim (wait fuel workers (close p)) [
    | none ↦ none
    | some q ↦ some (q, q.executed - p.executed)
  ]

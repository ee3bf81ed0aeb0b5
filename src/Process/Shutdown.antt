-- ===== src/Process/Shutdown.antt =====
-- The shutdown of cmd/api/main.go, with server.Start of internal/platform/server/server.go: the goroutines of
-- main, of the poller and of the workers, one step at a time. A job is a number.
use go_blueprint.Prelude.{ℕ, suc, ◌+◌, ◌≡◌, Bool, true, false, not, ◌&&◌, some, List, [], ◌∷◌, ◌++◌}
use go_blueprint.Worker.{
  Pool, Event, submits, arrives, takes, exits, closes, finishes, accepted, queue_full, send_panics,
  panicked, Channel, submit, close, step, new,
}

-- Where main stands: in server.Start, in GracefulStop, before close(p.jobs), in wg.Wait, at its end, or in os.Exit(1).
pub data Main : Type 0 where
  in_start in_grpc_stop before_stop in_wait returned aborted : Main

-- Where the loop of the poller stands: in its select, in the claim of a tick, in the loop over what the
-- claim gave, or returned.
pub data Phase : Type 0 where
  selecting claiming gone : Phase
  submitting : List ℕ → Phase

-- `past` is what happened to the pool since worker.New.
pub record System : Type 0 where
  pub main : Main
  pub signalled : Bool
  pub streams : ℕ
  pub poller : Phase
  pub pool : Pool ℕ
  pub past : List (Event ℕ)

-- What a worker does by itself.
abbrev pub is_worker_event : Event ℕ → Bool
is_worker_event arrives = true
is_worker_event takes = true
is_worker_event exits = true
is_worker_event (finishes i) = true
is_worker_event (submits m) = false
is_worker_event closes = false

abbrev pub is_running : Main → Bool
is_running returned = false
is_running aborted = false
is_running _ = true

abbrev pub is_panicked : Channel → Bool
is_panicked panicked = true
is_panicked _ = false

abbrev pub is_alive : System → Bool
is_alive s = is_running s.main && not (is_panicked s.pool.channel)

module _ (workers : ℕ) where
  pub data Move (s : System) : System → Type 0 where
    -- SIGTERM cancels the root context; a WatchCustomerEvents stream begins, before GracefulStop, or ends.
    signals : Move s (record s { signalled = true })
    stream_opens : s.main ≡ in_start → Move s (record s { streams = s.streams + 1 })
    stream_ends : {n : ℕ} → s.streams ≡ suc n → Move s (record s { streams = n })
    -- A tick of the poller: under a context that is done its claim is refused at once.
    tick_begins :
        s.poller ≡ selecting → s.signalled ≡ false → Move s (record s { poller = claiming })
    claim_fails : s.poller ≡ claiming → Move s (record s { poller = selecting })
    claim_gives : (ms : List ℕ) → s.poller ≡ claiming → Move s (record s { poller = submitting ms })
    tick_ends : s.poller ≡ submitting [] → Move s (record s { poller = selecting })
    -- Submit in the loop of poll, with its three answers.
    job_sent :
        (m : ℕ) (ms : List ℕ)
        → s.poller ≡ submitting (m ∷ ms)
        → (submit s.pool m).1 ≡ accepted
        → Move s (record s {
          poller = submitting ms;
          pool = (submit s.pool m).0;
          past = s.past ++ submits m ∷ [];
        })
    pool_is_full :
        (m : ℕ) (ms : List ℕ)
        → s.poller ≡ submitting (m ∷ ms)
        → (submit s.pool m).1 ≡ queue_full
        → Move s (record s { poller = selecting })
    send_fails :
        (m : ℕ) (ms : List ℕ)
        → s.poller ≡ submitting (m ∷ ms)
        → (submit s.pool m).1 ≡ send_panics
        → Move s (record s { pool = (submit s.pool m).0; past = s.past ++ submits m ∷ [] })
    poller_exits : s.poller ≡ selecting → s.signalled ≡ true → Move s (record s { poller = gone })
    works :
        (e : Event ℕ) (q : Pool ℕ)
        → is_worker_event e ≡ true
        → step s.pool e ≡ some q
        → Move s (record s { pool = q; past = s.past ++ e ∷ [] })
    -- server.Start: the listener fails, the drain of requests takes too long, or it is done.
    listen_fails : s.main ≡ in_start → Move s (record s { main = aborted })
    drain_times_out : s.main ≡ in_start → s.signalled ≡ true → Move s (record s { main = aborted })
    requests_drained :
        s.main ≡ in_start → s.signalled ≡ true → Move s (record s { main = in_grpc_stop })
    -- GracefulStop waits for the streams; then Stop closes the channel and waits for the workers.
    grpc_stopped : s.main ≡ in_grpc_stop → s.streams ≡ 0 → Move s (record s { main = before_stop })
    pool_closes :
        s.main ≡ before_stop
        → Move s (record s { main = in_wait; pool = close s.pool; past = s.past ++ closes ∷ [] })
    workers_done :
        s.main ≡ in_wait → s.pool.exited ≡ workers → Move s (record s { main = returned })

  -- A process that has ended moves no more.
  pub data Step (s : System) : System → Type 0 where
    moves : {t : System} → is_alive s ≡ true → Move s t → Step s t

  pub data Steps (s : System) : System → Type 0 where
    here : Steps s s
    after : {t u : System} → Steps s t → Step t u → Steps s u

-- main at the call of server.Start.
abbrev pub start : ℕ → ℕ → System
start workers queue_size = record {
  main = in_start;
  signalled = false;
  streams = 0;
  poller = selecting;
  pool = new workers queue_size;
  past = [];
}

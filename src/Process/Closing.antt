-- ===== src/Process/Closing.antt =====
-- What holds in every state that the shutdown reaches.
use go_blueprint.Prelude.{ℕ, ◌≡◌, refl, ap, ◌∙◌, true, false, not, List, ◌∷◌, arith}
use go_blueprint.Process.Shutdown.{
  System, Move, Steps, moves, here, after, start, is_alive, is_panicked, in_start, submitting,
}
use go_blueprint.Worker.{submits, closes, submit, close, new}
use go_blueprint.Process.Channel.{
  close_steps, worker_keeps, open_never_panics, submit_keeps, submit_steps, close_shuts, run-snoc,
  is_before, start-Inv, shut_panics, Inv,
}

module _ (workers queue_size : ℕ) where
  Move-Inv :
      {s t : System}
      → is_alive s ≡ true
      → Move workers s t
      → Inv workers queue_size s
      → Inv workers queue_size t
  Move-Inv alive Move.signals v = record {
    pool_is = v.pool_is;
    opened = v.opened;
    calm = v.calm;
    ended = v.ended;
  }
  Move-Inv alive (Move.stream_opens h) v = record {
    pool_is = v.pool_is;
    opened = v.opened;
    calm = v.calm;
    ended = v.ended;
  }
  Move-Inv alive (Move.stream_ends h) v = record {
    pool_is = v.pool_is;
    opened = v.opened;
    calm = v.calm;
    ended = v.ended;
  }
  Move-Inv alive (Move.tick_begins h k) v = record {
    pool_is = v.pool_is;
    opened = v.opened;
    calm = λ g. cc;
    ended = v.ended;
  }
  Move-Inv alive (Move.claim_fails h) v = record {
    pool_is = v.pool_is;
    opened = v.opened;
    calm = λ g. cc;
    ended = v.ended;
  }
  Move-Inv alive (Move.claim_gives ms h) v = record {
    pool_is = v.pool_is;
    opened = v.opened;
    calm = λ g. cc;
    ended = v.ended;
  }
  Move-Inv alive (Move.tick_ends h) v = record {
    pool_is = v.pool_is;
    opened = v.opened;
    calm = λ g. cc;
    ended = v.ended;
  }
  Move-Inv {s} alive (Move.job_sent m ms h a) v = record {
    pool_is =
        run-snoc (new workers queue_size) s.past (submits m) (submit s.pool m).0
          (rw v.pool_is (submit_steps s.pool m (ground (arith, alive))));
    opened = λ b. submit_keeps s.pool m a ∙ v.opened b;
    calm = λ g. cc;
    ended = λ r. ground (arith, alive);
  }
  Move-Inv alive (Move.pool_is_full m ms h a) v = record {
    pool_is = v.pool_is;
    opened = v.opened;
    calm = λ g. cc;
    ended = v.ended;
  }
  Move-Inv {s} alive (Move.send_fails m ms h a) v = record {
    pool_is =
        run-snoc (new workers queue_size) s.past (submits m) (submit s.pool m).0
          (rw v.pool_is (submit_steps s.pool m (ground (arith, alive))));
    opened = λ b. absurd (open_never_panics s.pool m (v.opened b) a);
    calm = λ g. cc;
    ended = λ r. ground (arith, alive);
  }
  Move-Inv {s} alive (Move.poller_exits h k) v = record {
    pool_is = v.pool_is;
    opened = v.opened;
    calm = λ g. ground (arith, alive);
    ended = v.ended;
  }
  Move-Inv {s} alive (Move.works e q w h) v = record {
    pool_is = run-snoc (new workers queue_size) s.past e q (rw v.pool_is h);
    opened = λ b. worker_keeps s.pool q e w h ∙ v.opened b;
    calm = λ g. ap is_panicked (worker_keeps s.pool q e w h) ∙ v.calm g;
    ended = λ r. ground (arith, alive);
  }
  Move-Inv alive (Move.listen_fails h) v = record {
    pool_is = v.pool_is;
    opened = λ b. cc;
    calm = v.calm;
    ended = λ r. cc;
  }
  Move-Inv alive (Move.drain_times_out h k) v = record {
    pool_is = v.pool_is;
    opened = λ b. cc;
    calm = v.calm;
    ended = λ r. cc;
  }
  Move-Inv alive (Move.requests_drained h k) v = record {
    pool_is = v.pool_is;
    opened = λ b. v.opened (ap is_before h);
    calm = v.calm;
    ended = λ r. cc;
  }
  Move-Inv alive (Move.grpc_stopped h k) v = record {
    pool_is = v.pool_is;
    opened = λ b. v.opened (ap is_before h);
    calm = v.calm;
    ended = λ r. cc;
  }
  Move-Inv {s} alive (Move.pool_closes h) v = record {
    pool_is =
        run-snoc (new workers queue_size) s.past closes (close s.pool)
          (rw v.pool_is (close_steps s.pool (ground (arith, alive))));
    opened = λ b. cc;
    calm = λ g. close_shuts s.pool (v.opened (ap is_before h));
    ended = λ r. cc;
  }
  Move-Inv alive (Move.workers_done h k) v = record {
    pool_is = v.pool_is;
    opened = λ b. cc;
    calm = v.calm;
    ended = λ r. k;
  }

  reached-Inv : {s : System} → Steps workers (start workers queue_size) s → Inv workers queue_size s
  reached-Inv here = start-Inv workers queue_size
  reached-Inv (after before (moves alive move)) = Move-Inv alive move (reached-Inv before)

  -- From every state that the process reaches while it runs, in which the signal was given, no stream is
  -- open, main is still in server.Start and the poller has a message left to submit, the process reaches a
  -- panic: main can close the channel before the poller sends.
  pub early_close_panics :
      {s : System} (m : ℕ) (ms : List ℕ)
      → Steps workers (start workers queue_size) s
      → is_alive s ≡ true
      → s.signalled ≡ true
      → s.streams ≡ 0
      → s.main ≡ in_start
      → s.poller ≡ submitting (m ∷ ms)
      → (t : System) × Steps workers s t × (is_panicked t.pool.channel ≡ true)
  early_close_panics {s} m ms reach alive signalled streams main poller =
      let v = reached-Inv reach in
      let calm : is_panicked s.pool.channel ≡ false = ground (arith, alive) in
      let (panics, dead) = shut_panics s.pool m (v.opened (ap is_before main)) in
      let shut_ok = close_shuts s.pool (v.opened (ap is_before main)) in
      (
        _,
        after
            (after
              (after (after here (moves alive (Move.requests_drained main signalled)))
                (moves (ap not calm) (Move.grpc_stopped refl streams)))
              (moves (ap not calm) (Move.pool_closes refl)))
            (moves (ap not shut_ok) (Move.send_fails m ms poller panics)),
        dead,
      )

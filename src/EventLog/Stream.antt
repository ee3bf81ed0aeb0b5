-- ===== src/EventLog/Stream.antt =====
-- What a stream of customer events sends, tick after tick.
use go_blueprint.Prelude.{
  text_eq_refl, and_true, and_right, and_left, ℕ, ◌≡◌, refl, sym, ap, ◌∙◌, inl, inr, Bool, true,
  false, not, Option, none, some, List, [], ◌∷◌, if◌then◌else◌, Text,
}
use go_blueprint.Prelude.{select}
use go_blueprint.Prelude.Every.{all, all-Perm, all-select, all-map, all_mono}
use go_blueprint.Errors.{Error, ok, Result-cases}
use go_blueprint.EventLog.{
  to_row, Event, Row, Codec, stamp, less, is_since, fetch_since, send_all, Tick, watch,
}
use go_blueprint.EventLog.Order.{less_after, less_irrefl}
use go_blueprint.EventLog.Reading.{
  if_alive, not_both, send_all-last, from_rows-times, unnegated, is_sorted, send_all-all,
  send_all-le, is_rising, stamps, IsByTime, is_canonical,
}

module _ (codec : Codec) where
  module _ (by_time : List Row → List Row) (lawful : IsByTime by_time) (aggregate : Text) where
    -- What FetchSince gives: texts greater than that of `since`, in their order.
    fetched :
        (failure : Option Error) (rows : List Row) (since : ℕ) (es : List Event)
        → all (is_canonical codec) rows ≡ true
        → fetch_since codec by_time failure rows aggregate since ≡ ok es
        → (all (less (stamp codec since)) (stamps codec es) ≡ true)
          × (is_sorted (stamps codec es) ≡ true)
    unfolding fetch_since
    fetched (some x) rows since es h k = cc k
    fetched none rows since es h k =
        let found = select (is_since codec aggregate since) rows in
        let greater = λ (r : Row). less (stamp codec since) r.occurred_at in
        let known : all (is_canonical codec) (by_time found) ≡ true =
          sym (all-Perm (is_canonical codec) (lawful.perm found))
          ∙ all-select (is_canonical codec) (is_canonical codec) (is_since codec aggregate since)
              rows (λ r a b. a) h in
        let late : all greater (by_time found) ≡ true =
          sym (all-Perm greater (lawful.perm found))
          ∙ all-select greater (is_canonical codec) (is_since codec aggregate since) rows
              (λ r a b. and_right _ _ b) h in
        let same = from_rows-times codec (by_time found) es k known in
        rw (← same) (
          all-map (less (stamp codec since)) (λ (r : Row). r.occurred_at) (by_time found) ∙ late,
          lawful.sorted found,
        )

    -- All that the stream sends from a `since` on has a greater text.
    watch_after :
        (since : ℕ) (ticks : List Tick)
        → all (λ (t : Tick). all (is_canonical codec) t.rows) ticks ≡ true
        → all
            (λ batch. all (less (stamp codec since)) (stamps codec batch))
            (watch codec by_time aggregate since ticks)
          ≡ true
    unfolding watch
    watch_after since [] h = refl
    watch_after since (tick ∷ ticks) h =
        elim (Result-cases (fetch_since codec by_time tick.failure tick.rows aggregate since)) [
          | inr (x, failed) ↦ rw (failed, watch) refl
          | inl (es, good) ↦
              let (late, sorted) =
                fetched tick.failure tick.rows since es
                  (and_left (all (is_canonical codec) tick.rows) _ h) good in
              let sent = send_all tick.accepts 0 since es in
              let here_late =
                send_all-all codec (less (stamp codec since)) tick.accepts 0 since es late in
              let moved : not (less (stamp codec sent.1.0) (stamp codec since)) ≡ true =
                send_all-last codec (λ t. not (less t (stamp codec since))) tick.accepts 0 since es
                  (ap not (less_irrefl (stamp codec since)))
                  (all_mono (λ t. not (less t (stamp codec since))) (less (stamp codec since))
                    (stamps codec es) (λ t a. not_both (stamp codec since) t a) late) in
              let later =
                watch_after sent.1.0 ticks (and_right (all (is_canonical codec) tick.rows) _ h) in
              let rest_late =
                all_mono (λ batch. all (less (stamp codec since)) (stamps codec batch))
                  (λ batch. all (less (stamp codec sent.1.0)) (stamps codec batch))
                  (watch codec by_time aggregate sent.1.0 ticks)
                  (λ batch a.
                    all_mono (less (stamp codec since)) (less (stamp codec sent.1.0))
                      (stamps codec batch)
                      (λ t k.
                        less_after (stamp codec since) (stamp codec sent.1.0) t k (unnegated moved))
                      a)
                  later in
              rw (good, watch)
                (and_true here_late (
                  if_alive (λ batch. all (less (stamp codec since)) (stamps codec batch)) sent.1.1
                    (watch codec by_time aggregate sent.1.0 ticks) rest_late))
        ]

    rising_alive :
        (b : Bool) (batches : List (List Event))
        → is_rising codec batches ≡ true
        → is_rising codec (if b then batches else []) ≡ true
    rising_alive true batches h = h
    rising_alive false batches h = refl

    -- Whatever the log holds at each tick, and whichever queries and Sends fail: if every text in it is what
    -- Format makes of the time read from it, each event of the stream has a greater text than every event
    -- sent at an earlier tick; so none is sent at two ticks.
    pub watch_rising :
        (since : ℕ) (ticks : List Tick)
        → all (λ (t : Tick). all (is_canonical codec) t.rows) ticks ≡ true
        → is_rising codec (watch codec by_time aggregate since ticks) ≡ true
    unfolding watch
    watch_rising since [] h = refl
    watch_rising since (tick ∷ ticks) h =
        elim (Result-cases (fetch_since codec by_time tick.failure tick.rows aggregate since)) [
          | inr (x, failed) ↦ rw (failed, watch) refl
          | inl (es, good) ↦
              let (late, sorted) =
                fetched tick.failure tick.rows since es
                  (and_left (all (is_canonical codec) tick.rows) _ h) good in
              let sent = send_all tick.accepts 0 since es in
              let le_last = send_all-le codec tick.accepts 0 since es sorted in
              let ticks_ok = and_right (all (is_canonical codec) tick.rows) _ h in
              let rest = watch codec by_time aggregate sent.1.0 ticks in
              let apart =
                all_mono
                  (λ later.
                    all (λ t. all (λ s. less s t) (stamps codec sent.0)) (stamps codec later))
                  (λ batch. all (less (stamp codec sent.1.0)) (stamps codec batch)) rest
                  (λ batch a.
                    all_mono (λ t. all (λ s. less s t) (stamps codec sent.0))
                      (less (stamp codec sent.1.0)) (stamps codec batch)
                      (λ t k.
                        all_mono (λ s. less s t) (λ s. not (less (stamp codec sent.1.0) s))
                          (stamps codec sent.0)
                          (λ s le. less_after s (stamp codec sent.1.0) t k (unnegated le)) le_last)
                      a)
                  (watch_after sent.1.0 ticks ticks_ok) in
              rw (good, watch)
                (and_true
                  (if_alive
                    (λ later.
                      all (λ t. all (λ s. less s t) (stamps codec sent.0)) (stamps codec later))
                    sent.1.1 rest apart)
                  (rising_alive sent.1.1 rest (watch_rising sent.1.0 ticks ticks_ok)))
        ]

  -- The rows that Append writes are read as they were written, if time.Parse reads what Format wrote.
  pub to_row_canonical :
      (e : Event)
      → codec.parse_time (stamp codec e.occurred_at) ≡ ok e.occurred_at
      → is_canonical codec (to_row codec e) ≡ true
  to_row_canonical e h = rw (h, is_canonical) (text_eq_refl (stamp codec e.occurred_at))

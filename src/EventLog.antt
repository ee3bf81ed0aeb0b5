-- ===== src/EventLog.antt =====
-- internal/eventlog/sqlite.go over the table event_log, and the stream WatchCustomerEvents of
-- internal/customer/grpc.go, which polls it. Times are nanoseconds since the zero time of Go.
pub mod Order
pub mod Reading
pub mod Stream
pub mod Gaps
pub mod Tests
use go_blueprint.Prelude.{
  ℕ, zero, suc, ◌+◌, ◌-◌, ◌*◌, ◌/◌, ◌≤◌, ◌<◌, ◌≡◌, ◌≢◌, refl, sym, ap, ◌∙◌, ◌⊎◌, ◌↔◌, inl, inr,
  Bool, true, false, not, ◌&&◌, ◌||◌, Option, none, some, List, [], ◌∷◌, ◌++◌, map, arith, ltb, leb,
  ◌==◌, if◌then◌else◌, Bool-cases, Option-cases, is_none, any, find, Text, codes, text_eq, length,
  is_empty,
}
use go_blueprint.Prelude.{select, ◌^◌, ◌%◌}
use go_blueprint.Errors.{Error, Result, ok, err, wrap, within, Fate, settle, reply, ◌>>=◌, text}

-- eventlog.Event.
pub record Event : Type 0 where
  pub id : ℕ
  pub aggregate : ℕ
  pub event_type : Text
  pub payload : Text
  pub occurred_at : ℕ

-- A row of event_log: its columns are texts.
pub record Row : Type 0 where
  pub id : Text
  pub aggregate : Text
  pub event_type : Text
  pub payload : Text
  pub occurred_at : Text

-- The calendar down to the second, time.Parse, and package uuid.
pub record Codec : Type 0 where
  pub second_text : ℕ → Text
  pub parse_time : Text → Result ℕ
  pub uuid_text : ℕ → Text
  pub parse_uuid : Text → Result ℕ

-- The digits of a fraction below 10^k, without zeros at the end.
unfoldable pub fraction_digits : ℕ → ℕ → Text
fraction_digits zero n = []
fraction_digits (suc k) n =
    let rest = fraction_digits k (n % 10 ^ k) in if n == 0 then [] else (b'0' + n / 10 ^ k) ∷ rest

abbrev pub fraction : ℕ → Text
fraction n = if n == 0 then [] else b'.' ∷ fraction_digits 9 n

-- Comparison of two texts in SQLite: byte by byte.
unfoldable pub less : Text → Text → Bool
less [] [] = false
less [] (d ∷ t) = true
less (c ∷ s) [] = false
less (c ∷ s) (d ∷ t) = ltb c d || (c == d && less s t)

-- The Sends of one tick: `accepts n` says whether the n-th succeeds. What was sent, `since` after it, and
-- whether the stream goes on.
pub send_all : (ℕ → Bool) → ℕ → ℕ → List Event → List Event × (ℕ × Bool)
send_all accepts n since [] = ([], (since, true))
send_all accepts n since (e ∷ es) =
    let rest = send_all accepts (suc n) e.occurred_at es in
    if accepts n then (e ∷ rest.0, rest.1) else ([], (since, false))

-- A tick: the rows that are there, an error of the query, and the answers of Send.
pub record Tick : Type 0 where
  pub rows : List Row
  pub failure : Option Error
  pub accepts : ℕ → Bool

pub data Ended : Type 0 where
  client_gone send_failed : Ended
  internal : Text → Ended

module _ (codec : Codec) where
  -- UTC().Format(time.RFC3339Nano).
  unfoldable pub stamp : ℕ → Text
  unfolding fraction_digits
  stamp t = codec.second_text (t / 1_000_000_000) ++ (fraction (t % 1_000_000_000) ++ b'Z' ∷ [])

  abbrev pub to_row : Event → Row
  to_row e = record {
    id = codec.uuid_text e.id;
    aggregate = codec.uuid_text e.aggregate;
    event_type = e.event_type;
    payload = e.payload;
    occurred_at = stamp e.occurred_at;
  }

  -- sqliteStore.Append; the id is the primary key.
  unfoldable pub append : Fate → List Row → Event → List Row × Result (Unit {0})
  append fate rows e =
      if any (λ r. text_eq r.id (codec.uuid_text e.id)) rows
      then (
        rows,
        err (
            wrap (codes "eventlog: append " ++ e.event_type)
              (Error.opaque (codes "UNIQUE constraint failed"))),
      )
      else (
        settle fate rows (rows ++ to_row e ∷ []),
        within (codes "eventlog: append " ++ e.event_type) (reply fate),
      )

  -- The body of the loop of FetchSince.
  unfoldable pub from_row : Row → Result Event
  from_row r = do
    id ← within (codes "eventlog: parse event id") (codec.parse_uuid r.id)
    aggregate ← within (codes "eventlog: parse aggregate id") (codec.parse_uuid r.aggregate)
    at ← within (codes "eventlog: parse occurred_at") (codec.parse_time r.occurred_at)
    ok (record {
      id = id;
      aggregate = aggregate;
      event_type = r.event_type;
      payload = r.payload;
      occurred_at = at;
    })

  unfoldable pub from_rows : List Row → Result (List Event)
  unfolding from_row
  from_rows [] = ok []
  from_rows (r ∷ rows) =
      let rest = from_rows rows in
      elim (from_row r) [ err e ↦ err e | ok e ↦ elim rest [ err x ↦ err x | ok es ↦ ok (e ∷ es) ] ]

  -- The WHERE of FetchSince: an empty id names every aggregate.
  abbrev pub is_since : Text → ℕ → Row → Bool
  is_since aggregate since r =
      (is_empty aggregate || text_eq r.aggregate aggregate) && less (stamp since) r.occurred_at

  -- sqliteStore.FetchSince; `by_time` is ORDER BY occurred_at, and `failure` an error of the query.
  unfoldable pub fetch_since :
      (List Row → List Row) → Option Error → List Row → Text → ℕ → Result (List Event)
  unfolding from_rows
  fetch_since by_time (some e) rows aggregate since = err (wrap (codes "eventlog: fetch since") e)
  fetch_since by_time none rows aggregate since =
      from_rows (by_time (select (is_since aggregate since) rows))

  -- WatchCustomerEvents from a `since` on: what it sends at each tick, until the client is gone, a query
  -- fails or a Send fails.
  unfoldable pub watch : (List Row → List Row) → Text → ℕ → List Tick → List (List Event)
  unfolding send_all
  watch by_time aggregate since [] = []
  watch by_time aggregate since (tick ∷ ticks) =
      elim (fetch_since by_time tick.failure tick.rows aggregate since) [
        | err e ↦ []
        | ok events ↦
            let done_ = send_all tick.accepts 0 since events in
            let rest = watch by_time aggregate done_.1.0 ticks in
            done_.0 ∷ (if done_.1.1 then rest else [])
      ]

  -- How it ends: the client is gone, FetchSince failed (codes.Internal), or a Send failed.
  unfoldable pub watch_end : (List Row → List Row) → Text → ℕ → List Tick → Ended
  unfolding send_all
  watch_end by_time aggregate since [] = client_gone
  watch_end by_time aggregate since (tick ∷ ticks) =
      elim (fetch_since by_time tick.failure tick.rows aggregate since) [
        | err e ↦ internal (codes "event log: " ++ text e)
        | ok events ↦
            let done_ = send_all tick.accepts 0 since events in
            let rest = watch_end by_time aggregate done_.1.0 ticks in
            if done_.1.1 then rest else send_failed
      ]

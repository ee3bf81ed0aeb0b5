-- ===== src/EventLog/Tests.antt =====
-- A stream of customer events on a concrete log.
use mathlib.Core.List.Perm
use mathlib.Core.List.{Perm}
use go_blueprint.EventLog.{to_row, from_row}
use go_blueprint.Prelude.{
  and_right, and_left, ap, arith, not, Bool, false, and_true, refl, true, inr, none, ◌≡◌, inl,
  text_eq, Bool-cases, map, ◌^◌, ℕ, zero, suc, ◌+◌, ◌-◌, ◌*◌, List, [], ◌∷◌, ◌==◌, if◌then◌else◌,
  Text, codes,
}
use go_blueprint.EventLog.Order.{less_after}
use go_blueprint.EventLog.{
  send_all, from_rows, fetch_since, fraction_digits, stamp, Tick, watch, Event, Row, Codec, less,
}
use go_blueprint.Errors.{Error, ok, err, Result}
use go_blueprint.EventLog.Stream.{watch_rising}
use go_blueprint.EventLog.Reading.{is_rising, times, is_sorted, not_both}
use go_blueprint.Prelude.Every.{all_mono, all}

-- Seconds are one code, so that a text is read back from it.
abbrev digits : ℕ → Text → ℕ
digits k [] = 0
digits zero (c ∷ s) = 0
digits (suc k) (c ∷ s) = if c == b'Z' then 0 else (c - b'0') * 10 ^ k + digits k s

abbrev read_stamp : Text → Result ℕ
read_stamp [] = err (Error.opaque (codes "empty"))
read_stamp (s ∷ []) = ok (s * 1_000_000_000)
read_stamp (s ∷ c ∷ t) = ok (s * 1_000_000_000 + (if c == b'.' then digits 9 t else 0))

abbrev first_code : Text → Result ℕ
first_code [] = err (Error.opaque (codes "empty"))
first_code (c ∷ s) = ok c

abbrev codec : Codec
codec = record {
  second_text = λ s. s ∷ [];
  parse_time = read_stamp;
  uuid_text = λ n. n ∷ [];
  parse_uuid = first_code;
}

abbrev happened : ℕ → ℕ → Event
happened id at = record {
  id = id;
  aggregate = 9;
  event_type = codes "CustomerUpdated";
  payload = codes "{}";
  occurred_at = at;
}

-- Insertion by text.
insert : Row → List Row → List Row
insert r [] = r ∷ []
insert r (s ∷ rows) = if less s.occurred_at r.occurred_at then s ∷ insert r rows else r ∷ s ∷ rows

by_time : List Row → List Row
unfolding insert
by_time [] = []
by_time (r ∷ rows) = insert r (by_time rows)

insert-Perm : (r : Row) (rows : List Row) → Perm (r ∷ rows) (insert r rows)
unfolding insert
insert-Perm r [] = Perm.refl (r ∷ [])
insert-Perm r (s ∷ rows) = elim (Bool-cases (less s.occurred_at r.occurred_at)) [
  | inl later ↦
      rw (later, insert) (Perm.trans (Perm.swap s r rows) (Perm.cons s (insert-Perm r rows)))
  | inr first ↦ rw (first, insert) (Perm.refl (r ∷ s ∷ rows))
]

by_time-Perm : (rows : List Row) → Perm rows (by_time rows)
unfolding by_time
by_time-Perm [] = Perm.refl []
by_time-Perm (r ∷ rows) =
    Perm.trans (Perm.cons r (by_time-Perm rows)) (insert-Perm r (by_time rows))

all-insert :
    (q : Text → Bool) (r : Row) (rows : List Row)
    → q r.occurred_at ≡ true
    → all q (times rows) ≡ true
    → all q (times (insert r rows)) ≡ true
unfolding insert
all-insert q r [] h k = and_true h refl
all-insert q r (s ∷ rows) h k = ground (arith, h, k, all-insert q r rows)

le_trans : (s t u : Text) → less t s ≡ false → not (less u t) ≡ true → not (less u s) ≡ true
le_trans s t u h k = elim (Bool-cases (less u s)) [
  | inl bad ↦ cc (h, less_after t u s bad (ground (arith, k)))
  | inr good ↦ ap not good
]

insert-sorted :
    (r : Row) (rows : List Row)
    → is_sorted (times rows) ≡ true
    → is_sorted (times (insert r rows)) ≡ true
unfolding insert
insert-sorted r [] h = refl
insert-sorted r (s ∷ rows) h = elim (Bool-cases (less s.occurred_at r.occurred_at)) [
  | inl later ↦
      rw (later, insert)
        (and_true
          (all-insert (λ u. not (less u s.occurred_at)) r rows
            (not_both s.occurred_at r.occurred_at later) (and_left _ _ h))
          (insert-sorted r rows (and_right _ _ h)))
  | inr first ↦
      rw (first, insert)
        (and_true
          (and_true (ap not first) (
            all_mono (λ u. not (less u r.occurred_at)) (λ u. not (less u s.occurred_at))
              (times rows) (λ u k. le_trans r.occurred_at s.occurred_at u first k)
              (and_left _ _ h)))
          h)
]

by_time-sorted : (rows : List Row) → is_sorted (times (by_time rows)) ≡ true
unfolding by_time
by_time-sorted [] = refl
by_time-sorted (r ∷ rows) = insert-sorted r (by_time rows) (by_time-sorted rows)

abbrev log : List Event
log = happened 1 5_100_000_000 ∷ happened 2 4_000_000_001 ∷ []

abbrev ticks : List Tick
ticks =
    record { rows = map (to_row codec) log; failure = none; accepts = λ n. true }
    ∷ record {
      rows = map (to_row codec) (happened 3 6_000_000_000 ∷ log);
      failure = none;
      accepts = λ n. true;
    }
    ∷ []

watch_rising_example : is_rising codec (watch codec by_time [] 0 ticks) ≡ true
unfolding stamp fraction_digits text_eq
watch_rising_example =
    watch_rising codec by_time (record { perm = by_time-Perm; sorted = by_time-sorted }) [] 0 ticks
      refl

sends_two_then_one :
    map (λ batch. map (λ (e : Event). e.id) batch) (watch codec by_time [] 0 ticks)
    ≡ (2 ∷ 1 ∷ []) ∷ (3 ∷ []) ∷ []
unfolding watch fetch_since from_rows from_row stamp fraction_digits by_time insert less send_all
sends_two_then_one = refl

-- ===== src/EventLog/Reading.antt =====
-- What reading the rows of the event log and sending them keeps of their texts.
use go_blueprint.Prelude.{
  and_right, and_left, text_eq_iff, ℕ, suc, ◌≡◌, refl, sym, ap, ◌∙◌, inl, inr, Bool, true, false,
  not, ◌&&◌, List, [], ◌∷◌, map, arith, if◌then◌else◌, Bool-cases, Text, text_eq,
}
use mathlib.Core.List.{Perm}
use go_blueprint.Prelude.Every.{all}
use go_blueprint.Errors.{ok, err, Result-cases}
use go_blueprint.EventLog.{Event, Row, Codec, stamp, less, from_row, from_rows, send_all}
use go_blueprint.EventLog.Order.{less_trans, less_irrefl}

abbrev pub is_sorted : List Text → Bool
is_sorted [] = true
is_sorted (t ∷ ts) = all (λ u. not (less u t)) ts && is_sorted ts

abbrev pub times : List Row → List Text
times rows = map (λ (r : Row). r.occurred_at) rows

-- Documented behaviour of ORDER BY: the same rows, in the order of the texts.
pub record IsByTime (by_time : List Row → List Row) : Type 0 where
  pub perm : (rows : List Row) → Perm rows (by_time rows)
  pub sorted : (rows : List Row) → is_sorted (times (by_time rows)) ≡ true

pub not_both : (s t : Text) → less s t ≡ true → not (less t s) ≡ true
not_both s t h = elim (Bool-cases (less t s)) [
  | inl k ↦ cc (less_irrefl s, less_trans s t s h k)
  | inr k ↦ ap not k
]

pub unnegated : {b : Bool} → not b ≡ true → b ≡ false
unnegated {b} h = ground (arith, h)

pub if_alive :
    {A : Type 0} (q : A → Bool) (b : Bool) (xs : List A)
    → all q xs ≡ true
    → all q (if b then xs else []) ≡ true
if_alive q true xs h = h
if_alive q false xs h = refl

module _ (codec : Codec) where
  -- The text of the row is what time.Parse and Format make of it again.
  abbrev pub is_canonical : Row → Bool
  is_canonical r = elim (codec.parse_time r.occurred_at) [
    | err e ↦ true
    | ok t ↦ text_eq (stamp codec t) r.occurred_at
  ]

  abbrev pub stamps : List Event → List Text
  stamps es = map (λ (e : Event). stamp codec e.occurred_at) es

  -- Each event has a later text than all those of the batches before its own.
  abbrev pub is_rising : List (List Event) → Bool
  is_rising [] = true
  is_rising (batch ∷ batches) =
      all (λ later. all (λ t. all (λ s. less s t) (stamps batch)) (stamps later)) batches
      && is_rising batches

  from_row_time :
      (r : Row) (e : Event)
      → from_row codec r ≡ ok e
      → is_canonical r ≡ true
      → r.occurred_at ≡ stamp codec e.occurred_at
  unfolding from_row
  from_row_time r e h k = elim (Result-cases (codec.parse_uuid r.id)) [
    | inr (x, bad) ↦ cc (rw (bad, from_row) at h)
    | inl (id, good) ↦ elim (Result-cases (codec.parse_uuid r.aggregate)) [
      | inr (x, bad) ↦ cc (rw (good, bad, from_row) at h)
      | inl (aggregate, fine) ↦ elim (Result-cases (codec.parse_time r.occurred_at)) [
        | inr (x, bad) ↦ cc (rw (good, fine, bad, from_row) at h)
        | inl (t, read) ↦
            let at_is : t ≡ e.occurred_at = ground (arith, rw (good, fine, read, from_row) at h) in
            sym ((text_eq_iff (stamp codec t) r.occurred_at).0 (rw (read, is_canonical) at k))
            ∙ ap (stamp codec) at_is
      ]
    ]
  ]

  pub from_rows-times :
      (rows : List Row) (es : List Event)
      → from_rows codec rows ≡ ok es
      → all is_canonical rows ≡ true
      → times rows ≡ stamps es
  unfolding from_rows
  from_rows-times [] es h k = let same : [] ≡ es = cc h in ap stamps same
  from_rows-times (r ∷ rows) es h k = elim (Result-cases (from_row codec r)) [
    | inr (x, bad) ↦ cc (rw (bad, from_rows) at h)
    | inl (e, good) ↦ elim (Result-cases (from_rows codec rows)) [
      | inr (x, bad) ↦ cc (rw (good, bad, from_rows) at h)
      | inl (rest, fine) ↦
          let es_is : e ∷ rest ≡ es = cc (rw (good, fine, from_rows) at h) in
          ap (λ t. t ∷ times rows)
            (from_row_time r e good (and_left (is_canonical r) (all is_canonical rows) k))
          ∙ ap (λ ts. stamp codec e.occurred_at ∷ ts)
              (from_rows-times rows rest fine
                (and_right (is_canonical r) (all is_canonical rows) k))
          ∙ ap stamps es_is
    ]
  ]

  -- What holds of the texts of a batch before the Sends, and of the last one sent.
  pub send_all-all :
      (q : Text → Bool) (accepts : ℕ → Bool) (n since : ℕ) (es : List Event)
      → all q (stamps es) ≡ true
      → all q (stamps (send_all accepts n since es).0) ≡ true
  unfolding send_all
  send_all-all q accepts n since [] h = h
  send_all-all q accepts n since (e ∷ es) h =
      ground (arith, h, send_all-all q accepts (suc n) e.occurred_at es)

  pub send_all-last :
      (q : Text → Bool) (accepts : ℕ → Bool) (n since : ℕ) (es : List Event)
      → q (stamp codec since) ≡ true
      → all q (stamps es) ≡ true
      → q (stamp codec (send_all accepts n since es).1.0) ≡ true
  unfolding send_all
  send_all-last q accepts n since [] k h = k
  send_all-last q accepts n since (e ∷ es) k h =
      ground (arith, k, h, send_all-last q accepts (suc n) e.occurred_at es)

  -- The texts sent are not greater than that of the last.
  pub send_all-le :
      (accepts : ℕ → Bool) (n since : ℕ) (es : List Event)
      → is_sorted (stamps es) ≡ true
      → all
          (λ t. not (less (stamp codec (send_all accepts n since es).1.0) t))
          (stamps (send_all accepts n since es).0)
        ≡ true
  unfolding send_all
  send_all-le accepts n since [] h = refl
  send_all-le accepts n since (e ∷ es) h =
      let at = stamp codec e.occurred_at in
      let later = and_left (all (λ u. not (less u at)) (stamps es)) (is_sorted (stamps es)) h in
      let last =
        send_all-last (λ t. not (less t at)) accepts (suc n) e.occurred_at es
          (ap not (less_irrefl at)) later in
      let sorted = and_right (all (λ u. not (less u at)) (stamps es)) (is_sorted (stamps es)) h in
      ground (arith, last, send_all-le accepts (suc n) e.occurred_at es sorted)

-- ===== src/Outbox/History.antt =====
-- Histories of the store: any sequence of statements, by any number of pollers and services.
use go_blueprint.Prelude.{
  and_left, ==_iff, inr, inl, Bool-cases, ◌++◌, contains, and_right, ℕ, ◌≡◌, refl, Bool, true,
  false, not, ◌&&◌, ◌||◌, List, [], ◌∷◌, arith, ◌==◌, is_none, any, Text,
}
use go_blueprint.Outbox.Store.{
  fresh_row, IsEngine, claimable, lock, mark_exhausted, mark_failed, update_row, mark_processed,
  claim_batch, save_tx, Engine,
}
use go_blueprint.Errors.{done, lost, ok, refused, settle, Fate}
use go_blueprint.Outbox.{Row, Message}
use go_blueprint.Prelude.Every.{all-select, all}
use go_blueprint.Outbox.Claims.{all-claimed, claim_ok}

-- One statement: its fate, its clock, and its arguments.
pub data Op : Type 0 where
  saves : Fate → ℕ → Message → Op
  claims : Fate → List ℕ → ℕ → ℕ → ℕ → ℕ → Op
  processes : Fate → ℕ → ℕ → Op
  fails : Fate → ℕ → ℕ → Text → ℕ → Op
  exhausts : Fate → ℕ → ℕ → Text → Op

module _ (e : Engine) where
  unfoldable pub apply : List Row → Op → List Row
  apply rows (saves fate now m) = (save_tx fate now rows m).0
  apply rows (claims fate held now limit reclaim max_attempts) =
      (claim_batch e fate held now limit reclaim max_attempts rows).0
  apply rows (processes fate now id) = (mark_processed fate now rows id).0
  apply rows (fails fate now id reason retry_after) =
      (mark_failed fate now rows id reason retry_after).0
  apply rows (exhausts fate now id reason) = (mark_exhausted fate now rows id reason).0

  unfoldable pub replay : List Row → List Op → List Row
  unfolding apply
  replay rows [] = rows
  replay rows (op ∷ ops) = replay (apply rows op) ops

-- The id has a row, and each of its rows carries processed_at.
abbrev pub is_retired : ℕ → List Row → Bool
is_retired id rows =
    any (λ r. r.id == id) rows && all (λ r. not (r.id == id) || not (is_none r.processed_at)) rows

module _ (id : ℕ) where
  -- A change of a row that keeps its id and takes no processed_at away.
  abbrev pub Keeps : (Row → Row) → Type 0
  Keeps change =
      (r : Row)
      → ((change r).id ≡ r.id)
        × (is_none r.processed_at ≡ false → is_none (change r).processed_at ≡ false)

  pub any-update_row :
      (target : ℕ) (change : Row → Row) (rows : List Row)
      → Keeps change
      → any (λ r. r.id == id) (update_row target change rows) ≡ any (λ r. r.id == id) rows
  unfolding update_row
  any-update_row target change [] k = refl
  any-update_row target change (r ∷ rows) k =
      ground (arith, k r, any-update_row target change rows k)

  all-update_row :
      (target : ℕ) (change : Row → Row) (rows : List Row)
      → Keeps change
      → all (λ r. not (r.id == id) || not (is_none r.processed_at)) rows ≡ true
      → all (λ r. not (r.id == id) || not (is_none r.processed_at)) (update_row target change rows)
        ≡ true
  unfolding update_row
  all-update_row target change [] k h = refl
  all-update_row target change (r ∷ rows) k h =
      ground (arith, k r, all-update_row target change rows k)

  pub any-lock :
      (now : ℕ) (chosen : List ℕ) (rows : List Row)
      → any (λ r. r.id == id) (lock now chosen rows) ≡ any (λ r. r.id == id) rows
  unfolding lock
  any-lock now chosen [] = refl
  any-lock now chosen (r ∷ rows) = ground (arith, any-lock now chosen rows)

  all-lock :
      (now : ℕ) (chosen : List ℕ) (rows : List Row)
      → all (λ r. not (r.id == id) || not (is_none r.processed_at)) rows ≡ true
      → all (λ r. not (r.id == id) || not (is_none r.processed_at)) (lock now chosen rows) ≡ true
  unfolding lock
  all-lock now chosen [] h = refl
  all-lock now chosen (r ∷ rows) h = ground (arith, all-lock now chosen rows)

  -- The two parts of `is_retired`, kept by a table that has the same ids.
  retired_of :
      (rows rows' : List Row)
      → any (λ r. r.id == id) rows' ≡ any (λ r. r.id == id) rows
      → (all (λ r. not (r.id == id) || not (is_none r.processed_at)) rows ≡ true
          → all (λ r. not (r.id == id) || not (is_none r.processed_at)) rows' ≡ true)
      → is_retired id rows ≡ true
      → is_retired id rows' ≡ true
  retired_of rows rows' same keep h =
      ground (arith, keep (and_right (any (λ r. r.id == id) rows) _ h))

  settle-is_retired :
      (fate : Fate) (rows rows' : List Row)
      → is_retired id rows ≡ true
      → is_retired id rows' ≡ true
      → is_retired id (settle fate rows rows') ≡ true
  settle-is_retired done rows rows' h k = k
  settle-is_retired (refused x) rows rows' h k = h
  settle-is_retired (lost x) rows rows' h k = k

  update-is_retired :
      (fate : Fate) (target : ℕ) (change : Row → Row) (rows : List Row)
      → Keeps change
      → is_retired id rows ≡ true
      → is_retired id (settle fate rows (update_row target change rows)) ≡ true
  update-is_retired fate target change rows k h = settle-is_retired fate rows _ h (
      retired_of rows _ (any-update_row target change rows k) (all-update_row target change rows k)
        h)

  any-append :
      (rows : List Row) (r : Row)
      → (r.id == id) ≡ false
      → any (λ s. s.id == id) (rows ++ r ∷ []) ≡ any (λ s. s.id == id) rows
  any-append [] r h = ground arith
  any-append (s ∷ rows) r h = ground (arith, any-append rows r h)

  all-append :
      (rows : List Row) (r : Row)
      → (r.id == id) ≡ false
      → all (λ s. not (s.id == id) || not (is_none s.processed_at)) rows ≡ true
      → all (λ s. not (s.id == id) || not (is_none s.processed_at)) (rows ++ r ∷ []) ≡ true
  all-append [] r h k = ground arith
  all-append (s ∷ rows) r h k = ground (arith, all-append rows r h)

  save-is_retired :
      (fate : Fate) (now : ℕ) (m : Message) (rows : List Row)
      → is_retired id rows ≡ true
      → is_retired id (save_tx fate now rows m).0 ≡ true
  unfolding save_tx
  save-is_retired fate now m rows h = elim (Bool-cases (any (λ r. r.id == m.id) rows)) [
    | inl known ↦ rw known h
    | inr new ↦ elim (Bool-cases (m.id == id)) [
      | inl same ↦
          cc (new, rw (← (==_iff m.id id).0 same) at (and_left (any (λ r. r.id == id) rows) _ h))
      | inr other ↦ rw new (
          settle-is_retired fate rows _ h (
            retired_of rows _ (any-append rows (fresh_row now m) other)
              (all-append rows (fresh_row now m) other) h))
    ]
  ]

  module _ (e : Engine) where
    pub apply-is_retired :
        (rows : List Row) (op : Op)
        → is_retired id rows ≡ true
        → is_retired id (apply e rows op) ≡ true
    unfolding apply claim_batch mark_processed mark_failed mark_exhausted
    apply-is_retired rows (saves fate now m) h = save-is_retired fate now m rows h
    apply-is_retired rows (claims fate held now limit reclaim max_attempts) h =
        settle-is_retired fate rows _ h
          (retired_of rows _ (any-lock now _ rows) (all-lock now _ rows) h)
    apply-is_retired rows (processes fate now target) h =
        update-is_retired fate target _ rows (λ r. (refl, λ _. refl)) h
    apply-is_retired rows (fails fate now target reason retry_after) h =
        update-is_retired fate target _ rows (λ r. (refl, λ k. k)) h
    apply-is_retired rows (exhausts fate now target reason) h =
        update-is_retired fate target _ rows (λ r. (refl, λ _. refl)) h

    replay-is_retired :
        (rows : List Row) (ops : List Op)
        → is_retired id rows ≡ true
        → is_retired id (replay e rows ops) ≡ true
    unfolding replay
    replay-is_retired rows [] h = h
    replay-is_retired rows (op ∷ ops) h =
        replay-is_retired (apply e rows op) ops (apply-is_retired rows op h)

  retired_not-claimable :
      (held : List ℕ) (now reclaim max_attempts : ℕ) (r : Row)
      → (not (r.id == id) || not (is_none r.processed_at)) ≡ true
      → (claimable now reclaim max_attempts r && not (contains r.id held)) ≡ true
      → not (r.id == id) ≡ true
  unfolding claimable
  retired_not-claimable held now reclaim max_attempts r k c = ground arith

module _ (e : Engine) (lawful : IsEngine e) where
  -- Once a message has a row and each of its rows carries processed_at, no claim returns it, whatever
  -- statements of the store ran in between, and whatever their fates.
  pub retired_never_claimed :
      (id : ℕ) (rows : List Row) (ops : List Op) (fate : Fate) (held : List ℕ)
      (now limit reclaim max_attempts : ℕ) (ms : List Message)
      → is_retired id rows ≡ true
      → (claim_batch e fate held now limit reclaim max_attempts (replay e rows ops)).1 ≡ ok ms
      → all (λ m. not (m.id == id)) ms ≡ true
  retired_never_claimed id rows ops fate held now limit reclaim max_attempts ms h c =
      let (_, same) = claim_ok e lawful fate held now limit reclaim max_attempts _ ms c in
      rw (← same) (
        all-claimed e lawful (λ i. not (i == id)) held now limit reclaim max_attempts _
          (all-select (λ r. not (r.id == id)) _ _ _
            (λ r k d. retired_not-claimable id held now reclaim max_attempts r k d)
            (and_right _ _ (replay-is_retired id e rows ops h))))

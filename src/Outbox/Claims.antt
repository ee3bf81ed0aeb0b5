-- ===== src/Outbox/Claims.antt =====
-- What ClaimBatch gives out: rows that may be claimed, each to one poller at a time.
use go_blueprint.Prelude.Every.{
  all, all_mono, all-select, all-map, all-take, all-Perm, all-true, all-contains,
}
use go_blueprint.Prelude.{
  inr, some, inl, and_left, Bool-cases, false, none, ◌+◌, or_true, ◌≤◌, any, ◌==◌, ◌||◌, sym, ◌∙◌,
  ℕ, ◌≡◌, refl, Bool, true, not, ◌&&◌, List, [], ◌∷◌, map, arith, select, contains,
}
use go_blueprint.Outbox.{Message, Row}
use go_blueprint.Outbox.Store.{
  message_ids, claim_batch, lock, Engine, IsEngine, claimable, chosen_ids,
}
use go_blueprint.Errors.{lost, refused, done, ok, Fate}

module _ (e : Engine) (lawful : IsEngine e) where
  -- A property of the ids of the rows that may be claimed is one of the ids that are chosen.
  all-chosen_ids :
      (p : ℕ → Bool) (held : List ℕ) (now limit reclaim max_attempts : ℕ) (rows : List Row)
      → all
          (λ r. p r.id)
          (select (λ r. claimable now reclaim max_attempts r && not (contains r.id held)) rows)
        ≡ true
      → all p (chosen_ids e held now limit reclaim max_attempts rows) ≡ true
  unfolding chosen_ids
  all-chosen_ids p held now limit reclaim max_attempts rows h =
      all-map p (λ r. r.id) _
      ∙ all-take (λ r. p r.id) limit _ (sym (all-Perm (λ r. p r.id) (lawful.by_created_perm _)) ∙ h)

  -- RETURNING gives rows that were chosen.
  all-returned :
      (chosen : List ℕ) (rows : List Row)
      → all
          (λ m. contains m.id chosen)
          (map (λ r. r.message) (e.returning (select (λ r. contains r.id chosen) rows)))
        ≡ true
  all-returned chosen rows =
      all-map (λ m. contains m.id chosen) (λ r. r.message) _
      ∙ sym (all-Perm (λ r. contains r.id chosen) (lawful.returning_perm _))
      ∙ all-select (λ r. contains r.id chosen) (λ r. true) (λ r. contains r.id chosen) rows
          (λ r _ c. c) (all-true rows)

-- Another row of the table passes the test and has the same id.
abbrev pub has_row : (Row → Bool) → List Row → ℕ → Bool
has_row test rows id = any (λ r. r.id == id && test r) rows

all-has_row :
    (test : Row → Bool) (rows : List Row)
    → all (λ r. has_row test rows r.id) (select test rows) ≡ true
all-has_row test [] = refl
all-has_row test (r ∷ rows) = ground (
  arith,
  all_mono (λ s. has_row test (r ∷ rows) s.id) (λ s. has_row test rows s.id) (select test rows)
      (λ s h. or_true (r.id == s.id && test r) h),
  all-has_row test rows,
)

-- Each row of a locked set carries the time of its claim.
abbrev locked_since : ℕ → Row → Bool
locked_since at r = elim r.locked_at [ none ↦ false | some t ↦ t == at ]

all-lock :
    (now : ℕ) (chosen : List ℕ) (rows : List Row)
    → all (λ r. not (contains r.id chosen) || locked_since now r) (lock now chosen rows) ≡ true
unfolding lock
all-lock now chosen [] = refl
all-lock now chosen (r ∷ rows) = ground (arith, all-lock now chosen rows)

not-claimable :
    (r : Row) (chosen : List ℕ) (first now reclaim max_attempts : ℕ)
    → now ≤ first + reclaim
    → (not (contains r.id chosen) || locked_since first r) ≡ true
    → claimable now reclaim max_attempts r ≡ true
    → not (contains r.id chosen) ≡ true
unfolding claimable
not-claimable r chosen first now reclaim max_attempts h k c = ground arith

module _ (e : Engine) (lawful : IsEngine e) where
  -- The messages that a claim returns.
  abbrev pub claimed : List ℕ → ℕ → List Row → List Message
  claimed chosen now rows =
      map (λ r. r.message) (e.returning (select (λ r. contains r.id chosen) (lock now chosen rows)))

  pub claim_ok :
      (fate : Fate) (held : List ℕ) (now limit reclaim max_attempts : ℕ) (rows : List Row)
      (ms : List Message)
      → (claim_batch e fate held now limit reclaim max_attempts rows).1 ≡ ok ms
      → (fate ≡ done)
        × (claimed (chosen_ids e held now limit reclaim max_attempts rows) now rows ≡ ms)
  unfolding claim_batch
  claim_ok done held now limit reclaim max_attempts rows ms h = ground arith
  claim_ok (refused x) held now limit reclaim max_attempts rows ms h = cc
  claim_ok (lost x) held now limit reclaim max_attempts rows ms h = cc

  pub claim_done-0 :
      (held : List ℕ) (now limit reclaim max_attempts : ℕ) (rows : List Row)
      → (claim_batch e done held now limit reclaim max_attempts rows).0
        ≡ lock now (chosen_ids e held now limit reclaim max_attempts rows) rows
  unfolding claim_batch
  claim_done-0 held now limit reclaim max_attempts rows = refl

  -- What holds of the ids of the rows that may be claimed holds of the messages that a claim returns.
  pub all-claimed :
      (p : ℕ → Bool) (held : List ℕ) (now limit reclaim max_attempts : ℕ) (rows : List Row)
      → all
          (λ r. p r.id)
          (select (λ r. claimable now reclaim max_attempts r && not (contains r.id held)) rows)
        ≡ true
      → all (λ m. p m.id) (claimed (chosen_ids e held now limit reclaim max_attempts rows) now rows)
        ≡ true
  all-claimed p held now limit reclaim max_attempts rows h =
      all_mono (λ m. p m.id)
        (λ m. contains m.id (chosen_ids e held now limit reclaim max_attempts rows)) _
        (λ m c.
          all-contains p m.id _
            (all-chosen_ids e lawful p held now limit reclaim max_attempts rows h) c)
        (all-returned e lawful _ _)

  -- Every message that ClaimBatch returns has the id of a row that no other transaction holds, is not
  -- processed, has used fewer than `max_attempts` deliveries, is due, and is not locked or was locked
  -- more than `reclaim` ago.
  pub claim_sound :
      (fate : Fate) (held : List ℕ) (now limit reclaim max_attempts : ℕ) (rows : List Row)
      (ms : List Message)
      → (claim_batch e fate held now limit reclaim max_attempts rows).1 ≡ ok ms
      → all
          (λ m.
            has_row
              (λ r. claimable now reclaim max_attempts r && not (contains r.id held))
              rows
              m.id)
          ms
        ≡ true
  claim_sound fate held now limit reclaim max_attempts rows ms h =
      let (_, same) = claim_ok fate held now limit reclaim max_attempts rows ms h in
      rw (← same)
        (all-claimed (has_row _ rows) held now limit reclaim max_attempts rows (all-has_row _ rows))

  pub locked_not_claimed :
      (chosen held : List ℕ) (now now' limit reclaim max_attempts : ℕ) (rows : List Row)
      → now' ≤ now + reclaim
      → all
          (λ m. not (contains m.id chosen))
          (claimed
            (chosen_ids e held now' limit reclaim max_attempts (lock now chosen rows))
            now'
            (lock now chosen rows))
        ≡ true
  locked_not_claimed chosen held now now' limit reclaim max_attempts rows h =
      all-claimed (λ i. not (contains i chosen)) held now' limit reclaim max_attempts _
        (all-select (λ r. not (contains r.id chosen))
          (λ r. not (contains r.id chosen) || locked_since now r) _ _
          (λ r k c. not-claimable r chosen now now' reclaim max_attempts h k (and_left _ _ c))
          (all-lock now chosen rows))

  pub claimed_ids :
      (chosen : List ℕ) (now : ℕ) (rows : List Row) (i : ℕ)
      → not (contains i chosen) ≡ true
      → not (contains i (message_ids (claimed chosen now rows))) ≡ true
  claimed_ids chosen now rows i h =
      elim (Bool-cases (contains i (message_ids (claimed chosen now rows)))) [
        | inl c ↦ cc (
            all-contains (λ j. contains j chosen) i _
              (all-map (λ j. contains j chosen) (λ m. m.id) _ ∙ all-returned e lawful chosen _) c)
        | inr c ↦ rw c
      ]

  -- Two claims that succeed, the second on the table that the first left and within `reclaim` of it, never
  -- return the same message.
  pub claim_disjoint :
      (fate fate' : Fate) (held held' : List ℕ) (now now' limit limit' reclaim max_attempts : ℕ)
      (rows : List Row) (ms ms' : List Message)
      → now' ≤ now + reclaim
      → (claim_batch e fate held now limit reclaim max_attempts rows).1 ≡ ok ms
      → (claim_batch e fate' held' now' limit' reclaim max_attempts
          (claim_batch e fate held now limit reclaim max_attempts rows).0).1
        ≡ ok ms'
      → all (λ m. not (contains m.id (message_ids ms))) ms' ≡ true
  claim_disjoint fate fate' held held' now now' limit limit' reclaim max_attempts rows ms ms' h c
        c' =
      let (took, same) = claim_ok fate held now limit reclaim max_attempts rows ms c in
      let chosen = chosen_ids e held now limit reclaim max_attempts rows in
      let (_, same') =
        claim_ok fate' held' now' limit' reclaim max_attempts (lock now chosen rows) ms'
          (rw (took, claim_done-0) at c') in
      rw (← same, ← same')
        (all_mono (λ m. not (contains m.id (message_ids (claimed chosen now rows))))
          (λ m. not (contains m.id chosen)) _ (λ m. claimed_ids chosen now rows m.id)
          (locked_not_claimed chosen held' now now' limit' reclaim max_attempts rows h))

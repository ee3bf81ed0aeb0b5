-- ===== src/Process/Due.antt =====
-- A tick of the poller claims every due message and queues a job for it, if the batch and the buffer are large enough.
use native.Mathlib.Nat.{ℕ_set}
use go_blueprint.Prelude.{
  append_assoc, lt→ltb, append-nil, or_true, ℕ, zero, suc, ◌+◌, ◌≤◌, ◌<◌, ◌≡◌, refl, sym, ap, ◌∙◌,
  inl, inr, Bool, true, false, not, ◌&&◌, List, [], ◌∷◌, ◌++◌, map, arith, ◌==◌, Bool-cases, any,
  length,
}
use mathlib.Core.Logic.{∥∥₁_elim}
use mathlib.Core.List.{Perm, Permᴰ}
use go_blueprint.Prelude.{take, select, contains, length-append, ==_iff}
use go_blueprint.Prelude.Every.{all, all-Perm}
use go_blueprint.Errors.{done}
use go_blueprint.Outbox.{Message, Row}
use go_blueprint.Outbox.Store.{
  Engine, IsEngine, claim_batch, lock, chosen_ids, claimable, message_ids,
}
use go_blueprint.Outbox.Claims.{has_row, claimed}
use go_blueprint.Outbox.History
use go_blueprint.Outbox.Poller.{Poller, poll, submit_all, reclaim_after}
use go_blueprint.Worker.{accepted, Pool, open_for_jobs, submit, send}

length-Permᴰ : {A : Type 0} {xs ys : List A} → Permᴰ xs ys → length xs ≡ length ys
length-Permᴰ Permᴰ.nil = refl
length-Permᴰ (Permᴰ.cons e d) = ap suc (length-Permᴰ d)
length-Permᴰ (Permᴰ.swap {l} e f) = refl
length-Permᴰ (Permᴰ.trans c d) = length-Permᴰ c ∙ length-Permᴰ d

length-Perm : {A : Type 0} {xs ys : List A} → Perm xs ys → length xs ≡ length ys
length-Perm d = ∥∥₁_elim d (ℕ_set _ _) length-Permᴰ

take_whole : {A : Type 0} (n : ℕ) (xs : List A) → length xs ≤ n → take n xs ≡ xs
take_whole zero [] h = refl
take_whole zero (x ∷ xs) h = absurd (omega (arith, h))
take_whole (suc n) [] h = refl
take_whole (suc n) (x ∷ xs) h = ap (λ l. x ∷ l) (take_whole n xs (omega (arith, h)))

absent_all :
    {A : Type 0} (f : A → ℕ) (i : ℕ) (xs : List A)
    → contains i (map f xs) ≡ false
    → all (λ x. not (f x == i)) xs ≡ true
absent_all f i [] h = refl
absent_all f i (x ∷ xs) h = ground (arith, absent_all f i xs)

absent_rows :
    (i : ℕ) (rows : List Row)
    → contains i (message_ids (map (λ (r : Row). r.message) rows)) ≡ false
    → all (λ (r : Row). not (r.id == i)) rows ≡ true
absent_rows i [] h = refl
absent_rows i (r ∷ rows) h = ground (arith, absent_rows i rows)

unselected :
    (i : ℕ) (test : Row → Bool) (rows : List Row)
    → all (λ r. not (r.id == i)) (select test rows) ≡ true
    → has_row test rows i ≡ false
unselected i test [] h = refl
unselected i test (r ∷ rows) h = ground (arith, unselected i test rows)

unlisted :
    (i : ℕ) (chosen : List ℕ) (rows : List Row)
    → contains i chosen ≡ true
    → all (λ r. not (r.id == i)) (select (λ r. contains r.id chosen) rows) ≡ true
    → any (λ r. r.id == i) rows ≡ false
unlisted i chosen [] h k = refl
unlisted i chosen (r ∷ rows) h k = elim (Bool-cases (r.id == i)) [
  | inl same ↦
      let c : contains r.id chosen ≡ true =
        ap (λ n. contains n chosen) ((==_iff r.id i).0 same) ∙ h in
      ground (arith, c, same, k)
  | inr other ↦ ground (arith, other, unlisted i chosen rows h)
]

module _ (e : Engine) (lawful : IsEngine e) where
  due_chosen :
      (i now limit reclaim max_attempts : ℕ) (rows : List Row)
      → has_row (λ r. claimable now reclaim max_attempts r && not (contains r.id [])) rows i ≡ true
      → length (select (λ r. claimable now reclaim max_attempts r && not (contains r.id [])) rows)
        ≤ limit
      → contains i (chosen_ids e [] now limit reclaim max_attempts rows) ≡ true
  unfolding chosen_ids
  due_chosen i now limit reclaim max_attempts rows due fits =
      let test = λ (r : Row). claimable now reclaim max_attempts r && not (contains r.id []) in
      let found = select test rows in
      let perm = lawful.by_created_perm found in
      let whole : take limit (e.by_created found) ≡ e.by_created found =
        take_whole limit (e.by_created found) (omega (arith, length-Perm perm, fits)) in
      rw whole (elim (Bool-cases (contains i (map (λ (r : Row). r.id) (e.by_created found)))) [
        | inl listed ↦ listed
        | inr missing ↦ cc (
            sym due
            ∙ unselected i test rows (
                all-Perm (λ r. not (r.id == i)) perm
                ∙ absent_all (λ (r : Row). r.id) i (e.by_created found) missing))
      ])

  chosen_claimed :
      (i now : ℕ) (chosen : List ℕ) (rows : List Row)
      → contains i chosen ≡ true
      → any (λ r. r.id == i) rows ≡ true
      → contains i (message_ids (claimed e lawful chosen now rows)) ≡ true
  chosen_claimed i now chosen rows h k =
      let locked = lock now chosen rows in
      let kept = select (λ (r : Row). contains r.id chosen) locked in
      let listing = message_ids (map (λ (r : Row). r.message) (e.returning kept)) in
      elim (Bool-cases (contains i listing)) [
        | inl listed ↦ listed
        | inr missing ↦
            let none_left : all (λ (r : Row). not (r.id == i)) kept ≡ true =
              all-Perm (λ r. not (r.id == i)) (lawful.returning_perm kept)
              ∙ absent_rows i (e.returning kept) missing in
            cc (sym (History.any-lock i now chosen rows ∙ k) ∙ unlisted i chosen locked h none_left)
      ]

submit_fits :
    (pool : Pool Message) (m : Message)
    → pool.channel ≡ open_for_jobs
    → length pool.queue < pool.queue_size
    → submit pool m ≡ (record pool { queue = pool.queue ++ m ∷ [] }, accepted)
unfolding submit send
submit_fits pool m h k =
    rw (h, lt→ltb (length pool.queue) pool.queue_size k, submit, send)
      (ap (λ c. (record pool { channel = c; queue = pool.queue ++ m ∷ [] }, accepted)) h)

-- A pool with room takes every message.
submit_all_fits :
    (pool : Pool Message) (ms : List Message)
    → pool.channel ≡ open_for_jobs
    → length pool.queue + length ms ≤ pool.queue_size
    → ((submit_all pool ms).1 ≡ []) × ((submit_all pool ms).0.queue ≡ pool.queue ++ ms)
unfolding submit_all
submit_all_fits pool [] h k = (refl, sym (append-nil pool.queue))
submit_all_fits pool (m ∷ ms) h k =
    let more : length (pool.queue ++ m ∷ []) ≡ length pool.queue + 1 =
      length-append pool.queue (m ∷ []) in
    let (none_left, queued) =
      submit_all_fits (record pool { queue = pool.queue ++ m ∷ [] }) ms h
        (omega (arith, more, k)) in
    let fits = submit_fits pool m h (omega (arith, k)) in
    rw (ap (λ t. t.1) fits, submit_all, ap (λ t. t.0) fits)
      (none_left, queued ∙ append_assoc pool.queue (m ∷ []) ms)

contains_after :
    (i : ℕ) (xs ys : List Message)
    → contains i (message_ids ys) ≡ true
    → contains i (message_ids (xs ++ ys)) ≡ true
contains_after i [] ys h = h
contains_after i (x ∷ xs) ys h = or_true (x.id == i) (contains_after i xs ys h)

due_has_row :
    (i : ℕ) (test : Row → Bool) (rows : List Row)
    → has_row test rows i ≡ true
    → any (λ r. r.id == i) rows ≡ true
due_has_row i test [] h = cc h
due_has_row i test (r ∷ rows) h = ground (arith, due_has_row i test rows)

-- A tick whose statement succeeds while no other transaction holds a row, with a batch as large as the
-- number of due messages and a buffer with room for what it claims, leaves nothing, queues a job for each
-- due message, and keeps its row.
pub due_queued :
    (e : Engine) (lawful : IsEngine e) (p : Poller) (now i : ℕ) (rows : List Row)
    (pool : Pool Message)
    → has_row (λ r. claimable now reclaim_after p.max_attempts r && not (contains r.id [])) rows i
      ≡ true
    → length
        (select (λ r. claimable now reclaim_after p.max_attempts r && not (contains r.id [])) rows)
      ≤ p.batch_size
    → pool.channel ≡ open_for_jobs
    → length pool.queue + length (poll e p done [] now rows pool).claimed ≤ pool.queue_size
    → ((poll e p done [] now rows pool).left ≡ [])
      × (contains i (message_ids (poll e p done [] now rows pool).pool.queue) ≡ true)
      × (any (λ r. r.id == i) (poll e p done [] now rows pool).rows ≡ true)
unfolding poll claim_batch
due_queued e lawful p now i rows pool due fits open_ room =
    let chosen = chosen_ids e [] now p.batch_size reclaim_after p.max_attempts rows in
    let exists =
      due_has_row i (λ r. claimable now reclaim_after p.max_attempts r && not (contains r.id []))
        rows due in
    let listed =
      due_chosen e lawful i now p.batch_size reclaim_after p.max_attempts rows due fits in
    let ms = claimed e lawful chosen now rows in
    let (nothing, queued) = submit_all_fits pool ms open_ room in
    (
      nothing,
      rw queued (
          contains_after i pool.queue ms (chosen_claimed e lawful i now chosen rows listed exists)),
      History.any-lock i now chosen rows ∙ exists,
    )

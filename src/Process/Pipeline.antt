-- ===== src/Process/Pipeline.antt =====
-- From a command of the service to the event handler: the outbox, the poller, the pool and the producer together.
use go_blueprint.Prelude.{
  ℕ, ◌+◌, ◌≤◌, ◌<◌, ◌≡◌, sym, ap, ◌∙◌, inl, inr, true, false, not, ◌&&◌, List, [], ◌∷◌, ◌++◌, arith,
  ◌==◌, Bool-cases, any, Text, codes, text_eq, is_empty, length, select, contains,
}
use go_blueprint.Prelude.Every.{all}
use go_blueprint.Errors.{Result-cases, is, customer_not_found, Result, ok, is_ok, done}
use go_blueprint.Customer.World.{Host, Call, World, RegisterCmd}
use go_blueprint.Customer.Atomicity.{Announces, Registers}
use go_blueprint.Customer.AllOrNothing.{register-AllOrNothing}
use go_blueprint.Customer.Service.{register, register_new, register_body, transact}
use go_blueprint.Customer.Repository.{find_by_email}
use go_blueprint.Outbox.{Message, Row}
use go_blueprint.Outbox.Store.{Engine, IsEngine, claimable, message_ids, chosen_ids}
use go_blueprint.Outbox.Claims.{has_row}
use go_blueprint.Outbox.History.{is_retired}
use go_blueprint.Outbox.Poller.{Poller, Tick, poll, reclaim_after}
use go_blueprint.Customer.{Customer}
use go_blueprint.Customer.Domain
use go_blueprint.Worker.{Pool, open_for_jobs}
use go_blueprint.Process.{Context, Act, act_all}
use go_blueprint.Process.Liveness.{succeeds, due_delivered}
use go_blueprint.Kafka.{answers}
use go_blueprint.Kafka.Producer.{Producer, Handled, registered, handle_event, received, to_record}
use go_blueprint.Process.Announced.{
  appended_content, claimed_content, appended_has_row, announced_claimable, announced_content,
  poll_claims, arrives, has_content,
}

-- What becomes of the customer that a Register answered with `id`: its message, the tick that queues it and
-- the acts that deliver it, and what the event handler makes of the record that the producer sends.
pub record Delivered (call : Call) (id : ℕ) (before : List Row) (producer : Producer) (offset : ℕ)
    (seen : List Text) (log : List Handled) (tick : Tick) (after : List Row)
    (before_tick : List Row) : Type 0 where
  pub row : Row
  pub stored : before_tick ≡ before ++ row ∷ []
  pub content :
      all
        (has_content call.message_id
          (λ m. text_eq m.event_type (codes "CustomerRegistered") && m.aggregate == id))
        tick.claimed
      ≡ true
  pub queued : contains call.message_id (message_ids tick.pool.queue) ≡ true
  pub retired : is_retired call.message_id after ≡ true
  pub handled :
      handle_event (seen, log) (received producer offset (to_record producer row.message))
      ≡ ((producer.uuid_text call.message_id ∷ seen, registered row.payload ∷ log), answers (ok tt))

module _ (host : Host) (call : Call) (w : World) (cmd : RegisterCmd) (id : ℕ) where
  made_id :
      (checked_at now new_id : ℕ) (fold : ℕ → ℕ) (c : Customer)
      → Domain.new fold checked_at now new_id cmd.name cmd.email cmd.birth_date ≡ ok c
      → c.id ≡ new_id
  unfolding Domain.new
  made_id checked_at now new_id fold c h = ground arith

  new_registered_id : (register_new host call w cmd).1 ≡ ok id → id ≡ call.customer_id
  unfolding register_new
  new_registered_id h =
      elim (Result-cases (
        Domain.new host.lower call.checked_at call.stamped_at call.customer_id cmd.name cmd.email
          cmd.birth_date)) [
            | inr (e, failed) ↦ cc (rw (failed, register_new) at h)
            | inl (c, made) ↦
                let t =
                  transact (codes "customer.Service.Register") call w.database
                    (register_body host call c) in
                elim (Result-cases t.1) [
                  | inr (e, failed) ↦ cc (rw (made, failed, register_new) at h)
                  | inl (u, committed) ↦
                      let same : ◌≡◌ {A = Result ℕ} (ok c.id) (ok id) =
                        rw (made, committed, register_new) at h in
                      ground (
                        arith,
                        same,
                        made_id call.checked_at call.stamped_at call.customer_id host.lower c made,
                      )
                ]
          ]

  registered_id : (register host call w cmd).1 ≡ ok id → id ≡ call.customer_id
  unfolding register
  registered_id h =
      elim (Result-cases (find_by_email call.email_failure w.database.customers cmd.email)) [
        | inl (c, found) ↦ cc (rw (found, register) at h)
        | inr (e, missing) ↦ elim (Bool-cases (is e customer_not_found)) [
          | inl new ↦ new_registered_id (rw (missing, new, register) at h)
          | inr failed ↦ cc (rw (missing, failed, register) at h)
        ]
      ]

  made-Registers :
      (register host call w cmd).1 ≡ ok id
      → Registers host call cmd w.database (register host call w cmd).0.database
  made-Registers h = elim (register-AllOrNothing host call w cmd) [
    | inl (same, failed) ↦ cc (ap is_ok h)
    | inr made ↦ made
  ]

  announces :
      (register host call w cmd).1 ≡ ok id
      → Announces call
          (codes "CustomerRegistered")
          id
          w.database.outbox
          (register host call w cmd).0.database.outbox
  announces h =
      let made = made-Registers h in
      let same : made.customer.id ≡ id =
        made_id call.checked_at call.stamped_at call.customer_id host.lower made.customer made.made
        ∙ sym (registered_id h) in
      rw (← same) made.announced

  -- If Register answered with an id: the next tick at or after that time, if it succeeds with room for all that
  -- is due, queues a job for the message of the registration, which is stored after the rows that were there, and
  -- any message that it claims under that id says that this customer was registered; once a job for it publishes and
  -- records that before its context is done, the message stays processed, whatever else the ticks and
  -- deliveries do; and the event handler takes the record that the producer sends of it, the first time that it
  -- sees its id, for that registration.
  pub registered-Delivered :
      (uuid_text : ℕ → Text) (e : Engine) (lawful : IsEngine e) (p : Poller) (root job : Context)
      (now : ℕ) (pool : Pool Message) (acts : List Act) (producer : Producer) (offset : ℕ)
      (seen : List Text) (log : List Handled)
      → (register host call w cmd).1 ≡ ok id
      → call.database_now ≤ now
      → 0 < p.max_attempts
      → length (
          select
            (λ r. claimable now reclaim_after p.max_attempts r && not (contains r.id []))
            (register host call w cmd).0.database.outbox)
        ≤ p.batch_size
      → pool.channel ≡ open_for_jobs
      → length pool.queue
          + length (poll e p done [] now (register host call w cmd).0.database.outbox pool).claimed
        ≤ pool.queue_size
      → succeeds job call.message_id acts ≡ true
      → is_empty (producer.uuid_text call.message_id) ≡ false
      → any (λ t. text_eq t (producer.uuid_text call.message_id)) seen ≡ false
      → Delivered call id w.database.outbox producer offset seen log
          (poll e p done [] now (register host call w cmd).0.database.outbox pool)
          (act_all uuid_text e p root job
            (poll e p done [] now (register host call w cmd).0.database.outbox pool).rows
            acts)
          (register host call w cmd).0.database.outbox
  registered-Delivered uuid_text e lawful p root job now pool acts producer offset seen log answered
        late some_allowed fits open_ room success named new =
      let a = announces answered in
      let rows = (register host call w cmd).0.database.outbox in
      let claims =
        λ (r : Row). claimable now reclaim_after p.max_attempts r && not (contains r.id []) in
      let row_due : has_row claims rows call.message_id ≡ true =
        ap (λ rs. has_row claims rs call.message_id) a.appended
        ∙ ap (λ i. has_row claims (w.database.outbox ++ a.row ∷ []) i) (sym a.identified)
        ∙ appended_has_row claims w.database.outbox a.row (
            announced_claimable call (codes "CustomerRegistered") id now p.max_attempts
              w.database.outbox rows a late some_allowed) in
      let (queued, retired) =
        due_delivered uuid_text e lawful p root job now call.message_id rows pool acts row_due fits
          open_ room success in
      let test =
        λ (m : Message). text_eq m.event_type (codes "CustomerRegistered") && m.aggregate == id in
      let listed : all (has_content call.message_id test) (poll e p done [] now rows pool).claimed
          ≡ true =
        ap (all (has_content call.message_id test)) (poll_claims e lawful p now rows pool)
        ∙ claimed_content call.message_id test e lawful now
            (chosen_ids e [] now p.batch_size reclaim_after p.max_attempts rows) rows
            (ap (all (λ r. has_content call.message_id test r.message)) a.appended
              ∙ appended_content call.message_id test w.database.outbox a.row a.new
                  (announced_content call id w.database.outbox rows a)) in
      record {
        row = a.row;
        stored = a.appended;
        content = listed;
        queued = queued;
        retired = retired;
        handled =
            arrives producer offset call.message_id a.row.message seen log a.identified a.typed
              named new;
      }

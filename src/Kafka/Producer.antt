-- ===== src/Kafka/Producer.antt =====
-- internal/platform/kafka: producer.go and dlq.go, and the EventHandler of internal/customer/events.go. What
-- ProduceSync answers is an argument.
use go_blueprint.Prelude.{
  ℕ, ◌≡◌, refl, false, none, List, [], ◌∷◌, if◌then◌else◌, any, Text, codes, text_eq, is_empty,
}
use go_blueprint.Kafka.{Record, Handler, answers, header_value}
use go_blueprint.Outbox.{Message}
use go_blueprint.Errors.{Error, Result, ok, err, within, text, error_of}

-- The parts of kgo.Record that the producers fill.
pub record Outgoing : Type 0 where
  pub topic : Text
  pub key : Text
  pub value : Text
  pub headers : List (Text × Text)

-- The topics of the Producer and of its DLQWriter, UUID.String and Format(time.RFC3339).
pub record Producer : Type 0 where
  pub topic : Text
  pub dlq_topic : Text
  pub uuid_text : ℕ → Text
  pub format_time : ℕ → Text

module _ (p : Producer) where
  -- The record that Publish makes.
  abbrev pub to_record : Message → Outgoing
  to_record msg = record {
    topic = p.topic;
    key = p.uuid_text msg.aggregate;
    value = msg.payload;
    headers =
        (codes "event_type", msg.event_type)
        ∷ (codes "message_id", p.uuid_text msg.id)
        ∷ (codes "occurred_at", p.format_time msg.created_at)
        ∷ [];
  }

  -- The record that DLQWriter.Write makes.
  abbrev pub to_dead_letter : ℕ → Message → Error → Outgoing
  to_dead_letter now msg reason = record {
    topic = p.dlq_topic;
    key = p.uuid_text msg.aggregate;
    value = msg.payload;
    headers =
        (codes "event_type", msg.event_type)
        ∷ (codes "message_id", p.uuid_text msg.id)
        ∷ (codes "failure_reason", text reason)
        ∷ (codes "failed_at", p.format_time now)
        ∷ [];
  }

  -- DLQWriter.Write: what it produces and what it answers.
  unfoldable pub write : ℕ → Result (Unit {0}) → Message → Error → Outgoing × Result (Unit {0})
  write now produced msg reason =
      (to_dead_letter now msg reason, within (codes "kafka.DLQWriter.Write") produced)

  -- Producer.Publish: the records that it produces, one and in case of its failure the dead letter.
  unfoldable pub publish :
      ℕ → Result (Unit {0}) → Result (Unit {0}) → Message → List Outgoing × Result (Unit {0})
  unfolding write
  publish now (ok u) dead msg = (to_record msg ∷ [], ok tt)
  publish now (err reason) dead msg =
      (to_record msg ∷ (write now dead msg reason).0 ∷ [], (write now dead msg reason).1)

  -- LogPublisher.Publish of internal/outbox/log_publisher.go.
  abbrev pub log_publish : Message → Result (Unit {0})
  log_publish msg = ok tt

  -- What a consumer gets of a record.
  abbrev pub received : ℕ → Outgoing → Record
  received offset r = record { headers = r.headers; value = r.value; offset = offset }

  -- A message that the broker refuses is taken for published once its dead letter is written.
  dead_letter_is_success :
      (now : ℕ) (reason : Error) (msg : Message)
      → error_of (publish now (err reason) (ok tt) msg).1 ≡ none
  unfolding publish write
  dead_letter_is_success now reason msg = refl

-- What the switch of Handle does with an event.
pub data Handled : Type 0 where
  registered updated removed : Text → Handled
  unknown : Handled

-- EventHandler.Handle behind its check for duplicates; the state is what was handled, the latest first.
unfoldable pub dispatch_event : Handler (List Handled)
unfolding header_value
dispatch_event log r =
    let event_type = header_value r.headers (codes "event_type") in
    if text_eq event_type (codes "CustomerRegistered")
    then (registered r.value ∷ log, answers (ok tt))
    else if text_eq event_type (codes "CustomerUpdated")
    then (updated r.value ∷ log, answers (ok tt))
    else if text_eq event_type (codes "CustomerRemoved")
    then (removed r.value ∷ log, answers (ok tt))
    else (unknown ∷ log, answers (ok tt))

-- EventHandler.Handle: a record with no id is skipped, and so is one whose id was seen.
unfoldable pub handle_event : Handler (List Text × List Handled)
unfolding dispatch_event
handle_event (seen, log) r =
    let id = header_value r.headers (codes "message_id") in
    if is_empty id
    then ((seen, log), answers (ok tt))
    else if any (λ t. text_eq t id) seen
    then ((seen, log), answers (ok tt))
    else ((id ∷ seen, (dispatch_event log r).0), (dispatch_event log r).1)

-- What Publish sends as CustomerRegistered is handled as that by a handler that has not seen its id.
pub registered_arrives :
    (p : Producer) (offset : ℕ) (msg : Message) (seen : List Text) (log : List Handled)
    → msg.event_type ≡ codes "CustomerRegistered"
    → is_empty (p.uuid_text msg.id) ≡ false
    → any (λ t. text_eq t (p.uuid_text msg.id)) seen ≡ false
    → handle_event (seen, log) (received p offset (to_record p msg))
      ≡ ((p.uuid_text msg.id ∷ seen, registered msg.payload ∷ log), answers (ok tt))
unfolding handle_event header_value text_eq
registered_arrives p offset msg seen log is_registered named new =
    rw (named, new, handle_event, is_registered) refl

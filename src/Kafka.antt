-- ===== src/Kafka.antt =====
-- internal/platform/kafka: handler.go and middleware.go, and the batch of Consumer.Run in consumer.go. The
-- dedup store of a middleware is a list of ids, and a handler
-- passes on the state that it shares.
pub mod Redelivery
pub mod Consumer
pub mod Commits
pub mod Producer
pub mod Tests
use go_blueprint.Prelude.{
  ◌++◌, ℕ, Bool, true, false, not, ◌&&◌, Option, none, some, List, [], ◌∷◌, any, text_eq, is_empty,
  if◌then◌else◌, Text, codes,
}
use go_blueprint.Errors.{Result, ok, err, Error, is_ok}

-- The parts of kgo.Record that the code reads.
pub record Record : Type 0 where
  pub headers : List (Text × Text)
  pub value : Text
  pub offset : ℕ

-- headerValue and kafkaHeaderValue: the first header of the key, or "".
unfoldable pub header_value : List (Text × Text) → Text → Text
header_value [] key = []
header_value ((k, v) ∷ headers) key = if text_eq k key then v else header_value headers key

-- What a handler ends with: an answer, or a panic.
pub data Ending : Type 0 where
  answers : Result (Unit {0}) → Ending
  panics : Text → Ending

-- Handler, over the state that it keeps.
abbrev pub Handler : Type 0 → Type 0
Handler S = S → Record → S × Ending

-- Chain: the first middleware is outermost.
unfoldable pub chain : {S : Type 0} → Handler S → List (Handler S → Handler S) → Handler S
chain h [] = h
chain h (mw ∷ mws) = mw (chain h mws)

-- WithRecovery.
unfoldable pub with_recovery : {S : Type 0} → Handler S → Handler S
with_recovery next s record_ =
    let (after, ending) = next s record_ in
    elim ending [
      | answers r ↦ (after, answers r)
      | panics what ↦
          (after, answers (err (Error.opaque (codes "kafka: handler panicked: " ++ what))))
    ]

-- WithIdempotency: LoadOrStore before the handler.
unfoldable pub with_idempotency : {S : Type 0} → Handler S → Handler (List Text × S)
unfolding header_value
with_idempotency next (seen, s) record_ =
    let id = header_value record_.headers (codes "message_id") in
    if is_empty id
    then ((seen, (next s record_).0), (next s record_).1)
    else if any (λ t. text_eq t id) seen
    then ((seen, s), answers (ok tt))
    else ((id ∷ seen, (next s record_).0), (next s record_).1)

-- One batch of Consumer.Run: every record is handled, whatever the others did, and the offsets are
-- committed if none failed. A panic ends the process.
unfoldable pub handle_batch : {S : Type 0} → Handler S → S → List Record → Option (S × Bool)
handle_batch h s [] = some (s, true)
handle_batch h s (r ∷ rs) =
    let rest = handle_batch h (h s r).0 rs in
    elim (h s r).1 [
      | panics what ↦ none
      | answers a ↦ elim rest [
        | none ↦ none
        | some (after, committed) ↦ some (after, is_ok a && committed)
      ]
    ]

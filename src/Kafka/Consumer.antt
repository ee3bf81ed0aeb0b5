-- ===== src/Kafka/Consumer.antt =====
-- internal/platform/kafka/consumer.go: the loop of Run, poll after poll, over the offsets that the client keeps.
use go_blueprint.Prelude.{
  ◌≡◌, Bool, ◌||◌, Option, none, some, List, [], ◌∷◌, ◌++◌, if◌then◌else◌, Text, is_empty,
}
use go_blueprint.Kafka.{Record, Handler, handle_batch}
use go_blueprint.Errors.{Fate, settle}

-- What a call of PollFetches gives, whether the context is cancelled by then, and the fate of the commit
-- that may follow.
pub record Poll : Type 0 where
  pub client_closed : Bool
  pub cancelled : Bool
  pub errors : List Text
  pub records : List Record
  pub commit : Fate

-- The client: `covered polled committed` is what CommitUncommittedOffsets commits.
pub record Client : Type 0 where
  pub covered : List Record → List Record → List Record

-- Documented behaviour of franz-go: the offsets of every record that was polled.
pub record IsClient (client : Client) : Type 0 where
  pub covers_polled : (polled committed : List Record) → client.covered polled committed ≡ polled

-- The state of the handler, what PollFetches has given so far, and what is committed.
pub record Consumed (S : Type 0) : Type 0 where
  pub state : S
  pub polled : List Record
  pub committed : List Record

-- Run returns after this poll.
abbrev pub is_last : Poll → Bool
is_last p = p.client_closed || p.cancelled

module _ (client : Client) {S : Type 0} (h : Handler S) where
  -- The body of the loop after the test for the end; `none` is a panic.
  unfoldable pub dispatch : Consumed S → Poll → Option (Consumed S)
  dispatch c p =
      let polled = c.polled ++ p.records in
      if is_empty p.errors
      then elim (handle_batch h c.state p.records) [
        | none ↦ none
        | some (after, succeeded) ↦
            if succeeded
            then some (record {
              state = after;
              polled = polled;
              committed = settle p.commit c.committed (client.covered polled c.committed);
            })
            else some (record { state = after; polled = polled; committed = c.committed })
      ]
      else some (record c { polled = polled })

  -- Consumer.Run, for the polls that it gets to.
  unfoldable pub consume : Consumed S → List Poll → Option (Consumed S)
  unfolding dispatch
  consume c [] = some c
  consume c (p ∷ ps) =
      if is_last p
      then some (record c { polled = c.polled ++ p.records })
      else elim (dispatch c p) [ none ↦ none | some after ↦ consume after ps ]

unfoldable pub records_of : List Poll → List Record
records_of [] = []
records_of (p ∷ ps) = p.records ++ records_of ps

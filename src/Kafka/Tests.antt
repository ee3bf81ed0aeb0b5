-- ===== src/Kafka/Tests.antt =====
-- A record that fails and comes again.
use go_blueprint.Prelude.{if◌then◌else◌, ◌==◌, false}
use go_blueprint.Errors.{done}
use go_blueprint.Kafka.Consumer.{records_of, Poll, Client, consume, dispatch}
use go_blueprint.Kafka.Commits.{commit_covers_all}
use go_blueprint.Kafka.{handle_batch}
use go_blueprint.Kafka.{Record, Handler, answers}
use go_blueprint.Prelude.{false, some, ℕ, suc, ◌≡◌, refl, [], ◌∷◌, codes}
use go_blueprint.Errors.{done, Error, err, ok}

abbrev counting : Handler ℕ
counting n r = (suc n, answers (err (Error.opaque (codes "down"))))

abbrev registered : Record
registered = record {
  headers = (codes "message_id", codes "m-1") ∷ [];
  value = codes "{}";
  offset = 4;
}

-- The handler fails on the record at offset 4 only.
abbrev fails_at_four : Handler ℕ
fails_at_four n r =
    (suc n, if r.offset == 4 then answers (err (Error.opaque (codes "down"))) else answers (ok tt))

abbrev client : Client
client = record { covered = λ polled committed. polled }

abbrev failing : Poll
failing = record {
  client_closed = false;
  cancelled = false;
  errors = [];
  records = registered ∷ [];
  commit = done;
}

abbrev fetch_error : Poll
fetch_error = record failing {
  errors = codes "not leader" ∷ [];
  records = record registered { offset = 5 } ∷ [];
}

abbrev clean : Poll
clean = record failing { records = record registered { offset = 6 } ∷ [] }

commit_covers_all_example :
    consume client fails_at_four
      (record { state = 0; polled = []; committed = [] })
      (failing ∷ fetch_error ∷ clean ∷ [])
    ≡ some (record {
      state = 2;
      polled =
          registered ∷ record registered { offset = 5 } ∷ record registered { offset = 6 } ∷ [];
      committed =
          registered ∷ record registered { offset = 5 } ∷ record registered { offset = 6 } ∷ [];
    })
unfolding consume dispatch handle_batch records_of
commit_covers_all_example =
    commit_covers_all client fails_at_four (record { covers_polled = λ polled committed. refl })
      (record { state = 0; polled = []; committed = [] })
      (record {
        state = 1;
        polled = registered ∷ record registered { offset = 5 } ∷ [];
        committed = [];
      })
      (failing ∷ fetch_error ∷ []) clean 2 refl refl refl refl refl refl

-- ===== src/Kafka/Commits.antt =====
-- What a commit of the consumer covers.
use go_blueprint.Prelude.{
  and_right, append-nil, ◌≡◌, refl, sym, ap, ◌∙◌, inl, inr, true, false, not, some, List, [], ◌∷◌,
  ◌++◌, arith, Option-cases,
}
use go_blueprint.Prelude.{append_assoc}
use go_blueprint.Prelude.Every.{all}
use go_blueprint.Kafka.{Handler, handle_batch}
use go_blueprint.Kafka.Consumer.{
  Poll, Client, IsClient, Consumed, is_last, dispatch, consume, records_of,
}
use go_blueprint.Outbox.Delivery.{is_refused, settle_took}

ends : (p : Poll) (ps : List Poll) → all (λ q. not (is_last q)) (p ∷ ps) ≡ true → is_last p ≡ false
ends p ps k = ground (arith, k)

goes_on :
    (p : Poll) (ps : List Poll)
    → all (λ q. not (is_last q)) (p ∷ ps) ≡ true
    → all (λ q. not (is_last q)) ps ≡ true
goes_on p ps k = and_right (not (is_last p)) (all (λ q. not (is_last q)) ps) k

module _ (client : Client) {S : Type 0} (h : Handler S) where
  dispatch_polls :
      (c after : Consumed S) (p : Poll)
      → dispatch client h c p ≡ some after
      → after.polled ≡ c.polled ++ p.records
  unfolding dispatch
  dispatch_polls c after p k = elim (Option-cases (handle_batch h c.state p.records)) [
    | inl panic ↦ ground arith
    | inr ((s, succeeded), handled) ↦ ground arith
  ]

  consume_polls :
      (c after : Consumed S) (ps : List Poll)
      → all (λ p. not (is_last p)) ps ≡ true
      → consume client h c ps ≡ some after
      → after.polled ≡ c.polled ++ records_of ps
  unfolding consume records_of
  consume_polls c after [] k m =
      let same : c ≡ after = cc m in sym (ap (λ d. d.polled) same) ∙ sym (append-nil c.polled)
  consume_polls c after (p ∷ ps) k m = elim (Option-cases (dispatch client h c p)) [
    | inl panic ↦ cc (rw (ends p ps k, panic, consume) at m)
    | inr (next, on) ↦
        consume_polls next after ps (goes_on p ps k) (rw (ends p ps k, on, consume) at m)
        ∙ ap (λ l. l ++ records_of ps) (dispatch_polls c next p on)
        ∙ append_assoc c.polled p.records (records_of ps)
  ]

  consume-append :
      (c mid : Consumed S) (ps rest : List Poll)
      → all (λ p. not (is_last p)) ps ≡ true
      → consume client h c ps ≡ some mid
      → consume client h c (ps ++ rest) ≡ consume client h mid rest
  unfolding consume
  consume-append c mid [] rest k m =
      let same : c ≡ mid = cc m in ap (λ d. consume client h d rest) same
  consume-append c mid (p ∷ ps) rest k m = elim (Option-cases (dispatch client h c p)) [
    | inl panic ↦ cc (rw (ends p ps k, panic, consume) at m)
    | inr (next, on) ↦
        rw (ends p ps k, on, consume)
          (consume-append next mid ps rest (goes_on p ps k) (rw (ends p ps k, on, consume) at m))
  ]

  -- A poll that is handled without an error and committed.
  clean_commits :
      (lawful : IsClient client) (c : Consumed S) (p : Poll) (after : S)
      → is_last p ≡ false
      → p.errors ≡ []
      → handle_batch h c.state p.records ≡ some (after, true)
      → is_refused p.commit ≡ false
      → consume client h c (p ∷ [])
        ≡ some (record {
          state = after;
          polled = c.polled ++ p.records;
          committed = c.polled ++ p.records;
        })
  unfolding consume dispatch
  clean_commits lawful c p after open_ clean handled took =
      rw
        (
          open_,
          clean,
          handled,
          consume,
          dispatch,
          settle_took p.commit c.committed (client.covered (c.polled ++ p.records) c.committed)
              took,
          lawful.covers_polled (c.polled ++ p.records) c.committed,
        )
        refl

-- If CommitUncommittedOffsets commits what was polled: whatever came of the polls before, of which none
-- ended the loop or panicked, one more poll without errors whose handling succeeds and whose commit takes
-- effect commits the records of all of them, also of those whose handling failed and of those that came
-- with a fetch error and were never handled.
pub commit_covers_all :
    (client : Client) {S : Type 0} (h : Handler S) (lawful : IsClient client) (c mid : Consumed S)
    (ps : List Poll) (p : Poll) (after : S)
    → all (λ q. not (is_last q)) ps ≡ true
    → consume client h c ps ≡ some mid
    → is_last p ≡ false
    → p.errors ≡ []
    → handle_batch h mid.state p.records ≡ some (after, true)
    → is_refused p.commit ≡ false
    → consume client h c (ps ++ p ∷ [])
      ≡ some (record {
        state = after;
        polled = (c.polled ++ records_of ps) ++ p.records;
        committed = (c.polled ++ records_of ps) ++ p.records;
      })
commit_covers_all client h lawful c mid ps p after loops reached open_ clean handled took =
    consume-append client h c mid ps (p ∷ []) loops reached
    ∙ clean_commits client h lawful mid p after open_ clean handled took
    ∙ ap (λ l. some (record { state = after; polled = l ++ p.records; committed = l ++ p.records }))
        (consume_polls client h c mid ps loops reached)

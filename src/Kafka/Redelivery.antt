-- ===== src/Kafka/Redelivery.antt =====
-- What the consumer does with a record that is delivered again.
use go_blueprint.Kafka.{Record, Handler, Ending, answers, header_value, with_idempotency}
use go_blueprint.Prelude.{
  text_eq, text_eq_refl, ◌≡◌, refl, sym, ap, ◌∙◌, inl, inr, true, false, List, ◌∷◌, any, Bool-cases,
  is_empty, Text, codes,
}
use go_blueprint.Errors.{ok}

module _ {S : Type 0} (next : Handler S) (r : Record) where
  abbrev id : Text
  id = header_value r.headers (codes "message_id")

  seen_skips :
      (seen : List Text) (s : S)
      → is_empty id ≡ false
      → any (λ t. text_eq t id) seen ≡ true
      → with_idempotency next (seen, s) r ≡ ((seen, s), answers (ok tt))
  unfolding with_idempotency
  seen_skips seen s named known = rw (named, known, with_idempotency) refl

  new_is_kept :
      (seen : List Text) (s : S)
      → is_empty id ≡ false
      → any (λ t. text_eq t id) seen ≡ false
      → with_idempotency next (seen, s) r ≡ ((id ∷ seen, (next s r).0), (next s r).1)
  unfolding with_idempotency
  new_is_kept seen s named new = rw (named, new, with_idempotency) refl

  again :
      (state : List Text × S) (first : (List Text × S) × Ending)
      → with_idempotency next state r ≡ first
      → with_idempotency next first.0 r ≡ (first.0, answers (ok tt))
      → with_idempotency next (with_idempotency next state r).0 r
        ≡ ((with_idempotency next state r).0, answers (ok tt))
  again state first e h =
      ap (λ t. with_idempotency next t.0 r) e ∙ h ∙ ap (λ t. (t.0, answers (ok tt))) (sym e)

  -- A record with a message id that was handled once, whether that succeeded, failed or panicked, is answered
  -- with no error when it is delivered again, and changes nothing: the handler behind does not see it.
  pub redelivery_skipped :
      (seen : List Text) (s : S)
      → is_empty (header_value r.headers (codes "message_id")) ≡ false
      → with_idempotency next (with_idempotency next (seen, s) r).0 r
        ≡ ((with_idempotency next (seen, s) r).0, answers (ok tt))
  redelivery_skipped seen s named = elim (Bool-cases (any (λ t. text_eq t id) seen)) [
    | inl known ↦ again (seen, s) _ (seen_skips seen s named known) (seen_skips seen s named known)
    | inr new ↦
        again (seen, s) _ (new_is_kept seen s named new)
          (seen_skips (id ∷ seen) (next s r).0 named (rw (text_eq_refl id) refl))
  ]

-- ===== src/Process/Parts.antt =====
-- How the parts of main of cmd/api/main.go may end: rules for its program, and the functions that it calls.
use go_blueprint.Prelude.{Text, ◌≡◌, refl, Bool, true, false, ◌&&◌, List, [], ◌∷◌, ◌++◌}
use go_blueprint.Errors.{Result, ok, err, is_ok}
use go_blueprint.Process.Startup.{
  ◌>>=◌, does, defers, M, Answer, or_exit, pure, new_kafka_client, Act, Boot, Ending, Resource,
  closes, event_log, exits, goes, migration_db, mongo, new_client, new_pool, new_sqlite_store,
  opens, postgres, run_migrations,
}
use go_blueprint.Process.Lifetimes.{is_tidy}

abbrev pub did : Boot → List Act → Boot
did s [] = s
did s (a ∷ acts) = did (record s { past = s.past ++ a ∷ [] }) acts

abbrev pub deferring : Resource → Boot → Boot
deferring r s = record s { deferred = r ∷ s.deferred }

-- What a part of main did: all of it, or it came to os.Exit and left a tidy past.
pub data Ran {A : Type 0} (after : Boot) (up : Bool) : Boot × Ending A → Type 0 where
  went : (a : A) → up ≡ true → Ran after up (after, goes a)
  stopped : (s : Boot) → up ≡ false → is_tidy s.past ≡ true → Ran after up (s, exits)

module _ {B : Type 0} where
  Ran-cases :
      {A : Type 0} {mid after : Boot} {a b : Bool} (k : A → M B) (r : Boot × Ending A)
      → Ran {A = A} mid a r
      → ((x : A) → Ran {A = B} after b (k x mid))
      → Ran {A = B} after
          (a && b)
          (let (s, e) = r in elim e [ goes x ↦ k x s | exits ↦ (s, exits) ])
  Ran-cases k _ (went x h) next = rw h (next x)
  Ran-cases k _ (stopped s h tidy) next = stopped s (rw h refl) tidy

  pub Ran-then :
      {A : Type 0} {mid after : Boot} {a b : Bool} (s : Boot) (m : M A) (k : A → M B)
      → Ran {A = A} mid a (m s)
      → ((x : A) → Ran {A = B} after b (k x mid))
      → Ran {A = B} after (a && b) ((m >>= k) s)
  unfolding ◌>>=◌
  Ran-then s m k d next = Ran-cases k (m s) d next

  pub Ran-does :
      {after : Boot} {b : Bool} (a : Act) (s : Boot) (k : Unit {0} → M B)
      → Ran {A = B} after b (k tt (did s (a ∷ [])))
      → Ran {A = B} after b ((does a >>= k) s)
  unfolding ◌>>=◌
  Ran-does a s k d = d

  pub Ran-defers :
      {after : Boot} {b : Bool} (r : Resource) (s : Boot) (k : Unit {0} → M B)
      → Ran {A = B} after b (k tt (deferring r s))
      → Ran {A = B} after b ((defers r >>= k) s)
  unfolding ◌>>=◌
  Ran-defers r s k d = d

  pub Ran-pure :
      {A : Type 0} {after : Boot} {b : Bool} (x : A) (s : Boot) (k : A → M B)
      → Ran {A = B} after b (k x s)
      → Ran {A = B} after b ((pure x >>= k) s)
  unfolding ◌>>=◌
  Ran-pure x s k d = d

pub Ran-answer :
    {A : Type 0} (a : Result A) (s : Boot)
    → is_tidy s.past ≡ true
    → Ran {A = A} s (is_ok a) (or_exit (pure a) s)
Ran-answer (ok u) s tidy = went u refl
Ran-answer (err e) s tidy = stopped s refl tidy

abbrev pub is_fine : Boot → List Act → Bool
is_fine s acts = is_tidy (did s acts).past

pub new_pool-Ran :
    (s : Boot) (parsed made pinged : Answer)
    → is_tidy s.past ≡ true
    → is_fine s (opens postgres ∷ closes postgres ∷ []) ≡ true
    → Ran {A = Unit {0}}
        (did s (opens postgres ∷ []))
        (is_ok parsed && is_ok made && is_ok pinged)
        (or_exit (new_pool parsed made pinged) s)
unfolding new_pool ◌>>=◌
new_pool-Ran s (err e) made pinged t u = stopped s refl t
new_pool-Ran s (ok _) (err e) pinged t u = stopped s refl t
new_pool-Ran s (ok _) (ok _) (err e) t u = stopped _ refl u
new_pool-Ran s (ok _) (ok _) (ok _) t u = went tt refl

pub run_migrations-Ran :
    (s : Boot) (opened up : Answer)
    → is_tidy s.past ≡ true
    → is_fine s (opens migration_db ∷ closes migration_db ∷ []) ≡ true
    → Ran {A = Unit {0}}
        (did s (opens migration_db ∷ closes migration_db ∷ []))
        (is_ok opened && is_ok up)
        (or_exit (run_migrations opened up) s)
unfolding run_migrations ◌>>=◌
run_migrations-Ran s (err e) up t u = stopped s refl t
run_migrations-Ran s (ok _) (err e) t u = stopped _ refl u
run_migrations-Ran s (ok _) (ok _) t u = went tt refl

pub new_sqlite_store-Ran :
    (s : Boot) (opened pinged migrated : Answer)
    → is_tidy s.past ≡ true
    → is_fine s (opens event_log ∷ []) ≡ true
    → Ran {A = Unit {0}}
        (did s (opens event_log ∷ []))
        (is_ok opened && is_ok pinged && is_ok migrated)
        (or_exit (new_sqlite_store opened pinged migrated) s)
unfolding new_sqlite_store ◌>>=◌
new_sqlite_store-Ran s (err e) pinged migrated t u = stopped s refl t
new_sqlite_store-Ran s (ok _) (err e) migrated t u = stopped _ refl u
new_sqlite_store-Ran s (ok _) (ok _) (err e) t u = stopped _ refl u
new_sqlite_store-Ran s (ok _) (ok _) (ok _) t u = went tt refl

pub new_client-Ran :
    (s : Boot) (connected pinged : Answer)
    → is_tidy s.past ≡ true
    → is_fine s (opens mongo ∷ closes mongo ∷ []) ≡ true
    → Ran {A = Unit {0}}
        (did s (opens mongo ∷ []))
        (is_ok connected && is_ok pinged)
        (or_exit (new_client connected pinged) s)
unfolding new_client ◌>>=◌
new_client-Ran s (err e) pinged t u = stopped s refl t
new_client-Ran s (ok _) (err e) t u = stopped _ refl u
new_client-Ran s (ok _) (ok _) t u = went tt refl

pub new_kafka_client-Ran :
    (s : Boot) (context : Text) (r : Resource) (made : Answer)
    → is_tidy s.past ≡ true
    → Ran {A = Unit {0}}
        (did s (opens r ∷ []))
        (is_ok made)
        (or_exit (new_kafka_client context r made) s)
unfolding ◌>>=◌
new_kafka_client-Ran s context r (err e) t = stopped s refl t
new_kafka_client-Ran s context r (ok _) t = went tt refl

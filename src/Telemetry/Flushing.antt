-- ===== src/Telemetry/Flushing.antt =====
-- Provider.Shutdown of internal/platform/telemetry/otel.go.
use go_blueprint.Prelude.{
  ◌≡◌, refl, ap, ◌∙◌, Bool, true, false, ◌||◌, Option, none, some, List, [], ◌∷◌, arith, is_none,
  not,
}
use go_blueprint.Errors.{is, Sentinel, Error, ok, err}
use go_blueprint.Telemetry.{Answer, Provider, shutdown, shutdown_each, collect, join_all}

-- Whether errors.Is finds a sentinel in an error that may be nil.
abbrev pub is_in : Option Error → Sentinel → Bool
is_in none s = false
is_in (some e) s = is e s

-- Whether an answer is an error that passes a test.
abbrev pub fails_with : (Error → Bool) → Answer → Bool
fails_with test (ok u) = false
fails_with test (err e) = test e

any_error : (Error → Bool) → List Error → Bool
any_error test [] = false
any_error test (e ∷ es) = test e || any_error test es

any_error-collect :
    (test : Error → Bool) (errs : List Error) (a : Answer)
    → any_error test (collect errs a) ≡ (any_error test errs || fails_with test a)
unfolding any_error collect
any_error-collect test [] (ok u) = refl
any_error-collect test [] (err e) = ground arith
any_error-collect test (f ∷ errs) (ok u) = ground (arith, any_error-collect test errs (ok u))
any_error-collect test (f ∷ errs) (err e) = ground (arith, any_error-collect test errs (err e))

join_all_is :
    (s : Sentinel) (errs : List Error) → is_in (join_all errs) s ≡ any_error (λ e. is e s) errs
unfolding join_all any_error is
join_all_is s [] = refl
join_all_is s (e ∷ []) = ground arith
join_all_is s (e ∷ f ∷ errs) = ap (λ b. is e s || b) (join_all_is s (f ∷ errs))

join_all_none : (errs : List Error) → is_none (join_all errs) ≡ not (any_error (λ e. true) errs)
unfolding join_all any_error
join_all_none [] = refl
join_all_none (e ∷ errs) = refl

module _ {S : Type 0} (stop : Provider → S → S × Answer) where
  -- The providers stopped one after the other, whatever they answer.
  abbrev pub stop_all : List Provider → S → S
  stop_all [] s = s
  stop_all (p ∷ ps) s = stop_all ps (stop p s).0

  -- Whether one of them, when its turn comes, answers an error that passes a test.
  abbrev pub some_fails : (Error → Bool) → List Provider → S → Bool
  some_fails test [] s = false
  some_fails test (p ∷ ps) s = fails_with test (stop p s).1 || some_fails test ps (stop p s).0

  shutdown_each-0 :
      (ps : List Provider) (errs : List Error) (s : S)
      → (shutdown_each stop ps errs s).0 ≡ stop_all ps s
  unfolding shutdown_each
  shutdown_each-0 [] errs s = refl
  shutdown_each-0 (p ∷ ps) errs s = shutdown_each-0 ps (collect errs (stop p s).1) (stop p s).0

  shutdown_each-1 :
      (test : Error → Bool) (ps : List Provider) (errs : List Error) (s : S)
      → any_error test (shutdown_each stop ps errs s).1
        ≡ (any_error test errs || some_fails test ps s)
  unfolding shutdown_each
  shutdown_each-1 test [] errs s = ground arith
  shutdown_each-1 test (p ∷ ps) errs s = ground (
    arith,
    shutdown_each-1 test ps (collect errs (stop p s).1) (stop p s).0,
    any_error-collect test errs (stop p s).1,
  )

  -- Shutdown stops every provider, in order, whatever the earlier ones answer; it answers nil exactly if none of
  -- them fails, and errors.Is finds in its answer exactly the sentinels that it finds in one of theirs.
  pub shutdown_flushes :
      (ps : List Provider) (s : S) (e : Sentinel)
      → ((shutdown stop ps s).0 ≡ stop_all ps s)
        × (is_none (shutdown stop ps s).1 ≡ not (some_fails (λ f. true) ps s))
        × (is_in (shutdown stop ps s).1 e ≡ some_fails (λ f. is f e) ps s)
  unfolding shutdown any_error
  shutdown_flushes ps s e = (
    shutdown_each-0 ps [] s,
    join_all_none (shutdown_each stop ps [] s).1 ∙ ap not (shutdown_each-1 (λ f. true) ps [] s),
    join_all_is e (shutdown_each stop ps [] s).1 ∙ shutdown_each-1 (λ f. is f e) ps [] s,
  )

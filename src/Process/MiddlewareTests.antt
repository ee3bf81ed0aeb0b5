-- ===== src/Process/MiddlewareTests.antt =====
-- The chain of middleware on concrete requests.
use go_blueprint.Prelude.{
  arith, ℕ, ◌≡◌, true, false, none, some, [], ◌∷◌, codes, refl, if◌then◌else◌,
}
use go_blueprint.Telemetry.{new_span}
use go_blueprint.Process.Middleware.{
  answer_error, echo_middleware, log_request, slog_middleware, apply_middleware, server_middleware,
  Echo, Ending, Exchange, Handler, answer_request, panicked, returned,
}
use go_blueprint.Process.RequestLines.{hands_on, catches, Hands, IsEcho, Told, answer_request-Told}

abbrev State : Type 0
State = Unit {0}

-- An error of a handler is the status that it asks for.
abbrev handle_error : ℕ → Exchange State → Exchange State
handle_error status c = if c.committed then c else record c { status = status; committed = true }

abbrev answered : Exchange State × Ending ℕ → Exchange State × Ending ℕ
answered (c, panicked what) = (c, panicked what)
answered (c, returned none) = (c, returned none)
answered (c, returned (some status)) = (handle_error status c, returned (some status))

abbrev recovered : Exchange State × Ending ℕ → Exchange State × Ending ℕ
recovered (c, panicked what) = (handle_error 500 c, returned (some 500))
recovered (c, returned answer) = (c, returned answer)

abbrev echo : Echo ℕ State
echo = record {
  request_ids = λ next c. next (record c { request_id = codes "r1" });
  recovers = λ next c. recovered (next c);
  cors = λ next c. next c;
  otel = λ next c. answered (next c);
  handle_error = handle_error;
}

-- An otelecho that leaves errors to Echo.
abbrev late_echo : Echo ℕ State
late_echo = record echo { otel = λ next c. next c }

abbrev request : Exchange State
request = record {
  method = codes "GET";
  path = codes "/api/v1/customers";
  route = codes "/api/v1/customers";
  request_id = [];
  status = 200;
  committed = false;
  span = new_span;
  lines = [];
  store = tt;
}

abbrev refuse : Handler ℕ State
refuse c = (c, returned (some 401))

abbrev break : Handler ℕ State
break c = (c, panicked (codes "nil map"))

abbrev run : Echo ℕ State → Handler ℕ State → Exchange State
run echo handler =
    answer_request (λ status. codes "error") (λ status. codes "status") echo handler request

error_silent : (status : ℕ) (c : Exchange State) → (handle_error status c).lines ≡ c.lines
error_silent status c = ground arith

handled_sends : (status : ℕ) (c : Exchange State) → (handle_error status c).committed ≡ true
handled_sends status c = ground arith

error_keeps : (status : ℕ) (c : Exchange State) → c.committed ≡ true → handle_error status c ≡ c
error_keeps status c sent = rw sent refl

recovered-Hands :
    (next : Handler ℕ State) (c : Exchange State) (out : Exchange State × Ending ℕ)
    → next c ≡ out
    → Hands next c (recovered out)
recovered-Hands next c (c', panicked what) h = catches c c' what refl h (error_silent 500 c')
recovered-Hands next c (c', returned answer) h = hands_on c refl h

answered_sends :
    (out : Exchange State × Ending ℕ) (c : Exchange State) (status : ℕ)
    → answered out ≡ (c, returned (some status))
    → c.committed ≡ true
answered_sends (c', panicked what) c status h = cc h
answered_sends (c', returned none) c status h = cc h
answered_sends (c', returned (some status')) c status h = cc (h, handled_sends status' c')

answered_silent : (out : Exchange State × Ending ℕ) → (answered out).0.lines ≡ out.0.lines
answered_silent (c, panicked what) = refl
answered_silent (c, returned none) = refl
answered_silent (c, returned (some status)) = error_silent status c

echo-IsEcho : IsEcho echo
echo-IsEcho = record {
  request_ids_outer = λ next c. hands_on (record c { request_id = codes "r1" }) refl refl;
  recovers_outer = λ next c. recovered-Hands next c (next c) refl;
  cors_outer = λ next c. hands_on c refl refl;
  otel_silent = λ h silent c. rw (answered_silent (h c)) (silent c);
  otel_answers = λ h c. answered_sends (h c);
  error_silent = error_silent;
  error_keeps = error_keeps;
}

answer_request-Told_example : Told request (run echo refuse)
answer_request-Told_example =
    answer_request-Told (λ status. codes "error") (λ status. codes "status") echo echo-IsEcho refuse
      (λ c. refl) request

refusal_logged :
    (run echo refuse).lines
    ≡ record {
      method = codes "GET";
      path = codes "/api/v1/customers";
      status = 401;
      request_id = codes "r1";
    }
      ∷ []
unfolding answer_request apply_middleware server_middleware slog_middleware log_request
    echo_middleware answer_error
refusal_logged = refl

panic_not_logged : (run echo break).lines ≡ []
unfolding answer_request apply_middleware server_middleware slog_middleware log_request
    echo_middleware answer_error
panic_not_logged = refl

-- Then the line says 200 and the client gets 401.
late_lines_differ :
    ((run late_echo refuse).status ≡ 401)
    × ((run late_echo refuse).lines
        ≡ record {
          method = codes "GET";
          path = codes "/api/v1/customers";
          status = 200;
          request_id = codes "r1";
        }
          ∷ [])
unfolding answer_request apply_middleware server_middleware slog_middleware log_request
    echo_middleware answer_error
late_lines_differ = (refl, refl)

-- ===== src/Process/RequestLines.antt =====
-- The line of slogMiddleware of internal/platform/middleware/middleware.go against the answer of the request.
use go_blueprint.Prelude.{
  sym, ℕ, ◌≡◌, true, Option, none, some, List, [], ◌∷◌, ◌++◌, Text, ◌⊎◌, inl, inr, refl,
}
use go_blueprint.Process.Middleware.{
  Echo, Ending, Exchange, Handler, Middleware, RequestLine, answer_error, answer_request,
  apply_middleware, server_middleware, echo_middleware, log_request, panicked, request_line,
  returned, trace_ending, slog_middleware,
}
use go_blueprint.Telemetry.{name_span}

-- How middleware of a library ends on `c` before `next`: it answers by itself, it hands the request on with other
-- headers or values in its context, or it makes an answer of a panic. It writes no line "request".
pub data Hands {E S : Type 0} (next : Handler E S) (c : Exchange S) (out : Exchange S × Ending E)
    : Type 0 where
  answers : out.0.lines ≡ c.lines → Hands next c out
  hands_on : (c' : Exchange S) → c'.lines ≡ c.lines → next c' ≡ out → Hands next c out
  catches :
      (c' c'' : Exchange S) (what : Text)
      → c'.lines ≡ c.lines
      → next c' ≡ (c'', panicked what)
      → out.0.lines ≡ c''.lines
      → Hands next c out

module _ {E S : Type 0} where
  abbrev pub IsOuter : Middleware E S → Type 0
  IsOuter m = (next : Handler E S) (c : Exchange S) → Hands next c (m next c)

  -- A handler that writes no line "request".
  abbrev pub IsSilent : Handler E S → Type 0
  IsSilent h = (c : Exchange S) → (h c).0.lines ≡ c.lines

-- What the code relies on: the error handler leaves a response that was sent, and otelecho has an error answered
-- before it returns it.
pub record IsEcho {E S : Type 0} (echo : Echo E S) : Type 0 where
  pub request_ids_outer : IsOuter echo.request_ids
  pub recovers_outer : IsOuter echo.recovers
  pub cors_outer : IsOuter echo.cors
  pub otel_silent : (h : Handler E S) → IsSilent h → IsSilent (echo.otel h)
  pub otel_answers :
      (h : Handler E S) (c c' : Exchange S) (e : E)
      → echo.otel h c ≡ (c', returned (some e))
      → c'.committed ≡ true
  pub error_silent : (e : E) (c : Exchange S) → (echo.handle_error e c).lines ≡ c.lines
  pub error_keeps : (e : E) (c : Exchange S) → c.committed ≡ true → echo.handle_error e c ≡ c

-- At most one more line, and it says what the response is.
abbrev pub Told : {S : Type 0} → Exchange S → Exchange S → Type 0
Told c c' = (c'.lines ≡ c.lines) ⊎ (c'.lines ≡ c.lines ++ request_line c' ∷ [])

-- An error has been answered.
abbrev Answered : {E S : Type 0} → Option E → Exchange S → Type 0
Answered none c = Unit
Answered (some e) c = c.committed ≡ true

abbrev Logged : {E S : Type 0} → List RequestLine → Exchange S × Ending E → Type 0
Logged before (c, panicked what) = c.lines ≡ before
Logged before (c, returned answer) =
    (c.lines ≡ before) ⊎ ((c.lines ≡ before ++ request_line c ∷ []) × Answered answer c)

module _ {E S : Type 0} where
  log_request-Logged :
      (before : List RequestLine) (out : Exchange S × Ending E)
      → out.0.lines ≡ before
      → ((c : Exchange S) (e : E) → out ≡ (c, returned (some e)) → c.committed ≡ true)
      → Logged before (log_request out)
  unfolding log_request
  log_request-Logged before (c, panicked what) silent answered = silent
  log_request-Logged before (c, returned none) silent answered = inr (rw silent refl, tt)
  log_request-Logged before (c, returned (some e)) silent answered =
      inr (rw silent refl, answered c e refl)

  trace_ending-silent :
      (error_text : E → Text) (status_text : ℕ → Text) (out : Exchange S × Ending E)
      → (trace_ending error_text status_text out).0.lines ≡ out.0.lines
  unfolding trace_ending
  trace_ending-silent error_text status_text (c, panicked what) = refl
  trace_ending-silent error_text status_text (c, returned none) = refl
  trace_ending-silent error_text status_text (c, returned (some e)) = refl

  quiet-Logged :
      (before : List RequestLine) (out : Exchange S × Ending E)
      → out.0.lines ≡ before
      → Logged before out
  quiet-Logged before (c, panicked what) quiet = quiet
  quiet-Logged before (c, returned answer) quiet = inl quiet

  Hands-Logged :
      (next : Handler E S) (c : Exchange S) (out : Exchange S × Ending E)
      → ((c' : Exchange S) → Logged c'.lines (next c'))
      → Hands next c out
      → Logged c.lines out
  Hands-Logged next c out logged (answers quiet) = quiet-Logged c.lines out quiet
  Hands-Logged next c out logged (hands_on c' same handed) = rw (sym same, sym handed) (logged c')
  Hands-Logged next c out logged (catches c' c'' what same handed quiet) =
      let found : c''.lines ≡ c'.lines = rw handed at (logged c') in
      quiet-Logged c.lines out (cc (quiet, found, same))

  module _ (error_text : E → Text) (status_text : ℕ → Text) (echo : Echo E S) (laws : IsEcho echo)
      (handler : Handler E S) (silent : IsSilent handler) where
    traced-IsSilent : IsSilent (λ c.
        trace_ending error_text status_text
          (handler (record c { span = name_span c.route c.request_id c.span })))
    traced-IsSilent c =
        rw
          (trace_ending-silent error_text status_text
            (handler (record c { span = name_span c.route c.request_id c.span })))
          (silent (record c { span = name_span c.route c.request_id c.span }))

    slog-Logged :
        (c : Exchange S)
        → Logged c.lines
            (slog_middleware (echo_middleware error_text status_text echo.otel handler) c)
    unfolding slog_middleware echo_middleware
    slog-Logged c =
        log_request-Logged c.lines _ (laws.otel_silent _ traced-IsSilent c) (laws.otel_answers _ c)

    server_middleware-Logged :
        (c : Exchange S)
        → Logged c.lines
            (apply_middleware (server_middleware error_text status_text echo) handler c)
    unfolding apply_middleware server_middleware
    server_middleware-Logged c =
        Hands-Logged _ c _
          (λ c.
            Hands-Logged _ c _ (λ c. Hands-Logged _ c _ slog-Logged (laws.cors_outer _ c))
              (laws.recovers_outer _ c))
          (laws.request_ids_outer _ c)

  answer_error-Told :
      (echo : Echo E S)
      → IsEcho echo
      → (c : Exchange S) (out : Exchange S × Ending E) → Logged c.lines out
      → Told c (answer_error echo out)
  unfolding answer_error
  answer_error-Told echo laws c (c', panicked what) logged = inl logged
  answer_error-Told echo laws c (c', returned none) (inl quiet) = inl quiet
  answer_error-Told echo laws c (c', returned none) (inr (line, _)) = inr line
  answer_error-Told echo laws c (c', returned (some e)) (inl quiet) =
      inl (rw (laws.error_silent e c') quiet)
  answer_error-Told echo laws c (c', returned (some e)) (inr (line, answered)) =
      inr (rw (laws.error_keeps e c' answered) line)

  -- If the middleware of the libraries hands requests on, answers them, or makes an answer of a panic, otelecho
  -- has an error answered before it returns it, the error handler leaves a response that was sent, and none of
  -- these and of the handler writes a request line: a request adds at most one request line to the log, and
  -- its method, path, status and request id are those that the request ends with.
  pub answer_request-Told :
      (error_text : E → Text) (status_text : ℕ → Text) (echo : Echo E S)
      → IsEcho echo
      → (handler : Handler E S) → IsSilent handler
      → (c : Exchange S) → Told c (answer_request error_text status_text echo handler c)
  unfolding answer_request
  answer_request-Told error_text status_text echo laws handler silent c =
      answer_error-Told echo laws c _
        (server_middleware-Logged error_text status_text echo laws handler silent c)

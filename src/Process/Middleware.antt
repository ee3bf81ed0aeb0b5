-- ===== src/Process/Middleware.antt =====
-- internal/platform/middleware/middleware.go and EchoMiddleware of internal/platform/telemetry/middleware.go, in the
-- order in which Start of internal/platform/server/server.go gives them to Echo. The middleware of the libraries, the
-- error handler of Echo and the handler behind them are parameters.
use go_blueprint.Prelude.{ℕ, Bool, Option, none, some, List, [], ◌∷◌, ◌++◌, Text}
use go_blueprint.Telemetry.{Span, name_span, settle_span}

-- The attributes of the line "request".
pub record RequestLine : Type 0 where
  pub method : Text
  pub path : Text
  pub status : ℕ
  pub request_id : Text

-- What a request leaves in echo.Context and in the log: the request, the response with its header X-Request-ID, the
-- span of the context, the lines "request", and the state S of the service.
pub record Exchange (S : Type 0) : Type 0 where
  pub method : Text
  pub path : Text
  pub route : Text
  pub request_id : Text
  pub status : ℕ
  pub committed : Bool
  pub span : Span
  pub lines : List RequestLine
  pub store : S

-- What a handler ends with: an error or nil, or a panic.
pub data Ending (E : Type 0) : Type 0 where
  returned : Option E → Ending E
  panicked : Text → Ending E

abbrev pub Handler : Type 0 → Type 0 → Type 0
Handler E S = Exchange S → Exchange S × Ending E

abbrev pub Middleware : Type 0 → Type 0 → Type 0
Middleware E S = Handler E S → Handler E S

abbrev pub request_line : {S : Type 0} → Exchange S → RequestLine
request_line c = record {
  method = c.method;
  path = c.path;
  status = c.status;
  request_id = c.request_id;
}

unfoldable pub log_request : {E S : Type 0} → Exchange S × Ending E → Exchange S × Ending E
log_request (c, panicked what) = (c, panicked what)
log_request (c, returned answer) =
    (record c { lines = c.lines ++ request_line c ∷ [] }, returned answer)

unfoldable pub slog_middleware : {E S : Type 0} → Middleware E S
unfolding log_request
slog_middleware next c = log_request (next c)

module _ {E S : Type 0} (error_text : E → Text) (status_text : ℕ → Text) where
  unfoldable pub trace_ending : Exchange S × Ending E → Exchange S × Ending E
  trace_ending (c, panicked what) = (c, panicked what)
  trace_ending (c, returned none) =
      (record c { span = settle_span status_text none c.status c.span }, returned none)
  trace_ending (c, returned (some e)) = (
    record c { span = settle_span status_text (some (error_text e)) c.status c.span },
    returned (some e),
  )

  -- `base` is the middleware of otelecho.
  unfoldable pub echo_middleware : Middleware E S → Middleware E S
  unfolding trace_ending
  echo_middleware base next =
      base (λ c. trace_ending (next (record c { span = name_span c.route c.request_id c.span })))

-- What Echo and the libraries give: their middleware, and the HTTPErrorHandler.
pub record Echo (E S : Type 0) : Type 0 where
  pub request_ids : Middleware E S
  pub recovers : Middleware E S
  pub cors : Middleware E S
  pub otel : Middleware E S
  pub handle_error : E → Exchange S → Exchange S

-- Register.
abbrev pub register : {E S : Type 0} → Echo E S → List (Middleware E S) → List (Middleware E S)
register echo used = used ++ echo.request_ids ∷ echo.recovers ∷ echo.cors ∷ slog_middleware ∷ []

-- The middleware that Start gives to Echo.
unfoldable pub server_middleware :
    {E S : Type 0} → (E → Text) → (ℕ → Text) → Echo E S → List (Middleware E S)
server_middleware error_text status_text echo =
    register echo [] ++ echo_middleware error_text status_text echo.otel ∷ []

-- Echo runs the first middleware outermost.
unfoldable pub apply_middleware : {E S : Type 0} → List (Middleware E S) → Handler E S → Handler E S
apply_middleware [] h = h
apply_middleware (m ∷ ms) h = m (apply_middleware ms h)

-- Echo hands the error of the chain to its error handler. A panic closes the connection.
unfoldable pub answer_error : {E S : Type 0} → Echo E S → Exchange S × Ending E → Exchange S
answer_error echo (c, returned (some e)) = echo.handle_error e c
answer_error echo (c, returned none) = c
answer_error echo (c, panicked what) = c

-- A request that Echo runs through the chain to `handler`.
unfoldable pub answer_request :
    {E S : Type 0} → (E → Text) → (ℕ → Text) → Echo E S → Handler E S → Exchange S → Exchange S
unfolding apply_middleware answer_error server_middleware
answer_request error_text status_text echo handler c =
    answer_error echo (apply_middleware (server_middleware error_text status_text echo) handler c)

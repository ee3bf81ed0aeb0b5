-- ===== src/Auth/Interceptors.antt =====
-- The chain of interceptors of internal/platform/grpc: recovery, then logging, then authentication.
use go_blueprint.Prelude.{ℕ, ◌≡◌, Bool, true, false, Option, none, some, List, arith, Text, codes}
use go_blueprint.Auth.Access.{open_door, admitted, unauthenticated, auth_interceptor}
use go_blueprint.Auth.Service.{Claims, Crypto, Config}

-- What a handler ends with: a response, a status with its message, or a panic.
pub data Outcome (A : Type 0) : Type 0 where
  responds : A → Outcome A
  fails : Text → Text → Outcome A
  panics : Text → Outcome A

-- A handler, by the claims that stand in its context.
abbrev pub GrpcHandler : Type 0 → Type 0
GrpcHandler A = Option Claims → Outcome A

-- recoveryInterceptor and streamRecoveryInterceptor.
unfoldable pub recovery_interceptor : {A : Type 0} → Outcome A → Outcome A
recovery_interceptor (responds a) = responds a
recovery_interceptor (fails status message) = fails status message
recovery_interceptor (panics what) = fails (codes "Internal") (codes "internal server error")

-- loggingInterceptor and streamLoggingInterceptor write a line and hand on what they got.
abbrev pub logging_interceptor : {A : Type 0} → Outcome A → Outcome A
logging_interceptor outcome = outcome

module _ (crypto : Crypto) (config : Config) where
  -- The call of a method through the chain of NewServer.
  unfoldable pub serve : {A : Type 0} → ℕ → Text → Option (List Text) → GrpcHandler A → Outcome A
  unfolding recovery_interceptor
  serve now full_method metadata handler = recovery_interceptor (
      logging_interceptor (elim (auth_interceptor crypto config now full_method metadata) [
        | open_door ↦ handler none
        | admitted claims ↦ handler (some claims)
        | unauthenticated message ↦ fails (codes "Unauthenticated") message
      ]))

  abbrev pub is_panic : {A : Type 0} → Outcome A → Bool
  is_panic (responds a) = false
  is_panic (fails status message) = false
  is_panic (panics what) = true

  -- No panic of a handler gets through the chain.
  serve_never_panics :
      {A : Type 0} (now : ℕ) (full_method : Text) (metadata : Option (List Text))
      (handler : GrpcHandler A)
      → is_panic (serve now full_method metadata handler) ≡ false
  unfolding serve
  serve_never_panics now full_method metadata handler = ground arith

-- ===== src/Process/Tests.antt =====
-- The outbox and the routes of a process on concrete data.
use go_blueprint.Prelude.{
  if◌then◌else◌, inr, cut_prefix, inl, ◌++◌, ◌+◌, ◌&&◌, text_eq, codes, Option, Bool-cases,
  contains, ℕ, ◌≡◌, refl, true, none, some, List, [], ◌∷◌, arith, Text,
}
use go_blueprint.Outbox.Tests.{order, rows, engine, engine-IsEngine, poller}
use go_blueprint.Process.Expiry.{unlocked, expired_only_locks}
use go_blueprint.Process.Liveness.{due_delivered}
use go_blueprint.Process.{expired, Context, Act, act_all, ticks, delivers, job_context}
use go_blueprint.Outbox.Poller.{poll}
use go_blueprint.Outbox.Store.{claimable, chosen_ids, lock, claim_batch, message_ids}
use go_blueprint.Outbox.History.{is_retired}
use go_blueprint.Worker.{Pool, new}
use go_blueprint.Outbox.{Message}
use go_blueprint.Errors.{ok, done}
use go_blueprint.Auth.Service.{Crypto}
use go_blueprint.Process.Routes.{
  serve_request, serve_request-Served, server_routes, serve_route, Endpoint, Served, Route,
  IsRouter,
}
use go_blueprint.Customer.Http.{replied, Response, http_error}
use go_blueprint.Auth.Access.{extract_bearer_token, jwt_middleware}

abbrev root : Context
root = record { done_at = none }

abbrev number : ℕ → Text
number n = n ∷ []

abbrev late : List Act
late = ticks done [] 40 ∷ delivers 60 none done order ∷ []

expired_only_locks_example :
    unlocked (act_all number engine poller root (job_context root 10 50) rows late) ≡ unlocked rows
expired_only_locks_example = expired_only_locks number engine poller root 10 50 rows late refl

abbrev pool : Pool Message
pool = new 2 3

abbrev in_time : List Act
in_time =
    ticks done [] 30 ∷ delivers 40 none done order ∷ delivers 70 (some expired) done order ∷ []

due_delivered_example :
    (contains 1 (message_ids (poll engine poller done [] 20 rows pool).pool.queue) ≡ true)
    × (is_retired 1 (
          act_all number engine poller root
            (job_context root 10 50)
            (poll engine poller done [] 20 rows pool).rows
            in_time)
        ≡ true)
unfolding claimable poll claim_batch chosen_ids lock new job_context
due_delivered_example =
    due_delivered number engine engine-IsEngine poller root (job_context root 10 50) 20 1 rows pool
      in_time refl (omega arith) refl (omega arith) refl

-- A router that takes paths as they are written.
abbrev exact_find : List Route → Text → Text → Option Route
exact_find [] method path = none
exact_find (r ∷ routes) method path =
    if text_eq method r.method && text_eq path (r.group.prefix ++ r.path)
    then some r
    else exact_find routes method path

exact_find-IsRouter : IsRouter exact_find
exact_find-IsRouter [] method path r p h passes = cc h
exact_find-IsRouter (s ∷ routes) method path r p h passes =
    elim (Bool-cases (text_eq method s.method && text_eq path (s.group.prefix ++ s.path))) [
      | inl same ↦ let found : some s ≡ some r = rw same at h in ground (arith, found, passes)
      | inr other ↦
          exact_find-IsRouter routes method path r p (rw other at h) (ground (arith, passes))
    ]

abbrev counted : Endpoint → Option Text → ℕ → ℕ × Response ℕ
counted e subject calls = (calls + 1, replied 200 0)

abbrev crypto : Crypto
crypto = record {
  hash = λ salt password. ok password;
  compare = λ hash password. text_eq hash password;
  sign = λ secret claims. ok [];
  parse = λ secret now token. none;
}

serve_request-Served_example :
    Served exact_find counted (http_error 404 []) crypto [] 5 (codes "Bearer x") 0 (
      serve_request exact_find counted
        (http_error 404 [])
        crypto
        []
        5
        (codes "GET")
        (codes "/api/v1/customers")
        (codes "Bearer x")
        0)
serve_request-Served_example =
    serve_request-Served exact_find counted (http_error 404 []) crypto [] exact_find-IsRouter 5
      (codes "GET") (codes "/api/v1/customers") (codes "Bearer x") 0

refuses_unread_token :
    serve_request exact_find counted
      (http_error 404 [])
      crypto
      []
      5
      (codes "GET")
      (codes "/api/v1/customers")
      (codes "Bearer x")
      0
    ≡ (0, http_error 401 (codes "invalid or expired token"))
unfolding serve_request serve_route server_routes jwt_middleware extract_bearer_token cut_prefix
    text_eq
refuses_unread_token = refl

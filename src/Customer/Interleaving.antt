-- ===== src/Customer/Interleaving.antt =====
-- Requests of internal/customer/service.go that run at the same time: each reads in one step, and changes the
-- tables in a later one. A transaction is one step: Postgres lets a statement that meets an uncommitted row
-- of another transaction wait for it.
use go_blueprint.Prelude.{
  ℕ, zero, suc, ◌≡◌, refl, inl, inr, Bool, true, Option, none, some, List, [], ◌∷◌, ◌++◌, arith,
  ◌==◌, ==_iff, if◌then◌else◌, Bool-cases, Option-cases,
}
use go_blueprint.Prelude.Every.{all}
use go_blueprint.Errors.{Result-cases, ok, err, is, customer_not_found}
use go_blueprint.Customer.{Customer}
use go_blueprint.Customer.World.{World, Call, Host, RegisterCmd, UpdateCmd}
use go_blueprint.Customer.Repository.{find_by_id, find_by_email}
use go_blueprint.Customer.Tables.{find_by_id_ok}
use go_blueprint.Customer.Service.{check_email, register_new, update_found, remove_found}
use go_blueprint.Customer.AllOrNothing.{
  register_new-AllOrNothing, update_found-AllOrNothing, remove_found-AllOrNothing,
}
use go_blueprint.Customer.Registry.{IsRegistry}
use go_blueprint.Customer.Commands.{
  Command, registers, updates, removes, Registers-IsRegistry, Updates-IsRegistry,
  Removes-IsRegistry,
}
use go_blueprint.Worker.{pick}

-- Where a request stands between two of its steps: past the check of Register, past the find of Update, past
-- its check of the e-mail, or past the find of Remove.
pub data Waiting : Type 0 where
  registering : Call → RegisterCmd → Waiting
  checking updating : Call → UpdateCmd → Customer → Waiting
  removing : Call → ℕ → Waiting

pub record Server : Type 0 where
  pub world : World
  pub waiting : List Waiting

-- A request comes and reads, or one that waits goes on.
pub data Event : Type 0 where
  arrives : Command → Event
  proceeds : ℕ → Event

abbrev pub waits : Server → Waiting → Server
waits s r = record s { waiting = s.waiting ++ r ∷ [] }

module _ (host : Host) where
  unfoldable pub arrive : Server → Command → Server
  arrive s (registers call cmd) =
      elim (find_by_email call.email_failure s.world.database.customers cmd.email) [
        | ok c ↦ s
        | err e ↦ if is e customer_not_found then waits s (registering call cmd) else s
      ]
  arrive s (updates call cmd) =
      elim (find_by_id call.find_failure s.world.database.customers cmd.id) [
        | err e ↦ s
        | ok found ↦ waits s (checking call cmd found)
      ]
  arrive s (removes call id) = elim (find_by_id call.find_failure s.world.database.customers id) [
    | err e ↦ s
    | ok found ↦ waits s (removing call id)
  ]

  -- The next step of a request, and where it stands after it, if it is not answered.
  unfoldable pub proceed : World → Waiting → World × List Waiting
  proceed w (registering call cmd) = ((register_new host call w cmd).0, [])
  proceed w (checking call cmd found) = (
    w,
    elim (check_email host call w cmd found) [ ok _ ↦ updating call cmd found ∷ [] | err e ↦ [] ],
  )
  proceed w (updating call cmd found) = ((update_found host call w cmd found).0, [])
  proceed w (removing call id) = ((remove_found host call w id).0, [])

  unfoldable pub step : Server → Event → Server
  unfolding arrive proceed pick
  step s (arrives c) = arrive s c
  step s (proceeds i) = elim (pick s.waiting i) [
    | none ↦ s
    | some (r, rest) ↦ record {
      world = (proceed s.world r).0;
      waiting = rest ++ (proceed s.world r).1;
    }
  ]

  unfoldable pub play : Server → List Event → Server
  unfolding step
  play s [] = s
  play s (e ∷ es) = play (step s e) es

-- An Update that waits found the customer that it names.
abbrev is_found : Waiting → Bool
is_found (checking call cmd found) = found.id == cmd.id
is_found (updating call cmd found) = found.id == cmd.id
is_found _ = true

all-append :
    (rs qs : List Waiting)
    → all is_found rs ≡ true
    → all is_found qs ≡ true
    → all is_found (rs ++ qs) ≡ true
all-append [] qs h k = k
all-append (r ∷ rs) qs h k = ground (arith, all-append rs qs)

all-pick :
    (rs : List Waiting) (i : ℕ) (r : Waiting) (rest : List Waiting)
    → all is_found rs ≡ true
    → pick rs i ≡ some (r, rest)
    → (is_found r ≡ true) × (all is_found rest ≡ true)
unfolding pick
all-pick [] i r rest h k = cc k
all-pick (q ∷ rs) zero r rest h k = ground arith
all-pick (q ∷ rs) (suc i) r rest h k = elim (Option-cases (pick rs i)) [
  | inl missing ↦ cc (rw (missing, pick) at k)
  | inr ((y, others), found) ↦
      let same : ◌≡◌ {A = Option (Waiting × List Waiting)} (some (y, q ∷ others)) (some (r, rest)) =
        rw (found, pick) at k in
      ground (arith, same, all-pick rs i y others (ground (arith, h)) found)
]

module _ (host : Host) where
  proceed-IsRegistry :
      (w : World) (r : Waiting)
      → is_found r ≡ true
      → IsRegistry w.database.customers
      → IsRegistry (proceed host w r).0.database.customers
  unfolding proceed
  proceed-IsRegistry w (registering call cmd) h v =
      Registers-IsRegistry host call w.database _ _ cmd (register_new-AllOrNothing host call w cmd)
        v
  proceed-IsRegistry w (checking call cmd found) h v = v
  proceed-IsRegistry w (updating call cmd found) h v =
      Updates-IsRegistry host call w.database _ _ cmd
        (update_found-AllOrNothing host call w cmd found ((==_iff found.id cmd.id).0 h)) v
  proceed-IsRegistry w (removing call id) h v =
      Removes-IsRegistry host call w.database _ _ id (remove_found-AllOrNothing host call w id) v

  proceed-is_found :
      (w : World) (r : Waiting) → is_found r ≡ true → all is_found (proceed host w r).1 ≡ true
  unfolding proceed
  proceed-is_found w (registering call cmd) h = refl
  proceed-is_found w (updating call cmd found) h = refl
  proceed-is_found w (removing call id) h = refl
  proceed-is_found w (checking call cmd found) h =
      elim (Result-cases (check_email host call w cmd found)) [
        | inl (u, free) ↦ rw (free, proceed) (ground (arith, h))
        | inr (e, taken) ↦ rw (taken, proceed) refl
      ]

  arrive-keeps :
      (s : Server) (c : Command)
      → all is_found s.waiting ≡ true
      → ((arrive host s c).world ≡ s.world) × (all is_found (arrive host s c).waiting ≡ true)
  unfolding arrive
  arrive-keeps s (registers call cmd) h =
      elim (Result-cases (find_by_email call.email_failure s.world.database.customers cmd.email)) [
        | inl (c, taken) ↦ rw (taken, arrive) (refl, h)
        | inr (e, missing) ↦ elim (Bool-cases (is e customer_not_found)) [
          | inl free ↦ rw (missing, free, arrive) (refl, all-append s.waiting _ h refl)
          | inr failed ↦ rw (missing, failed, arrive) (refl, h)
        ]
      ]
  arrive-keeps s (updates call cmd) h =
      elim (Result-cases (find_by_id call.find_failure s.world.database.customers cmd.id)) [
        | inr (e, missing) ↦ rw (missing, arrive) (refl, h)
        | inl (found, there) ↦
            rw (there, arrive)
              (
                refl,
                all-append s.waiting _ h (
                    ground (
                      arith,
                      (==_iff found.id cmd.id).1
                          (find_by_id_ok call.find_failure s.world.database.customers cmd.id there),
                    )),
              )
      ]
  arrive-keeps s (removes call id) h =
      elim (Result-cases (find_by_id call.find_failure s.world.database.customers id)) [
        | inr (e, missing) ↦ rw (missing, arrive) (refl, h)
        | inl (found, there) ↦ rw (there, arrive) (refl, all-append s.waiting _ h refl)
      ]

  step-keeps :
      (s : Server) (e : Event)
      → all is_found s.waiting ≡ true
      → IsRegistry s.world.database.customers
      → (all is_found (step host s e).waiting ≡ true)
        × IsRegistry (step host s e).world.database.customers
  unfolding step
  step-keeps s (arrives c) h v = let (same, found) = arrive-keeps s c h in (found, rw same v)
  step-keeps s (proceeds i) h v = elim (Option-cases (pick s.waiting i)) [
    | inl none_left ↦ rw (none_left, step) (h, v)
    | inr ((r, rest), taken) ↦
        let (r_found, rest_found) = all-pick s.waiting i r rest h taken in
        rw (taken, step)
          (
            all-append rest _ rest_found (proceed-is_found s.world r r_found),
            proceed-IsRegistry s.world r r_found v,
          )
  ]

  play-keeps :
      (s : Server) (es : List Event)
      → all is_found s.waiting ≡ true
      → IsRegistry s.world.database.customers
      → IsRegistry (play host s es).world.database.customers
  unfolding play
  play-keeps s [] h v = v
  play-keeps s (e ∷ es) h v =
      let (found, kept) = step-keeps s e h v in play-keeps (step host s e) es found kept

  -- Whatever requests come, however the steps of those that wait are interleaved, and whatever fails in them: a
  -- table in which every customer has a name and an e-mail and no two have one id or one e-mail stays so.
  pub play-IsRegistry :
      (w : World) (es : List Event)
      → IsRegistry w.database.customers
      → IsRegistry (play host (record { world = w; waiting = [] }) es).world.database.customers
  play-IsRegistry w es v = play-keeps (record { world = w; waiting = [] }) es refl v

-- ===== src/Customer/InterleavingTests.antt =====
-- Requests at the same time: two registrations of one e-mail, and a late removal.
use go_blueprint.Prelude.{refl, List, [], ◌∷◌}
use go_blueprint.Customer.World.{Call, World}
use go_blueprint.Customer.Races.{late_remove-Announces}
use go_blueprint.Customer.Service.{remove_found}
use go_blueprint.Customer.Atomicity.{Announces}
use go_blueprint.Errors.{ok}
use go_blueprint.Prelude.{codes, ◌≡◌}
use go_blueprint.Customer.Registry.{IsRegistry}
use go_blueprint.Customer.Tests.{host, call, world, bob}
use go_blueprint.Customer.Commands.{registers, removes}
use go_blueprint.Customer.Interleaving.{Event, arrives, proceeds, play, play-IsRegistry}

abbrev later : Call
later = record call { customer_id = 8; message_id = 71; event_id = 701 }

abbrev racing : List Event
racing =
    arrives (registers call bob)
    ∷ arrives (registers later bob)
    ∷ arrives (removes later 3)
    ∷ proceeds 0
    ∷ proceeds 0
    ∷ proceeds 0
    ∷ []

play-IsRegistry_example :
    IsRegistry (play host (record { world = world; waiting = [] }) racing).world.database.customers
play-IsRegistry_example =
    play-IsRegistry host world racing (record { named = refl; ids = refl; emails = refl })

-- Ann is gone.
abbrev emptied : World
emptied = record world { database = record world.database { customers = [] } }

late_remove-Announces_example :
    ((remove_found host call emptied 3).1 ≡ ok tt)
    × Announces call
        (codes "CustomerRemoved")
        3
        []
        (remove_found host call emptied 3).0.database.outbox
late_remove-Announces_example =
    late_remove-Announces host call emptied 3 (codes "{}") refl refl refl refl refl refl

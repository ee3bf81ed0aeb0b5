-- ===== src/Process/PipelineTests.antt =====
-- A registration from the command to the event handler.
use go_blueprint.Prelude.{
  refl, none, List, [], ◌∷◌, arith, text_eq, codes, trim_space, to_lower, trim_left, trim_right,
  cons_unless_blank, lower_rune,
}
use go_blueprint.Errors.{done, is}
use go_blueprint.Outbox.{Message, Row}
use go_blueprint.Outbox.Store
use go_blueprint.Outbox.Store.{claimable, claim_batch, chosen_ids, lock}
use go_blueprint.Outbox.Tests.{engine, engine-IsEngine, poller, order}
use go_blueprint.Outbox.Poller.{poll}
use go_blueprint.Worker.{Pool, new}
use go_blueprint.Process.{Context, Act, act_all, ticks, delivers}
use go_blueprint.Process.Pipeline.{Delivered, registered-Delivered}
use go_blueprint.Kafka.Producer.{Producer}
use go_blueprint.Customer.Tests.{host, call, world, bob}
use go_blueprint.Customer.Repository
use go_blueprint.Customer.Domain
use go_blueprint.Customer.Service
use go_blueprint.Customer.Service.{register}

abbrev producer : Producer
producer = record {
  topic = codes "customers";
  dlq_topic = codes "customers.dlq";
  uuid_text = λ id. id ∷ [];
  format_time = λ t. t ∷ [];
}

abbrev root : Context
root = record { done_at = none }

abbrev job : Context
job = record { done_at = none }

abbrev acts : List Act
acts = ticks done [] 1_010 ∷ delivers 1_020 none done (record order { id = 70 }) ∷ []

abbrev stored : List Row
stored = (register host call world bob).0.database.outbox

abbrev pool : Pool Message
pool = new 2 3

registered-Delivered_example :
    Delivered call 7 [] producer 4 [] []
      (poll engine poller done [] 1_010 stored pool)
      (act_all
        (λ i. i ∷ [])
        engine
        poller
        root
        job
        (poll engine poller done [] 1_010 stored pool).rows
        acts)
      stored
unfolding register Service.register_new Service.register_body Service.transact Service.append_outbox
    Repository.find_by_email Repository.save_tx Repository.create_customer Domain.new
    Domain.validate_name Domain.validate_email Domain.validate_birth_date is trim_space trim_left
    trim_right cons_unless_blank to_lower lower_rune text_eq Service.append_event Store.save_tx
    claimable poll claim_batch chosen_ids lock new
registered-Delivered_example =
    registered-Delivered host call world bob 7 (λ i. i ∷ []) engine engine-IsEngine poller root job
      1_010 pool acts producer 4 [] [] refl (omega arith) (omega arith) (omega arith) refl
      (omega arith) refl refl refl

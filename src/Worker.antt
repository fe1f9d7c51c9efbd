-- ===== src/Worker.antt =====
-- internal/rabbitmq/rabbitmq.go: the topology, and the worker that evaluates the jobs of deliveries.
-- The Store is an interface, and the broker's answers are parameters. Tracing and logging are left out.
pub mod Attempts
mod Tests
use aegis_ai_platform.Prelude.{
  ℕ, zero, suc, ◌+◌, ℤ, pos, ◌+ℤ◌, leb_ℤ, int64, String, Text, text, text_eq, Bool, true, false,
  not, ◌&&◌, ◌||◌, List, [], ◌∷◌, Option, none, some, map, ◌==◌, if◌then◌else◌,
}
use aegis_ai_platform.Errors.{Result, ok, err, Failure}
use aegis_ai_platform.Action.{Action}
use aegis_ai_platform.Evaluation.{Input, Evaluated}

-- Exchanges, queues and the keys that bind them.
abbrev pub main_exchange : Text
main_exchange = text "aegis.evaluation"

abbrev pub retry_exchange : Text
retry_exchange = text "aegis.evaluation.retry"

abbrev pub dead_exchange : Text
dead_exchange = text "aegis.evaluation.dlx"

abbrev pub work_queue : Text
work_queue = text "aegis.evaluation.work"

abbrev pub retry_queue : Text
retry_queue = text "aegis.evaluation.retry.5s"

abbrev pub dead_queue : Text
dead_queue = text "aegis.evaluation.dead"

-- A message that a queue drops, after its time in milliseconds or when it is rejected, goes to
-- an exchange under a key.
pub record Queue : Type 0 where
  pub name : Text
  pub ttl : Option ℕ
  pub dead_letter : Option (Text × Text)

pub record Binding : Type 0 where
  pub queue : Text
  pub key : Text
  pub exchange : Text

-- declare.
unfoldable pub queues : List Queue
queues =
    record { name = work_queue; ttl = none; dead_letter = some (dead_exchange, text "dead") }
    ∷ record {
      name = retry_queue;
      ttl = some 5000;
      dead_letter = some (main_exchange, text "evaluate");
    }
    ∷ record { name = dead_queue; ttl = none; dead_letter = none }
    ∷ []

unfoldable pub bindings : List Binding
bindings =
    record { queue = work_queue; key = text "evaluate"; exchange = main_exchange }
    ∷ record { queue = retry_queue; key = text "retry"; exchange = retry_exchange }
    ∷ record { queue = dead_queue; key = text "dead"; exchange = dead_exchange }
    ∷ []

pub record Job : Type 0 where
  pub job_id : Text
  pub tenant_id : Text
  pub execution_id : Text
  pub job_type : Text
  pub correlation_id : Text
  pub attempt : ℤ

-- The exchange and the key under which Publish sends.
unfoldable pub address : Bool → Text × Text
address retry = if retry then (retry_exchange, text "retry") else (main_exchange, text "evaluate")

-- The methods of the Store, over its state.
pub record Store (S : Type 0) : Type 0 where
  pub mark_running : Text → Text → Action S (Unit {0})
  pub load : Text → Text → Action S Input
  pub complete : Text → Text → Text → List Evaluated → Action S (Unit {0})
  pub fail : Text → Text → Text → Bool → Action S (Unit {0})

-- NewWorker.
unfoldable pub max_attempts : ℤ → ℤ
max_attempts n = if leb_ℤ n (pos 0) then pos 3 else n

unfoldable pub concurrency : ℤ → ℤ
concurrency n = if leb_ℤ n (pos 0) then pos 4 else n

-- What becomes of a delivery: Ack, Nack without requeue, which the queue's dead_letter takes, Nack with
-- requeue, or Ack after another message has been published for the job.
pub data Fate : Type 0 where
  acked dropped requeued : Fate
  retried : Job → Fate

-- `confirmed` says that Publish returns no error.
module _ {S : Type 0} (store : Store S) (limit : ℤ) where
  -- retry.
  unfoldable pub retry : Bool → Job → Text → S → Fate × S
  unfolding int64 ◌+ℤ◌
  retry confirmed job category s =
      let next = record job { attempt = int64 (job.attempt +ℤ pos 1) } in
      if leb_ℤ limit next.attempt
      then (dropped, (store.fail job.tenant_id job.job_id category true s).1)
      else if not confirmed
      then (requeued, s)
      else (retried next, (store.fail job.tenant_id job.job_id category false s).1)

  -- `evaluators` are the Evaluate methods.
  module _ (evaluators : List (Input → Evaluated)) where
    unfoldable pub after_complete : Bool → Job → Result (Unit {0}) × S → Fate × S
    unfolding retry
    after_complete confirmed job (ok _, s) = (acked, s)
    after_complete confirmed job (err e, s) = retry confirmed job (text "database_transient") s

    unfoldable pub after_load : Bool → Job → Result Input × S → Fate × S
    unfolding after_complete
    after_load confirmed job (ok input, s) =
        let results = map (λ f. f input) evaluators in
        after_complete confirmed job
          (store.complete job.tenant_id job.job_id job.execution_id results s)
    after_load confirmed job (err e, s) = retry confirmed job (text "evaluation_source") s

    unfoldable pub after_mark : Bool → Job → Result (Unit {0}) × S → Fate × S
    unfolding after_load
    after_mark confirmed job (ok _, s) =
        after_load confirmed job (store.load job.tenant_id job.job_id s)
    after_mark confirmed job (err e, s) = retry confirmed job (text "database_transient") s

    -- process. `body` is the decoded message, if it is one.
    unfoldable pub process : Bool → Option Job → S → Fate × S
    unfolding after_mark
    process confirmed none s = (dropped, s)
    process confirmed (some job) s =
        if job.job_id == [] || job.tenant_id == [] || job.execution_id == []
        then (dropped, s)
        else after_mark confirmed job (store.mark_running job.tenant_id job.job_id s)

    -- The deliveries of a job, one after the other: after `requeued` the same message comes again, and
    -- after `retried` the message of the retry queue. `confirms n` is the answer to the n-th delivery.
    unfoldable pub settle : (Job → S → Option (Fate × S)) → Job → Fate × S → Option (Fate × S)
    settle again job (retried next, s) = again next s
    settle again job (requeued, s) = again job s
    settle again job (acked, s) = some (acked, s)
    settle again job (dropped, s) = some (dropped, s)

    unfoldable pub deliver : ℕ → (ℕ → Bool) → ℕ → Job → S → Option (Fate × S)
    unfolding process settle
    deliver zero confirms n job s = none
    deliver (suc fuel) confirms n job s =
        settle (deliver fuel confirms (n + 1)) job (process (confirms n) (some job) s)

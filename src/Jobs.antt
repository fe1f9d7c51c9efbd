-- ===== src/Jobs.antt =====
-- internal/persistence/evaluation.go: evaluation jobs and their results, over the tables that it uses.
-- Results are keyed by their job, which is unique. `now` is the server's now(). A violated constraint
-- is an answer of the server that refuses the statement.
pub mod Operations
pub mod Calls
pub mod Results
pub mod History
mod Tests
use aegis_ai_platform.Prelude.{
  ℕ, ◌+◌, ◌/◌, ℤ, pos, quo, ◌+ℤ◌, ◌-ℤ◌, ◌*ℤ◌, int64, max_ℤ, Text, text, text_eq, Bool, true, false,
  not, ◌&&◌, ◌||◌, List, [], ◌∷◌, ◌++◌, Option, none, some, lookup, insert, length, nat_eq, nat_beq,
  ◌==◌, if◌then◌else◌,
}
use aegis_ai_platform.Errors.{Result, ok, err, Failure, plain, wrapped, not_found, conflict}
use aegis_ai_platform.Action.{Action, ◌>>=◌, ◌>>◌, pure, raise, lift, check}
use aegis_ai_platform.Events.{Kind, evaluation_complete, evaluation_failed}
use aegis_ai_platform.Sql.{Answer, Session, round_trip, transaction, label}
use aegis_ai_platform.Request.{State, completed, state_beq, ChatResponse, Record}
use aegis_ai_platform.Evaluation.{Input, Evaluated, Outcome, passed, failed}
use aegis_ai_platform.Postgres.{
  AttemptRow, AttemptStatus, started, succeeded, stopped, Event, Value, string, integer,
}

pub data JobStatus : Type 0 where
  pending queued running done faulty dead_lettered : JobStatus

-- `parameters` is the JSON text. `result` is what GetEvaluation joins in.
pub record EvaluationJob : Type 0 where
  pub id : Text
  pub tenant_id : Text
  pub request_id : Text
  pub idempotency_key : Text
  pub canonical_hash : List ℕ
  pub job_type : Text
  pub status : JobStatus
  pub attempt_count : ℕ
  pub correlation_id : Text
  pub parameters : Text
  pub requested_at : ℤ
  pub started_at : Option ℤ
  pub completed_at : Option ℤ
  pub last_error_category : Text
  pub result : Option (List Evaluated)

pub record CreateEvaluationParams : Type 0 where
  pub tenant_id : Text
  pub request_id : Text
  pub idempotency_key : Text
  pub canonical_hash : List ℕ
  pub job_type : Text
  pub correlation_id : Text
  pub parameters : Text

-- A row of evaluation_results.
pub record ResultRow : Type 0 where
  pub tenant_id : Text
  pub execution_id : Text
  pub score_milli : ℕ
  pub outcome : Outcome
  pub duration_ms : ℤ
  pub payload : List Evaluated

pub record JobTables : Type 0 where
  pub requests : List (Text × Record)
  pub attempts : List AttemptRow
  pub jobs : List (Text × EvaluationJob)
  pub results : List (Text × ResultRow)
  pub outbox : List Event

abbrev pub Db : Type 0 → Type 0
Db A = Action (Session JobTables) A

unfoldable pub find_job : Text → Text → List (Text × EvaluationJob) → Option Text
find_job tenant key [] = none
find_job tenant key ((id, j) ∷ rows) =
    if j.tenant_id == tenant && j.idempotency_key == key then some id else find_job tenant key rows

unfoldable pub is_evaluable : Text → Option Record → Bool
is_evaluable tenant none = false
is_evaluable tenant (some r) = r.tenant_id == tenant && state_beq r.state completed

abbrev pub new_job : CreateEvaluationParams → Text → ℤ → EvaluationJob
new_job params fresh now = record {
  id = fresh;
  tenant_id = params.tenant_id;
  request_id = params.request_id;
  idempotency_key = params.idempotency_key;
  canonical_hash = params.canonical_hash;
  job_type = params.job_type;
  status = pending;
  attempt_count = 0;
  correlation_id = params.correlation_id;
  parameters = params.parameters;
  requested_at = now;
  started_at = none;
  completed_at = none;
  last_error_category = [];
  result = none;
}

-- INSERT ... SELECT ... ON CONFLICT (tenant_id,idempotency_key) DO NOTHING RETURNING id: no row where
-- the request is not the tenant's or not COMPLETED, and on a conflict.
unfoldable pub insert_job :
    CreateEvaluationParams → Text → ℤ → JobTables → Result (Option Text) × JobTables
unfolding is_evaluable find_job
insert_job params fresh now t =
    if is_evaluable params.tenant_id (lookup params.request_id t.requests)
    then elim (find_job params.tenant_id params.idempotency_key t.jobs) [
      | some id ↦ (ok none, t)
      | none ↦ insert_new (lookup fresh t.jobs)
    ]
    else (ok none, t)
  where
    insert_new : Option EvaluationJob → Result (Option Text) × JobTables
    insert_new (some j) = (err (plain "duplicate key value violates unique constraint"), t)
    insert_new none =
        (ok (some fresh), record t { jobs = insert fresh (new_job params fresh now) t.jobs })

abbrev pub payload_of : Option ResultRow → Option (List Evaluated)
payload_of none = none
payload_of (some row) = some row.payload

unfoldable pub select_job : Text → Text → JobTables → Option EvaluationJob
select_job tenant id t = elim (lookup id t.jobs) [
  | none ↦ none
  | some j ↦
      if j.tenant_id == tenant
      then some (record j { result = payload_of (lookup id t.results) })
      else none
]

abbrev pub or_not_found : {A : Type 0} → Option A → Result A
or_not_found none = err not_found
or_not_found (some a) = ok a

-- UPDATE evaluation_jobs SET ... WHERE tenant_id=... AND id=... AND status IN ...: what is returned of
-- the row, if there is one.
unfoldable pub update_job :
    Text
    → Text
    → (JobStatus → Bool)
    → (EvaluationJob → EvaluationJob)
    → JobTables
    → Option EvaluationJob × JobTables
update_job tenant id in_status set t = elim (lookup id t.jobs) [
  | none ↦ (none, t)
  | some j ↦
      if j.tenant_id == tenant && in_status j.status
      then (some (set j), record t { jobs = insert id (set j) t.jobs })
      else (none, t)
]

unfoldable pub is_queueable : JobStatus → Bool
is_queueable pending = true
is_queueable faulty = true
is_queueable _ = false

unfoldable pub is_runnable : JobStatus → Bool
is_runnable pending = true
is_runnable queued = true
is_runnable running = true
is_runnable faulty = true
is_runnable _ = false

abbrev pub coalesce {ℓ} : {A : Type ℓ} → Option A → A → Option A
coalesce none a = some a
coalesce (some b) a = some b

unfoldable pub sum_of : (Evaluated → ℕ) → List Evaluated → ℕ
sum_of f [] = 0
sum_of f (r ∷ rs) = f r + sum_of f rs

-- score /= len(results)
unfoldable pub average : List Evaluated → ℕ
unfolding sum_of
average [] = 0
average (r ∷ rs) = sum_of (λ e. e.score_milli) (r ∷ rs) / length (r ∷ rs)

unfoldable pub overall : List Evaluated → Outcome
overall [] = passed
overall (r ∷ rs) = let rest = overall rs in elim r.status [ failed ↦ failed | passed ↦ rest ]

unfoldable pub total_ms : List Evaluated → ℤ
unfolding int64 ◌+ℤ◌ quo
total_ms [] = pos 0
total_ms (r ∷ rs) = int64 (quo r.duration 1000000 +ℤ total_ms rs)

-- INSERT INTO evaluation_results ... ON CONFLICT (evaluation_job_id) DO NOTHING.
unfoldable pub insert_result : Text → ResultRow → JobTables → Result (Unit {0}) × JobTables
insert_result id row t = elim (lookup id t.results) [
  | some old ↦ (ok tt, t)
  | none ↦ (ok tt, record t { results = insert id row t.results })
]

-- insertOutbox, on these tables.
unfoldable pub enqueue_event :
    (ℕ → Answer) → Kind → Text → Text → Text → List (Text × Value) → ℤ → Db (Unit {0})
enqueue_event answers kind aggregate_id tenant_id correlation_id payload now =
    label "insert outbox event" (
      round_trip answers λ t. (
        ok tt,
        record t {
          outbox =
              record {
                kind = kind;
                aggregate_id = aggregate_id;
                tenant_id = tenant_id;
                correlation_id = correlation_id;
                payload = payload;
                occurred_at = now;
              }
              ∷ t.outbox;
        },
      ))

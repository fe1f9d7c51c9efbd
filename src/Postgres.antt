-- ===== src/Postgres.antt =====
-- internal/persistence/postgres.go: the PostgreSQL implementation of the Store of
-- internal/persistence/store.go, over tables as lists of rows. A column that is joined in by its
-- foreign key is read in place, so models and providers are their names. JSON that is written and
-- read back is the value itself. `now` is the server's now(), constant in a transaction.
pub mod Operations
pub mod Outbox
pub mod Refines
pub mod Calls
mod Tests
use aegis_ai_platform.Prelude.{
  ℕ, ◌+◌, ℤ, pos, quo, ◌-ℤ◌, max_ℤ, Text, text, text_eq, Bool, true, false, not, ◌&&◌, ◌||◌, List,
  [], ◌∷◌, ◌++◌, Option, none, some, lookup, insert, contains, nat_eq, nat_beq, ltb, ◌==◌,
  if◌then◌else◌,
}
use aegis_ai_platform.Errors.{
  Result, ok, err, Failure, plain, wrapped, not_found, conflict, already_final, model_forbidden,
}
use aegis_ai_platform.Action.{Action, ◌>>=◌, ◌>>◌, pure, raise, lift, check}
use aegis_ai_platform.Events.{Kind}
use aegis_ai_platform.Sql.{Answer, Session, round_trip, transaction, label}
use aegis_ai_platform.Request.{
  State, received, validated, routing, in_progress, completed, failed, cancelled, budget_rejected,
  state_beq, state_text, transition, ChatResponse, Record,
}
use aegis_ai_platform.Store.{
  CreateRequestParams, AttemptParams, CompletionParams, FailureParams, put, new_record,
  completed_record, failed_record,
}

pub data AttemptStatus : Type 0 where
  started succeeded stopped : AttemptStatus

-- A row of provider_attempts.
pub record AttemptRow : Type 0 where
  pub request_id : Text
  pub tenant_id : Text
  pub number : ℕ
  pub provider_name : Text
  pub model : Text
  pub status : AttemptStatus
  pub category : Text
  pub retryable : Bool
  pub latency_ms : ℤ
  pub cost_micro_usd : ℤ
  pub provider_request_id : Text
  pub prompt_tokens : ℤ
  pub completion_tokens : ℤ
  pub finished_at : Option ℤ

-- A value in the JSON object of a payload.
pub data Value : Type 0 where
  string : Text → Value
  integer : ℤ → Value
  boolean : Bool → Value

-- A row of outbox_events, of version 1.
pub record Event : Type 0 where
  pub kind : Kind
  pub aggregate_id : Text
  pub tenant_id : Text
  pub correlation_id : Text
  pub payload : List (Text × Value)
  pub occurred_at : ℤ

-- `requests` is keyed by the primary key. `enabled_models` is the join of tenant_model_policies with
-- models, both enabled, as pairs of a tenant and a public name; `routes` is the cross join of
-- providers and models, by name.
pub record Tables : Type 0 where
  pub requests : List (Text × Record)
  pub attempts : List AttemptRow
  pub outbox : List Event
  pub enabled_models : List (Text × Text)
  pub routes : List (Text × Text)

abbrev pub Db : Type 0 → Type 0
Db A = Action (Session Tables) A

-- insertOutbox.
unfoldable pub insert_outbox :
    (ℕ → Answer) → Kind → Text → Text → Text → List (Text × Value) → ℤ → Db (Unit {0})
insert_outbox answers kind aggregate_id tenant_id correlation_id payload now =
    label "insert outbox event" (
      round_trip answers λ t. (
        ok tt,
        record t {
          outbox =
              record {
                kind = kind;
                aggregate_id = aggregate_id;
                tenant_id = tenant_id;
                correlation_id = correlation_id;
                payload = payload;
                occurred_at = now;
              }
              ∷ t.outbox;
        },
      ))

-- Whether the row is the tenant's and the state is one of those in the WHERE clause.
unfoldable pub matches : Text → (State → Bool) → Record → Bool
matches tenant in_state r = r.tenant_id == tenant && in_state r.state

-- UPDATE ai_requests SET ... WHERE id=... AND tenant_id=... AND status ...: the number of rows.
unfoldable pub update_request :
    Text → Text → (State → Bool) → (Record → Record) → Tables → Result ℕ × Tables
unfolding matches
update_request tenant id in_state set t = elim (lookup id t.requests) [
  | none ↦ (ok 0, t)
  | some r ↦
      if matches tenant in_state r
      then (ok 1, record t { requests = insert id (set r) t.requests })
      else (ok 0, t)
]

-- if tag.RowsAffected() != 1.
abbrev pub expect_one : Failure → ℕ → Db (Unit {0})
expect_one e rows = check (nat_beq rows 1) e

-- queryRequest.
unfoldable pub query_request : (ℕ → Answer) → Text → Text → Db Record
query_request answers tenant id = do
  found ← label "get logical request" (
      round_trip answers λ t. (
        ok (elim (lookup id t.requests) [
          | none ↦ none
          | some r ↦ if r.tenant_id == tenant then some r else none
        ]),
        t,
      ))
  lift (elim found [ none ↦ err not_found | some r ↦ ok r ])

-- A row for the attempt, which UNIQUE (request_id, attempt_number) refuses if there is one. It is
-- selected from providers and models, so there is none where either name is unknown.
unfoldable pub has_attempt : Text → ℕ → List AttemptRow → Bool
has_attempt id number [] = false
has_attempt id number (a ∷ as') =
    (a.request_id == id && nat_beq a.number number) || has_attempt id number as'

unfoldable pub has_pair : Text → Text → List (Text × Text) → Bool
has_pair a b [] = false
has_pair a b ((c, d) ∷ pairs) = (c == a && d == b) || has_pair a b pairs

unfoldable pub insert_attempt : AttemptParams → Tables → Result ℕ × Tables
unfolding has_attempt has_pair
insert_attempt params t =
    if not (has_pair params.provider_name params.model t.routes)
    then (ok 0, t)
    else if has_attempt params.request_id params.number t.attempts
    then (err (plain "duplicate key value violates unique constraint"), t)
    else (
      ok 1,
      record t {
        attempts =
            record {
              request_id = params.request_id;
              tenant_id = params.tenant_id;
              number = params.number;
              provider_name = params.provider_name;
              model = params.model;
              status = started;
              category = text "";
              retryable = false;
              latency_ms = pos 0;
              cost_micro_usd = pos 0;
              provider_request_id = [];
              prompt_tokens = pos 0;
              completion_tokens = pos 0;
              finished_at = none;
            }
            ∷ t.attempts;
      },
    )

-- UPDATE provider_attempts SET ... WHERE ... AND status='STARTED'.
unfoldable pub update_attempts :
    Text → Text → ℕ → (AttemptRow → AttemptRow) → List AttemptRow → List AttemptRow
update_attempts id tenant number set [] = []
update_attempts id tenant number set (a ∷ as') =
    (if a.request_id == id
        && a.tenant_id == tenant
        && nat_beq a.number number
        && is_started a.status
      then set a
      else a)
    ∷ update_attempts id tenant number set as'
  where
    is_started : AttemptStatus → Bool
    is_started started = true
    is_started _ = false

unfoldable pub set_attempt :
    Text → Text → ℕ → (AttemptRow → AttemptRow) → Tables → Result (Unit {0}) × Tables
unfolding update_attempts
set_attempt id tenant number set t =
    (ok tt, record t { attempts = update_attempts id tenant number set t.attempts })

-- INSERT INTO ai_requests ... ON CONFLICT (tenant_id, idempotency_key) DO NOTHING RETURNING id.
unfoldable pub find_key : Text → Text → List (Text × Record) → Option Text
find_key tenant key [] = none
find_key tenant key ((id, r) ∷ rows) =
    if r.tenant_id == tenant && r.idempotency_key == key then some id else find_key tenant key rows

-- The primary key refuses an identifier that is taken.
unfoldable pub insert_new : CreateRequestParams → Text → ℤ → Tables → Result Bool × Tables
insert_new params fresh now t = elim (lookup fresh t.requests) [
  | some r ↦ (err (plain "duplicate key value violates unique constraint"), t)
  | none ↦ (ok true, record t { requests = insert fresh (new_record params fresh now) t.requests })
]

unfoldable pub insert_request : CreateRequestParams → Text → ℤ → Tables → Result Bool × Tables
unfolding find_key insert_new
insert_request params fresh now t =
    elim (find_key params.tenant_id params.idempotency_key t.requests) [
      | some id ↦ (ok false, t)
      | none ↦ insert_new params fresh now t
    ]

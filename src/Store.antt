-- ===== src/Store.antt =====
-- internal/persistence/memory.go: the in-memory implementation of the Store of
-- internal/persistence/store.go. Each method holds the mutex for its whole body, so it is one step.
-- Maps are association lists. `clock` is what time.Now returns, `fresh` what randomID returns.
-- A record is a value here, so cloneRecord, which copies what a record points to, changes nothing.
pub mod Operations
pub mod Tenancy
pub mod Isolation
pub mod Lifecycle
pub mod History
mod Tests
use aegis_ai_platform.Prelude.{
  ℕ, zero, ◌+◌, ℤ, pos, ◌+ℤ◌, int64, Text, text, Bool, true, false, not, ◌||◌, List, [], ◌∷◌, ◌++◌,
  Option, none, some, lookup, insert, delete, text_eq, nat_eq, int_eq, ◌==◌, if◌then◌else◌,
}
use aegis_ai_platform.Errors.{
  Result, ok, err, Failure, not_found, conflict, already_final, model_forbidden, wrapped, panicked,
}
use aegis_ai_platform.Action.{Action, ◌>>=◌, ◌>>◌, pure, raise, lift, modify, gets, check, after}
use aegis_ai_platform.Budget.{can_reserve}
use aegis_ai_platform.Request.{
  State, received, validated, in_progress, completed, failed, cancelled, budget_rejected, state_beq,
  transition, ChatInput, ChatResponse, Record,
}

pub record TenantPolicy : Type 0 where
  pub data_classification : Text
  pub allowed_providers : Option (List Text)
  pub requests_per_minute : ℤ
  pub tokens_per_minute : ℤ
  pub max_concurrent : ℤ
  pub monthly_budget : ℤ
  pub daily_budget : ℤ

pub record CreateRequestParams : Type 0 where
  pub tenant_id : Text
  pub api_key_id : Text
  pub user_id : Text
  pub idempotency_key : Text
  pub canonical_hash : List ℕ
  pub input : ChatInput
  pub correlation_id : Text

pub record AttemptParams : Type 0 where
  pub request_id : Text
  pub tenant_id : Text
  pub number : ℕ
  pub provider_name : Text
  pub model : Text
  pub correlation_id : Text

pub record CompletionParams : Type 0 where
  pub request_id : Text
  pub tenant_id : Text
  pub attempt_number : ℕ
  pub provider_request_id : Text
  pub response : ChatResponse
  pub cost_micro_usd : ℤ

pub record FailureParams : Type 0 where
  pub request_id : Text
  pub tenant_id : Text
  pub attempt_number : ℕ
  pub category : Text
  pub retryable : Bool
  pub partial : Bool
  pub final : Bool

-- A memoryAttempt: `params` is none in the zero value.
pub record Attempt : Type 0 where
  pub params : Option AttemptParams
  pub final : Bool

pub record Memory : Type 0 where
  pub requests : List (Text × Record)
  pub idempotency : List (Text × Text)
  pub attempts : List (Text × List (ℕ × Attempt))
  pub policies : List (Text × TenantPolicy)
  pub reservations : List (Text × ℤ)
  pub used : List (Text × ℤ)

abbrev pub empty : Memory
empty = record {
  requests = [];
  idempotency = [];
  attempts = [];
  policies = [];
  reservations = [];
  used = [];
}

unfoldable pub set_tenant_policy : Text → TenantPolicy → Memory → Memory
set_tenant_policy tenant policy m = record m { policies = insert tenant policy m.policies }

-- TenantID + "\x00" + IdempotencyKey.
abbrev pub idempotency_key : Text → Text → Text
idempotency_key tenant key = tenant ++ 0 ∷ key

or_else : Failure → {A : Type 0} → Option A → Result A
or_else e none = err e
or_else e (some a) = ok a

unfoldable pub own : Text → Option Record → Result Record
own tenant none = err not_found
own tenant (some record') = if record'.tenant_id == tenant then ok record' else err not_found

-- The lookup and the tenant test that most methods begin with.
unfoldable pub owned : Text → Text → Action Memory Record
unfolding own
owned tenant id m = (own tenant (lookup id m.requests), m)

abbrev pub put : Text → Record → Memory → Memory
put id r m = record m { requests = insert id r m.requests }

abbrev pub new_record : CreateRequestParams → Text → ℤ → Record
new_record params fresh clock = record {
  id = fresh;
  tenant_id = params.tenant_id;
  api_key_id = params.api_key_id;
  idempotency_key = params.idempotency_key;
  canonical_hash = params.canonical_hash;
  model = params.input.model;
  state = received;
  stream = params.input.stream;
  partial_streamed = false;
  response = none;
  failure_category = text "";
  correlation_id = params.correlation_id;
  created_at = clock;
  updated_at = clock;
  completed_at = none;
  prompt_tokens = pos 0;
  completion_tokens = pos 0;
  cost_micro_usd = pos 0;
}

-- Every identifier in `idempotency` has a record. One without would read as the zero Record, whose
-- empty hash equals no SHA-256 hash.
unfoldable pub replay : CreateRequestParams → Option Record → Result (Record × Bool)
replay params none = err conflict
replay params (some r) =
    if r.canonical_hash == params.canonical_hash then ok (r, false) else err conflict

unfoldable pub create : CreateRequestParams → Text → ℤ → Option Text → Action Memory (Record × Bool)
unfolding replay
create params fresh clock (some existing) m = (replay params (lookup existing m.requests), m)
create params fresh clock none m =
    let r = new_record params fresh clock in
    (
      ok (r, true),
      record m {
        requests = insert fresh r m.requests;
        idempotency =
            insert (idempotency_key params.tenant_id params.idempotency_key) fresh m.idempotency;
      },
    )

unfoldable pub create_or_get_request :
    CreateRequestParams → Text → ℤ → Action Memory (Record × Bool)
unfolding create
create_or_get_request params fresh clock m =
    create params fresh clock
      (lookup (idempotency_key params.tenant_id params.idempotency_key) m.idempotency) m

unfoldable pub get_request : Text → Text → Action Memory Record
unfolding owned
get_request tenant id = owned tenant id

unfoldable pub transition_request : Text → Text → State → State → ℤ → Action Memory (Unit {0})
unfolding owned
transition_request tenant id from to clock = do
  r ← owned tenant id
  check (state_beq r.state from) (wrapped "expected state" already_final)
  lift (transition from to)
  modify (put id (record r { state = to; updated_at = clock }))

abbrev pub attempts_of : Text → Memory → List (ℕ × Attempt)
attempts_of id m = elim (lookup id m.attempts) [ none ↦ [] | some attempts ↦ attempts ]

abbrev pub is_new {ℓ} : {A : Type ℓ} → Option A → Bool
is_new none = true
is_new (some a) = false

-- The inner map is made before the test for a duplicate.
unfoldable pub start_attempt : AttemptParams → Action Memory (Unit {0})
unfolding owned
start_attempt params = do
  _ ← owned params.tenant_id params.request_id
  attempts ← gets (attempts_of params.request_id)
  modify (λ m. record m { attempts = insert params.request_id attempts m.attempts })
  check (is_new (lookup params.number attempts)) conflict
  modify (λ m. record m {
    attempts =
        insert params.request_id
          (insert params.number (record { params = some params; final = false }) attempts)
          m.attempts;
  })

-- attempt.final = true, on the zero value if the attempt is missing.
unfoldable pub finalize : Option Attempt → Attempt
finalize none = record { params = none; final = true }
finalize (some a) = record a { final = true }

-- The write into a nil map panics, after the request has been written.
unfoldable pub finalize_attempt : Text → ℕ → Option (List (ℕ × Attempt)) → Action Memory (Unit {0})
unfolding finalize
finalize_attempt id number none m = (err (panicked "assignment to entry in nil map"), m)
finalize_attempt id number (some attempts) m = (
  ok tt,
  record m {
    attempts = insert id (insert number (finalize (lookup number attempts)) attempts) m.attempts;
  },
)

abbrev pub completed_record : CompletionParams → ℤ → Record → Record
completed_record params clock r = record r {
  state = completed;
  response = some params.response;
  completed_at = some clock;
  updated_at = clock;
  prompt_tokens = params.response.usage.prompt_tokens;
  completion_tokens = params.response.usage.completion_tokens;
  cost_micro_usd = params.cost_micro_usd;
}

-- memory.requests[record.ID]: a record is stored under its own identifier.
unfoldable pub complete_request : CompletionParams → ℤ → Action Memory (Unit {0})
unfolding owned finalize_attempt
complete_request params clock = do
  r ← owned params.tenant_id params.request_id
  check (state_beq r.state in_progress) already_final
  modify (put r.id (completed_record params clock r))
  attempts ← gets (λ m. lookup params.request_id m.attempts)
  finalize_attempt params.request_id params.attempt_number attempts

abbrev pub failed_record : FailureParams → ℤ → Record → Record
failed_record params clock r = record r {
  state = failed;
  failure_category = params.category;
  partial_streamed = params.partial;
  completed_at = some clock;
  updated_at = clock;
}

unfoldable pub fail_attempt : FailureParams → ℤ → Action Memory (Unit {0})
unfolding owned
fail_attempt params clock = do
  r ← owned params.tenant_id params.request_id
  check (not params.final || state_beq r.state in_progress) already_final
  if params.final then modify (put r.id (failed_record params clock r)) else pure tt

abbrev pub is_final : State → Bool
is_final s =
    state_beq s completed
    || state_beq s failed
    || state_beq s cancelled
    || state_beq s budget_rejected

unfoldable pub cancel_request : Text → Text → ℤ → Action Memory (Unit {0})
unfolding owned
cancel_request tenant id clock = do
  r ← owned tenant id
  check (not (is_final r.state)) already_final
  modify (put id (record r { state = cancelled; completed_at = some clock; updated_at = clock }))

unfoldable pub tenant_policy : Text → Action Memory TenantPolicy
unfolding or_else
tenant_policy tenant m = (or_else model_forbidden (lookup tenant m.policies), m)

-- requests[requestID].TenantID == tenantID; a missing record has the empty tenant.
unfoldable pub has_tenant : Text → Option Record → Bool
has_tenant tenant none = text "" == tenant
has_tenant tenant (some r) = r.tenant_id == tenant

unfoldable pub sum_map : List (Text × ℤ) → List (Text × Record) → Text → ℤ
unfolding has_tenant int64 ◌+ℤ◌
sum_map [] requests tenant = pos 0
sum_map ((id, amount) ∷ reservations) requests tenant =
    let rest = sum_map reservations requests tenant in
    if has_tenant tenant (lookup id requests) then int64 (rest +ℤ amount) else rest

abbrev pub amount_of : Option ℤ → ℤ
amount_of none = pos 0
amount_of (some a) = a

unfoldable pub reserve_budget : Text → Text → ℤ → Action Memory (Unit {0})
unfolding or_else sum_map
reserve_budget tenant id amount = do
  policy ← (λ m. (or_else not_found (lookup tenant m.policies), m))
  committed ← gets (λ m. amount_of (lookup tenant m.used))
  active ← gets (λ m. sum_map m.reservations m.requests tenant)
  lift (can_reserve policy.monthly_budget committed active amount)
  modify (λ m. record m { reservations = insert id amount m.reservations })

unfoldable pub reject_budget : Text → Text → ℤ → Action Memory (Unit {0})
unfolding transition_request
reject_budget tenant id clock = transition_request tenant id validated budget_rejected clock

unfoldable pub reconcile_budget : Text → ℤ → Action Memory (Unit {0})
unfolding or_else int64 ◌+ℤ◌
reconcile_budget id actual = do
  r ← (λ m. (or_else not_found (lookup id m.requests), m))
  modify (λ m. record m {
    reservations = delete id m.reservations;
    used = insert r.tenant_id (int64 (amount_of (lookup r.tenant_id m.used) +ℤ actual)) m.used;
  })

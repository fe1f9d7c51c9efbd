-- ===== src/Store/Operations.antt =====
-- The methods of internal/persistence/memory.go as operations, in any order.
use aegis_ai_platform.Prelude.{ℤ, Text, List, [], ◌∷◌, none, lookup, text_eq, ◌≡◌}
use aegis_ai_platform.Request.{State}
use aegis_ai_platform.Store.{
  Memory, TenantPolicy, CreateRequestParams, AttemptParams, CompletionParams, FailureParams,
  set_tenant_policy, create_or_get_request, transition_request, start_attempt, complete_request,
  fail_attempt, cancel_request, reserve_budget, reject_budget, reconcile_budget,
}

-- The last argument of an operation that reads the clock is its time.
pub data Operation : Type 0 where
  sets_policy : Text → TenantPolicy → Operation
  creates : CreateRequestParams → Text → ℤ → Operation
  transitions : Text → Text → State → State → ℤ → Operation
  starts : AttemptParams → Operation
  completes : CompletionParams → ℤ → Operation
  fails : FailureParams → ℤ → Operation
  cancels : Text → Text → ℤ → Operation
  reserves : Text → Text → ℤ → Operation
  rejects : Text → Text → ℤ → Operation
  reconciles : Text → ℤ → Operation

unfoldable pub run_operation : Operation → Memory → Memory
run_operation (sets_policy tenant policy) m = set_tenant_policy tenant policy m
run_operation (creates params fresh clock) m = (create_or_get_request params fresh clock m).1
run_operation (transitions tenant id from to clock) m =
    (transition_request tenant id from to clock m).1
run_operation (starts params) m = (start_attempt params m).1
run_operation (completes params clock) m = (complete_request params clock m).1
run_operation (fails params clock) m = (fail_attempt params clock m).1
run_operation (cancels tenant id clock) m = (cancel_request tenant id clock m).1
run_operation (reserves tenant id amount) m = (reserve_budget tenant id amount m).1
run_operation (rejects tenant id clock) m = (reject_budget tenant id clock m).1
run_operation (reconciles id actual) m = (reconcile_budget id actual m).1

-- Random identifiers of 128 bits do not meet an identifier in use.
abbrev pub IsFresh : Operation → Memory → Type 0
IsFresh (creates params fresh clock) m = lookup fresh m.requests ≡ none
IsFresh _ m = Unit {0}

unfoldable pub run_operations : List Operation → Memory → Memory
run_operations [] m = m
run_operations (o ∷ os) m = run_operations os (run_operation o m)

abbrev pub AreFresh : List Operation → Memory → Type 0
AreFresh [] m = Unit {0}
AreFresh (o ∷ os) m = IsFresh o m × AreFresh os (run_operation o m)

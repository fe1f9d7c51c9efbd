-- ===== src/Postgres/Calls.antt =====
-- Sequences of calls of the methods of internal/persistence/postgres.go that write.
use aegis_ai_platform.Prelude.{ℕ, ℤ, Text, List, [], ◌∷◌, Bool, true, not, ◌&&◌, ◌||◌}
use aegis_ai_platform.Request.{State, completed, budget_rejected, state_beq}
use aegis_ai_platform.Store.{CreateRequestParams, AttemptParams, CompletionParams, FailureParams}
use aegis_ai_platform.Sql.{Answer, Session}
use aegis_ai_platform.Postgres.{Tables}
use aegis_ai_platform.Postgres.Operations

-- The last argument is the server's time; the identifier, the correlation identifier and the latency
-- before it are what each method takes from outside.
pub data Call : Type 0 where
  creates : CreateRequestParams → Text → ℤ → Call
  transitions : Text → Text → State → State → ℤ → Call
  starts : AttemptParams → ℤ → Call
  completes : CompletionParams → Text → ℤ → ℤ → Call
  fails : FailureParams → Text → ℤ → ℤ → Call
  cancels : Text → Text → ℤ → Call
  rejects : Text → Text → Text → ℤ → ℤ → Call

unfoldable pub run_call : (ℕ → Answer) → Call → Session Tables → Session Tables
run_call answers (creates params fresh now) s =
    (Operations.create_or_get_request answers params fresh now s).1
run_call answers (transitions tenant id from to now) s =
    (Operations.transition_request answers tenant id from to now s).1
run_call answers (starts params now) s = (Operations.start_attempt answers params now s).1
run_call answers (completes params correlation_id latency now) s =
    (Operations.complete_request answers params correlation_id latency now s).1
run_call answers (fails params correlation_id latency now) s =
    (Operations.fail_attempt answers params correlation_id latency now s).1
run_call answers (cancels tenant id now) s = (Operations.cancel_request answers tenant id now s).1
run_call answers (rejects tenant id correlation_id requested now) s =
    (Operations.reject_budget answers tenant id correlation_id requested now s).1

unfoldable pub run_calls : (ℕ → Answer) → List Call → Session Tables → Session Tables
unfolding run_call
run_calls answers [] s = s
run_calls answers (c ∷ cs) s = run_calls answers cs (run_call answers c s)

-- COMPLETED and BUDGET_REJECTED are reached by methods of their own: the gateway asks TransitionRequest
-- for neither.
abbrev pub is_own : State → Bool
is_own s = state_beq s completed || state_beq s budget_rejected

unfoldable pub are_plain : List Call → Bool
are_plain [] = true
are_plain (transitions tenant id from to now ∷ cs) = not (is_own to) && are_plain cs
are_plain (_ ∷ cs) = are_plain cs

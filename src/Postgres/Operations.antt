-- ===== src/Postgres/Operations.antt =====
-- The methods of internal/persistence/postgres.go that write requests, attempts and the outbox.
use aegis_ai_platform.Prelude.{
  ℕ, ℤ, pos, Text, text, text_eq, Bool, true, false, not, ◌&&◌, ◌||◌, List, [], ◌∷◌, none, some,
  nat_eq, ltb, ◌==◌, if◌then◌else◌,
}
use aegis_ai_platform.Errors.{
  Result, ok, err, plain, wrapped, not_found, conflict, already_final, model_forbidden,
}
use aegis_ai_platform.Action.{◌>>=◌, ◌>>◌, pure, lift, check}
use aegis_ai_platform.Sql.{Answer, round_trip, transaction, label}
use aegis_ai_platform.Request.{
  State, received, validated, routing, in_progress, cancelled, budget_rejected, state_beq,
  transition, Record,
}
use aegis_ai_platform.Store.{
  CreateRequestParams, AttemptParams, CompletionParams, FailureParams, completed_record,
  failed_record,
}
use aegis_ai_platform.Postgres.{
  Value, Db, insert_outbox, update_request, expect_one, query_request, has_pair, insert_attempt,
  set_attempt, find_key, insert_request, succeeded, stopped, string, integer, boolean,
}
use aegis_ai_platform.Events.{
  request_accepted, provider_selected, request_completed, request_failed, usage_recorded,
  budget_exceeded,
}

unfoldable pub transition_request : (ℕ → Answer) → Text → Text → State → State → ℤ → Db (Unit {0})
transition_request answers tenant id from to now = do
  lift (transition from to)
  rows ← label "transition logical request" (
      round_trip answers (
        update_request tenant id (λ s. state_beq s from)
          (λ r. record r { state = to; updated_at = now })))
  expect_one already_final rows

unfoldable pub start_attempt : (ℕ → Answer) → AttemptParams → ℤ → Db (Unit {0})
start_attempt answers params now =
    transaction answers (wrapped "begin provider attempt") (wrapped "commit provider attempt") do
      rows ← label "start provider attempt" (round_trip answers (insert_attempt params))
      expect_one not_found rows
      insert_outbox answers provider_selected params.request_id params.tenant_id
          params.correlation_id
          ((text "request_id", string params.request_id)
            ∷ (text "provider", string params.provider_name)
            ∷ (text "model", string params.model)
            ∷ (text "attempt_number", integer (pos params.number))
            ∷ [])
          now

-- The payload of the completion and of the usage.
abbrev pub completion_payload : CompletionParams → ℤ → List (Text × Value)
completion_payload params latency =
    (text "request_id", string params.request_id)
    ∷ (text "model", string params.response.model)
    ∷ (text "prompt_tokens", integer params.response.usage.prompt_tokens)
    ∷ (text "completion_tokens", integer params.response.usage.completion_tokens)
    ∷ (text "cost_micro_usd", integer params.cost_micro_usd)
    ∷ (text "latency_ms", integer latency)
    ∷ []

-- `latency` is what time.Since(StartedAt) gives in milliseconds. The correlation identifier is the
-- parameter's.
unfoldable pub complete_request : (ℕ → Answer) → CompletionParams → Text → ℤ → ℤ → Db (Unit {0})
complete_request answers params correlation_id latency now =
    transaction answers (wrapped "begin request completion") (wrapped "commit request completion")
      do
        label "complete provider attempt" (
            round_trip answers (
              set_attempt params.request_id params.tenant_id params.attempt_number λ a. record a {
                status = succeeded;
                latency_ms = latency;
                cost_micro_usd = params.cost_micro_usd;
                retryable = false;
                provider_request_id = params.provider_request_id;
                prompt_tokens = params.response.usage.prompt_tokens;
                completion_tokens = params.response.usage.completion_tokens;
                finished_at = some now;
              }))
        rows ← label "finalize logical request" (
            round_trip answers (
              update_request params.tenant_id params.request_id (λ s. state_beq s in_progress)
                (completed_record params now)))
        expect_one already_final rows
        insert_outbox answers request_completed params.request_id params.tenant_id correlation_id
            (completion_payload params latency) now
        insert_outbox answers usage_recorded params.request_id params.tenant_id correlation_id
            (completion_payload params latency) now

-- The second part of FailAttempt, for a final failure.
unfoldable pub fail_request : (ℕ → Answer) → FailureParams → Text → ℤ → Db (Unit {0})
fail_request answers params correlation_id now = do
  rows ← label "fail logical request" (
      round_trip answers (
        update_request params.tenant_id params.request_id (λ s. state_beq s in_progress)
          (failed_record params now)))
  expect_one already_final rows
  insert_outbox answers request_failed params.request_id params.tenant_id correlation_id
      ((text "request_id", string params.request_id)
        ∷ (text "error_category", string params.category)
        ∷ (text "partial_streamed", boolean params.partial)
        ∷ [])
      now

unfoldable pub fail_attempt : (ℕ → Answer) → FailureParams → Text → ℤ → ℤ → Db (Unit {0})
fail_attempt answers params correlation_id latency now =
    transaction answers (wrapped "begin attempt failure") (wrapped "commit attempt failure") do
      if ltb 0 params.attempt_number
          then label "fail provider attempt" (
              round_trip answers (
                set_attempt params.request_id params.tenant_id params.attempt_number λ a. record a {
                  status = stopped;
                  category = params.category;
                  retryable = params.retryable;
                  latency_ms = latency;
                  finished_at = some now;
                }))
          else pure tt
      if params.final then fail_request answers params correlation_id now else pure tt

abbrev pub is_cancellable : State → Bool
is_cancellable s =
    state_beq s received || state_beq s validated || state_beq s routing || state_beq s in_progress

unfoldable pub cancel_request : (ℕ → Answer) → Text → Text → ℤ → Db (Unit {0})
cancel_request answers tenant id now = do
  rows ← label "cancel request" (
      round_trip answers (
        update_request tenant id is_cancellable
          (λ r. record r { state = cancelled; completed_at = some now; updated_at = now })))
  expect_one already_final rows

unfoldable pub reject_budget : (ℕ → Answer) → Text → Text → Text → ℤ → ℤ → Db (Unit {0})
reject_budget answers tenant id correlation_id requested now =
    transaction answers (wrapped "begin budget rejection") (λ e. e)
      do
        rows ← label "reject request budget" (
            round_trip answers (
              update_request tenant id (λ s. state_beq s validated)
                λ r. record r {
                  state = budget_rejected;
                  failure_category = text "budget_exceeded";
                  completed_at = some now;
                  updated_at = now;
                }))
        expect_one already_final rows
        insert_outbox answers budget_exceeded id tenant correlation_id
            ((text "request_id", string id) ∷ (text "requested_micro_usd", integer requested) ∷ [])
            now

unfoldable pub check_hash : CreateRequestParams → Record → Bool → Result (Unit {0})
check_hash params r created =
    if not created && not (r.canonical_hash == params.canonical_hash) then err conflict else ok tt

-- The identifier of the new row, or of the one that was there.
unfoldable pub id_of : (ℕ → Answer) → CreateRequestParams → Text → Bool → Db Text
id_of answers params fresh true = pure fresh
id_of answers params fresh false = label "load conflicting logical request" (
    round_trip answers λ t. (
      elim (find_key params.tenant_id params.idempotency_key t.requests) [
        | some id ↦ ok id
        | none ↦ err (plain "no rows in result set")
      ],
      t,
    ))

-- `fresh` is what gen_random_uuid() returns.
unfoldable pub create_or_get_request :
    (ℕ → Answer) → CreateRequestParams → Text → ℤ → Db (Record × Bool)
create_or_get_request answers params fresh now =
    transaction answers (wrapped "begin create request") (wrapped "commit create request") do
      allowed ← label "authorize model" (
          round_trip answers
            λ t. (ok (has_pair params.tenant_id params.input.model t.enabled_models), t))
      check allowed model_forbidden
      created ←
          label "insert logical request" (round_trip answers (insert_request params fresh now))
      id ← id_of answers params fresh created
      r ← query_request answers params.tenant_id id
      lift (check_hash params r created)
      if created
          then insert_outbox answers request_accepted r.id params.tenant_id params.correlation_id
              ((text "request_id", string r.id)
                ∷ (text "model", string params.input.model)
                ∷ (text "stream", boolean params.input.stream)
                ∷ [])
              now
          else pure tt
      pure (r, created)

-- ===== src/Jobs/Operations.antt =====
-- The methods of internal/persistence/evaluation.go.
use aegis_ai_platform.Prelude.{
  ℕ, ◌+◌, ℤ, pos, ◌-ℤ◌, ◌*ℤ◌, int64, max_ℤ, Text, text, text_eq, Bool, true, false, ◌&&◌, ◌||◌,
  List, [], ◌∷◌, Option, none, some, lookup, nat_eq, ◌==◌, if◌then◌else◌,
}
use aegis_ai_platform.Errors.{Result, ok, err, plain, conflict}
use aegis_ai_platform.Action.{◌>>=◌, ◌>>◌, pure, lift, check}
use aegis_ai_platform.Events.{evaluation_complete, evaluation_failed}
use aegis_ai_platform.Sql.{Answer, round_trip, transaction, label}
use aegis_ai_platform.Request.{completed, state_beq, ChatResponse, Record}
use aegis_ai_platform.Evaluation.{Input, Evaluated, passed, failed}
use aegis_ai_platform.Postgres.{AttemptRow, AttemptStatus, succeeded, string, integer}
use aegis_ai_platform.Jobs.{
  queued, running, done, faulty, dead_lettered, EvaluationJob, CreateEvaluationParams, JobTables,
  Db, insert_job, find_job, select_job, or_not_found, update_job, is_queueable, is_runnable,
  coalesce, average, overall, total_ms, insert_result, enqueue_event,
}

unfoldable pub get_evaluation : (ℕ → Answer) → Text → Text → Db EvaluationJob
get_evaluation answers tenant id = do
  found ← label "get evaluation job" (round_trip answers λ t. (ok (select_job tenant id t), t))
  lift (or_not_found found)

-- The identifier of the row that was there.
unfoldable pub existing_job : (ℕ → Answer) → CreateEvaluationParams → Option Text → Db Text
existing_job answers params (some id) = pure id
existing_job answers params none = do
  found ←
      label "load existing evaluation job"
        (round_trip answers λ t. (ok (find_job params.tenant_id params.idempotency_key t.jobs), t))
  lift (or_not_found found)

abbrev pub is_some {ℓ} : {A : Type ℓ} → Option A → Bool
is_some none = false
is_some (some a) = true

-- `fresh` is what gen_random_uuid() returns.
unfoldable pub create_or_get_evaluation :
    (ℕ → Answer) → CreateEvaluationParams → Text → ℤ → Db (EvaluationJob × Bool)
create_or_get_evaluation answers params fresh now = do
  inserted ← label "create evaluation job" (round_trip answers (insert_job params fresh now))
  id ← existing_job answers params inserted
  job ← get_evaluation answers params.tenant_id id
  check (is_some inserted || job.canonical_hash == params.canonical_hash) conflict
  pure (job, is_some inserted)

unfoldable pub mark_evaluation_queued : (ℕ → Answer) → Text → Text → Db (Unit {0})
mark_evaluation_queued answers tenant id =
    round_trip answers
      λ t. (ok tt, (update_job tenant id is_queueable (λ j. record j { status = queued }) t).1)

unfoldable pub mark_evaluation_running : (ℕ → Answer) → Text → Text → ℤ → Db (Unit {0})
mark_evaluation_running answers tenant id now = round_trip answers λ t. (
  ok tt,
  (update_job tenant id is_runnable
      (λ j. record j {
        status = running;
        started_at = coalesce j.started_at now;
        attempt_count = j.attempt_count + 1;
      })
      t).1,
)

-- `execution` is unique to the job.
unfoldable pub complete_evaluation :
    (ℕ → Answer) → Text → Text → Text → List Evaluated → ℤ → Db (Unit {0})
complete_evaluation answers tenant id execution results now =
    transaction answers (λ e. e) (λ e. e)
      do
        label "persist evaluation result" (
            round_trip answers (
              insert_result id (record {
                tenant_id = tenant;
                execution_id = execution;
                score_milli = average results;
                outcome = overall results;
                duration_ms = total_ms results;
                payload = results;
              })))
        label "complete evaluation job" (
            round_trip answers λ t. (
              ok tt,
              (update_job tenant id (λ s. true)
                  (λ j. record j {
                    status = done;
                    completed_at = some now;
                    last_error_category = [];
                  })
                  t).1,
            ))
        enqueue_event answers evaluation_complete id tenant id
            ((text "evaluation_id", string id)
              ∷ (
                text "status",
                string (elim (overall results) [ passed ↦ text "pass" | failed ↦ text "fail" ]),
              )
              ∷ (text "score_milli", integer (pos (average results)))
              ∷ [])
            now

-- The row that UPDATE ... RETURNING correlation_id scans.
abbrev pub scanned : {A : Type 0} → Option A → Result A
scanned none = err (plain "no rows in result set")
scanned (some a) = ok a

unfoldable pub fail_evaluation : (ℕ → Answer) → Text → Text → Text → Bool → ℤ → Db (Unit {0})
fail_evaluation answers tenant id category permanent now =
    transaction answers (λ e. e) (λ e. e)
      do
        job ← round_trip answers λ t.
            let (found, t') =
              update_job tenant id (λ s. true)
                (λ j. record j {
                  status = if permanent then dead_lettered else faulty;
                  last_error_category = category;
                  completed_at = if permanent then some now else j.completed_at;
                })
                t in
            (scanned found, t')
        if permanent
            then enqueue_event answers evaluation_failed id tenant job.correlation_id
                ((text "evaluation_id", string id) ∷ (text "error_category", string category) ∷ [])
                now
            else pure tt

-- What LoadEvaluationInput decodes of the parameters.
pub record Parameters : Type 0 where
  pub requested_format : Text
  pub blocked_terms : List Text
  pub max_provider_ms : ℤ
  pub max_total_ms : ℤ
  pub max_tokens : ℤ
  pub max_cost_micro_usd : ℤ

-- MAX(latency_ms) of the attempts that succeeded, and 0 if there is none.
unfoldable pub best_latency : Text → List AttemptRow → Option ℤ
unfolding max_ℤ
best_latency id [] = none
best_latency id (a ∷ as') =
    let rest = best_latency id as' in
    if a.request_id == id && is_succeeded a.status then greater a.latency_ms rest else rest
  where
    is_succeeded : AttemptStatus → Bool
    is_succeeded succeeded = true
    is_succeeded _ = false

    greater : ℤ → Option ℤ → Option ℤ
    greater a none = some a
    greater a (some b) = some (max_ℤ a b)

abbrev pub or_zero : Option ℤ → ℤ
or_zero none = pos 0
or_zero (some a) = a

abbrev millisecond : ℤ
millisecond = pos 1000000

-- `decode` is json.Unmarshal of the parameters, whose error is dropped, and `millis` the rounding of a
-- time to milliseconds by the server.
module _ (decode : Text → Parameters) (millis : ℤ → ℤ) where
  -- The source of an evaluation: the response, and what was measured.
  unfoldable pub source_of : Text → Text → JobTables → Option (ChatResponse × (ℤ × (Record × ℤ)))
  unfolding best_latency ◌-ℤ◌
  source_of tenant id t = elim (lookup id t.requests) [
    | none ↦ none
    | some r ↦
        if r.tenant_id == tenant && state_beq r.state completed
        then elim r.response [
          | none ↦ none
          | some response ↦ some (
            response,
            (
              millis (or_zero r.completed_at -ℤ r.created_at),
              (r, or_zero (best_latency id t.attempts)),
            ),
          )
        ]
        else none
  ]

  unfoldable pub input_of : ChatResponse → ℤ → Record → ℤ → Text → Result Input
  unfolding int64 ◌*ℤ◌
  input_of response total r provider parameters = elim response.choices [
    | [] ↦ err (plain "stored response is malformed")
    | choice ∷ choices ↦
        let p = decode parameters in
        ok (record {
          response = choice.message.content;
          requested_format = p.requested_format;
          provider_latency = int64 (provider *ℤ millisecond);
          total_latency = int64 (total *ℤ millisecond);
          prompt_tokens = r.prompt_tokens;
          completion_tokens = r.completion_tokens;
          cost_micro_usd = r.cost_micro_usd;
          max_provider_latency = int64 (p.max_provider_ms *ℤ millisecond);
          max_total_latency = int64 (p.max_total_ms *ℤ millisecond);
          max_tokens = p.max_tokens;
          max_cost_micro_usd = p.max_cost_micro_usd;
          blocked_terms = p.blocked_terms;
        })
  ]

  -- LoadEvaluationInput, and LoadInput, which drops the job.
  unfoldable pub load_input : (ℕ → Answer) → Text → Text → Db Input
  load_input answers tenant id = do
    job ← get_evaluation answers tenant id
    found ←
        label "load evaluation source"
          (round_trip answers λ t. (scanned (source_of tenant job.request_id t), t))
    lift (input_of found.0 found.1.0 found.1.1.0 found.1.1.1 job.parameters)

-- ===== src/Jobs/Tests.antt =====
-- Runs of internal/persistence/evaluation.go, and its theorem at a concrete input.
use aegis_ai_platform.Prelude.{
  ℕ, pos, Text, text, text_eq, text_beq, ◌≡◌, refl, false, List, [], ◌∷◌, some, none, lookup,
  insert, arith,
}
use aegis_ai_platform.Errors.{plain}
use aegis_ai_platform.Sql.{
  Answer, heard, unheard, Session, transaction, transact, conclude, commit, round_trip, answer_with,
}
use aegis_ai_platform.Evaluation.{Evaluated, passed, failed}
use aegis_ai_platform.Jobs.{JobTables, EvaluationJob, ResultRow, done, faulty, update_job}
use aegis_ai_platform.Jobs.Operations.{fail_evaluation}
use aegis_ai_platform.Jobs.Calls.{JobCall, finishes, abandons, run_job_call, run_job_calls}
use aegis_ai_platform.Jobs.Results.{HasResult}
use aegis_ai_platform.Jobs.History.{results_stay}

abbrev finished : EvaluationJob
finished = record {
  id = text "j1";
  tenant_id = text "t1";
  request_id = text "r1";
  idempotency_key = text "once";
  canonical_hash = 1 ∷ [];
  job_type = text "quality";
  status = done;
  attempt_count = 1;
  correlation_id = text "c1";
  parameters = [];
  requested_at = pos 1;
  started_at = some (pos 2);
  completed_at = some (pos 3);
  last_error_category = [];
  result = none;
}

abbrev judged : Evaluated
judged = record {
  name = text "quality";
  version = text "1.0.0";
  score_milli = 450;
  status = failed;
  findings = [];
  duration = pos 3000000;
}

abbrev stored : ResultRow
stored = record {
  tenant_id = text "t1";
  execution_id = text "e1";
  score_milli = 1000;
  outcome = passed;
  duration_ms = pos 1;
  payload = [];
}

abbrev start : Session JobTables
start = record {
  tables = record {
    requests = [];
    attempts = [];
    jobs = (text "j1", finished) ∷ [];
    results = (text "j1", stored) ∷ [];
    outbox = [];
  };
  trips = 0;
}

start-HasResult :
    (id : Text) (j : EvaluationJob)
    → lookup id start.tables.jobs ≡ some j
    → j.status ≡ done
    → HasResult id start.tables
unfolding HasResult lookup
start-HasResult id j there is_done = (stored, ground (arith, there))

-- The job is delivered again, with another judgement, and the COMMIT is not heard.
abbrev again : List JobCall
again = finishes (text "t1") (text "j1") (text "e1") (judged ∷ []) (pos 9) ∷ []

abbrev lost : ℕ → Answer
lost n = unheard (plain "connection reset")

results_stay_example :
    ((id : Text) (j : EvaluationJob)
      → lookup id (run_job_calls lost again start).tables.jobs ≡ some j
      → j.status ≡ done
      → HasResult id (run_job_calls lost again start).tables)
    × ((id : Text) (row : ResultRow)
        → lookup id start.tables.results ≡ some row
        → lookup id (run_job_calls lost again start).tables.results ≡ some row)
results_stay_example = results_stay lost again start start-HasResult

abbrev always : ℕ → Answer
always n = heard

abandoned_after_completion :
    (run_job_calls always
      (abandons (text "t1") (text "j1") (text "late") false (pos 9) ∷ [])
      start).tables.jobs
    ≡ (text "j1", record finished { status = faulty; last_error_category = text "late" }) ∷ []
unfolding run_job_calls run_job_call fail_evaluation transaction transact conclude commit round_trip
    answer_with update_job lookup insert text_beq
abandoned_after_completion = refl

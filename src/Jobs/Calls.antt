-- ===== src/Jobs/Calls.antt =====
-- Sequences of calls of the methods of internal/persistence/evaluation.go that write.
use aegis_ai_platform.Prelude.{ℕ, ℤ, Text, Bool, List, [], ◌∷◌}
use aegis_ai_platform.Sql.{Answer, Session}
use aegis_ai_platform.Evaluation.{Evaluated}
use aegis_ai_platform.Jobs.{JobTables, CreateEvaluationParams}
use aegis_ai_platform.Jobs.Operations.{
  create_or_get_evaluation, mark_evaluation_queued, mark_evaluation_running, complete_evaluation,
  fail_evaluation,
}

-- The last argument, where there is a time, is the server's.
pub data JobCall : Type 0 where
  submits : CreateEvaluationParams → Text → ℤ → JobCall
  queues : Text → Text → JobCall
  runs : Text → Text → ℤ → JobCall
  finishes : Text → Text → Text → List Evaluated → ℤ → JobCall
  abandons : Text → Text → Text → Bool → ℤ → JobCall

unfoldable pub run_job_call : (ℕ → Answer) → JobCall → Session JobTables → Session JobTables
run_job_call answers (submits params fresh now) s =
    (create_or_get_evaluation answers params fresh now s).1
run_job_call answers (queues tenant id) s = (mark_evaluation_queued answers tenant id s).1
run_job_call answers (runs tenant id now) s = (mark_evaluation_running answers tenant id now s).1
run_job_call answers (finishes tenant id execution results now) s =
    (complete_evaluation answers tenant id execution results now s).1
run_job_call answers (abandons tenant id category permanent now) s =
    (fail_evaluation answers tenant id category permanent now s).1

unfoldable pub run_job_calls : (ℕ → Answer) → List JobCall → Session JobTables → Session JobTables
unfolding run_job_call
run_job_calls answers [] s = s
run_job_calls answers (c ∷ cs) s = run_job_calls answers cs (run_job_call answers c s)

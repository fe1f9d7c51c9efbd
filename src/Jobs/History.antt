-- ===== src/Jobs/History.antt =====
-- The results of jobs over whole histories of internal/persistence/evaluation.go.
use aegis_ai_platform.Prelude.{
  ℕ, ℤ, Text, text_eq, Bool, true, false, List, [], ◌∷◌, Option, none, some, lookup, nat_eq,
  if◌then◌else◌, ◌≡◌, ◌≢◌, inl, inr, Bool-cases, Option-cases, String,
}
use aegis_ai_platform.Errors.{Result, ok, conflict}
use aegis_ai_platform.Action.{pure}
use aegis_ai_platform.Events.{evaluation_failed}
use aegis_ai_platform.Sql.{Answer, Session, round_trip, label}
use aegis_ai_platform.Sql.Atomic.{
  round_trip-Ensures, >>=-Ensures, transaction-Keeps, Keeps, >>=-Keeps, lift-Keeps, check-Keeps,
  label-Keeps,
}
use aegis_ai_platform.Jobs.{
  done, faulty, dead_lettered, EvaluationJob, CreateEvaluationParams, ResultRow, JobTables, Db,
  insert_job, is_evaluable, find_job, new_job, update_job,
}
use aegis_ai_platform.Jobs.Operations.{
  fail_evaluation, create_or_get_evaluation, get_evaluation, existing_job, is_some, scanned,
}
use aegis_ai_platform.Jobs.Calls.{
  JobCall, submits, queues, runs, finishes, abandons, run_job_call, run_job_calls,
}
use aegis_ai_platform.Jobs.Results.{
  HasResult, IsSettled, write-IsSettled, update_job-IsSettled, enqueue_event-Settles, Settles,
  mark_evaluation_queued-IsSettled, mark_evaluation_running-IsSettled,
  complete_evaluation-IsSettled,
}

module _ (before : JobTables) (answers : ℕ → Answer) where
  choice-Settles :
      (b : Bool) (m : Db (Unit {0})) → Settles before m → Settles before (if b then m else pure tt)
  unfolding Settles
  choice-Settles true m h s a e v = h s a e v
  choice-Settles false m h s a e v = v

  fail_evaluation-IsSettled :
      (tenant id category : Text) (permanent : Bool) (now : ℤ) (s : Session JobTables)
      → IsSettled before s.tables
      → IsSettled before (fail_evaluation answers tenant id category permanent now s).1.tables
  unfolding fail_evaluation Settles
  fail_evaluation-IsSettled tenant id category permanent now s v =
      transaction-Keeps (IsSettled before) answers (λ e. e) (λ e. e) _
        (>>=-Ensures (round_trip answers abandon) _
          (λ _ t t'. IsSettled before t → IsSettled before t')
          (λ _ t t'. IsSettled before t → IsSettled before t')
          (λ s' a h w. rw ((round_trip-Ensures answers abandon s' a h).1) (
            update_job-IsSettled before tenant id _ _ s'.tables
              (λ j e. absurd (not_done permanent e)) w))
          λ job s' a h t step w.
            choice-Settles permanent _
              (enqueue_event-Settles before answers evaluation_failed id tenant job.correlation_id _
                now)
              s' a h (step w))
        s v
    where
      abandon : JobTables → Result EvaluationJob × JobTables
      abandon t =
          let (found, t') =
            update_job tenant id (λ s. true)
              (λ j. record j {
                status = if permanent then dead_lettered else faulty;
                last_error_category = category;
                completed_at = if permanent then some now else j.completed_at;
              })
              t in
          (scanned found, t')

      not_done : (b : Bool) → (if b then dead_lettered else faulty) ≢ done
      not_done true = λ e. cc
      not_done false = λ e. cc

  insert_job-IsSettled :
      (params : CreateEvaluationParams) (fresh : Text) (now : ℤ) (t : JobTables)
      → IsSettled before t
      → IsSettled before (insert_job params fresh now t).1
  unfolding insert_job
  insert_job-IsSettled params fresh now t v =
      elim (Bool-cases (is_evaluable params.tenant_id (lookup params.request_id t.requests))) [
        | inr e ↦ rw (e, insert_job) v
        | inl e ↦ elim (Option-cases (find_job params.tenant_id params.idempotency_key t.jobs)) [
          | inr (id, f) ↦ rw (e, insert_job, f) v
          | inl f ↦ elim (Option-cases (lookup fresh t.jobs)) [
            | inr (j, g) ↦ rw (e, insert_job, f, g) v
            | inl g ↦
                rw (e, insert_job, f, g)
                  (write-IsSettled before t fresh (new_job params fresh now) (λ d. cc) v)
          ]
        ]
      ]

  -- A statement that reads.
  read-IsSettled :
      {A : Type 0} (message : String) (query : JobTables → Result A)
      → Keeps (IsSettled before) (label message (round_trip answers (λ t. (query t, t))))
  read-IsSettled message query =
      label-Keeps (IsSettled before) answers message (λ t. (query t, t)) (λ t v. v)

  existing_job-IsSettled :
      (params : CreateEvaluationParams) (o : Option Text)
      → Keeps (IsSettled before) (existing_job answers params o)
  unfolding existing_job
  existing_job-IsSettled params (some id) = lift-Keeps (IsSettled before) (ok id)
  existing_job-IsSettled params none =
      >>=-Keeps (IsSettled before) _ _ (read-IsSettled "load existing evaluation job" _)
        (λ o. lift-Keeps (IsSettled before) _)

  get_evaluation-IsSettled :
      (tenant id : Text) → Keeps (IsSettled before) (get_evaluation answers tenant id)
  unfolding get_evaluation
  get_evaluation-IsSettled tenant id =
      >>=-Keeps (IsSettled before) _ _ (read-IsSettled "get evaluation job" _)
        (λ o. lift-Keeps (IsSettled before) _)

  create_or_get_evaluation-IsSettled :
      (params : CreateEvaluationParams) (fresh : Text) (now : ℤ)
      → Keeps (IsSettled before) (create_or_get_evaluation answers params fresh now)
  unfolding create_or_get_evaluation
  create_or_get_evaluation-IsSettled params fresh now =
      >>=-Keeps (IsSettled before) _ _
        (label-Keeps (IsSettled before) answers "create evaluation job"
          (insert_job params fresh now) (insert_job-IsSettled params fresh now))
        λ inserted. >>=-Keeps (IsSettled before) _ _ (existing_job-IsSettled params inserted) λ id.
          >>=-Keeps (IsSettled before) _ _ (get_evaluation-IsSettled params.tenant_id id) λ job.
            >>=-Keeps (IsSettled before) _ _ (check-Keeps (IsSettled before) _ conflict)
              (λ u. lift-Keeps (IsSettled before) (ok (job, is_some inserted)))

  run_job_call-IsSettled :
      (c : JobCall) (s : Session JobTables)
      → IsSettled before s.tables
      → IsSettled before (run_job_call answers c s).tables
  unfolding run_job_call Keeps
  run_job_call-IsSettled (submits params fresh now) s v =
      create_or_get_evaluation-IsSettled params fresh now s v
  run_job_call-IsSettled (queues tenant id) s v =
      mark_evaluation_queued-IsSettled before answers tenant id s v
  run_job_call-IsSettled (runs tenant id now) s v =
      mark_evaluation_running-IsSettled before answers tenant id now s v
  run_job_call-IsSettled (finishes tenant id execution results now) s v =
      complete_evaluation-IsSettled before answers tenant id execution results now s v
  run_job_call-IsSettled (abandons tenant id category permanent now) s v =
      fail_evaluation-IsSettled tenant id category permanent now s v

  run_job_calls-IsSettled :
      (cs : List JobCall) (s : Session JobTables)
      → IsSettled before s.tables
      → IsSettled before (run_job_calls answers cs s).tables
  unfolding run_job_calls
  run_job_calls-IsSettled [] s v = v
  run_job_calls-IsSettled (c ∷ cs) s v =
      run_job_calls-IsSettled cs (run_job_call answers c s) (run_job_call-IsSettled c s v)

-- Start from tables in which every COMPLETED job has a result, and run any sequence of calls of the
-- methods that write, with any answers of the server to each statement and COMMIT. Then every job
-- that is COMPLETED has a result, and each result that was there at the start is there, unchanged,
-- however often its job was completed again.
pub results_stay :
    (answers : ℕ → Answer) (cs : List JobCall) (s : Session JobTables)
    → ((id : Text) (j : EvaluationJob)
        → lookup id s.tables.jobs ≡ some j
        → j.status ≡ done
        → HasResult id s.tables)
    → ((id : Text) (j : EvaluationJob)
        → lookup id (run_job_calls answers cs s).tables.jobs ≡ some j
        → j.status ≡ done
        → HasResult id (run_job_calls answers cs s).tables)
      × ((id : Text) (row : ResultRow)
          → lookup id s.tables.results ≡ some row
          → lookup id (run_job_calls answers cs s).tables.results ≡ some row)
results_stay answers cs s backed =
    let v =
      run_job_calls-IsSettled s.tables answers cs s
        (record { backed = backed; same = λ id row h. h }) in
    (v.backed, v.same)

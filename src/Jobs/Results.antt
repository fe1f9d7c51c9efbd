-- ===== src/Jobs/Results.antt =====
-- The results of jobs in internal/persistence/evaluation.go.
use aegis_ai_platform.Prelude.{
  ℕ, ℤ, Text, text_eq, text_beq_iff, Bool, ◌&&◌, List, none, some, lookup, insert, lookup-insert,
  lookup-insert_same, ◌==◌, ◌≡◌, ◌≢◌, refl, sym, subst, ◌∙◌, inl, inr, arith, Bool-cases,
  Option-cases,
}
use aegis_ai_platform.Errors.{ok}
use aegis_ai_platform.Sql.{Answer, Session, round_trip}
use aegis_ai_platform.Sql.Atomic.{
  Ensures, round_trip-Ensures, round_trip-Keeps, label-Ensures, >>=-Ensures, transaction-Keeps,
}
use aegis_ai_platform.Events.{Kind, evaluation_complete}
use aegis_ai_platform.Postgres.{Value}
use aegis_ai_platform.Evaluation.{Evaluated}
use aegis_ai_platform.Jobs.Operations.{
  mark_evaluation_queued, mark_evaluation_running, complete_evaluation,
}
use aegis_ai_platform.Jobs.{
  JobStatus, done, EvaluationJob, ResultRow, JobTables, Db, update_job, insert_result,
  enqueue_event,
}

unfoldable pub HasResult : Text → JobTables → Type 0
HasResult id t = (row : ResultRow) × (lookup id t.results ≡ some row)

-- A COMPLETED job has a result, and the results that `before` has are as they were.
pub record IsSettled (before t : JobTables) : Type 0 where
  pub backed :
      (id : Text) (j : EvaluationJob) → lookup id t.jobs ≡ some j → j.status ≡ done → HasResult id t
  pub same :
      (id : Text) (row : ResultRow)
      → lookup id before.results ≡ some row
      → lookup id t.results ≡ some row

pub write-IsSettled :
    (before t : JobTables) (id : Text) (j : EvaluationJob)
    → (j.status ≡ done → HasResult id t)
    → IsSettled before t
    → IsSettled before (record t { jobs = insert id j t.jobs })
unfolding HasResult
write-IsSettled before t id j has v = record {
  backed = λ i k there is_done. elim (Bool-cases (id == i)) [
    | inl e ↦
        let same_id : id ≡ i = (text_beq_iff id i).0 e in
        let read : lookup i (insert id j t.jobs) ≡ some j =
          rw (lookup-insert id i j t.jobs, e) refl in
        let same_job : j ≡ k = ground (arith, read, there) in
        subst (λ x. HasResult x t) same_id (has (rw same_job is_done))
    | inr e ↦
        let read : lookup i (insert id j t.jobs) ≡ lookup i t.jobs =
          rw (lookup-insert id i j t.jobs, e) refl in
        v.backed i k (sym read ∙ there) is_done
  ];
  same = v.same;
}

pub update_job-IsSettled :
    (before : JobTables) (tenant id : Text) (in_status : JobStatus → Bool)
    (set : EvaluationJob → EvaluationJob) (t : JobTables)
    → ((j : EvaluationJob) → (set j).status ≡ done → HasResult id t)
    → IsSettled before t
    → IsSettled before (update_job tenant id in_status set t).1
unfolding update_job
update_job-IsSettled before tenant id in_status set t has v =
    elim (Option-cases (lookup id t.jobs)) [
      | inl e ↦ rw (e, update_job) v
      | inr (j, e) ↦ elim (Bool-cases (j.tenant_id == tenant && in_status j.status)) [
        | inl m ↦ rw (e, update_job, m) (write-IsSettled before t id (set j) (has j) v)
        | inr m ↦ rw (e, update_job, m) v
      ]
    ]

-- A new row leaves the others as they are.
insert-fresh :
    (rows : List (Text × ResultRow)) (id i : Text) (row r : ResultRow)
    → lookup id rows ≡ none
    → lookup i rows ≡ some r
    → lookup i (insert id row rows) ≡ some r
insert-fresh rows id i row r free was =
    rw (lookup-insert id i row rows) (elim (Bool-cases (id == i)) [
      | inl e ↦
          let same_id : id ≡ i = (text_beq_iff id i).0 e in
          let gone : lookup i rows ≡ none = rw same_id at free in absurd (ground (arith, gone, was))
      | inr e ↦ rw e was
    ])

pub insert_result-IsSettled :
    (before : JobTables) (id : Text) (row : ResultRow) (t : JobTables)
    → IsSettled before t
    → IsSettled before (insert_result id row t).1 × HasResult id (insert_result id row t).1
unfolding insert_result HasResult
insert_result-IsSettled before id row t v = elim (Option-cases (lookup id t.results)) [
  | inr (old, e) ↦ rw (e, insert_result) (v, (old, e))
  | inl e ↦
      rw (e, insert_result)
        (
          (record {
            backed = λ i k there is_done.
                let (r, was) = v.backed i k there is_done in
                (r, insert-fresh t.results id i row r e was);
            same = λ i r was. insert-fresh t.results id i row r e (v.same i r was);
          }),
          (row, lookup-insert_same id row t.results),
        )
]

-- What a step makes of the tables where it returns a result.
unfoldable pub Settles : {A : Type 0} → JobTables → Db A → Type 0
Settles before m = Ensures m (λ _ t t'. IsSettled before t → IsSettled before t')

pub enqueue_event-Settles :
    (before : JobTables) (answers : ℕ → Answer) (kind : Kind) (id tenant correlation_id : Text)
    (payload : List (Text × Value)) (now : ℤ)
    → Settles before (enqueue_event answers kind id tenant correlation_id payload now)
unfolding enqueue_event Settles HasResult
enqueue_event-Settles before answers kind id tenant correlation_id payload now =
    label-Ensures "insert outbox event" (round_trip answers _)
      (λ _ t t'. IsSettled before t → IsSettled before t')
      (λ s a h v.
        rw ((round_trip-Ensures answers _ s a h).1) (record { backed = v.backed; same = v.same }))

-- An UPDATE of a job outside a transaction.
mark-IsSettled :
    (before : JobTables) (answers : ℕ → Answer) (tenant id : Text) (in_status : JobStatus → Bool)
    (set : EvaluationJob → EvaluationJob) (s : Session JobTables)
    → ((j : EvaluationJob) → (set j).status ≢ done)
    → IsSettled before s.tables
    → IsSettled before
        (round_trip answers (λ t. (ok tt, (update_job tenant id in_status set t).1)) s).1.tables
mark-IsSettled before answers tenant id in_status set s other v =
    round_trip-Keeps (IsSettled before) answers _ s v
      (update_job-IsSettled before tenant id in_status set s.tables (λ j e. absurd (other j e)) v)

module _ (before : JobTables) (answers : ℕ → Answer) (tenant id : Text) where
  pub mark_evaluation_queued-IsSettled :
      (s : Session JobTables)
      → IsSettled before s.tables
      → IsSettled before (mark_evaluation_queued answers tenant id s).1.tables
  unfolding mark_evaluation_queued
  mark_evaluation_queued-IsSettled s v = mark-IsSettled before answers tenant id _ _ s (λ j e. cc) v

  pub mark_evaluation_running-IsSettled :
      (now : ℤ) (s : Session JobTables)
      → IsSettled before s.tables
      → IsSettled before (mark_evaluation_running answers tenant id now s).1.tables
  unfolding mark_evaluation_running
  mark_evaluation_running-IsSettled now s v =
      mark-IsSettled before answers tenant id _ _ s (λ j e. cc) v

  -- The row is there.
  Saves : JobTables → JobTables → Type 0
  Saves t t' = IsSettled before t → IsSettled before t' × HasResult id t'

  Carries : JobTables → JobTables → Type 0
  Carries t t' = (t0 : JobTables) → Saves t0 t → IsSettled before t0 → IsSettled before t'

  pub complete_evaluation-IsSettled :
      (execution : Text) (results : List Evaluated) (now : ℤ) (s : Session JobTables)
      → IsSettled before s.tables
      → IsSettled before (complete_evaluation answers tenant id execution results now s).1.tables
  unfolding complete_evaluation Settles Saves Carries
  complete_evaluation-IsSettled execution results now s v =
      transaction-Keeps (IsSettled before) answers (λ e. e) (λ e. e) _
        (>>=-Ensures _ _ (λ _ t t'. Saves t t') (λ _ t t'. IsSettled before t → IsSettled before t')
          (label-Ensures "persist evaluation result" (round_trip answers _) (λ _ t t'. Saves t t')
            (λ s' a h w.
              rw ((round_trip-Ensures answers _ s' a h).1)
                (insert_result-IsSettled before id _ s'.tables w)))
          λ _.
            >>=-Ensures _ _ (λ _ t t'. Carries t t') (λ _ t t'. Carries t t')
              (label-Ensures "complete evaluation job" (round_trip answers _)
                (λ _ t t'. Carries t t')
                (λ s' a h t0 k w.
                  rw ((round_trip-Ensures answers _ s' a h).1)
                    (update_job-IsSettled before tenant id _ _ s'.tables (λ j e. (k w).1) (k w).0)))
              λ _ s' a h t step t0 k w.
                enqueue_event-Settles before answers evaluation_complete id tenant id _ now s' a h
                  (step t0 k w))
        s v

-- ===== src/Postgres/Outbox/Published.antt =====
-- The outbox over whole histories of internal/persistence/postgres.go.
use aegis_ai_platform.Prelude.{ℕ, Text, text_eq, List, [], ◌∷◌, true, lookup, none, ◌≡◌, arith}
use aegis_ai_platform.Events.{Kind}
use aegis_ai_platform.Sql.{Answer, Session}
use aegis_ai_platform.Postgres.{Tables}
use aegis_ai_platform.Postgres.Calls.{
  Call, creates, transitions, starts, completes, fails, cancels, rejects, run_call, run_calls,
  are_plain,
}
use aegis_ai_platform.Postgres.Outbox.{IsPublished, events_of, announced, is_tracked}
use aegis_ai_platform.Postgres.Outbox.Keeps
use aegis_ai_platform.Postgres.Outbox.Creates
use aegis_ai_platform.Postgres.Outbox.Starts

pub run_calls-IsPublished :
    (answers : ℕ → Answer) (cs : List Call) (s : Session Tables)
    → are_plain cs ≡ true
    → IsPublished s.tables
    → IsPublished (run_calls answers cs s).tables
unfolding run_calls run_call are_plain
run_calls-IsPublished answers [] s h v = v
run_calls-IsPublished answers (creates params fresh now ∷ cs) s h v =
    run_calls-IsPublished answers cs _ h
      (Creates.create_or_get_request-IsPublished answers params fresh now s v)
run_calls-IsPublished answers (transitions tenant id from to now ∷ cs) s h v =
    run_calls-IsPublished answers cs _ (ground arith) (
      Keeps.transition_request-IsPublished answers tenant id from to now s (λ e. ground arith)
        (λ e. ground arith) v)
run_calls-IsPublished answers (starts params now ∷ cs) s h v =
    run_calls-IsPublished answers cs _ h (Starts.start_attempt-IsPublished answers params now s v)
run_calls-IsPublished answers (completes params correlation_id latency now ∷ cs) s h v =
    run_calls-IsPublished answers cs _ h
      (Keeps.complete_request-IsPublished answers params correlation_id latency now s v)
run_calls-IsPublished answers (fails params correlation_id latency now ∷ cs) s h v =
    run_calls-IsPublished answers cs _ h
      (Keeps.fail_attempt-IsPublished answers params correlation_id latency now s v)
run_calls-IsPublished answers (cancels tenant id now ∷ cs) s h v =
    run_calls-IsPublished answers cs _ h
      (Keeps.cancel_request-IsPublished answers tenant id now s v)
run_calls-IsPublished answers (rejects tenant id correlation_id requested now ∷ cs) s h v =
    run_calls-IsPublished answers cs _ h
      (Keeps.reject_budget-IsPublished answers tenant id correlation_id requested now s v)

-- Start from tables without requests and events, and run any sequence of calls of the methods that
-- write, of which none asks TransitionRequest for COMPLETED or BUDGET_REJECTED, with any answers of
-- the server to each of their statements: results, errors, and lost answers to statements or commits
-- that took effect. Then each identifier has one event "request accepted" if there is a request under
-- it and none if there is none, one event "request completed" and one "usage recorded" if it is
-- COMPLETED and none if not, and one event "budget exceeded" if it is BUDGET_REJECTED and none if not.
pub published_once :
    (answers : ℕ → Answer) (cs : List Call) (s : Session Tables)
    → are_plain cs ≡ true
    → s.tables.requests ≡ []
    → s.tables.outbox ≡ []
    → (k : Kind) (id : Text) → is_tracked k ≡ true
    → events_of k id (run_calls answers cs s).tables.outbox
      ≡ announced k (lookup id (run_calls answers cs s).tables.requests)
unfolding events_of lookup
published_once answers cs s h none_yet unsent k id tracked =
    (run_calls-IsPublished answers cs s h
        (record { counted = λ k' j t. rw (none_yet, unsent) (empty k' t) })).counted
      k id tracked
  where
    empty : (k' : Kind) → is_tracked k' ≡ true → 0 ≡ announced k' none
    empty k' t = ground arith

-- ===== src/Postgres/Refines/Agree.antt =====
-- internal/persistence/postgres.go and internal/persistence/memory.go over sequences of changes.
use aegis_ai_platform.Prelude.{
  Text, text_eq, List, [], ◌∷◌, lookup, map, Bool, true, false, ◌==◌, if◌then◌else◌, ◌≡◌, sym, ap,
  ◌∙◌,
}
use aegis_ai_platform.Errors.{Result, ok, err}
use aegis_ai_platform.Request.{State, in_progress, state_beq, transition, Record}
use aegis_ai_platform.Store.{Memory, failed_record}
use aegis_ai_platform.Store.Operations.{run_operation, run_operations, IsFresh}
use aegis_ai_platform.Store.Lifecycle.{IsKeyed}
use aegis_ai_platform.Store.History.{run_operation-IsKeyed}
use aegis_ai_platform.Sql.{Session}
use aegis_ai_platform.Postgres.{Tables}
use aegis_ai_platform.Postgres.Calls.{run_call, run_calls}
use aegis_ai_platform.Postgres.Refines.{
  View, amend, amend_one, Change, transits, completes, fails, cancels, if_legal, effect, call,
  operation, view, heard_trip,
}
use aegis_ai_platform.Postgres.Refines.Server.{run_call-effect}
use aegis_ai_platform.Postgres.Refines.InMemory.{run_operation-effect}

amend-cong :
    (tenant id : Text) (in_state : State → Bool) (set : Record → Record) (v w : View) (j : Text)
    → v j ≡ w j
    → amend tenant id in_state set v j ≡ amend tenant id in_state set w j
unfolding amend
amend-cong tenant id in_state set v w j same = ap (amend_one (id == j) tenant in_state set) same

effect-cong :
    (c : Change) (v w : View) → ((i : Text) → v i ≡ w i) → (j : Text) → effect c v j ≡ effect c w j
unfolding effect
effect-cong (transits tenant id from to now) v w same j = legal (transition from to)
  where
    legal :
        (r : Result (Unit {0}))
        → if_legal r
            (amend tenant id
              (λ s. state_beq s from)
              (λ r'. record r' { state = to; updated_at = now })
              v)
            v
            j
          ≡ if_legal r
              (amend tenant id
                (λ s. state_beq s from)
                (λ r'. record r' { state = to; updated_at = now })
                w)
              w
              j
    legal (ok _) = amend-cong tenant id _ _ v w j (same j)
    legal (err x) = same j
effect-cong (completes params correlation_id latency now) v w same j =
    amend-cong params.tenant_id params.request_id _ _ v w j (same j)
effect-cong (fails params correlation_id latency now) v w same j = decided params.final
  where
    decided :
        (b : Bool)
        → (if b
              then amend params.tenant_id params.request_id
                  (λ s. state_beq s in_progress)
                  (failed_record params now)
                  v
              else v)
            j
          ≡ (if b
                then amend params.tenant_id params.request_id
                    (λ s. state_beq s in_progress)
                    (failed_record params now)
                    w
                else w)
              j
    decided true = amend-cong params.tenant_id params.request_id _ _ v w j (same j)
    decided false = same j
effect-cong (cancels tenant id now) v w same j = amend-cong tenant id _ _ v w j (same j)

operation-IsFresh : (c : Change) (m : Memory) → IsFresh (operation c) m
operation-IsFresh (transits tenant id from to now) m = tt
operation-IsFresh (completes params correlation_id latency now) m = tt
operation-IsFresh (fails params correlation_id latency now) m = tt
operation-IsFresh (cancels tenant id now) m = tt

-- Take a server that answers every statement and commits every transaction, and a memory store in
-- which each request is under its own identifier, and let them hold the same requests. Run the same
-- transitions, completions, failures and cancellations on both, in the same order and at the same
-- times, whether they succeed or not. Then they hold the same requests, field by field.
pub same_requests :
    (cs : List Change) (s : Session Tables) (m : Memory)
    → IsKeyed m
    → ((i : Text) → lookup i s.tables.requests ≡ lookup i m.requests)
    → (j : Text)
    → lookup j (run_calls heard_trip (map call cs) s).tables.requests
      ≡ lookup j (run_operations (map operation cs) m).requests
unfolding run_calls run_operations
same_requests [] s m v same j = same j
same_requests (c ∷ cs) s m v same j =
    same_requests cs (run_call heard_trip (call c) s) (run_operation (operation c) m)
      (run_operation-IsKeyed (operation c) m v (operation-IsFresh c m))
      (λ i.
        run_call-effect c s i
        ∙ effect-cong c (view s.tables.requests) (view m.requests) same i
        ∙ sym (run_operation-effect c m i v))
      j

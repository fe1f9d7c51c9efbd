-- ===== src/Store/History.antt =====
-- Requests over a whole history of the store of internal/persistence/memory.go.
use aegis_ai_platform.Prelude.{
  ◌≤◌, Text, List, [], ◌∷◌, Option, some, lookup, text_eq, ◌≡◌, refl, sym, ap, ◌∙◌, arith,
}
use aegis_ai_platform.Request.{State, Record}
use aegis_ai_platform.Request.Graph.{rank, IsFinal, transition-rank}
use aegis_ai_platform.Store.{Memory, set_tenant_policy, create_or_get_request, reject_budget}
use aegis_ai_platform.Store.Operations.{
  Operation, sets_policy, creates, transitions, starts, completes, fails, cancels, reserves,
  rejects, reconciles, run_operation, run_operations, IsFresh, AreFresh,
}
use aegis_ai_platform.Store.Lifecycle.{
  Evolves, stays, begins, moves, IsKeyed, AllEvolve, transition_request-AllEvolve,
  complete_request-AllEvolve, fail_attempt-AllEvolve, cancel_request-AllEvolve,
  start_attempt-requests, create-AllEvolve, reserve_budget-requests, reconcile_budget-requests,
}

-- Every method leaves each stored request as it is, creates it as received, or moves it along one
-- edge of the state machine, and never changes its identifier, its tenant or its hash.
pub run_operation-AllEvolve :
    (o : Operation) (m : Memory) → IsKeyed m → IsFresh o m → AllEvolve m (run_operation o m)
unfolding run_operation set_tenant_policy create_or_get_request reject_budget
run_operation-AllEvolve (sets_policy tenant policy) m v f j = stays refl
run_operation-AllEvolve (creates params fresh clock) m v f j =
    create-AllEvolve params fresh clock _ m f j
run_operation-AllEvolve (transitions tenant id from to clock) m v f j =
    transition_request-AllEvolve tenant id from to clock m j
run_operation-AllEvolve (starts params) m v f j =
    stays (ap (lookup j) (start_attempt-requests params m))
run_operation-AllEvolve (completes params clock) m v f j =
    complete_request-AllEvolve params clock m v j
run_operation-AllEvolve (fails params clock) m v f j = fail_attempt-AllEvolve params clock m v j
run_operation-AllEvolve (cancels tenant id clock) m v f j =
    cancel_request-AllEvolve tenant id clock m j
run_operation-AllEvolve (reserves tenant id amount) m v f j =
    stays (ap (lookup j) (reserve_budget-requests tenant id amount m))
run_operation-AllEvolve (rejects tenant id clock) m v f j =
    transition_request-AllEvolve tenant id _ _ clock m j
run_operation-AllEvolve (reconciles id actual) m v f j =
    stays (ap (lookup j) (reconcile_budget-requests id actual m))

Evolves-id :
    (j : Text) (o o' : Option Record)
    → Evolves j o o'
    → ((r : Record) → o ≡ some r → r.id ≡ j)
    → (r' : Record) → o' ≡ some r'
    → r'.id ≡ j
Evolves-id j o o' (stays e) k r' h = k r' (sym e ∙ h)
Evolves-id j o o' (begins r a b i s) k r' h = let same : r ≡ r' = ground arith in rw (← same) i
Evolves-id j o o' (moves r r'' a b t s) k r' h =
    let same : r'' ≡ r' = ground arith in rw (← same) (s.id ∙ k r a)

pub run_operation-IsKeyed :
    (o : Operation) (m : Memory) → IsKeyed m → IsFresh o m → IsKeyed (run_operation o m)
run_operation-IsKeyed o m v f = record {
  keyed = λ j r' h. Evolves-id j _ _ (run_operation-AllEvolve o m v f j) (v.keyed j) r' h;
}

-- A final request, with its response and its cost, is never changed.
Evolves-final :
    (j : Text) (o o' : Option Record) (r : Record)
    → Evolves j o o'
    → o ≡ some r
    → IsFinal r.state
    → o' ≡ some r
Evolves-final j o o' r (stays e) h k = e ∙ h
Evolves-final j o o' r (begins r' a b i s) h k = cc
Evolves-final j o o' r (moves r₁ r' a b t s) h k =
    let same : r₁ ≡ r = ground arith in
    absurd (
      omega
        (arith, rank-le r'.state, transition-rank r₁.state r'.state t, ap (λ q. rank q.state) same))
  where
    rank-le : (s : State) → rank s ≤ 4
    rank-le s = ground arith

-- Once a request is completed, failed, cancelled or rejected for its budget, no later sequence of
-- store operations changes anything of its record: its response, its cost and its times stay.
pub final_is_kept :
    (os : List Operation) (m : Memory) (j : Text) (r : Record)
    → IsKeyed m
    → AreFresh os m
    → lookup j m.requests ≡ some r
    → IsFinal r.state
    → lookup j (run_operations os m).requests ≡ some r
unfolding run_operations
final_is_kept [] m j r v f h k = h
final_is_kept (o ∷ os) m j r v f h k =
    final_is_kept os (run_operation o m) j r (run_operation-IsKeyed o m v f.0) f.1
      (Evolves-final j _ _ r (run_operation-AllEvolve o m v f.0 j) h k) k

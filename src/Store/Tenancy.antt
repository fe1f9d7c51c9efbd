-- ===== src/Store/Tenancy.antt =====
-- Idempotent creation in internal/persistence/memory.go, and the isolation of tenants.
use aegis_ai_platform.Prelude.{
  ℕ, ℤ, Text, true, false, List, [], ◌∷◌, Option, none, some, lookup, lookup-insert, text_eq,
  text_beq_iff, ◌==◌, if◌then◌else◌, ◌≡◌, ◌≢◌, refl, sym, ap, subst, ◌∙◌, inl, inr, arith,
  Bool-cases, Option-cases,
}
use aegis_ai_platform.Errors.{ok, err, conflict}
use aegis_ai_platform.Request.{State, Record}
use aegis_ai_platform.Store.{
  Memory, set_tenant_policy, CreateRequestParams, AttemptParams, CompletionParams, FailureParams,
  create_or_get_request, create, replay, new_record, idempotency_key, transition_request,
  start_attempt, complete_request, fail_attempt, cancel_request, reserve_budget, reject_budget,
  reconcile_budget,
}
use aegis_ai_platform.Store.Operations.{
  Operation, sets_policy, creates, transitions, starts, completes, fails, cancels, reserves,
  rejects, reconciles, run_operation, run_operations, AreFresh,
}
use aegis_ai_platform.Store.Lifecycle.{Evolves, stays, begins, moves, IsSameRequest, IsKeyed}
use aegis_ai_platform.Store.History.{run_operation-AllEvolve, run_operation-IsKeyed}

transition_request-idempotency :
    (tenant id : Text) (from to : State) (clock : ℤ) (m : Memory)
    → (transition_request tenant id from to clock m).1.idempotency ≡ m.idempotency
unfolding transition_request
transition_request-idempotency tenant id from to clock m = ground arith

start_attempt-idempotency :
    (params : AttemptParams) (m : Memory) → (start_attempt params m).1.idempotency ≡ m.idempotency
unfolding start_attempt
start_attempt-idempotency params m = ground arith

complete_request-idempotency :
    (params : CompletionParams) (clock : ℤ) (m : Memory)
    → (complete_request params clock m).1.idempotency ≡ m.idempotency
unfolding complete_request
complete_request-idempotency params clock m = ground arith

fail_attempt-idempotency :
    (params : FailureParams) (clock : ℤ) (m : Memory)
    → (fail_attempt params clock m).1.idempotency ≡ m.idempotency
unfolding fail_attempt
fail_attempt-idempotency params clock m = ground arith

cancel_request-idempotency :
    (tenant id : Text) (clock : ℤ) (m : Memory)
    → (cancel_request tenant id clock m).1.idempotency ≡ m.idempotency
unfolding cancel_request
cancel_request-idempotency tenant id clock m = ground arith

reserve_budget-idempotency :
    (tenant id : Text) (amount : ℤ) (m : Memory)
    → (reserve_budget tenant id amount m).1.idempotency ≡ m.idempotency
unfolding reserve_budget
reserve_budget-idempotency tenant id amount m = ground arith

reconcile_budget-idempotency :
    (id : Text) (actual : ℤ) (m : Memory)
    → (reconcile_budget id actual m).1.idempotency ≡ m.idempotency
unfolding reconcile_budget
reconcile_budget-idempotency id actual m = ground arith

create-idempotency :
    (params : CreateRequestParams) (fresh : Text) (clock : ℤ) (m : Memory) (k id : Text)
    → lookup k m.idempotency ≡ some id
    → lookup k (create_or_get_request params fresh clock m).1.idempotency ≡ some id
unfolding create_or_get_request create
create-idempotency params fresh clock m k id h =
    let key = idempotency_key params.tenant_id params.idempotency_key in
    elim (Option-cases (lookup key m.idempotency)) [
      | inr (old, e) ↦ rw (e, create) h
      | inl e ↦
          rw (e, create, lookup-insert key k fresh m.idempotency)
            (elim (Bool-cases (key == k)) [
              | inl hit ↦
                  let same : key ≡ k = (text_beq_iff key k).0 hit in
                  let gone : lookup k m.idempotency ≡ none = rw (← same) e in cc
              | inr miss ↦ rw miss h
            ])
    ]

run_operation-idempotency :
    (o : Operation) (m : Memory) (k id : Text)
    → lookup k m.idempotency ≡ some id
    → lookup k (run_operation o m).idempotency ≡ some id
unfolding run_operation set_tenant_policy reject_budget
run_operation-idempotency (sets_policy tenant policy) m k id h = h
run_operation-idempotency (creates params fresh clock) m k id h =
    create-idempotency params fresh clock m k id h
run_operation-idempotency (transitions tenant i from to clock) m k id h =
    rw (transition_request-idempotency tenant i from to clock m) h
run_operation-idempotency (starts params) m k id h = rw (start_attempt-idempotency params m) h
run_operation-idempotency (completes params clock) m k id h =
    rw (complete_request-idempotency params clock m) h
run_operation-idempotency (fails params clock) m k id h =
    rw (fail_attempt-idempotency params clock m) h
run_operation-idempotency (cancels tenant i clock) m k id h =
    rw (cancel_request-idempotency tenant i clock m) h
run_operation-idempotency (reserves tenant i amount) m k id h =
    rw (reserve_budget-idempotency tenant i amount m) h
run_operation-idempotency (rejects tenant i clock) m k id h =
    rw (transition_request-idempotency tenant i _ _ clock m) h
run_operation-idempotency (reconciles i actual) m k id h =
    rw (reconcile_budget-idempotency i actual m) h

-- What a key stands for: a stored request with the identity of one that was created for it.
pub record StandsFor (k : Text) (r : Record) (m : Memory) : Type 0 where
  pub registered : lookup k m.idempotency ≡ some r.id
  pub current : Record
  pub stored : lookup r.id m.requests ≡ some current
  pub same : IsSameRequest r current

Evolves-stored :
    (j : Text) (o o' : Option Record) (r c : Record)
    → Evolves j o o'
    → o ≡ some c
    → IsSameRequest r c
    → (c' : Record) × (o' ≡ some c') × IsSameRequest r c'
Evolves-stored j o o' r c (stays e) h s = (c, e ∙ h, s)
Evolves-stored j o o' r c (begins r' a b i e) h s = cc
Evolves-stored j o o' r c (moves c₁ c' a b t f) h s =
    let equal : c₁ ≡ c = ground arith in
    (
      c',
      b,
      record {
        id = f.id ∙ ap (λ x. x.id) equal ∙ s.id;
        tenant = f.tenant ∙ ap (λ x. x.tenant_id) equal ∙ s.tenant;
        hash = f.hash ∙ ap (λ x. x.canonical_hash) equal ∙ s.hash;
      },
    )

run_operations-StandsFor :
    (os : List Operation) (m : Memory) (k : Text) (r : Record)
    → IsKeyed m
    → AreFresh os m
    → StandsFor k r m
    → StandsFor k r (run_operations os m)
unfolding run_operations
run_operations-StandsFor [] m k r v f s = s
run_operations-StandsFor (o ∷ os) m k r v f s =
    let (c', h, e) =
      Evolves-stored r.id _ _ r s.current (run_operation-AllEvolve o m v f.0 r.id) s.stored
        s.same in
    run_operations-StandsFor os (run_operation o m) k r (run_operation-IsKeyed o m v f.0) f.1
      (record {
        registered = run_operation-idempotency o m k r.id s.registered;
        current = c';
        stored = h;
        same = e;
      })

replay-old :
    (params : CreateRequestParams) (o : Option Record) (r : Record) → replay params o ≢ ok (r, true)
unfolding replay
replay-old params o r h = ground arith

new_record-StandsFor :
    (params : CreateRequestParams) (fresh : Text) (clock : ℤ) (m : Memory) (r : Record)
    → (create params fresh clock none m).0 ≡ ok (r, true)
    → StandsFor
        (idempotency_key params.tenant_id params.idempotency_key)
        r
        (create params fresh clock none m).1
      × (r.canonical_hash ≡ params.canonical_hash)
unfolding create
new_record-StandsFor params fresh clock m r h =
    let same : new_record params fresh clock ≡ r = ground arith in
    let key = idempotency_key params.tenant_id params.idempotency_key in
    subst
      (λ s.
        StandsFor key s (create params fresh clock none m).1
        × (s.canonical_hash ≡ params.canonical_hash))
      same
      (
        record {
          registered =
              rw (lookup-insert key key fresh m.idempotency, (text_beq_iff key key).1 refl);
          current = new_record params fresh clock;
          stored = rw (
            lookup-insert fresh fresh (new_record params fresh clock) m.requests,
            (text_beq_iff fresh fresh).1 refl,
          );
          same = record { id = refl; tenant = refl; hash = refl };
        },
        refl,
      )

create-StandsFor :
    (params : CreateRequestParams) (fresh : Text) (clock : ℤ) (m : Memory) (r : Record)
    → (create_or_get_request params fresh clock m).0 ≡ ok (r, true)
    → StandsFor
        (idempotency_key params.tenant_id params.idempotency_key)
        r
        (create_or_get_request params fresh clock m).1
      × (r.canonical_hash ≡ params.canonical_hash)
unfolding create_or_get_request
create-StandsFor params fresh clock m r h =
    let key = idempotency_key params.tenant_id params.idempotency_key in
    elim (Option-cases (lookup key m.idempotency)) [
      | inr (old, e) ↦ absurd (replay-old params (lookup old m.requests) r (rw (e, create) at h))
      | inl e ↦
          subst
            (λ o.
              StandsFor key r (create params fresh clock o m).1
              × (r.canonical_hash ≡ params.canonical_hash))
            (sym e)
            (new_record-StandsFor params fresh clock m r
              (subst (λ o. (create params fresh clock o m).0 ≡ ok (r, true)) e h))
    ]

-- What a create call returns when its key stands for a request.
replayed :
    (params : CreateRequestParams) (fresh : Text) (clock : ℤ) (m : Memory) (r : Record) (k : Text)
    (hash : List ℕ)
    → idempotency_key params.tenant_id params.idempotency_key ≡ k
    → r.canonical_hash ≡ hash
    → (s : StandsFor k r m)
    → create_or_get_request params fresh clock m
      ≡ ((if hash == params.canonical_hash then ok (s.current, false) else err conflict), m)
unfolding create_or_get_request create replay
replayed params fresh clock m r k hash same of_r s =
    rw (same, s.registered, create, s.stored, replay, s.same.hash, of_r)

-- One request for one tenant's idempotency key: after a call has created it, and after any store
-- operations, another call with the key and the same hash returns that request as it now is, one
-- with another hash is a conflict, and neither changes the store.
pub create_once :
    (params again : CreateRequestParams) (fresh fresh' : Text) (clock clock' : ℤ) (m : Memory)
    (r : Record) (os : List Operation)
    → IsKeyed m
    → AreFresh (creates params fresh clock ∷ os) m
    → (create_or_get_request params fresh clock m).0 ≡ ok (r, true)
    → idempotency_key again.tenant_id again.idempotency_key
      ≡ idempotency_key params.tenant_id params.idempotency_key
    → let later = run_operations (creates params fresh clock ∷ os) m in
      (r' : Record) × IsSameRequest r r'
      × (lookup r.id later.requests ≡ some r')
      × (create_or_get_request again fresh' clock' later ≡ (
        (if params.canonical_hash == again.canonical_hash then ok (r', false) else err conflict),
        later,
      ))
unfolding run_operations run_operation
create_once params again fresh fresh' clock clock' m r os v f h same =
    let (s, hash) = create-StandsFor params fresh clock m r h in
    let s' =
      run_operations-StandsFor os (create_or_get_request params fresh clock m).1 _ r
        (run_operation-IsKeyed (creates params fresh clock) m v f.0) f.1 s in
    (s'.current, s'.same, s'.stored, replayed again fresh' clock' _ r _ _ same hash s')

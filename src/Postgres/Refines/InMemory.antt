-- ===== src/Postgres/Refines/InMemory.antt =====
-- What the methods of internal/persistence/memory.go make of one request.
use aegis_ai_platform.Prelude.{
  ℤ, Text, text_eq, text_beq_iff, some, lookup, Bool, true, false, not, if◌then◌else◌, ◌≡◌, refl,
  sym, ap, inl, inr, arith, subst, Bool-cases,
}
use aegis_ai_platform.Errors.{Result, ok, err, not_found}
use aegis_ai_platform.Action.{after}
use aegis_ai_platform.Request.{State, in_progress, cancelled, state_beq, transition, Record}
use aegis_ai_platform.Store.{
  is_final, Memory, put, CompletionParams, FailureParams, completed_record, failed_record, own,
  transition_request, complete_request, fail_attempt, cancel_request, finalize_attempt,
}
use aegis_ai_platform.Store.Operations.{run_operation}
use aegis_ai_platform.Store.Lifecycle.{IsKeyed, own-cases, finalize_attempt-requests}
use aegis_ai_platform.Postgres.Operations.{is_cancellable}
use aegis_ai_platform.Postgres.Refines.{
  View, amend, put-amend, miss-amend, Change, transits, completes, fails, cancels, if_legal, effect,
  operation, view,
}

-- What the methods of memory.go look up and test, as the row of an UPDATE.
Amends : Text → Text → (State → Bool) → (Record → Record) → Memory → Memory → Type 0
Amends tenant id in_state set m m' =
    (j : Text) → lookup j m'.requests ≡ amend tenant id in_state set (view m.requests) j

module _ (tenant id : Text) (in_state : State → Bool) (set : Record → Record) (m : Memory) where
  foreign-Amends :
      own tenant (lookup id m.requests) ≡ err not_found → Amends tenant id in_state set m m
  unfolding own Amends
  foreign-Amends e j =
      miss-amend tenant id in_state set (view m.requests) j (λ r h. ground (arith, e, h))

  wrong-Amends :
      (r : Record)
      → lookup id m.requests ≡ some r
      → in_state r.state ≡ false
      → Amends tenant id in_state set m m
  unfolding Amends
  wrong-Amends r h wrong j =
      miss-amend tenant id in_state set (view m.requests) j (λ q k. ground (arith, h, k, wrong))

  put-Amends :
      (r : Record)
      → lookup id m.requests ≡ some r
      → r.tenant_id ≡ tenant
      → in_state r.state ≡ true
      → Amends tenant id in_state set m (put id (set r) m)
  unfolding Amends
  put-Amends r h mine right j =
      put-amend tenant id in_state set m.requests r j h
        (rw ((text_beq_iff r.tenant_id tenant).1 mine, right) refl)

  put_keyed-Amends :
      (r : Record)
      → IsKeyed m
      → lookup id m.requests ≡ some r
      → r.tenant_id ≡ tenant
      → in_state r.state ≡ true
      → Amends tenant id in_state set m (put r.id (set r) m)
  put_keyed-Amends r v h mine right =
      let same : r.id ≡ id = v.keyed id r h in
      subst (λ i. Amends tenant id in_state set m (put i (set r) m)) (sym same)
        (put-Amends r h mine right)

complete_request-Amends :
    (params : CompletionParams) (now : ℤ) (m : Memory)
    → IsKeyed m
    → Amends params.tenant_id params.request_id
        (λ st. state_beq st in_progress)
        (completed_record params now)
        m
        (complete_request params now m).1
unfolding complete_request Amends
complete_request-Amends params now m v =
    elim (own-cases params.tenant_id (lookup params.request_id m.requests)) [
      | inl e ↦ rw e (foreign-Amends _ _ _ _ m e)
      | inr (r, h, t, e) ↦ elim (Bool-cases (state_beq r.state in_progress)) [
        | inr wrong ↦
            rw (e, wrong) (wrong-Amends _ _ (λ st. state_beq st in_progress) _ m r h wrong)
        | inl right ↦ rw (e, right) (finalized r h t right)
      ]
    ]
  where
    finalized :
        (r : Record)
        → lookup params.request_id m.requests ≡ some r
        → r.tenant_id ≡ params.tenant_id
        → state_beq r.state in_progress ≡ true
        → Amends params.tenant_id params.request_id
            (λ st. state_beq st in_progress)
            (completed_record params now)
            m
            (finalize_attempt params.request_id params.attempt_number
              (lookup params.request_id m.attempts)
              (put r.id (completed_record params now r) m)).1
    finalized r h t right j =
        rw
          (finalize_attempt-requests params.request_id params.attempt_number
            (lookup params.request_id m.attempts) (put r.id (completed_record params now r) m))
          (put_keyed-Amends params.tenant_id params.request_id (λ st. state_beq st in_progress)
            (completed_record params now) m r v h t right j)

fail_attempt-Amends :
    (params : FailureParams) (now : ℤ) (m : Memory)
    → IsKeyed m
    → params.final ≡ true
    → Amends params.tenant_id params.request_id
        (λ st. state_beq st in_progress)
        (failed_record params now)
        m
        (fail_attempt params now m).1
unfolding fail_attempt
fail_attempt-Amends params now m v final =
    elim (own-cases params.tenant_id (lookup params.request_id m.requests)) [
      | inl e ↦ rw e (foreign-Amends _ _ _ _ m e)
      | inr (r, h, t, e) ↦ elim (Bool-cases (state_beq r.state in_progress)) [
        | inr wrong ↦
            simp (e, final, wrong) (wrong-Amends _ _ (λ st. state_beq st in_progress) _ m r h wrong)
        | inl right ↦
            simp (e, final, right)
              (put_keyed-Amends _ _ (λ st. state_beq st in_progress) (failed_record params now) m r
                v h t right)
      ]
    ]

fail_attempt-requests :
    (params : FailureParams) (now : ℤ) (m : Memory)
    → params.final ≡ false
    → (fail_attempt params now m).1.requests ≡ m.requests
unfolding fail_attempt
fail_attempt-requests params now m other =
    elim (own-cases params.tenant_id (lookup params.request_id m.requests)) [
      | inl e ↦ rw e refl
      | inr (r, h, t, e) ↦ simp (e, other) refl
    ]

transition_request-effect :
    (tenant id : Text) (from to : State) (now : ℤ) (m : Memory) (j : Text)
    → lookup j (transition_request tenant id from to now m).1.requests
      ≡ effect (transits tenant id from to now) (view m.requests) j
unfolding transition_request effect Amends
transition_request-effect tenant id from to now m j =
    elim (own-cases tenant (lookup id m.requests)) [
      | inl e ↦ rw e (
          kept (transition from to)
            (foreign-Amends tenant id (λ st. state_beq st from) moved m e j))
      | inr (r, h, t, e) ↦ elim (Bool-cases (state_beq r.state from)) [
        | inr wrong ↦
            rw (e, wrong)
              (kept (transition from to)
                (wrong-Amends tenant id (λ st. state_beq st from) moved m r h wrong j))
        | inl right ↦
            rw (e, right)
              (put_if (transition from to) r
                (put-Amends tenant id (λ st. state_beq st from) moved m r h t right j))
      ]
    ]
  where
    moved : Record → Record
    moved r = record r { state = to; updated_at = now }

    changed : View
    changed = amend tenant id (λ st. state_beq st from) moved (view m.requests)

    kept :
        (legal : Result (Unit {0}))
        → lookup j m.requests ≡ changed j
        → lookup j m.requests ≡ if_legal legal changed (view m.requests) j
    kept (ok _) same = same
    kept (err x) same = refl

    put_if :
        (legal : Result (Unit {0})) (r : Record)
        → lookup j (put id (moved r) m).requests ≡ changed j
        → lookup j (after legal (λ _ n. (ok tt, put id (moved r) n)) m).1.requests
          ≡ if_legal legal changed (view m.requests) j
    put_if (ok _) r same = same
    put_if (err x) r same = refl

cancel_request-Amends :
    (tenant id : Text) (now : ℤ) (m : Memory)
    → Amends tenant id is_cancellable
        (λ r. record r { state = cancelled; completed_at = some now; updated_at = now })
        m
        (cancel_request tenant id now m).1
unfolding cancel_request
cancel_request-Amends tenant id now m = elim (own-cases tenant (lookup id m.requests)) [
  | inl e ↦ rw e (foreign-Amends _ _ _ _ m e)
  | inr (r, h, t, e) ↦ elim (Bool-cases (is_final r.state)) [
    | inl done ↦ rw (e, done) (wrong-Amends _ _ is_cancellable _ m r h (opposite r.state true done))
    | inr live ↦
        rw (e, live) (put-Amends _ _ is_cancellable _ m r h t (opposite r.state false live))
  ]
]
  where
    opposite : (st : State) (b : Bool) → is_final st ≡ b → is_cancellable st ≡ not b
    opposite st b e = ground arith

-- The memory store has the effect too.
pub run_operation-effect :
    (c : Change) (m : Memory) (j : Text)
    → IsKeyed m
    → lookup j (run_operation (operation c) m).requests ≡ effect c (view m.requests) j
unfolding run_operation effect Amends
run_operation-effect (transits tenant id from to now) m j v =
    transition_request-effect tenant id from to now m j
run_operation-effect (completes params correlation_id latency now) m j v =
    complete_request-Amends params now m v j
run_operation-effect (fails params correlation_id latency now) m j v = go params.final refl
  where
    go :
        (b : Bool)
        → params.final ≡ b
        → lookup j (fail_attempt params now m).1.requests
          ≡ (if b
                then amend params.tenant_id params.request_id
                    (λ st. state_beq st in_progress)
                    (failed_record params now)
                    (view m.requests)
                else view m.requests)
              j
    go true final = fail_attempt-Amends params now m v final j
    go false other = ap (lookup j) (fail_attempt-requests params now m other)
run_operation-effect (cancels tenant id now) m j v = cancel_request-Amends tenant id now m j

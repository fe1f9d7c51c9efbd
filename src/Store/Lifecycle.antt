-- ===== src/Store/Lifecycle.antt =====
-- How the requests in the store of internal/persistence/memory.go change.
use aegis_ai_platform.Prelude.{
  ℕ, ℤ, Text, true, false, List, Option, none, some, lookup, lookup-insert, text_eq, nat_eq,
  text_beq_iff, ◌==◌, ◌≡◌, refl, sym, subst, ◌⊎◌, inl, inr, arith, Bool-cases,
}
use aegis_ai_platform.Errors.{ok, err, not_found, Result-cases}
use aegis_ai_platform.Request.{
  State, received, in_progress, cancelled, state_beq, transition, Record,
}
use aegis_ai_platform.Store.{
  Memory, Attempt, is_new, own, put, is_final, completed_record, failed_record, create, new_record,
  transition_request, start_attempt, complete_request, finalize_attempt, fail_attempt,
  cancel_request, reserve_budget, reconcile_budget, CreateRequestParams, AttemptParams,
  CompletionParams, FailureParams, attempts_of,
}

-- A record that a request keeps its identity in.
pub record IsSameRequest (r r' : Record) : Type 0 where
  pub id : r'.id ≡ r.id
  pub tenant : r'.tenant_id ≡ r.tenant_id
  pub hash : r'.canonical_hash ≡ r.canonical_hash

-- The request stored under an identifier, before and after an operation.
pub data Evolves (j : Text) (o o' : Option Record) : Type 0 where
  stays : o' ≡ o → Evolves j o o'
  begins :
      (r' : Record) → o ≡ none → o' ≡ some r' → r'.id ≡ j → r'.state ≡ received → Evolves j o o'
  moves :
      (r r' : Record)
      → o ≡ some r
      → o' ≡ some r'
      → transition r.state r'.state ≡ ok tt
      → IsSameRequest r r'
      → Evolves j o o'

-- A record is stored under its own identifier.
pub record IsKeyed (m : Memory) : Type 0 where
  pub keyed : (id : Text) (r : Record) → lookup id m.requests ≡ some r → r.id ≡ id

put-Evolves :
    (id : Text) (r r' : Record) (m : Memory)
    → lookup id m.requests ≡ some r
    → transition r.state r'.state ≡ ok tt
    → IsSameRequest r r'
    → (j : Text) → Evolves j (lookup j m.requests) (lookup j (put id r' m).requests)
put-Evolves id r r' m h t s j = rw (lookup-insert id j r' m.requests) (elim (Bool-cases (id == j)) [
  | inl hit ↦
      let same : id ≡ j = (text_beq_iff id j).0 hit in rw hit (moves r r' (rw (← same) h) refl t s)
  | inr miss ↦ rw miss (stays refl)
])

-- What the lookup and the tenant test find.
pub own-cases :
    (tenant : Text) (o : Option Record)
    → (own tenant o ≡ err not_found)
      ⊎ ((r : Record) × (o ≡ some r) × (r.tenant_id ≡ tenant) × (own tenant o ≡ ok r))
unfolding own
own-cases tenant none = inl refl
own-cases tenant (some r) = elim (Bool-cases (r.tenant_id == tenant)) [
  | inl e ↦ inr (r, refl, (text_beq_iff r.tenant_id tenant).0 e, rw e)
  | inr e ↦ inl (rw e)
]

state_beq-eq : (s t : State) → state_beq s t ≡ true → s ≡ t
state_beq-eq s t h = ground arith

-- Every lookup of a later store is an evolved lookup of the earlier one.
abbrev pub AllEvolve : Memory → Memory → Type 0
AllEvolve m m' = (j : Text) → Evolves j (lookup j m.requests) (lookup j m'.requests)

pub transition_request-AllEvolve :
    (tenant id : Text) (from to : State) (clock : ℤ) (m : Memory)
    → AllEvolve m (transition_request tenant id from to clock m).1
unfolding transition_request
transition_request-AllEvolve tenant id from to clock m j =
    elim (own-cases tenant (lookup id m.requests)) [
      | inl e ↦ rw e (stays refl)
      | inr (r, h, t, e) ↦ elim (Bool-cases (state_beq r.state from)) [
        | inr wrong ↦ rw (e, wrong) (stays refl)
        | inl right ↦ elim (Result-cases (transition from to)) [
          | inr (f, bad) ↦ rw (e, right, bad) (stays refl)
          | inl (u, good) ↦
              rw (e, right, good)
                (put-Evolves id r (record r { state = to; updated_at = clock }) m h
                  (rw (state_beq-eq r.state from right) good)
                  (record { id = refl; tenant = refl; hash = refl }) j)
        ]
      ]
    ]

pub finalize_attempt-requests :
    (id : Text) (n : ℕ) (o : Option (List (ℕ × Attempt))) (m : Memory)
    → (finalize_attempt id n o m).1.requests ≡ m.requests
unfolding finalize_attempt
finalize_attempt-requests id n none m = refl
finalize_attempt-requests id n (some as') m = refl

put_keyed-Evolves :
    (id : Text) (r r' : Record) (m : Memory)
    → IsKeyed m
    → lookup id m.requests ≡ some r
    → transition r.state r'.state ≡ ok tt
    → IsSameRequest r r'
    → AllEvolve m (put r.id r' m)
put_keyed-Evolves id r r' m v h t s =
    let same : r.id ≡ id = v.keyed id r h in
    subst (λ i. AllEvolve m (put i r' m)) (sym same) (put-Evolves id r r' m h t s)

pub complete_request-AllEvolve :
    (params : CompletionParams) (clock : ℤ) (m : Memory)
    → IsKeyed m
    → AllEvolve m (complete_request params clock m).1
unfolding complete_request transition
complete_request-AllEvolve params clock m v j =
    elim (own-cases params.tenant_id (lookup params.request_id m.requests)) [
      | inl e ↦ rw e (stays refl)
      | inr (r, h, t, e) ↦ elim (Bool-cases (state_beq r.state in_progress)) [
        | inr wrong ↦ rw (e, wrong) (stays refl)
        | inl right ↦
            rw (e, right)
              (rw
                (finalize_attempt-requests params.request_id params.attempt_number
                  (lookup params.request_id m.attempts)
                  (put r.id (completed_record params clock r) m))
                (put_keyed-Evolves params.request_id r (completed_record params clock r) m v h
                  (rw (state_beq-eq r.state in_progress right) refl)
                  (record { id = refl; tenant = refl; hash = refl }) j))
      ]
    ]

pub fail_attempt-AllEvolve :
    (params : FailureParams) (clock : ℤ) (m : Memory)
    → IsKeyed m
    → AllEvolve m (fail_attempt params clock m).1
unfolding fail_attempt transition
fail_attempt-AllEvolve params clock m v j =
    elim (own-cases params.tenant_id (lookup params.request_id m.requests)) [
      | inl e ↦ rw e (stays refl)
      | inr (r, h, t, e) ↦ elim (Bool-cases params.final) [
        | inr on ↦ rw (e, on) (stays refl)
        | inl off ↦ elim (Bool-cases (state_beq r.state in_progress)) [
          | inr wrong ↦ rw (e, off, wrong) (stays refl)
          | inl right ↦
              rw (e, off, right)
                (put_keyed-Evolves params.request_id r (failed_record params clock r) m v h
                  (rw (state_beq-eq r.state in_progress right) refl)
                  (record { id = refl; tenant = refl; hash = refl }) j)
        ]
      ]
    ]

cancelled_ok : (s : State) → is_final s ≡ false → transition s cancelled ≡ ok tt
unfolding transition
cancelled_ok s h = ground arith

pub cancel_request-AllEvolve :
    (tenant id : Text) (clock : ℤ) (m : Memory) → AllEvolve m (cancel_request tenant id clock m).1
unfolding cancel_request
cancel_request-AllEvolve tenant id clock m j = elim (own-cases tenant (lookup id m.requests)) [
  | inl e ↦ rw e (stays refl)
  | inr (r, h, t, e) ↦ elim (Bool-cases (is_final r.state)) [
    | inl done ↦ rw (e, done) (stays refl)
    | inr live ↦
        rw (e, live)
          (put-Evolves id r
            (record r { state = cancelled; completed_at = some clock; updated_at = clock }) m h
            (cancelled_ok r.state live) (record { id = refl; tenant = refl; hash = refl }) j)
  ]
]

pub start_attempt-requests :
    (params : AttemptParams) (m : Memory) → (start_attempt params m).1.requests ≡ m.requests
unfolding start_attempt
start_attempt-requests params m =
    elim (own-cases params.tenant_id (lookup params.request_id m.requests)) [
      | inl e ↦ rw e refl
      | inr (r, h, t, e) ↦
          elim (Bool-cases (is_new (lookup params.number (attempts_of params.request_id m)))) [
            | inl new' ↦ rw (e, new') refl
            | inr old ↦ rw (e, old) refl
          ]
    ]

pub create-AllEvolve :
    (params : CreateRequestParams) (fresh : Text) (clock : ℤ) (o : Option Text) (m : Memory)
    → lookup fresh m.requests ≡ none
    → AllEvolve m (create params fresh clock o m).1
unfolding create
create-AllEvolve params fresh clock (some id) m free j = stays refl
create-AllEvolve params fresh clock none m free j =
    rw (lookup-insert fresh j (new_record params fresh clock) m.requests)
      (elim (Bool-cases (fresh == j)) [
        | inl hit ↦ rw hit (
            begins (new_record params fresh clock) (rw (← (text_beq_iff fresh j).0 hit) free) refl
              ((text_beq_iff fresh j).0 hit) refl)
        | inr miss ↦ rw miss (stays refl)
      ])

pub reserve_budget-requests :
    (tenant id : Text) (amount : ℤ) (m : Memory)
    → (reserve_budget tenant id amount m).1.requests ≡ m.requests
unfolding reserve_budget
reserve_budget-requests tenant id amount m = ground arith

pub reconcile_budget-requests :
    (id : Text) (actual : ℤ) (m : Memory) → (reconcile_budget id actual m).1.requests ≡ m.requests
unfolding reconcile_budget
reconcile_budget-requests id actual m = ground arith

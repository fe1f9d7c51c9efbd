-- ===== src/Postgres/Refines.antt =====
-- internal/persistence/postgres.go and internal/persistence/memory.go as implementations of the same
-- methods of Store, in what they make of the requests.
pub mod Server
pub mod InMemory
pub mod Agree
use aegis_ai_platform.Prelude.{
  ℕ, ◌+◌, ℤ, Text, text_eq, text_beq_iff, List, [], ◌∷◌, Option, none, some, lookup, insert,
  lookup-insert, Bool, true, false, ◌==◌, ◌&&◌, not, nat_beq, ltb, if◌then◌else◌, ◌≡◌, refl, sym,
  ap, ◌∙◌, ◌⊎◌, inl, inr, arith, Bool-cases, Option-cases, String,
}
use aegis_ai_platform.Errors.{Result, ok, err, Failure, already_final, wrapped, Result-cases}
use aegis_ai_platform.Action.{◌>>=◌, ◌>>◌, after, check}
use aegis_ai_platform.Request.{State, in_progress, cancelled, state_beq, transition, Record}
use aegis_ai_platform.Store.{
  Memory, CompletionParams, FailureParams, completed_record, failed_record, owned, own,
  transition_request, complete_request, fail_attempt, cancel_request, finalize_attempt,
}
use aegis_ai_platform.Store.Operations.{Operation, run_operation, run_operations}
use aegis_ai_platform.Store.Lifecycle.{IsKeyed, own-cases}
use aegis_ai_platform.Store.History.{run_operation-IsKeyed}
use aegis_ai_platform.Sql.{
  Answer, heard, Session, answer_with, round_trip, transaction, transact, conclude, commit, label,
}
use aegis_ai_platform.Postgres.{
  Tables, matches, update_request, expect_one, insert_outbox, set_attempt, succeeded, stopped,
}
use aegis_ai_platform.Postgres.Operations
use aegis_ai_platform.Postgres.Calls.{Call, run_call, run_calls}

-- The requests as a function of their identifiers.
abbrev pub View : Type 0
View = Text → Option Record

unfoldable pub amend_one :
    Bool → Text → (State → Bool) → (Record → Record) → Option Record → Option Record
amend_one here tenant in_state set none = none
amend_one here tenant in_state set (some r) =
    if here && (r.tenant_id == tenant && in_state r.state) then some (set r) else some r

-- Set the tenant's request under the identifier, if there is one and it is in such a state.
unfoldable pub amend : Text → Text → (State → Bool) → (Record → Record) → View → View
unfolding amend_one
amend tenant id in_state set v j = amend_one (id == j) tenant in_state set (v j)

-- The changes of one request that both implementations have.
pub data Change : Type 0 where
  transits : Text → Text → State → State → ℤ → Change
  completes : CompletionParams → Text → ℤ → ℤ → Change
  fails : FailureParams → Text → ℤ → ℤ → Change
  cancels : Text → Text → ℤ → Change

unfoldable pub if_legal : Result (Unit {0}) → View → View → View
if_legal (ok _) v w = v
if_legal (err e) v w = w

unfoldable pub effect : Change → View → View
unfolding amend if_legal
effect (transits tenant id from to now) v =
    if_legal (transition from to)
      (amend tenant id (λ s. state_beq s from) (λ r. record r { state = to; updated_at = now }) v) v
effect (completes params correlation_id latency now) v =
    amend params.tenant_id params.request_id (λ s. state_beq s in_progress)
      (completed_record params now) v
effect (fails params correlation_id latency now) v =
    if params.final
    then amend params.tenant_id params.request_id (λ s. state_beq s in_progress)
        (failed_record params now) v
    else v
effect (cancels tenant id now) v =
    amend tenant id Operations.is_cancellable
      (λ r. record r { state = cancelled; completed_at = some now; updated_at = now }) v

abbrev pub call : Change → Call
call (transits tenant id from to now) = Call.transitions tenant id from to now
call (completes params correlation_id latency now) =
    Call.completes params correlation_id latency now
call (fails params correlation_id latency now) = Call.fails params correlation_id latency now
call (cancels tenant id now) = Call.cancels tenant id now

abbrev pub operation : Change → Operation
operation (transits tenant id from to now) = Operation.transitions tenant id from to now
operation (completes params correlation_id latency now) = Operation.completes params now
operation (fails params correlation_id latency now) = Operation.fails params now
operation (cancels tenant id now) = Operation.cancels tenant id now

abbrev pub view : List (Text × Record) → View
view rows j = lookup j rows

pub put-amend :
    (tenant id : Text) (in_state : State → Bool) (set : Record → Record)
    (rows : List (Text × Record)) (r : Record) (j : Text)
    → lookup id rows ≡ some r
    → (r.tenant_id == tenant && in_state r.state) ≡ true
    → lookup j (insert id (set r) rows) ≡ amend tenant id in_state set (view rows) j
unfolding amend amend_one
put-amend tenant id in_state set rows r j there mine =
    rw (lookup-insert id j (set r) rows) (elim (Bool-cases (id == j)) [
      | inl e ↦
          let same : id ≡ j = (text_beq_iff id j).0 e in
          let found : lookup j rows ≡ some r = rw same at there in
          rw (found, e, amend_one, mine) refl
      | inr e ↦ elim (Option-cases (lookup j rows)) [
        | inl f ↦ rw (e, f, amend_one) refl
        | inr (q, f) ↦ rw (e, f, amend_one, e) refl
      ]
    ])

-- No row is the tenant's in such a state.
pub miss-amend :
    (tenant id : Text) (in_state : State → Bool) (set : Record → Record) (v : View) (j : Text)
    → ((r : Record) → v id ≡ some r → (r.tenant_id == tenant && in_state r.state) ≡ false)
    → v j ≡ amend tenant id in_state set v j
unfolding amend amend_one
miss-amend tenant id in_state set v j no_row = elim (Option-cases (v j)) [
  | inl f ↦ rw (f, amend_one) refl
  | inr (q, f) ↦ elim (Bool-cases (id == j)) [
    | inr e ↦ rw (f, e, amend_one) refl
    | inl e ↦
        let same : id ≡ j = (text_beq_iff id j).0 e in
        rw (f, e, amend_one, no_row q (rw same f)) refl
  ]
]

abbrev pub heard_trip : ℕ → Answer
heard_trip n = heard

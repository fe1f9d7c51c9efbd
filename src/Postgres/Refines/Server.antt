-- ===== src/Postgres/Refines/Server.antt =====
-- What the methods of internal/persistence/postgres.go make of one request.
use aegis_ai_platform.Prelude.{
  ℕ, ◌+◌, ℤ, Text, text_eq, some, lookup, insert, Bool, true, false, nat_beq, ltb, if◌then◌else◌,
  ◌≡◌, refl, ap, ◌⊎◌, inl, inr, arith, Bool-cases, Option-cases, String,
}
use aegis_ai_platform.Errors.{Result, ok, err, Failure, already_final}
use aegis_ai_platform.Action.{◌>>=◌, after, check}
use aegis_ai_platform.Request.{State, in_progress, cancelled, state_beq, transition, Record}
use aegis_ai_platform.Store.{CompletionParams, FailureParams, completed_record, failed_record}
use aegis_ai_platform.Sql.{
  Session, answer_with, round_trip, transaction, transact, conclude, commit, label,
}
use aegis_ai_platform.Postgres.{
  Tables, matches, update_request, expect_one, insert_outbox, set_attempt, succeeded, stopped,
}
use aegis_ai_platform.Postgres.Operations
use aegis_ai_platform.Postgres.Calls.{run_call}
use aegis_ai_platform.Postgres.Refines.{
  amend, put-amend, miss-amend, Change, transits, completes, fails, cancels, if_legal, effect, call,
  view, heard_trip,
}

-- An UPDATE changes one row or none.
Amends : Text → Text → (State → Bool) → (Record → Record) → Tables → Tables → Type 0
Amends tenant id in_state set t t' =
    (j : Text) → lookup j t'.requests ≡ amend tenant id in_state set (view t.requests) j

update_request-cases :
    (tenant id : Text) (in_state : State → Bool) (set : Record → Record) (t : Tables)
    → ((t' : Tables) × (update_request tenant id in_state set t ≡ (ok 1, t'))
        × Amends tenant id in_state set t t')
      ⊎ ((update_request tenant id in_state set t ≡ (ok 0, t)) × Amends tenant id in_state set t t)
unfolding update_request matches Amends
update_request-cases tenant id in_state set t = elim (Option-cases (lookup id t.requests)) [
  | inl e ↦ inr (
    rw (e, update_request) refl,
    λ j. miss-amend tenant id in_state set (view t.requests) j (λ r h. cc),
  )
  | inr (r, e) ↦ elim (Bool-cases (matches tenant in_state r)) [
    | inl m ↦ inl (
      record t { requests = insert id (set r) t.requests },
      rw (e, update_request, m) refl,
      λ j. put-amend tenant id in_state set t.requests r j e m,
    )
    | inr m ↦ inr (
      rw (e, update_request, m) refl,
      λ j.
          miss-amend tenant id in_state set (view t.requests) j
            λ q h. let same : r ≡ q = ground (arith, e, h) in rw (← same) m,
    )
  ]
]

-- A statement outside a transaction leaves what it makes of the tables, whatever its rows.
alone-tables :
    (message : String) (e : Failure) (statement : Tables → Result ℕ × Tables) (s : Session Tables)
    → ((label message (round_trip heard_trip statement) >>= λ rows. expect_one e rows) s).1.tables
      ≡ (statement s.tables).1
unfolding round_trip answer_with
alone-tables message e statement s = tested (statement s.tables).0
  where
    checked : (b : Bool) (s' : Session Tables) → (check b e s').1.tables ≡ s'.tables
    checked true s' = refl
    checked false s' = refl

    tested :
        (r : Result ℕ)
        → ((label message
                (λ _. (r, record { tables = (statement s.tables).1; trips = s.trips + 1 }))
              >>= λ rows. expect_one e rows)
            s).1.tables
          ≡ (statement s.tables).1
    tested (ok rows) = checked (nat_beq rows 1) _
    tested (err f) = refl

alone-Amends :
    (message : String) (e : Failure) (tenant id : Text) (in_state : State → Bool)
    (set : Record → Record) (s : Session Tables)
    → Amends tenant id in_state set s.tables
        ((label message (round_trip heard_trip (update_request tenant id in_state set)) >>= λ rows.
            expect_one e rows)
          s).1.tables
alone-Amends message e tenant id in_state set s =
    rw (alone-tables message e (update_request tenant id in_state set) s)
      (elim (update_request-cases tenant id in_state set s.tables) [
        | inl (t', h, a) ↦ rw h a
        | inr (h, a) ↦ rw h a
      ])

complete_request-Amends :
    (params : CompletionParams) (correlation_id : Text) (latency now : ℤ) (s : Session Tables)
    → Amends params.tenant_id params.request_id
        (λ st. state_beq st in_progress)
        (completed_record params now)
        s.tables
        (Operations.complete_request heard_trip params correlation_id latency now s).1.tables
unfolding Operations.complete_request transaction transact conclude commit round_trip answer_with
    set_attempt insert_outbox update_request lookup Amends
complete_request-Amends params correlation_id latency now s =
    elim (update_request-cases params.tenant_id params.request_id (λ st. state_beq st in_progress)
      (completed_record params now)
      (set_attempt params.request_id params.tenant_id params.attempt_number
        (λ a. record a {
          status = succeeded;
          latency_ms = latency;
          cost_micro_usd = params.cost_micro_usd;
          retryable = false;
          provider_request_id = params.provider_request_id;
          prompt_tokens = params.response.usage.prompt_tokens;
          completion_tokens = params.response.usage.completion_tokens;
          finished_at = some now;
        })
        s.tables).1) [ inl (t', h, a) ↦ rw h a | inr (h, a) ↦ rw h a ]

fail_attempt-Amends :
    (params : FailureParams) (correlation_id : Text) (latency now : ℤ) (s : Session Tables)
    → params.final ≡ true
    → Amends params.tenant_id params.request_id
        (λ st. state_beq st in_progress)
        (failed_record params now)
        s.tables
        (Operations.fail_attempt heard_trip params correlation_id latency now s).1.tables
unfolding Operations.fail_attempt Operations.fail_request transaction transact conclude commit
    round_trip answer_with set_attempt insert_outbox update_request lookup Amends
fail_attempt-Amends params correlation_id latency now s final =
    elim (Bool-cases (ltb 0 params.attempt_number)) [
      | inl some_attempt ↦
          elim (update_request-cases params.tenant_id params.request_id
            (λ st. state_beq st in_progress) (failed_record params now)
            (set_attempt params.request_id params.tenant_id params.attempt_number
              (λ a. record a {
                status = stopped;
                category = params.category;
                retryable = params.retryable;
                latency_ms = latency;
                finished_at = some now;
              })
              s.tables).1) [
                | inl (t', h, a) ↦ rw (final, some_attempt, h) a
                | inr (h, a) ↦ rw (final, some_attempt, h) a
              ]
      | inr no_attempt ↦
          elim (update_request-cases params.tenant_id params.request_id
            (λ st. state_beq st in_progress) (failed_record params now) s.tables) [
              | inl (t', h, a) ↦ rw (final, no_attempt, h) a
              | inr (h, a) ↦ rw (final, no_attempt, h) a
            ]
    ]

fail_attempt-requests :
    (params : FailureParams) (correlation_id : Text) (latency now : ℤ) (s : Session Tables)
    → params.final ≡ false
    → (Operations.fail_attempt heard_trip params correlation_id latency now s).1.tables.requests
      ≡ s.tables.requests
unfolding Operations.fail_attempt transaction transact conclude commit round_trip answer_with
    set_attempt
fail_attempt-requests params correlation_id latency now s final =
    elim (Bool-cases (ltb 0 params.attempt_number)) [
      | inl some_attempt ↦ rw (final, some_attempt) refl
      | inr no_attempt ↦ rw (final, no_attempt) refl
    ]

-- With every answer heard, a method that changes one request has the effect on them.
pub run_call-effect :
    (c : Change) (s : Session Tables) (j : Text)
    → lookup j (run_call heard_trip (call c) s).tables.requests
      ≡ effect c (view s.tables.requests) j
unfolding run_call effect Operations.transition_request Operations.cancel_request Amends
run_call-effect (transits tenant id from to now) s j = go (transition from to)
  where
    moved : Record → Record
    moved r = record r { state = to; updated_at = now }

    go :
        (legal : Result (Unit {0}))
        → lookup j
            (after legal
              (λ _.
                label "transition logical request"
                  (round_trip heard_trip (update_request tenant id (λ st. state_beq st from) moved))
                >>= λ rows. expect_one already_final rows)
              s).1.tables.requests
          ≡ if_legal legal
              (amend tenant id (λ st. state_beq st from) moved (view s.tables.requests))
              (view s.tables.requests)
              j
    go (err x) = refl
    go (ok _) =
        alone-Amends "transition logical request" already_final tenant id (λ st. state_beq st from)
          moved s j
run_call-effect (completes params correlation_id latency now) s j =
    complete_request-Amends params correlation_id latency now s j
run_call-effect (fails params correlation_id latency now) s j = go params.final refl
  where
    go :
        (b : Bool)
        → params.final ≡ b
        → lookup j
            (Operations.fail_attempt heard_trip params correlation_id latency now
              s).1.tables.requests
          ≡ (if b
                then amend params.tenant_id params.request_id
                    (λ st. state_beq st in_progress)
                    (failed_record params now)
                    (view s.tables.requests)
                else view s.tables.requests)
              j
    go true final = fail_attempt-Amends params correlation_id latency now s final j
    go false other = ap (lookup j) (fail_attempt-requests params correlation_id latency now s other)
run_call-effect (cancels tenant id now) s j =
    alone-Amends "cancel request" already_final tenant id Operations.is_cancellable
      (λ r. record r { state = cancelled; completed_at = some now; updated_at = now }) s j

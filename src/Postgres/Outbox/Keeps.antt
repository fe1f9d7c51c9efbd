-- ===== src/Postgres/Outbox/Keeps.antt =====
-- Every method of internal/persistence/postgres.go keeps the outbox and the requests in step.
use aegis_ai_platform.Prelude.{
  ℕ, ℤ, Text, text_eq, Bool, true, false, List, [], ◌∷◌, some, ltb, if◌then◌else◌, ◌≡◌, ◌≢◌, refl,
  ap, ◌∙◌, inl, inr, arith, String,
}
use aegis_ai_platform.Errors.{Result, ok, already_final, wrapped, Result-cases}
use aegis_ai_platform.Action.{◌>>=◌}
use aegis_ai_platform.Request.{
  State, validated, in_progress, completed, budget_rejected, state_beq, transition, Record,
}
use aegis_ai_platform.Store.{CompletionParams, FailureParams, completed_record, failed_record}
use aegis_ai_platform.Events.{
  Kind, request_completed, request_failed, usage_recorded, budget_exceeded,
}
use aegis_ai_platform.Sql.{Answer, Session, round_trip, label}
use aegis_ai_platform.Sql.Atomic.{
  Ensures, round_trip-Ensures, label-Ensures, >>=-Ensures, transaction-Keeps,
}
use aegis_ai_platform.Postgres.{Event, Tables, Value, AttemptRow, Db, insert_outbox, set_attempt}
use aegis_ai_platform.Postgres.Operations
use aegis_ai_platform.Postgres.Outbox.{
  IsPublished, Announces, announce_none, announce_completed, announce_failed, announce_rejected,
}
use aegis_ai_platform.Postgres.Outbox.Changes.{
  Adds, alone-Keeps, change-IsPublished, update_request-IsPublished,
}

-- The row that insertOutbox adds.
unfoldable pub event : Kind → Text → Text → Text → List (Text × Value) → ℤ → Event
event kind id tenant correlation_id payload now = record {
  kind = kind;
  aggregate_id = id;
  tenant_id = tenant;
  correlation_id = correlation_id;
  payload = payload;
  occurred_at = now;
}

pub insert_outbox-Adds :
    (answers : ℕ → Answer) (kind : Kind) (id tenant correlation_id : Text)
    (payload : List (Text × Value)) (now : ℤ)
    → Ensures
        (insert_outbox answers kind id tenant correlation_id payload now)
        (λ _ t t'. Adds (event kind id tenant correlation_id payload now ∷ []) t t')
unfolding insert_outbox Adds event
insert_outbox-Adds answers kind id tenant correlation_id payload now =
    label-Ensures "insert outbox event" (round_trip answers add) (λ _ t t'. t' ≡ (add t).1)
      (λ s a h. (round_trip-Ensures answers add s a h).1)
  where
    add : Tables → Result (Unit {0}) × Tables
    add t =
        (ok tt, record t { outbox = event kind id tenant correlation_id payload now ∷ t.outbox })

-- Two events.
both-Adds :
    (m n : Db (Unit {0})) (e e' : Event)
    → Ensures m (λ _ t t'. Adds (e ∷ []) t t')
    → Ensures n (λ _ t t'. Adds (e' ∷ []) t t')
    → Ensures (m >>= λ _. n) (λ _ t t'. Adds (e' ∷ e ∷ []) t t')
unfolding Adds
both-Adds m n e e' h k =
    >>=-Ensures m (λ _. n) (λ _ t t'. Adds (e ∷ []) t t') (λ _ t t'. Adds (e' ∷ e ∷ []) t t') h
      (λ _ s b r t first. k s b r ∙ ap (λ (q : Tables). record q { outbox = e' ∷ q.outbox }) first)

state_beq-eq : (s t : State) → state_beq s t ≡ true → s ≡ t
state_beq-eq s t h = ground arith

module _ (answers : ℕ → Answer) (tenant id : Text) where
  -- Not to COMPLETED or to BUDGET_REJECTED, which have methods of their own.
  pub transition_request-IsPublished :
      (from to : State) (now : ℤ) (s : Session Tables)
      → to ≢ completed
      → to ≢ budget_rejected
      → IsPublished s.tables
      → IsPublished (Operations.transition_request answers tenant id from to now s).1.tables
  unfolding Operations.transition_request transition
  transition_request-IsPublished from to now s a b v = elim (Result-cases (transition from to)) [
    | inr (x, e) ↦ rw (e, Operations.transition_request) v
    | inl (_, e) ↦
        rw (e, Operations.transition_request)
          (alone-Keeps IsPublished answers "transition logical request" already_final _ s v (
            update_request-IsPublished tenant id (λ st. state_beq st from) _ s.tables
              (λ r h. moved r (state_beq-eq r.state from h) e) v))
  ]
    where
      moved :
          (r : Record)
          → r.state ≡ from
          → transition from to ≡ ok tt
          → Announces id (some r) (record r { state = to; updated_at = now }) []
      moved r same e = announce_none id r _ (λ c. ground arith) (λ c. ground arith) a b

  pub cancel_request-IsPublished :
      (now : ℤ) (s : Session Tables)
      → IsPublished s.tables
      → IsPublished (Operations.cancel_request answers tenant id now s).1.tables
  unfolding Operations.cancel_request
  cancel_request-IsPublished now s v =
      alone-Keeps IsPublished answers "cancel request" already_final _ s v (
        update_request-IsPublished tenant id _ _ s.tables
          (λ r h. announce_none id r _ (λ c. ground arith) (λ c. ground arith) (λ c. cc) (λ c. cc))
          v)

  pub reject_budget-IsPublished :
      (correlation_id : Text) (requested now : ℤ) (s : Session Tables)
      → IsPublished s.tables
      → IsPublished
          (Operations.reject_budget answers tenant id correlation_id requested now s).1.tables
  unfolding Operations.reject_budget event
  reject_budget-IsPublished correlation_id requested now s v =
      transaction-Keeps IsPublished answers (wrapped "begin budget rejection") (λ e. e) _
        (change-IsPublished answers "reject request budget" already_final tenant id
          (λ st. state_beq st validated) _ _ _
          (insert_outbox-Adds answers budget_exceeded id tenant correlation_id _ now)
          (λ r h. announce_rejected id r _ _ (state_beq-eq r.state validated h) refl refl refl))
        s v

-- A step that keeps the outbox and the requests in step where it returns a result.
unfoldable pub Publishes : {A : Type 0} → Db A → Type 0
Publishes m = Ensures m (λ _ t t'. IsPublished t → IsPublished t')

pub then-Publishes :
    {A B : Type 0} (m : Db A) (f : A → Db B)
    → Publishes m
    → ((a : A) → Publishes (f a))
    → Publishes (m >>= f)
unfolding Publishes
then-Publishes m f h k =
    >>=-Ensures m f (λ _ t t'. IsPublished t → IsPublished t')
      (λ _ t t'. IsPublished t → IsPublished t') h (λ a s b r t kept v. k a s b r (kept v))

-- A statement that writes neither requests nor the outbox.
pub aside-Publishes :
    {A : Type 0} (answers : ℕ → Answer) (message : String) (statement : Tables → Result A × Tables)
    → ((t : Tables) → (statement t).1.requests ≡ t.requests)
    → ((t : Tables) → (statement t).1.outbox ≡ t.outbox)
    → Publishes (label message (round_trip answers statement))
unfolding Publishes
aside-Publishes answers message statement p q =
    label-Ensures message (round_trip answers statement) (λ _ t t'. IsPublished t → IsPublished t')
      λ s a h v.
        rw ((round_trip-Ensures answers statement s a h).1) (record {
          counted = λ k id tracked. rw (p s.tables, q s.tables) (v.counted k id tracked);
        })

pub pure-Publishes : {A : Type 0} (a : A) → Publishes (λ s. (ok a, s))
unfolding Publishes
pure-Publishes a s b h v = v

module _ (answers : ℕ → Answer) where
  set_attempt-Publishes :
      (message : String) (id tenant : Text) (number : ℕ) (set : AttemptRow → AttemptRow)
      → Publishes (label message (round_trip answers (set_attempt id tenant number set)))
  unfolding set_attempt
  set_attempt-Publishes message id tenant number set =
      aside-Publishes answers message (set_attempt id tenant number set) (λ t. refl) (λ t. refl)

  pub complete_request-IsPublished :
      (params : CompletionParams) (correlation_id : Text) (latency now : ℤ) (s : Session Tables)
      → IsPublished s.tables
      → IsPublished
          (Operations.complete_request answers params correlation_id latency now s).1.tables
  unfolding Operations.complete_request event Publishes
  complete_request-IsPublished params correlation_id latency now s v =
      transaction-Keeps IsPublished answers (wrapped "begin request completion")
        (wrapped "commit request completion") _
        (then-Publishes _ _ (set_attempt-Publishes "complete provider attempt" _ _ _ _) λ _.
          change-IsPublished answers "finalize logical request" already_final params.tenant_id
            params.request_id (λ st. state_beq st in_progress) (completed_record params now) _ _
            (both-Adds _ _ _ _
              (insert_outbox-Adds answers request_completed params.request_id params.tenant_id
                correlation_id (Operations.completion_payload params latency) now)
              (insert_outbox-Adds answers usage_recorded params.request_id params.tenant_id
                correlation_id (Operations.completion_payload params latency) now))
            (λ r h.
              announce_completed params.request_id r _ _ _ (state_beq-eq r.state in_progress h) refl
                refl refl refl refl))
        s v

  fail_request-Publishes :
      (params : FailureParams) (correlation_id : Text) (now : ℤ)
      → Publishes (Operations.fail_request answers params correlation_id now)
  unfolding Operations.fail_request event Publishes
  fail_request-Publishes params correlation_id now =
      change-IsPublished answers "fail logical request" already_final params.tenant_id
        params.request_id (λ st. state_beq st in_progress) (failed_record params now) _ _
        (insert_outbox-Adds answers request_failed params.request_id params.tenant_id correlation_id
          _ now)
        (λ r h.
          announce_failed params.request_id r _ _ (state_beq-eq r.state in_progress h) refl refl)

  choice-Publishes :
      {A : Type 0} (b : Bool) (m n : Db A)
      → Publishes m
      → Publishes n
      → Publishes (if b then m else n)
  choice-Publishes true m n h k = h
  choice-Publishes false m n h k = k

  pub fail_attempt-IsPublished :
      (params : FailureParams) (correlation_id : Text) (latency now : ℤ) (s : Session Tables)
      → IsPublished s.tables
      → IsPublished (Operations.fail_attempt answers params correlation_id latency now s).1.tables
  unfolding Operations.fail_attempt Publishes
  fail_attempt-IsPublished params correlation_id latency now s v =
      transaction-Keeps IsPublished answers (wrapped "begin attempt failure")
        (wrapped "commit attempt failure") _
        (then-Publishes _ _
          (choice-Publishes (ltb 0 params.attempt_number) _ _
            (set_attempt-Publishes "fail provider attempt" _ _ _ _) (pure-Publishes tt))
          λ _.
            choice-Publishes params.final _ _ (fail_request-Publishes params correlation_id now)
              (pure-Publishes tt))
        s v

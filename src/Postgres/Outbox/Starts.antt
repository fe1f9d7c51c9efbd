-- ===== src/Postgres/Outbox/Starts.antt =====
-- StartAttempt of internal/persistence/postgres.go writes the outbox with the row.
use aegis_ai_platform.Prelude.{
  ℕ, ℤ, Text, text_eq, Bool, true, false, List, nat_beq, ◌≡◌, refl, inl, inr, Bool-cases,
}
use aegis_ai_platform.Errors.{Result, Failure, not_found, wrapped}
use aegis_ai_platform.Action.{lift, check}
use aegis_ai_platform.Store.{AttemptParams}
use aegis_ai_platform.Events.{provider_selected}
use aegis_ai_platform.Sql.{Answer, Session}
use aegis_ai_platform.Sql.Atomic.{transaction-Keeps}
use aegis_ai_platform.Postgres.{Tables, Value, insert_outbox, has_attempt, has_pair, insert_attempt}
use aegis_ai_platform.Postgres.Operations
use aegis_ai_platform.Postgres.Outbox.{IsPublished, note-IsPublished}
use aegis_ai_platform.Postgres.Outbox.Changes.{Adds}
use aegis_ai_platform.Postgres.Outbox.Keeps.{
  event, insert_outbox-Adds, Publishes, then-Publishes, aside-Publishes,
}

pub check-Publishes : (b : Bool) (e : Failure) → Publishes (check b e)
unfolding Publishes
check-Publishes true e s b h v = v
check-Publishes false e s b h v = cc

pub lift-Publishes : {A : Type 0} (r : Result A) → Publishes (lift r)
unfolding Publishes
lift-Publishes r s b h v = v

insert_attempt-aside :
    (params : AttemptParams) (t : Tables)
    → ((insert_attempt params t).1.requests ≡ t.requests)
      × ((insert_attempt params t).1.outbox ≡ t.outbox)
unfolding insert_attempt
insert_attempt-aside params t =
    elim (Bool-cases (has_pair params.provider_name params.model t.routes)) [
      | inr e ↦ rw e (refl, refl)
      | inl e ↦ elim (Bool-cases (has_attempt params.request_id params.number t.attempts)) [
        | inl h ↦ rw (e, h) (refl, refl)
        | inr h ↦ rw (e, h) (refl, refl)
      ]
    ]

module _ (answers : ℕ → Answer) where
  selected-Publishes :
      (id tenant correlation_id : Text) (payload : List (Text × Value)) (now : ℤ)
      → Publishes (insert_outbox answers provider_selected id tenant correlation_id payload now)
  unfolding Publishes Adds event
  selected-Publishes id tenant correlation_id payload now s a h v =
      rw (insert_outbox-Adds answers provider_selected id tenant correlation_id payload now s a h) (
        note-IsPublished s.tables (event provider_selected id tenant correlation_id payload now)
          refl v)

  pub start_attempt-IsPublished :
      (params : AttemptParams) (now : ℤ) (s : Session Tables)
      → IsPublished s.tables
      → IsPublished (Operations.start_attempt answers params now s).1.tables
  unfolding Operations.start_attempt Publishes
  start_attempt-IsPublished params now s v =
      transaction-Keeps IsPublished answers (wrapped "begin provider attempt")
        (wrapped "commit provider attempt") _
        (then-Publishes _ _
          (aside-Publishes answers "start provider attempt" (insert_attempt params)
            (λ t. (insert_attempt-aside params t).0) (λ t. (insert_attempt-aside params t).1))
          λ rows.
            then-Publishes _ _ (check-Publishes (nat_beq rows 1) not_found) λ _.
              selected-Publishes params.request_id params.tenant_id params.correlation_id _ now)
        s v

-- ===== src/Audit.antt =====
-- internal/persistence/audit.go: an event of Kafka, applied with its marker in one transaction.
pub mod Once
mod Tests
use aegis_ai_platform.Prelude.{
  ℕ, ℤ, pos, String, Text, text, text_eq, Bool, true, false, ◌&&◌, ◌||◌, List, [], ◌∷◌, Option,
  none, some, lookup, insert, nat_beq, ◌==◌, if◌then◌else◌,
}
use aegis_ai_platform.Errors.{Result, ok, err, Failure, wrapped}
use aegis_ai_platform.Action.{Action, ◌>>=◌, ◌>>◌, pure, lift}
use aegis_ai_platform.Events.{Envelope, usage_recorded, kind_text, validate}
use aegis_ai_platform.Sql.{Answer, Session, round_trip, transaction, label}

-- What is decoded of the payload of a usage event.
pub record Usage : Type 0 where
  pub request_id : Text
  pub prompt_tokens : ℤ
  pub completion_tokens : ℤ
  pub cost_micro_usd : ℤ

-- Tables by their keys: the markers by consumer and event, audit_events by the event, and usage_ledger
-- by tenant and event.
pub record AuditTables : Type 0 where
  pub markers : List (Text × Text)
  pub audit : List (Text × Envelope)
  pub ledger : List ((Text × Text) × Usage)

unfoldable pub has_pair_of : Text → Text → List (Text × Text) → Bool
has_pair_of a b [] = false
has_pair_of a b ((c, d) ∷ pairs) = (c == a && d == b) || has_pair_of a b pairs

-- ON CONFLICT DO NOTHING: the number of rows.
unfoldable pub insert_marker : Text → Text → AuditTables → Result ℕ × AuditTables
unfolding has_pair_of
insert_marker consumer id t =
    if has_pair_of consumer id t.markers
    then (ok 0, t)
    else (ok 1, record t { markers = (consumer, id) ∷ t.markers })

unfoldable pub insert_audit : Envelope → AuditTables → Result (Unit {0}) × AuditTables
insert_audit event t = elim (lookup event.event_id t.audit) [
  | some e ↦ (ok tt, t)
  | none ↦ (ok tt, record t { audit = insert event.event_id event t.audit })
]

unfoldable pub has_entry : Text → Text → List ((Text × Text) × Usage) → Bool
has_entry tenant id [] = false
has_entry tenant id (((c, d), u) ∷ rows) = (c == tenant && d == id) || has_entry tenant id rows

unfoldable pub insert_usage : Envelope → Usage → AuditTables → Result (Unit {0}) × AuditTables
unfolding has_entry
insert_usage event usage t =
    if has_entry event.tenant_id event.event_id t.ledger
    then (ok tt, t)
    else (ok tt, record t { ledger = ((event.tenant_id, event.event_id), usage) ∷ t.ledger })

-- `decode` is json.Unmarshal of the payload.
module _ (answers : ℕ → Answer) (decode : Option Text → Result Usage) where
  unfoldable pub record_usage : Envelope → Action (Session AuditTables) (Unit {0})
  record_usage event =
      if event.event_type == kind_text usage_recorded
      then elim (decode event.payload) [
        | err e ↦ lift (err (wrapped "decode usage event" e))
        | ok usage ↦
            label "insert usage ledger entry" (round_trip answers (insert_usage event usage))
      ]
      else pure tt

  unfoldable pub apply_event : Envelope → ℕ → Action (Session AuditTables) Bool
  apply_event event rows = if nat_beq rows 0 then pure false else do
    label "insert immutable audit event" (round_trip answers (insert_audit event))
    record_usage event
    pure true

  -- ProcessKafkaEvent. An error of the COMMIT has one text here; the code has another one for the
  -- COMMIT after a duplicate.
  unfoldable pub process_kafka_event : Text → Envelope → Action (Session AuditTables) Bool
  process_kafka_event consumer event = do
    lift (validate event)
    transaction answers (wrapped "begin Kafka event processing")
        (wrapped "commit Kafka event processing")
        (label "insert processed event marker"
            (round_trip answers (insert_marker consumer event.event_id))
          >>= apply_event event)

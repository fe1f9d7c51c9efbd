-- ===== src/Audit/Tests.antt =====
-- Runs of internal/persistence/audit.go, and its theorem at a concrete input.
use aegis_ai_platform.Prelude.{
  ℕ, pos, Text, text, text_eq, text_beq, Bool, true, false, [], Option, some, lookup, contains, ◌≡◌,
  refl,
}
use aegis_ai_platform.Errors.{Result, ok}
use aegis_ai_platform.Events.{Envelope, validate, supported}
use aegis_ai_platform.Sql.{
  Answer, heard, Session, transaction, transact, conclude, commit, round_trip, answer_with,
}
use aegis_ai_platform.Audit.{
  Usage, AuditTables, insert_marker, insert_audit, insert_usage, has_pair_of, has_entry,
  record_usage, apply_event, process_kafka_event,
}
use aegis_ai_platform.Audit.Once.{process_kafka_event-repeated}

abbrev usage_event : Envelope
usage_event = record {
  event_id = text "e1";
  event_type = text "ai.usage.recorded.v1";
  version = pos 1;
  aggregate_id = text "r1";
  tenant_id = text "t1";
  timestamp = some (pos 5);
  correlation_id = text "c1";
  causation_id = [];
  payload = some (text "{}");
}

abbrev spent : Option Text → Result Usage
spent payload = ok (record {
  request_id = text "r1";
  prompt_tokens = pos 1;
  completion_tokens = pos 1;
  cost_micro_usd = pos 7;
})

abbrev always : ℕ → Answer
always n = heard

abbrev start : Session AuditTables
start = record { tables = record { markers = []; audit = []; ledger = [] }; trips = 0 }

first_time : (process_kafka_event always spent (text "audit") usage_event start).0 ≡ ok true
unfolding process_kafka_event validate supported transaction transact conclude commit round_trip
    answer_with insert_marker apply_event has_pair_of record_usage insert_audit insert_usage
    has_entry text_beq lookup contains
first_time = refl

process_kafka_event-repeated_example :
    ((process_kafka_event always spent
        (text "audit")
        usage_event
        (process_kafka_event always spent (text "audit") usage_event start).1).1.tables
      ≡ (process_kafka_event always spent (text "audit") usage_event start).1.tables)
    × ((c : Bool)
        → (process_kafka_event always spent
            (text "audit")
            usage_event
            (process_kafka_event always spent (text "audit") usage_event start).1).0
          ≡ ok c
        → c ≡ false)
process_kafka_event-repeated_example =
    process_kafka_event-repeated always spent (text "audit") usage_event start true first_time

-- ===== src/Postgres/Tests.antt =====
-- Runs of internal/persistence/postgres.go, and its theorems at concrete inputs.
use aegis_ai_platform.Prelude.{
  ℕ, pos, text, text_eq, text_beq, text_beq_iff, ◌≡◌, map, arith, refl, false, List, [], ◌∷◌, none,
  lookup, insert, nat_beq, if◌then◌else◌,
}
use aegis_ai_platform.Errors.{plain}
use aegis_ai_platform.Request.{
  received, validated, routing, in_progress, completed, ChatInput, Record, transition,
}
use aegis_ai_platform.Store.{Memory, empty, CreateRequestParams, CompletionParams, new_record}
use aegis_ai_platform.Store.Operations.{run_operations}
use aegis_ai_platform.Store.Lifecycle.{IsKeyed}
use aegis_ai_platform.Events.{usage_recorded}
use aegis_ai_platform.Sql.{
  Answer, heard, unheard, Session, transaction, transact, conclude, commit, round_trip, answer_with,
}
use aegis_ai_platform.Postgres.{
  Tables, insert_outbox, update_request, query_request, insert_request, insert_new, find_key,
  has_pair, matches, set_attempt, update_attempts,
}
use aegis_ai_platform.Postgres.Operations
use aegis_ai_platform.Postgres.Calls.{
  Call, creates, transitions, completes, cancels, run_call, run_calls, are_plain,
}
use aegis_ai_platform.Postgres.Outbox.{events_of, announced}
use aegis_ai_platform.Postgres.Outbox.Published.{published_once}
use aegis_ai_platform.Postgres.Refines.{Change, transits, call, operation, heard_trip}
use aegis_ai_platform.Postgres.Refines.Agree.{same_requests}

abbrev hello : ChatInput
hello = record {
  model = text "small";
  messages = record { role = text "user"; content = text "hi" } ∷ [];
  temperature = none;
  max_tokens = pos 64;
  stream = false;
}

abbrev params : CreateRequestParams
params = record {
  tenant_id = text "t1";
  api_key_id = text "k1";
  user_id = text "u1";
  idempotency_key = text "once";
  canonical_hash = 1 ∷ 2 ∷ [];
  input = hello;
  correlation_id = text "c1";
}

abbrev completion : CompletionParams
completion = record {
  request_id = text "r1";
  tenant_id = text "t1";
  attempt_number = 1;
  provider_request_id = text "p1";
  response = record {
    id = text "r1";
    object = text "chat.completion";
    created = pos 1;
    model = text "small";
    choices = [];
    usage = record { prompt_tokens = pos 1; completion_tokens = pos 1; total_tokens = pos 2 };
    aegis = record { request_id = text "r1"; status = completed };
  };
  cost_micro_usd = pos 7;
}

abbrev steps : List Call
steps =
    transitions (text "t1") (text "r1") received validated (pos 2)
    ∷ transitions (text "t1") (text "r1") validated routing (pos 3)
    ∷ transitions (text "t1") (text "r1") routing in_progress (pos 4)
    ∷ completes completion (text "c1") (pos 9) (pos 5)
    ∷ completes completion (text "c1") (pos 9) (pos 6)
    ∷ cancels (text "t1") (text "r1") (pos 7)
    ∷ []

-- The 15th round trip is the COMMIT of the first completion: it takes effect, and its answer is lost.
abbrev lost : ℕ → Answer
lost n = if nat_beq n 14 then unheard (plain "connection reset") else heard

abbrev start : Session Tables
start = record {
  tables = record {
    requests = [];
    attempts = [];
    outbox = [];
    enabled_models = (text "t1", text "small") ∷ [];
    routes = [];
  };
  trips = 0;
}

published_once_example :
    events_of usage_recorded
      (text "r1")
      (run_calls lost (creates params (text "r1") (pos 1) ∷ steps) start).tables.outbox
    ≡ announced usage_recorded (
        lookup
          (text "r1")
          (run_calls lost (creates params (text "r1") (pos 1) ∷ steps) start).tables.requests)
unfolding are_plain
published_once_example =
    published_once lost (creates params (text "r1") (pos 1) ∷ steps) start refl refl refl
      usage_recorded (text "r1") refl

completed_is_published :
    events_of usage_recorded
      (text "r1")
      (run_calls lost (creates params (text "r1") (pos 1) ∷ steps) start).tables.outbox
    ≡ 1
unfolding run_calls run_call events_of text_beq lookup insert Operations.create_or_get_request
    Operations.transition_request Operations.complete_request Operations.cancel_request transaction
    transact conclude commit round_trip answer_with insert_outbox update_request query_request
    insert_request insert_new find_key has_pair matches set_attempt update_attempts transition
    Operations.check_hash Operations.id_of
completed_is_published = refl

abbrev stored : Record
stored = new_record params (text "r1") (pos 1)

abbrev stocked : Session Tables
stocked = record start { tables = record start.tables { requests = (text "r1", stored) ∷ [] } }

abbrev one : Memory
one = record empty { requests = (text "r1", stored) ∷ [] }

one-IsKeyed : IsKeyed one
unfolding lookup text_beq
one-IsKeyed = record { keyed = λ id r h. ground (arith, text_beq_iff (text "r1") id) }

abbrev changes : List Change
changes =
    transits (text "t1") (text "r1") received validated (pos 2)
    ∷ Change.cancels (text "t1") (text "r1") (pos 3)
    ∷ Change.completes completion (text "c1") (pos 9) (pos 5)
    ∷ []

same_requests_example :
    lookup (text "r1") (run_calls heard_trip (map call changes) stocked).tables.requests
    ≡ lookup (text "r1") (run_operations (map operation changes) one).requests
same_requests_example = same_requests changes stocked one one-IsKeyed (λ i. refl) (text "r1")

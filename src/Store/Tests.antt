-- ===== src/Store/Tests.antt =====
-- Runs of internal/persistence/memory.go, and its theorems at concrete inputs.
use aegis_ai_platform.Prelude.{
  pos, text, ◌≡◌, refl, true, false, List, [], ◌∷◌, none, some, lookup, insert, text_eq, text_beq,
  text_beq_iff,
}
use aegis_ai_platform.Errors.{ok, err, not_found}
use aegis_ai_platform.Request.{received, validated, cancelled, ChatInput, Record}
use aegis_ai_platform.Store.{
  Memory, empty, CreateRequestParams, AttemptParams, CompletionParams, FailureParams, new_record,
  create_or_get_request, create, cancel_request, transition_request, get_request, start_attempt,
  complete_request, fail_attempt, owned, own, idempotency_key,
}
use aegis_ai_platform.Store.Operations.{
  Operation, creates, transitions, cancels, run_operation, run_operations,
}
use aegis_ai_platform.Store.Lifecycle.{Evolves, IsSameRequest, IsKeyed}
use aegis_ai_platform.Store.History.{run_operation-AllEvolve, run_operation-IsKeyed, final_is_kept}
use aegis_ai_platform.Store.Tenancy.{create_once}
use aegis_ai_platform.Store.Isolation.{foreign_not_found}

abbrev hello : ChatInput
hello = record {
  model = text "small";
  messages = record { role = text "user"; content = text "hi" } ∷ [];
  temperature = none;
  max_tokens = pos 64;
  stream = false;
}

abbrev params : CreateRequestParams
params = record {
  tenant_id = text "t1";
  api_key_id = text "k1";
  user_id = text "u1";
  idempotency_key = text "once";
  canonical_hash = 1 ∷ 2 ∷ [];
  input = hello;
  correlation_id = text "c1";
}

abbrev creation : Operation
creation = creates params (text "r1") (pos 10)

abbrev stored : Record
stored = new_record params (text "r1") (pos 10)

abbrev one : Memory
one = record empty {
  requests = (text "r1", stored) ∷ [];
  idempotency = (idempotency_key (text "t1") (text "once"), text "r1") ∷ [];
}

one_stored : run_operation creation empty ≡ one
unfolding run_operation create_or_get_request create lookup insert
one_stored = refl

empty-IsKeyed : IsKeyed empty
unfolding lookup
empty-IsKeyed = record { keyed = λ id r h. cc }

one-IsKeyed : IsKeyed one
unfolding lookup
one-IsKeyed = rw one_stored at (run_operation-IsKeyed creation empty empty-IsKeyed refl)

run_operation-AllEvolve_example : Evolves (text "r1") (lookup (text "r1") one.requests) (
    lookup
      (text "r1")
      (run_operation
        (transitions (text "t1") (text "r1") received validated (pos 11))
        one).requests)
run_operation-AllEvolve_example =
    run_operation-AllEvolve (transitions (text "t1") (text "r1") received validated (pos 11)) one
      one-IsKeyed tt (text "r1")

abbrev gone : Record
gone = record stored { state = cancelled; updated_at = pos 12; completed_at = some (pos 12) }

abbrev one_gone : Memory
one_gone = record one { requests = (text "r1", gone) ∷ [] }

cancelled_once : run_operation (cancels (text "t1") (text "r1") (pos 12)) one ≡ one_gone
unfolding run_operation cancel_request owned own lookup insert text_beq
cancelled_once = refl

one_gone-IsKeyed : IsKeyed one_gone
one_gone-IsKeyed =
    rw cancelled_once at
      (run_operation-IsKeyed (cancels (text "t1") (text "r1") (pos 12)) one one-IsKeyed tt)

abbrev late : List Operation
late =
    transitions (text "t1") (text "r1") received validated (pos 13)
    ∷ cancels (text "t1") (text "r1") (pos 14)
    ∷ []

final_is_kept_example : lookup (text "r1") (run_operations late one_gone).requests ≡ some gone
unfolding lookup text_beq
final_is_kept_example =
    final_is_kept late one_gone (text "r1") gone one_gone-IsKeyed (tt, (tt, tt)) refl refl

create_once_example :
    (r' : Record) × IsSameRequest stored r'
    × (lookup (text "r1") (run_operations (creation ∷ late) empty).requests ≡ some r')
    × (create_or_get_request params (text "r2") (pos 20) (run_operations (creation ∷ late) empty)
        ≡ (ok (r', false), run_operations (creation ∷ late) empty))
unfolding create_or_get_request create lookup text_beq
create_once_example =
    create_once params params (text "r1") (text "r2") (pos 10) (pos 20) empty stored late
      empty-IsKeyed (refl, (tt, (tt, tt))) refl refl

abbrev attempt : AttemptParams
attempt = record {
  request_id = text "r1";
  tenant_id = text "t2";
  number = 1;
  provider_name = text "mock";
  model = text "small";
  correlation_id = text "c2";
}

abbrev completion : CompletionParams
completion = record {
  request_id = text "r1";
  tenant_id = text "t2";
  attempt_number = 1;
  provider_request_id = text "p1";
  response = record {
    id = text "r1";
    object = text "chat.completion";
    created = pos 1;
    model = text "small";
    choices = [];
    usage = record { prompt_tokens = pos 1; completion_tokens = pos 1; total_tokens = pos 2 };
    aegis = record { request_id = text "r1"; status = cancelled };
  };
  cost_micro_usd = pos 1;
}

abbrev mishap : FailureParams
mishap = record {
  request_id = text "r1";
  tenant_id = text "t2";
  attempt_number = 1;
  category = text "timeout";
  retryable = true;
  partial = false;
  final = true;
}

foreign_not_found_example :
    (get_request (text "t2") (text "r1") one ≡ (err not_found, one))
    × (transition_request (text "t2") (text "r1") received validated (pos 11) one
        ≡ (err not_found, one))
    × (start_attempt attempt one ≡ (err not_found, one))
    × (complete_request completion (pos 11) one ≡ (err not_found, one))
    × (fail_attempt mishap (pos 11) one ≡ (err not_found, one))
    × (cancel_request (text "t2") (text "r1") (pos 11) one ≡ (err not_found, one))
unfolding lookup text_beq
foreign_not_found_example =
    foreign_not_found (text "t2") (text "r1") stored received validated (pos 11) attempt completion
      mishap one refl (λ e. cc ((text_beq_iff (text "t1") (text "t2")).1 e)) refl refl refl refl
      refl refl

-- ===== src/Events.antt =====
-- internal/events/event.go: the versioned facts that the services publish, and their validation.
use aegis_ai_platform.Prelude.{
  ℤ, pos, Text, text, text_eq, Bool, true, false, not, ◌||◌, List, [], ◌∷◌, Option, none, some,
  contains, ◌==◌, int_eq, map, if◌then◌else◌,
}
use aegis_ai_platform.Errors.{Result, ok, err, plain}

pub data Kind : Type 0 where
  request_accepted provider_selected request_completed request_failed usage_recorded : Kind
  budget_exceeded security_violation evaluation_complete evaluation_failed : Kind

abbrev pub kind_text : Kind → Text
kind_text request_accepted = text "ai.request.accepted.v1"
kind_text provider_selected = text "ai.provider.selected.v1"
kind_text request_completed = text "ai.request.completed.v1"
kind_text request_failed = text "ai.request.failed.v1"
kind_text usage_recorded = text "ai.usage.recorded.v1"
kind_text budget_exceeded = text "ai.budget.exceeded.v1"
kind_text security_violation = text "ai.security.violation.v1"
kind_text evaluation_complete = text "evaluation.completed.v1"
kind_text evaluation_failed = text "evaluation.failed.v1"

abbrev pub kinds : List Kind
kinds =
    request_accepted ∷ provider_selected ∷ request_completed ∷ request_failed ∷ usage_recorded
    ∷ budget_exceeded ∷ security_violation ∷ evaluation_complete ∷ evaluation_failed ∷ []

unfoldable pub supported : List Text
supported = map kind_text kinds

-- `timestamp` is none for the zero time. `payload` is none for text that is no JSON.
pub record Envelope : Type 0 where
  pub event_id : Text
  pub event_type : Text
  pub version : ℤ
  pub aggregate_id : Text
  pub tenant_id : Text
  pub timestamp : Option ℤ
  pub correlation_id : Text
  pub causation_id : Text
  pub payload : Option Text

abbrev is_none {ℓ} : {A : Type ℓ} → Option A → Bool
is_none none = true
is_none (some a) = false

unfoldable pub validate : Envelope → Result (Unit {0})
validate event =
    if event.event_id == []
      || event.aggregate_id == []
      || event.tenant_id == []
      || event.correlation_id == []
    then err (plain "event identifiers are required")
    else if not (contains supported event.event_type)
    then err (plain "unsupported event type")
    else if not (event.version == pos 1)
    then err (plain "unsupported event version")
    else if is_none event.timestamp || is_none event.payload
    then err (plain "event timestamp and valid payload are required")
    else ok tt

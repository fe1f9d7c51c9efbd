-- ===== src/Request.antt =====
-- internal/request/request.go: the logical request, its state machine, and the validation of input.
pub mod Graph
pub mod Validation
mod Tests
use aegis_ai_platform.Prelude.{
  ℕ, zero, suc, ◌+◌, ◌^◌, ℤ, pos, Text, text, len, trim_space, Bool, true, false, ◌||◌, not, List,
  [], ◌∷◌, Option, none, some, length, contains, ltb, nat_beq, ltb_ℤ, if◌then◌else◌, ◌==◌, text_eq,
}
use aegis_ai_platform.Errors.{
  Result, ok, err, Failure, plain, bad_message, invalid_transition, ◌>>=◌, ◌>>◌,
}

pub data State : Type 0 where
  received validated routing in_progress completed failed cancelled budget_rejected : State

abbrev pub state_text : State → Text
state_text received = text "RECEIVED"
state_text validated = text "VALIDATED"
state_text routing = text "ROUTING"
state_text in_progress = text "IN_PROGRESS"
state_text completed = text "COMPLETED"
state_text failed = text "FAILED"
state_text cancelled = text "CANCELLED"
state_text budget_rejected = text "BUDGET_REJECTED"

abbrev pub state_beq : State → State → Bool
state_beq received received = true
state_beq validated validated = true
state_beq routing routing = true
state_beq in_progress in_progress = true
state_beq completed completed = true
state_beq failed failed = true
state_beq cancelled cancelled = true
state_beq budget_rejected budget_rejected = true
state_beq _ _ = false

-- The inner maps of `allowedTransitions`; a state with no entry has the empty one.
unfoldable pub allowed_transitions : State → List State
allowed_transitions received = validated ∷ failed ∷ cancelled ∷ []
allowed_transitions validated = routing ∷ budget_rejected ∷ failed ∷ cancelled ∷ []
allowed_transitions routing = in_progress ∷ failed ∷ cancelled ∷ []
allowed_transitions in_progress = completed ∷ failed ∷ cancelled ∷ []
allowed_transitions _ = []

abbrev has_state : List State → State → Bool
has_state [] next = false
has_state (s ∷ states) next = state_beq s next || has_state states next

unfoldable pub can_transition : State → State → Bool
unfolding allowed_transitions
can_transition current next = has_state (allowed_transitions current) next

unfoldable pub transition : State → State → Result (Unit {0})
unfolding can_transition
transition current next =
    if not (can_transition current next)
    then err (invalid_transition (state_text current) (state_text next))
    else ok tt

pub record Message : Type 0 where
  pub role : Text
  pub content : Text

-- A finite float64 is an integer in units of 2^-1074, and decoded JSON has no other.
abbrev pub Float64 : Type 0
Float64 = ℤ

abbrev pub float_two : Float64
float_two = pos (2 ^ 1075)

-- `Metadata` is not read by the code that is modelled.
pub record ChatInput : Type 0 where
  pub model : Text
  pub messages : List Message
  pub temperature : Option Float64
  pub max_tokens : ℤ
  pub stream : Bool

unfoldable pub is_blank : Text → Bool
is_blank s = trim_space s == text ""

unfoldable pub roles : List Text
roles = text "system" ∷ text "user" ∷ text "assistant" ∷ text "tool" ∷ []

unfoldable pub validate_message : ℕ → Message → Result (Unit {0})
unfolding roles
validate_message index message =
    if not (contains roles message.role)
    then err (bad_message index "role is unsupported")
    else if is_blank message.content
    then err (bad_message index "content is required")
    else if ltb 65536 (len message.content)
    then err (bad_message index "content is too long")
    else ok tt

unfoldable pub validate_messages : ℕ → List Message → Result (Unit {0})
unfolding validate_message
validate_messages index [] = ok tt
validate_messages index (message ∷ messages) = do
  validate_message index message
  validate_messages (index + 1) messages

unfoldable pub validate_temperature : Option Float64 → Result (Unit {0})
validate_temperature none = ok tt
validate_temperature (some t) =
    if ltb_ℤ t (pos 0) || ltb_ℤ float_two t
    then err (plain "temperature must be between 0 and 2")
    else ok tt

unfoldable pub validate : ChatInput → Result (Unit {0})
unfolding validate_messages validate_temperature
validate input =
    if is_blank input.model
    then err (plain "model is required")
    else if ltb 128 (len input.model)
    then err (plain "model is too long")
    else if nat_beq (length input.messages) 0 || ltb 100 (length input.messages)
    then err (plain "messages must contain between 1 and 100 items")
    else do
      validate_messages 0 input.messages
      validate_temperature input.temperature
      if ltb_ℤ input.max_tokens (pos 0) || ltb_ℤ (pos 32768) input.max_tokens
          then err (plain "max_tokens must be between 0 and 32768")
          else ok tt

pub record Usage : Type 0 where
  pub prompt_tokens : ℤ
  pub completion_tokens : ℤ
  pub total_tokens : ℤ

pub record Choice : Type 0 where
  pub index : ℕ
  pub message : Message
  pub finish_reason : Text

pub record ResponseMeta : Type 0 where
  pub request_id : Text
  pub status : State

pub record ChatResponse : Type 0 where
  pub id : Text
  pub object : Text
  pub created : ℤ
  pub model : Text
  pub choices : List Choice
  pub usage : Usage
  pub aegis : ResponseMeta

-- Times are nanoseconds.
pub record Record : Type 0 where
  pub id : Text
  pub tenant_id : Text
  pub api_key_id : Text
  pub idempotency_key : Text
  pub canonical_hash : List ℕ
  pub model : Text
  pub state : State
  pub stream : Bool
  pub partial_streamed : Bool
  pub response : Option ChatResponse
  pub failure_category : Text
  pub correlation_id : Text
  pub created_at : ℤ
  pub updated_at : ℤ
  pub completed_at : Option ℤ
  pub prompt_tokens : ℤ
  pub completion_tokens : ℤ
  pub cost_micro_usd : ℤ

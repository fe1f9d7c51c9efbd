-- ===== src/Request/Validation.antt =====
-- What Validate of internal/request/request.go accepts.
use aegis_ai_platform.Prelude.{
  ℕ, ◌+◌, ◌≤◌, ◌<◌, pos, ◌≤ℤ◌, len, ◌≡◌, ◌↔◌, arith, true, false, List, [], ◌∷◌, All, length,
  Option, none, some, contains, text_eq,
}
use aegis_ai_platform.Errors.{ok}
use aegis_ai_platform.Request.{
  Message, ChatInput, Float64, float_two, roles, is_blank, validate, validate_message,
  validate_messages, validate_temperature,
}

pub record IsGood (message : Message) : Type 0 where
  pub known_role : contains roles message.role ≡ true
  pub has_content : is_blank message.content ≡ false
  pub fits : len message.content ≤ 65536

abbrev pub InRange : Option Float64 → Type 0
InRange none = Unit {0}
InRange (some t) = (pos 0 ≤ℤ t) × (t ≤ℤ float_two)

pub record IsAcceptable (input : ChatInput) : Type 0 where
  pub has_model : is_blank input.model ≡ false
  pub model_fits : len input.model ≤ 128
  pub has_messages : 0 < length input.messages
  pub messages_fit : length input.messages ≤ 100
  pub messages_good : All IsGood input.messages
  pub temperature_fits : InRange input.temperature
  pub max_tokens_natural : pos 0 ≤ℤ input.max_tokens
  pub max_tokens_fit : input.max_tokens ≤ℤ pos 32768

validate_message_iff : (i : ℕ) (m : Message) → (validate_message i m ≡ ok tt) ↔ IsGood m
unfolding validate_message
validate_message_iff i m = ground arith

validate_messages_iff :
    (i : ℕ) (ms : List Message) → (validate_messages i ms ≡ ok tt) ↔ All IsGood ms
unfolding validate_messages
validate_messages_iff i [] = ground arith
validate_messages_iff i (m ∷ ms) =
    ground (arith, validate_message_iff i m, validate_messages_iff (i + 1) ms)

validate_temperature_iff : (t : Option Float64) → (validate_temperature t ≡ ok tt) ↔ InRange t
unfolding validate_temperature
validate_temperature_iff none = ground arith
validate_temperature_iff (some t) = ground arith

-- Validate accepts exactly the inputs with a model name of at most 128 bytes that is not blank, 1 to
-- 100 messages each with a known role and content that is not blank and of at most 65536 bytes, no
-- temperature or one from 0 to 2, and a token limit from 0 to 32768.
pub validate_iff : (input : ChatInput) → (validate input ≡ ok tt) ↔ IsAcceptable input
unfolding validate
validate_iff input =
    ground
      (arith, validate_messages_iff 0 input.messages, validate_temperature_iff input.temperature)

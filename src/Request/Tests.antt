-- ===== src/Request/Tests.antt =====
-- Runs of internal/request/request.go, and its theorems at concrete inputs.
use aegis_ai_platform.Prelude.{
  ◌+◌, ◌≤◌, pos, text, text_beq, len, trim_space, ◌≡◌, refl, inr, arith, false, [], ◌∷◌, some,
  contains,
}
use aegis_ai_platform.Errors.{ok, err, bad_message}
use aegis_ai_platform.Request.{
  received, validated, routing, in_progress, completed, can_transition, transition, ChatInput,
  float_two, is_blank, validate, validate_messages, validate_temperature,
}
use aegis_ai_platform.Request.Graph.{Life, here, step, length_life, transition_iff, length_life-le}
use aegis_ai_platform.Request.Validation.{IsAcceptable, validate_iff}

abbrev hello : ChatInput
hello = record {
  model = text "small";
  messages = record { role = text "user"; content = text " hi" } ∷ [];
  temperature = some float_two;
  max_tokens = pos 64;
  stream = false;
}

abbrev odd_role : ChatInput
odd_role = record hello { messages = record { role = text "robot"; content = text "hi" } ∷ [] }

unknown_role : validate odd_role ≡ err (bad_message 0 "role is unsupported")
unfolding validate validate_messages is_blank trim_space text_beq len contains
unknown_role = refl

transition_iff_example : transition in_progress completed ≡ ok tt
transition_iff_example =
    (transition_iff in_progress completed).1 (omega arith, inr (inr (inr (inr (refl, refl)))))

abbrev served : Life received completed
unfolding transition can_transition
served =
    step {t = validated} refl
      (step {t = routing} refl (step {t = in_progress} refl (step refl here)))

length_life-le_example : length_life served + 0 ≤ 4
length_life-le_example = length_life-le served

validate_iff_example : IsAcceptable hello
unfolding validate validate_messages validate_temperature is_blank trim_space text_beq len contains
validate_iff_example = (validate_iff hello).0 refl

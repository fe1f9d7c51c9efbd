-- ===== src/Provider.antt =====
-- internal/provider/provider.go: what the gateway knows of a provider, its normalized failures and
-- their classification.
pub mod Classify
mod Tests
use aegis_ai_platform.Prelude.{
  ℕ, ◌+◌, ◌/◌, ℤ, pos, ◌+ℤ◌, Text, text, len, Bool, false, ◌&&◌, ◌||◌, not, List, [], ◌∷◌, Option,
  none, some, leb_ℤ, ltb_ℤ, ◌==◌, int_eq, if◌then◌else◌,
}
use aegis_ai_platform.Errors.{
  Failure, canceled, deadline_exceeded, network, provider_error, root, as_provider,
}
use aegis_ai_platform.Request.{Message, Usage, Float64}

pub record CompletionRequest : Type 0 where
  pub request_id : Text
  pub model : Text
  pub messages : List Message
  pub temperature : Option Float64
  pub max_tokens : ℤ

pub record Completion : Type 0 where
  pub provider_request_id : Text
  pub model : Text
  pub content : Text
  pub finish_reason : Text
  pub usage : Usage

pub record Chunk : Type 0 where
  pub content : Text
  pub finish_reason : Text

pub record Capabilities : Type 0 where
  pub models : List Text
  pub data_classifications : List Text

-- Name() and Capabilities() of the interface, which return the same at every call.
pub record Provider : Type 0 where
  pub name : Text
  pub capabilities : Capabilities

-- The rest of IsRetryable, for an error that is no *provider.Error.
unfoldable pub transport_retryable : Failure → Bool
transport_retryable canceled = false
transport_retryable deadline_exceeded = false
transport_retryable (network timeout) = timeout
transport_retryable _ = false

unfoldable pub is_retryable : Failure → Bool
unfolding transport_retryable root as_provider
is_retryable f = elim (as_provider f) [
  | some e ↦ e.retryable && not e.partial
  | none ↦ transport_retryable (root f)
]

status_category : ℤ → Text
status_category status =
    if status == pos 429
    then text "rate_limited"
    else if status == pos 401 || status == pos 403
    then text "provider_authentication"
    else if leb_ℤ (pos 400) status && ltb_ℤ status (pos 500)
    then text "invalid_provider_request"
    else text "upstream_error"

unfoldable pub http_error : Text → ℤ → Failure
unfolding status_category
http_error provider_name status = provider_error (record {
  provider = provider_name;
  category = status_category status;
  status = status;
  retryable = status == pos 408 || status == pos 429 || leb_ℤ (pos 500) status;
  partial = false;
})

-- The loop over the messages that sums their lengths.
unfoldable pub characters : List Message → ℕ
characters [] = 0
characters (m ∷ ms) = len m.content + characters ms

-- Four bytes to a token, rounded up.
unfoldable pub estimate : ℕ → ℕ
estimate bytes = (bytes + 3) / 4

unfoldable pub estimate_tokens : List Message → Text → Usage
unfolding characters estimate ◌+ℤ◌ len
estimate_tokens messages content =
    let prompt = pos (estimate (characters messages)) in
    let completion = pos (estimate (len content)) in
    record {
      prompt_tokens = prompt;
      completion_tokens = completion;
      total_tokens = prompt +ℤ completion;
    }

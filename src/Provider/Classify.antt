-- ===== src/Provider/Classify.antt =====
-- Which upstream answers internal/provider/provider.go has retried.
use aegis_ai_platform.Prelude.{ℤ, pos, ◌≤ℤ◌, Text, int_eq, int_beq_iff, ◌≡◌, ◌↔◌, ◌⊎◌, true, arith}
use aegis_ai_platform.Errors.{as_provider}
use aegis_ai_platform.Provider.{http_error, is_retryable}

-- The failure that HTTPError makes of a status is retried exactly if the status is 408, 429 or at
-- least 500.
pub is_retryable-http_error_iff :
    (name : Text) (status : ℤ)
    → (is_retryable (http_error name status) ≡ true)
      ↔ ((status ≡ pos 408) ⊎ (status ≡ pos 429) ⊎ (pos 500 ≤ℤ status))
unfolding is_retryable http_error as_provider
is_retryable-http_error_iff name status =
    ground (arith, int_beq_iff status (pos 408), int_beq_iff status (pos 429))

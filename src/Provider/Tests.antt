-- ===== src/Provider/Tests.antt =====
-- Runs of internal/provider/provider.go, and its theorem at a concrete input.
use aegis_ai_platform.Prelude.{pos, text, refl, ◌≡◌, inl, inr, true}
use aegis_ai_platform.Provider.{http_error, is_retryable}
use aegis_ai_platform.Provider.Classify.{is_retryable-http_error_iff}

is_retryable-http_error_iff_example : is_retryable (http_error (text "mock") (pos 429)) ≡ true
is_retryable-http_error_iff_example =
    (is_retryable-http_error_iff (text "mock") (pos 429)).1 (inr (inl refl))

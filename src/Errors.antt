-- ===== src/Errors.antt =====
-- Go's error values: the sentinels of the packages under internal/, internal/provider/provider.go's
-- Error, the errors of package context, and the chains that fmt.Errorf builds with %w.
use aegis_ai_platform.Prelude.{
  ℕ, ℤ, String, Text, ◌≡◌, refl, Bool, Option, none, some, ◌⊎◌, inl, inr,
}

-- provider.Error without its cause.
pub record ProviderError : Type 0 where
  pub provider : Text
  pub category : Text
  pub status : ℤ
  pub retryable : Bool
  pub partial : Bool

pub data Failure : Type 0 where
  -- errors.New, and fmt.Errorf with no %w, told apart by the message.
  plain : String → Failure
  -- "messages[%d]" and what follows.
  bad_message : ℕ → String → Failure
  invalid_transition : Text → Text → Failure
  rate_limited : Text → Failure
  -- persistence.
  not_found conflict already_final model_forbidden : Failure
  -- budget, routing.
  exceeded no_eligible_provider : Failure
  -- auth.
  invalid_key expired_key revoked_key scope_denied : Failure
  -- context.
  canceled deadline_exceeded : Failure
  -- A net.Error, with its Timeout().
  network : Bool → Failure
  -- A run-time panic.
  panicked : String → Failure
  provider_error : ProviderError → Failure
  -- provider.Error with its cause.
  provider_cause : ProviderError → Failure → Failure
  -- fmt.Errorf("...: %w").
  wrapped : String → Failure → Failure

-- What a chain of Unwrap ends in. A sentinel unwraps to nothing, so errors.Is asks for the root.
unfoldable pub root : Failure → Failure
root (provider_cause e f) = root f
root (wrapped m f) = root f
root f = f

-- errors.As into *provider.Error.
unfoldable pub as_provider : Failure → Option ProviderError
as_provider (provider_error e) = some e
as_provider (provider_cause e f) = some e
as_provider (wrapped m f) = as_provider f
as_provider f = none

pub data Result {ℓ} (A : Type ℓ) : Type ℓ where
  ok : A → Result A
  err : Failure → Result A

infixl 5 ◌>>=◌ ◌>>◌
abbrev pub ◌>>=◌ {ℓ κ} : {A : Type ℓ} {B : Type κ} → Result A → (A → Result B) → Result B
ok value >>= next = next value
err failure >>= next = err failure

abbrev pub ◌>>◌ {ℓ} : {B : Type ℓ} → Result (Unit {0}) → Result B → Result B
first >> second = first >>= λ done. second

pub Result-cases {ℓ} :
    {A : Type ℓ} (r : Result A) → ((a : A) × (r ≡ ok a)) ⊎ ((e : Failure) × (r ≡ err e))
Result-cases (ok a) = inl (a, refl)
Result-cases (err e) = inr (e, refl)

pub >>=-eq-ok {ℓ κ} :
    {A : Type ℓ} {B : Type κ} (first : Result A) (next : A → Result B) {result : B}
    → (first >>= next) ≡ ok result
    → (value : A) × (first ≡ ok value) × (next value ≡ ok result)
>>=-eq-ok (ok value) next run = (value, refl, run)
>>=-eq-ok (err failure) next run = cc

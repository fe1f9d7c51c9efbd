-- ===== src/Store/Isolation.antt =====
-- Tenants in internal/persistence/memory.go do not reach one another's requests.
use aegis_ai_platform.Prelude.{
  ℤ, Text, some, lookup, text_eq, text_beq_iff, ◌==◌, ◌≡◌, ◌≢◌, inl, inr, Bool-cases,
}
use aegis_ai_platform.Errors.{err, not_found}
use aegis_ai_platform.Request.{State, Record}
use aegis_ai_platform.Store.{
  Memory, own, AttemptParams, CompletionParams, FailureParams, get_request, transition_request,
  start_attempt, complete_request, fail_attempt, cancel_request,
}

own-foreign :
    (tenant : Text) (r : Record) → r.tenant_id ≢ tenant → own tenant (some r) ≡ err not_found
unfolding own
own-foreign tenant r other = elim (Bool-cases (r.tenant_id == tenant)) [
  | inl e ↦ absurd (other ((text_beq_iff r.tenant_id tenant).0 e))
  | inr e ↦ rw e
]

-- To another tenant a stored request does not exist: reading it, moving it, starting, completing or
-- failing an attempt of it and cancelling it all report that it was not found and leave the store as
-- it was.
pub foreign_not_found :
    (tenant id : Text) (r : Record) (from to : State) (clock : ℤ) (attempt : AttemptParams)
    (completion : CompletionParams) (failure : FailureParams) (m : Memory)
    → lookup id m.requests ≡ some r
    → r.tenant_id ≢ tenant
    → attempt.tenant_id ≡ tenant
    → attempt.request_id ≡ id
    → completion.tenant_id ≡ tenant
    → completion.request_id ≡ id
    → failure.tenant_id ≡ tenant
    → failure.request_id ≡ id
    → (get_request tenant id m ≡ (err not_found, m))
      × (transition_request tenant id from to clock m ≡ (err not_found, m))
      × (start_attempt attempt m ≡ (err not_found, m))
      × (complete_request completion clock m ≡ (err not_found, m))
      × (fail_attempt failure clock m ≡ (err not_found, m))
      × (cancel_request tenant id clock m ≡ (err not_found, m))
unfolding get_request transition_request start_attempt complete_request fail_attempt cancel_request
foreign_not_found tenant id r from to clock attempt completion failure m h other at ai ct ci ft fi =
    let denied = own-foreign tenant r other in
    (
      rw (h, denied),
      rw (h, denied),
      rw (at, ai, h, denied),
      rw (ct, ci, h, denied),
      rw (ft, fi, h, denied),
      rw (h, denied),
    )

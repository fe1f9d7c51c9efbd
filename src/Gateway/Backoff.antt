-- ===== src/Gateway/Backoff.antt =====
-- How long `waitBackoff` of internal/gateway/service.go waits.
use aegis_ai_platform.Prelude.{
  ℕ, ◌+◌, ◌-◌, ◌*◌, ◌^◌, ◌/◌, ◌≤◌, ◌<◌, pos, ◌≤ℤ◌, ◌<ℤ◌, ◌+ℤ◌, ◌*ℤ◌, max_ℤ, min, quo, int64, ◌≡◌,
  arith,
}
use aegis_ai_platform.Gateway.{shifted, backoff}

shifted-exact :
    (initial attempt : ℕ)
    → initial * 2 ^ (attempt - 1) < 9223372036854775808
    → shifted (pos initial) attempt ≡ pos (initial * 2 ^ (attempt - 1))
unfolding shifted ◌*ℤ◌ int64
shifted-exact initial attempt h = ground arith

-- Where doubling the initial delay once for each earlier attempt does not overflow, the wait before
-- the next attempt is at least half of the doubled delay, cut off at the maximum, and at most all
-- of it, whatever the random number; for a delay of at least two nanoseconds.
pub backoff-le :
    (initial maximum attempt random : ℕ)
    → initial * 2 ^ (attempt - 1) < 9223372036854775808
    → 2 ≤ min (initial * 2 ^ (attempt - 1)) maximum
    → let delay = min (initial * 2 ^ (attempt - 1)) maximum in
      (pos (delay / 2) ≤ℤ backoff (pos initial) (pos maximum) attempt random)
      × (backoff (pos initial) (pos maximum) attempt random <ℤ pos (delay / 2 + delay / 2))
unfolding backoff ◌+ℤ◌ quo max_ℤ
backoff-le initial maximum attempt random h big =
    rw (shifted-exact initial attempt h) (ground arith)

-- ===== src/Breaker.antt =====
-- internal/circuitbreaker/breaker.go: a closed, open or half-open circuit breaker. Each method holds
-- the mutex for its whole body, so it is one step from a breaker to the next. Times and durations
-- are nanoseconds, as exact integers: `Sub` saturates only at differences of 292 years.
pub mod Invariant
pub mod Probes
pub mod Window
mod Tests
use aegis_ai_platform.Prelude.{
  ℕ, suc, ◌+◌, ◌-◌, ℤ, pos, ◌-ℤ◌, Bool, true, false, ◌&&◌, List, [], ◌∷◌, ◌++◌, length, keep, ltb,
  leb, ltb_ℤ, leb_ℤ, if◌then◌else◌,
}

pub data State : Type 0 where
  closed opened half_open : State

pub record Config : Type 0 where
  pub failure_threshold : ℤ
  pub window : ℤ
  pub open_duration : ℤ
  pub half_open_probes : ℤ

pub record Breaker : Type 0 where
  pub config : Config
  pub open config use *
  pub state : State
  pub failures : List ℤ
  pub opened_at : ℤ
  pub half_open_active : ℕ

abbrev or_default : ℤ → ℤ → ℤ
or_default value default = if leb_ℤ value (pos 0) then default else value

unfoldable pub new : Config → Breaker
new config = record {
  config = record {
    failure_threshold = or_default config.failure_threshold (pos 5);
    window = or_default config.window (pos 30_000_000_000);
    open_duration = or_default config.open_duration (pos 15_000_000_000);
    half_open_probes = or_default config.half_open_probes (pos 1);
  };
  state = closed;
  failures = [];
  opened_at = pos 0;
  half_open_active = 0;
}

abbrev pub is_open : State → Bool
is_open opened = true
is_open _ = false

abbrev pub is_half_open : State → Bool
is_half_open half_open = true
is_half_open _ = false

-- now.Sub(openedAt) >= OpenDuration.
unfoldable pub has_cooled : Breaker → ℤ → Bool
unfolding ◌-ℤ◌
has_cooled b now = leb_ℤ b.open_duration (now -ℤ b.opened_at)

open_at : Breaker → ℤ → Breaker
open_at b now = record b { state = opened; opened_at = now; half_open_active = 0 }

-- The first `if` of Allow.
unfoldable pub cool : Breaker → ℤ → Breaker
cool b now =
    if is_open b.state && has_cooled b now
    then record b { state = half_open; half_open_active = 0 }
    else b

-- The `switch` of Allow.
unfoldable pub admit : State → Breaker → Breaker × Bool
admit closed b = (b, true)
admit half_open b =
    if leb_ℤ b.half_open_probes (pos b.half_open_active)
    then (b, false)
    else (record b { half_open_active = b.half_open_active + 1 }, true)
admit opened b = (b, false)

unfoldable pub allow : Breaker → ℤ → Breaker × Bool
unfolding cool admit
allow b now = let c = cool b now in admit c.state c

unfoldable pub success : Breaker → Breaker
success b = record b { state = closed; failures = []; half_open_active = 0 }

-- The failures after the cutoff.
unfoldable pub retained : Breaker → ℤ → List ℤ
unfolding ◌-ℤ◌ keep
retained b now = keep (ltb_ℤ (now -ℤ b.window)) b.failures

unfoldable pub failure : Breaker → ℤ → Breaker
unfolding open_at
failure b now =
    let counted = record b { failures = retained b now ++ now ∷ [] } in
    if is_half_open b.state
    then open_at b now
    else if leb_ℤ b.failure_threshold (pos (length counted.failures))
    then open_at counted now
    else counted

unfoldable pub release : Breaker → Breaker
release b =
    if is_half_open b.state && ltb 0 b.half_open_active
    then record b { half_open_active = b.half_open_active - 1 }
    else b

unfoldable pub state_at : Breaker → ℤ → State
state_at b now = if is_open b.state && has_cooled b now then half_open else b.state

-- What the callers of a breaker do to it, in some order.
pub data Call : Type 0 where
  allows fails : ℤ → Call
  succeeds releases : Call

unfoldable pub run_call : Breaker → Call → Breaker
unfolding allow success failure release
run_call b (allows now) = (allow b now).0
run_call b (fails now) = failure b now
run_call b succeeds = success b
run_call b releases = release b

unfoldable pub run : Breaker → List Call → Breaker
unfolding run_call
run b [] = b
run b (c ∷ cs) = run (run_call b c) cs

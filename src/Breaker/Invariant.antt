-- ===== src/Breaker/Invariant.antt =====
-- What holds of a breaker of internal/circuitbreaker/breaker.go between two calls.
use aegis_ai_platform.Prelude.{ℤ, pos, ◌≤ℤ◌, ◌<ℤ◌, length, ◌≡◌, List, [], ◌∷◌, arith}
use aegis_ai_platform.Breaker.{
  closed, opened, Config, Breaker, new, allow, failure, Call, allows, fails, succeeds, releases,
  run_call, run,
}

pub record IsValid (b : Breaker) : Type 0 where
  pub threshold_pos : pos 0 <ℤ b.failure_threshold
  pub window_pos : pos 0 <ℤ b.window
  pub open_duration_pos : pos 0 <ℤ b.open_duration
  pub probes_pos : pos 0 <ℤ b.half_open_probes
  pub closed_below : b.state ≡ closed → pos (length b.failures) <ℤ b.failure_threshold
  pub closed_idle : b.state ≡ closed → b.half_open_active ≡ 0
  pub open_idle : b.state ≡ opened → b.half_open_active ≡ 0
  pub probes_bounded : pos b.half_open_active ≤ℤ b.half_open_probes

new-IsValid : (c : Config) → IsValid (new c)
unfolding new
new-IsValid c = ground arith

allow-IsValid : (b : Breaker) (now : ℤ) → IsValid b → IsValid (allow b now).0
unfolding allow
allow-IsValid b now v = ground arith

failure-IsValid : (b : Breaker) (now : ℤ) → IsValid b → IsValid (failure b now)
unfolding failure
failure-IsValid b now v = ground arith

-- Every call keeps the settings positive, the failures of a closed breaker below the threshold, the
-- probes of a half-open one within its limit, and leaves no probe counted in the other states.
pub run_call-IsValid : (b : Breaker) (c : Call) → IsValid b → IsValid (run_call b c)
unfolding run_call
run_call-IsValid b (allows now) v = allow-IsValid b now v
run_call-IsValid b (fails now) v = failure-IsValid b now v
run_call-IsValid b succeeds v = ground arith
run_call-IsValid b releases v = ground arith

run-IsValid : (b : Breaker) (cs : List Call) → IsValid b → IsValid (run b cs)
unfolding run
run-IsValid b [] v = v
run-IsValid b (c ∷ cs) v = run-IsValid (run_call b c) cs (run_call-IsValid b c v)

-- After any calls, in any order and at any times, a breaker made from any settings has positive
-- settings, fewer failures than its threshold while it is closed, no more probes than its limit,
-- and no probe counted unless it is half-open.
pub run-new-IsValid : (c : Config) (cs : List Call) → IsValid (run (new c) cs)
run-new-IsValid c cs = run-IsValid (new c) cs (new-IsValid c)

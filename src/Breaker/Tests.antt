-- ===== src/Breaker/Tests.antt =====
-- Runs of internal/circuitbreaker/breaker.go, and its theorems at concrete inputs.
use aegis_ai_platform.Prelude.{pos, ◌+ℤ◌, ◌≡◌, refl, [], ◌∷◌, arith, true, inr}
use aegis_ai_platform.Breaker.{
  closed, opened, Config, Breaker, new, allow, success, failure, state_at, allows, fails, run,
  run_call, cool, has_cooled, retained,
}
use aegis_ai_platform.Breaker.Invariant.{IsValid, run_call-IsValid, run-new-IsValid}
use aegis_ai_platform.Breaker.Probes.{granted, allow_iff, probes_granted, hot_refuses}
use aegis_ai_platform.Breaker.Window.{fail_all, burst_opens_iff, sparse_stays_closed}

abbrev settings : Config
settings = record {
  failure_threshold = pos 2;
  window = pos 60;
  open_duration = pos 10;
  half_open_probes = pos 1;
}

abbrev fresh : Breaker
fresh = record {
  config = settings;
  state = closed;
  failures = [];
  opened_at = pos 0;
  half_open_active = 0;
}

abbrev tripped : Breaker
tripped = record fresh { state = opened; failures = pos 100 ∷ pos 101 ∷ []; opened_at = pos 101 }

new-fresh : new settings ≡ fresh
unfolding new
new-fresh = refl

two_failures : run fresh (fails (pos 100) ∷ fails (pos 101) ∷ []) ≡ tripped
unfolding run retained
two_failures = refl

fresh-IsValid : IsValid fresh
fresh-IsValid = ground arith

tripped-IsValid : IsValid tripped
tripped-IsValid = ground arith

run_call-IsValid_example : IsValid (run_call tripped (allows (pos 112)))
run_call-IsValid_example = run_call-IsValid tripped (allows (pos 112)) tripped-IsValid

run-new-IsValid_example : IsValid (run (new settings) (fails (pos 100) ∷ allows (pos 101) ∷ []))
run-new-IsValid_example = run-new-IsValid settings (fails (pos 100) ∷ allows (pos 101) ∷ [])

allow_iff_example : (allow tripped (pos 112)).1 ≡ true
unfolding cool state_at has_cooled allow
allow_iff_example = (allow_iff tripped (pos 112)).1 (inr (refl, omega arith, refl))

probes_granted_example : granted tripped (pos 112 ∷ pos 112 ∷ pos 113 ∷ []) ≡ 1
probes_granted_example =
    probes_granted tripped (pos 112) (pos 112 ∷ pos 113 ∷ []) tripped-IsValid refl
      (unfold has_cooled in refl)

-- The failure at 100 is the second within the window.
abbrev failing : Breaker
failing = record fresh { failures = pos 95 ∷ [] }

hot_refuses_example :
    (granted (failure failing (pos 100)) (pos 103 ∷ pos 109 ∷ []) ≡ 0)
    × (granted (failure failing (pos 100)) (pos 103 ∷ pos 109 ∷ pos 110 ∷ []) ≡ 1)
unfolding retained
hot_refuses_example =
    hot_refuses failing (pos 100) (pos 103 ∷ pos 109 ∷ []) (pos 110) (omega arith) (λ e. cc)
      (unfold failure in refl) (unfold ◌+ℤ◌ in (omega arith, (omega arith, tt)))
      (unfold ◌+ℤ◌ in omega arith)

burst_opens_iff_example : (fail_all (success tripped) (pos 200 ∷ pos 259 ∷ [])).state ≡ opened
burst_opens_iff_example =
    (burst_opens_iff tripped (pos 200) (pos 200 ∷ pos 259 ∷ []) tripped-IsValid
        (unfold ◌+ℤ◌ in omega arith)).1
      (omega arith)

sparse_stays_closed_example :
    (fail_all (success tripped) (pos 200 ∷ pos 260 ∷ pos 320 ∷ [])).state ≡ closed
sparse_stays_closed_example =
    sparse_stays_closed tripped (pos 100) (pos 200 ∷ pos 260 ∷ pos 320 ∷ []) (omega arith)
      (unfold ◌+ℤ◌ in omega arith)

-- ===== src/Budget/Tests.antt =====
-- Runs of internal/budget/budget.go, and its theorems at concrete inputs.
use aegis_ai_platform.Prelude.{pos, ◌+ℤ◌, ◌≡◌, refl, ◌≤ℤ◌, inr, arith}
use aegis_ai_platform.Errors.{ok, err, exceeded}
use aegis_ai_platform.Budget.{cost_micro_usd, can_reserve, any_negative, over_limit}
use aegis_ai_platform.Budget.Cost.{IsCeiling, cost_micro_usd_iff, cost_mono}
use aegis_ai_platform.Budget.Reserve.{can_reserve_iff}

-- Half a micro-USD is charged as one.
cost_half : cost_micro_usd (pos 1) (pos 0) (pos 500000) (pos 0) ≡ ok (pos 1)
unfolding cost_micro_usd
cost_half = refl

cost_whole : cost_micro_usd (pos 1) (pos 2) (pos 1000000) (pos 2000000) ≡ ok (pos 5)
unfolding cost_micro_usd
cost_whole = refl

cost_micro_usd_iff_example : IsCeiling 500000 (pos 1)
cost_micro_usd_iff_example =
    ((cost_micro_usd_iff (pos 1) (pos 0) (pos 500000) (pos 0) (pos 1)).0 cost_half).1

cost_mono_example : pos 1 ≤ℤ pos 5
cost_mono_example =
    cost_mono (pos 1) (pos 0) (pos 500000) (pos 0) (pos 1) (pos 1) (pos 2) (pos 1000000)
      (pos 2000000) (pos 5) cost_half cost_whole (omega arith) (omega arith) (omega arith)
      (omega arith)

can_reserve_iff_example : can_reserve (pos 10) (pos 3) (pos 3) (pos 4) ≡ ok tt
unfolding ◌+ℤ◌
can_reserve_iff_example =
    (can_reserve_iff (pos 10) (pos 3) (pos 3) (pos 4) (omega arith)).1 (inr (omega arith))

can_reserve_over : can_reserve (pos 10) (pos 3) (pos 3) (pos 5) ≡ err exceeded
unfolding can_reserve any_negative over_limit
can_reserve_over = refl

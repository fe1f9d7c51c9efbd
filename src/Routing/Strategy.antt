-- ===== src/Routing/Strategy.antt =====
-- The strategies of internal/routing/router.go.

-- Any other text falls under the `default` of the switch, as weighted round robin does.
pub data Strategy : Type 0 where
  weighted_round_robin least_outstanding least_latency priority_fallback : Strategy

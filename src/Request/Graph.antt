-- ===== src/Request/Graph.antt =====
-- The life of a request under Transition of internal/request/request.go.
use aegis_ai_platform.Prelude.{ℕ, ◌+◌, ◌≤◌, ◌<◌, ◌≡◌, ◌↔◌, ◌⊎◌, arith}
use aegis_ai_platform.Errors.{ok}
use aegis_ai_platform.Request.{
  State, received, validated, routing, in_progress, completed, failed, cancelled, budget_rejected,
  transition,
}

-- How far a request has come.
abbrev pub rank : State → ℕ
rank received = 0
rank validated = 1
rank routing = 2
rank in_progress = 3
rank _ = 4

-- A state that no request leaves.
abbrev pub IsFinal : State → Type 0
IsFinal s = rank s ≡ 4

-- The transitions of one request, in order.
pub data Life : State → State → Type 0 where
  here : {s : State} → Life s s
  step : {s t u : State} → transition s t ≡ ok tt → Life t u → Life s u

-- The state machine runs one way: it goes one stage on, or jumps to a final state, and no final
-- state is left.
pub transition_iff :
    (s t : State)
    → (transition s t ≡ ok tt) ↔ (
        (rank s < 4)
        × ((t ≡ failed)
            ⊎ (t ≡ cancelled)
            ⊎ ((rank t ≡ rank s + 1) × (rank t < 4))
            ⊎ ((s ≡ validated) × (t ≡ budget_rejected))
            ⊎ ((s ≡ in_progress) × (t ≡ completed))))
unfolding transition
transition_iff s t = ground arith

pub transition-rank : (s t : State) → transition s t ≡ ok tt → rank s < rank t
unfolding transition
transition-rank s t h = ground arith

pub length_life : {s t : State} → Life s t → ℕ
length_life here = 0
length_life (step h p) = length_life p + 1

-- Along any sequence of transitions the rank of the state grows at least by their number, so no
-- request takes more than four.
pub length_life-le : {s t : State} (p : Life s t) → length_life p + rank s ≤ rank t
unfolding length_life
length_life-le here = omega arith
length_life-le (step {s} {t} h p) = omega (arith, length_life-le p, transition-rank s t h)

-- ===== src/Routing/Rotation.antt =====
-- Weighted round robin in internal/routing/router.go.
use aegis_ai_platform.Prelude.{
  ap, ℕ, zero, suc, ◌+◌, ◌-◌, ◌%◌, ◌≤◌, ◌<◌, pos, pos_part, ◌<ℤ◌, List, [], ◌∷◌, ◌++◌, ◌≡◌, ◌∙◌,
  arith, All, length, rem, int64, int64_id, ◌-ℤ◌, ◌+ℤ◌, ℤ, false, take, drop,
}
use aegis_ai_platform.Routing.Order.{
  Candidate, pick, total_weight, rotate, position, order, next_sequence, divides_by_zero,
}
use aegis_ai_platform.Routing.Strategy.{weighted_round_robin}

-- Weights are positive once a router is made.
abbrev pub IsPositive : List Candidate → Type 0
IsPositive cs = All (λ c. pos 0 <ℤ c.1.weight) cs

-- The weight of the first n candidates.
unfoldable pub weight_before : ℕ → List Candidate → ℕ
weight_before zero cs = 0
weight_before (suc n) [] = 0
weight_before (suc n) (c ∷ cs) = pos_part c.1.weight + weight_before n cs

step-natural :
    (p : ℕ) (weight : ℤ)
    → p < 9223372036854775808
    → pos 0 <ℤ weight
    → pos_part weight < 9223372036854775808
    → int64 (pos p -ℤ weight) ≡ pos p -ℤ weight
unfolding ◌-ℤ◌
step-natural p weight fits w small = int64_id (pos p -ℤ weight) (ground arith)

pick-index :
    (p i n : ℕ) (cs : List Candidate)
    → IsPositive cs
    → n < length cs
    → p < 9223372036854775808
    → weight_before (length cs) cs < 9223372036854775808
    → weight_before n cs ≤ p
    → p < weight_before (suc n) cs
    → pick (pos p) i cs ≡ i + n
unfolding pick weight_before ◌-ℤ◌
pick-index p i n [] w h fits small lo hi = absurd (omega arith)
pick-index p i zero (c ∷ cs) w h fits small lo hi = ground (arith, step-natural p c.1.weight)
pick-index p i (suc n) (c ∷ cs) w h fits small lo hi =
    ground (arith, step-natural p c.1.weight, pick-index (p - pos_part c.1.weight) (i + 1) n cs w.1)

total_weight-natural :
    (t : ℕ) (cs : List Candidate)
    → IsPositive cs
    → t + weight_before (length cs) cs < 9223372036854775808
    → total_weight (pos t) cs ≡ pos (t + weight_before (length cs) cs)
unfolding total_weight weight_before ◌+ℤ◌ int64
total_weight-natural t [] w h = ap pos (omega arith)
total_weight-natural t (c ∷ cs) w h =
    let added : int64 (pos t +ℤ c.1.weight) ≡ pos (t + pos_part c.1.weight) = ground arith in
    rw added
      (total_weight-natural (t + pos_part c.1.weight) cs w.1 (omega arith) ∙ ap pos (omega arith))

position-natural :
    (sequence total : ℕ)
    → sequence < 9223372036854775808
    → position sequence (pos total) ≡ pos (sequence % total)
unfolding position rem int64
position-natural sequence total h = ground arith

-- Positive weights do not add up to 0, unless the sum wraps.
weights-divide :
    (cs : List Candidate)
    → IsPositive cs
    → 0 < length cs
    → weight_before (length cs) cs < 9223372036854775808
    → divides_by_zero weighted_round_robin cs ≡ false
unfolding divides_by_zero weight_before
weights-divide [] w h small = absurd (omega arith)
weights-divide (c ∷ cs) w h small = ground (arith, total_weight-natural 0 (c ∷ cs) w)

-- Weighted round robin gives each candidate a run of as many consecutive turns as its weight, out of
-- every round of as many turns as the weights add up to: at the sequence numbers that fall in its
-- run it is tried first, then those after it, and then those before it, and the division that finds
-- the run does not panic. The weights add up to an int, and the sequence number has not passed its
-- range.
pub round_robin_turns :
    (sequence n : ℕ) (cs : List Candidate)
    → IsPositive cs
    → sequence < 9223372036854775808
    → weight_before (length cs) cs < 9223372036854775808
    → n < length cs
    → weight_before n cs ≤ sequence % weight_before (length cs) cs
    → sequence % weight_before (length cs) cs < weight_before (suc n) cs
    → (divides_by_zero weighted_round_robin cs ≡ false)
      × (order weighted_round_robin sequence cs
          ≡ (drop n cs ++ take n cs, (sequence + 1) % 18446744073709551616))
unfolding order next_sequence rotate
round_robin_turns sequence n cs w s small h lo hi =
    let total = weight_before (length cs) cs in
    let turn : sequence % total ≤ sequence = omega arith in
    let sum : total_weight (pos 0) cs ≡ pos total =
      total_weight-natural 0 cs w (omega arith) ∙ ap pos (omega arith) in
    let index : pick (position sequence (total_weight (pos 0) cs)) 0 cs ≡ n =
      rw (sum, position-natural sequence total s)
        (pick-index (sequence % total) 0 n cs w h (omega arith) small lo hi ∙ omega arith) in
    (weights-divide cs w (omega arith) small, rw index)

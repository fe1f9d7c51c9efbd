-- ===== src/Budget/Cost.antt =====
-- What CostMicroUSD of internal/budget/budget.go returns.
use aegis_ai_platform.Prelude.{
  ℕ, ℤ, pos, negsuc, ◌+◌, ◌*◌, ◌/◌, ◌≤◌, ◌<◌, ◌≤ℤ◌, pos_part, ◌≡◌, ltb, if◌then◌else◌, arith,
  neg_part_of_natural, ◌↔◌,
}
use aegis_ai_platform.Errors.{ok, err, plain}
use aegis_ai_platform.Budget.{
  cost_micro_usd, total_price, round_up, any_negative, IsNatural, any_negative-IsNatural,
}

-- The exact price in millionths of a micro-USD.
abbrev pub exact : ℕ → ℕ → ℕ → ℕ → ℕ
exact p c i o = p * i + c * o

abbrev pub ceiling : ℕ → ℕ
ceiling n = (n + 999999) / 1000000

total_price-natural :
    (p c i o : ℕ) → total_price (pos p) (pos c) (pos i) (pos o) ≡ pos (exact p c i o)
unfolding total_price
total_price-natural p c i o = ground arith

round_up-natural : (n : ℕ) → round_up (pos n) ≡ pos (ceiling n)
unfolding round_up
round_up-natural n = ground arith

cost-natural :
    (p c i o : ℕ)
    → cost_micro_usd (pos p) (pos c) (pos i) (pos o) ≡ (
        if ltb (ceiling (exact p c i o)) 9223372036854775808
        then ok (pos (ceiling (exact p c i o)))
        else err (plain "calculated cost exceeds supported range"))
unfolding cost_micro_usd
cost-natural p c i o =
    rw (total_price-natural p c i o)
      (rw (round_up-natural (exact p c i o)) (unfold any_negative in ground arith))

-- An integer that is the least one not below the exact price.
abbrev pub IsCeiling : ℕ → ℤ → Type 0
IsCeiling n q =
    (pos 0 ≤ℤ q)
    × (n ≤ pos_part q * 1000000)
    × (pos_part q * 1000000 < n + 1000000)
    × (pos_part q < 9223372036854775808)

cost-natural_iff :
    (p c i o : ℕ) (q : ℤ)
    → (cost_micro_usd (pos p) (pos c) (pos i) (pos o) ≡ ok q) ↔ IsCeiling (exact p c i o) q
cost-natural_iff p c i o (pos q) = rw (cost-natural p c i o) (from (exact p c i o))
  where
    from :
        (n : ℕ)
        → ((if ltb (ceiling n) 9223372036854775808
              then ok (pos (ceiling n))
              else err (plain "calculated cost exceeds supported range"))
            ≡ ok (pos q))
          ↔ IsCeiling n (pos q)
    from n = ground arith
cost-natural_iff p c i o (negsuc q) = rw (cost-natural p c i o) (ground arith)

cost-IsNatural_of_ok : (p c i o q : ℤ) → cost_micro_usd p c i o ≡ ok q → IsNatural p c i o
unfolding cost_micro_usd
cost-IsNatural_of_ok p c i o q h = ground (arith, any_negative-IsNatural p c i o)

-- CostMicroUSD returns q exactly when no argument is negative, q is the exact price divided by one
-- million and rounded up, and q fits in int64; in every other case it returns an error.
pub cost_micro_usd_iff :
    (p c i o q : ℤ)
    → (cost_micro_usd p c i o ≡ ok q) ↔ (
        IsNatural p c i o × IsCeiling (exact (pos_part p) (pos_part c) (pos_part i) (pos_part o)) q)
cost_micro_usd_iff (pos p) (pos c) (pos i) (pos o) q = (
  λ h. (cost-IsNatural_of_ok (pos p) (pos c) (pos i) (pos o) q h, (cost-natural_iff p c i o q).0 h),
  λ h. (cost-natural_iff p c i o q).1 h.1,
)
cost_micro_usd_iff p c i o q =
    (λ h. absurd (omega (arith, cost-IsNatural_of_ok p c i o q h)), λ h. absurd (omega arith))

exact_mono :
    (p c i o p' c' i' o' : ℕ)
    → p ≤ p'
    → c ≤ c'
    → i ≤ i'
    → o ≤ o'
    → exact p c i o ≤ exact p' c' i' o'
exact_mono p c i o p' c' i' o' hp hc hi ho = grind arith

-- Where both are costs, the cost of no more tokens at no higher prices is no higher.
pub cost_mono :
    (p c i o q p' c' i' o' q' : ℤ)
    → cost_micro_usd p c i o ≡ ok q
    → cost_micro_usd p' c' i' o' ≡ ok q'
    → p ≤ℤ p'
    → c ≤ℤ c'
    → i ≤ℤ i'
    → o ≤ℤ o'
    → q ≤ℤ q'
cost_mono p c i o q p' c' i' o' q' h h' hp hc hi ho =
    let f = (cost_micro_usd_iff p c i o q).0 h in
    let f' = (cost_micro_usd_iff p' c' i' o' q').0 h' in
    omega (
      arith,
      neg_part_of_natural q,
      neg_part_of_natural q',
      exact_mono (pos_part p) (pos_part c) (pos_part i) (pos_part o) (pos_part p') (pos_part c')
          (pos_part i') (pos_part o') (low p p' f.0.0 hp) (low c c' f.0.1 hc) (low i i' f.0.2 hi)
          (low o o' f.0.3 ho),
    )
  where
    low : (a b : ℤ) → pos 0 ≤ℤ a → a ≤ℤ b → pos_part a ≤ pos_part b
    low a b h k = omega (arith, neg_part_of_natural a)

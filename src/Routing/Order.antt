-- ===== src/Routing/Order.antt =====
-- `order` of internal/routing/router.go: the order in which the eligible entries are tried.
use aegis_ai_platform.Prelude.{
  ℕ, ◌+◌, ◌%◌, ◌*◌, ◌^◌, ℤ, pos, pos_part, neg_part, ◌+ℤ◌, ◌-ℤ◌, rem, int64, Bool, false, List, [],
  ◌∷◌, ◌++◌, take, drop, ltb_ℤ, ◌==◌, int_eq, if◌then◌else◌,
}
use aegis_ai_platform.Request.{Float64}
use aegis_ai_platform.Routing.Strategy.{
  Strategy, weighted_round_robin, least_outstanding, least_latency, priority_fallback,
}
use aegis_ai_platform.Routing.Entry.{Managed}

-- An entry as the selection reads it, with its place among the router's providers.
abbrev pub Candidate : Type 0
Candidate = ℕ × Managed

-- 1e15 in units of 2^-1074.
abbrev never_measured : Float64
never_measured = pos (1000000000000000 * 2 ^ 1074)

unfoldable pub latency : Candidate → Float64
latency c = if c.1.ewma_ms == pos 0 then never_measured else c.1.ewma_ms

-- sort.SliceStable by a key.
unfoldable pub insert_by : (Candidate → ℤ) → Candidate → List Candidate → List Candidate
insert_by key c [] = c ∷ []
insert_by key c (d ∷ ds) = if ltb_ℤ (key d) (key c) then d ∷ insert_by key c ds else c ∷ d ∷ ds

unfoldable pub sort_by : (Candidate → ℤ) → List Candidate → List Candidate
unfolding insert_by
sort_by key [] = []
sort_by key (c ∷ cs) = insert_by key c (sort_by key cs)

-- The loop that adds the weights to `total`, an int, which wraps.
unfoldable pub total_weight : ℤ → List Candidate → ℤ
unfolding ◌+ℤ◌ int64
total_weight total [] = total
total_weight total (c ∷ cs) = total_weight (int64 (total +ℤ c.1.weight)) cs

-- The loop that subtracts weights until the position, which wraps too, is negative; `selected` stays
-- 0 if it never is.
unfoldable pub pick : ℤ → ℕ → List Candidate → ℕ
unfolding ◌-ℤ◌ int64
pick position index [] = 0
pick position index (c ∷ cs) =
    let rest = int64 (position -ℤ c.1.weight) in
    if ltb_ℤ rest (pos 0) then index else pick rest (index + 1) cs

-- append(ordered[selected:], ordered[:selected]...).
unfoldable pub rotate : ℕ → List Candidate → List Candidate
rotate selected ordered = drop selected ordered ++ take selected ordered

-- int(router.sequence.Add(1)-1) % total, for the sequence number before the call and a total that is
-- not 0. The remainder does not depend on the sign of the total.
unfoldable pub position : ℕ → ℤ → ℤ
unfolding rem int64
position sequence total = rem (int64 (pos sequence)) (pos_part total + neg_part total)

unfoldable pub next_sequence : ℕ → ℕ
next_sequence sequence = (sequence + 1) % 18446744073709551616

-- The `%` above panics where the weights add up to 0, which they can by wrapping. Then `order`
-- returns nothing, and so does Select.
unfoldable pub divides_by_zero : Strategy → List Candidate → Bool
unfolding total_weight
divides_by_zero weighted_round_robin cs = total_weight (pos 0) cs == pos 0
divides_by_zero least_outstanding cs = false
divides_by_zero least_latency cs = false
divides_by_zero priority_fallback cs = false

-- `order` where it does not panic.
unfoldable pub order : Strategy → ℕ → List Candidate → List Candidate × ℕ
unfolding sort_by latency total_weight pick rotate position next_sequence
order least_outstanding sequence cs = (sort_by (λ c. c.1.outstanding) cs, sequence)
order least_latency sequence cs = (sort_by latency cs, sequence)
order priority_fallback sequence cs = (sort_by (λ c. c.1.priority) cs, sequence)
order weighted_round_robin sequence cs =
    (rotate (pick (position sequence (total_weight (pos 0) cs)) 0 cs) cs, next_sequence sequence)

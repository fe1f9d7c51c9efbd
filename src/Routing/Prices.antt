-- ===== src/Routing/Prices.antt =====
-- Why a budget reserved at HighestPrices of internal/routing/router.go covers the selected provider.
use aegis_ai_platform.Prelude.{
  ℕ, zero, suc, ℤ, pos, ◌≤ℤ◌, max_ℤ, true, false, ◌≡◌, inl, inr, List, [], ◌∷◌, some, get_elem?,
  arith, Bool-cases,
}
use aegis_ai_platform.Errors.{ok}
use aegis_ai_platform.Routing.Entry.{Managed, Router, Selection, permits}
use aegis_ai_platform.Routing.Select.{Prices, raise, raise_all, highest_prices}

raise_grows :
    (s : Selection) (m : Managed) (p : Prices)
    → (p.input ≤ℤ (raise s m p).input) × (p.output ≤ℤ (raise s m p).output)
unfolding raise max_ℤ
raise_grows s m p = elim (Bool-cases (permits s m)) [
  | inl e ↦ rw (e, raise) (ground arith)
  | inr e ↦ rw (e, raise) (omega arith)
]

raise_all_grows :
    (s : Selection) (ms : List Managed) (p : Prices)
    → (p.input ≤ℤ (raise_all s ms p).input) × (p.output ≤ℤ (raise_all s ms p).output)
unfolding raise_all
raise_all_grows s [] p = omega arith
raise_all_grows s (m ∷ ms) p = omega (arith, raise_grows s m p, raise_all_grows s ms (raise s m p))

raise_covers :
    (s : Selection) (m : Managed) (p : Prices)
    → permits s m ≡ true
    → (m.input_price ≤ℤ (raise s m p).input) × (m.output_price ≤ℤ (raise s m p).output)
unfolding raise max_ℤ
raise_covers s m p e = rw (e, raise) (ground arith)

raise_all_covers :
    (s : Selection) (ms : List Managed) (i : ℕ) (m : Managed) (p : Prices)
    → get_elem? ms i ≡ some m
    → permits s m ≡ true
    → (m.input_price ≤ℤ (raise_all s ms p).input) × (m.output_price ≤ℤ (raise_all s ms p).output)
unfolding raise_all
raise_all_covers s [] i m p at e = cc
raise_all_covers s (n ∷ ms) zero m p at e =
    let same : n ≡ m = ground arith in
    let (a, b) = raise_covers s n p (rw same e) in
    let (c, d) = raise_all_grows s ms (raise s n p) in rw (← same) (omega arith)
raise_all_covers s (n ∷ ms) (suc i) m p at e = raise_all_covers s ms i m (raise s n p) at e

-- The prices of a registered provider that the static policy permits are at most the highest ones.
pub highest_prices_cover :
    (r : Router) (s : Selection) (i : ℕ) (m : Managed) {input output : ℤ}
    → highest_prices r s ≡ ok (input, output)
    → get_elem? r.providers i ≡ some m
    → permits s m ≡ true
    → (m.input_price ≤ℤ input) × (m.output_price ≤ℤ output)
unfolding highest_prices
highest_prices_cover r s i m h at e = ground (
  arith,
  raise_all_covers s r.providers i m (record { found = false; input = pos 0; output = pos 0 }) at e,
)

-- ===== src/Budget/Reserve.antt =====
-- What CanReserve of internal/budget/budget.go decides.
use aegis_ai_platform.Prelude.{
  ℕ, ℤ, pos, ◌≤◌, ◌<◌, ◌+◌, ◌-◌, ◌+ℤ◌, ◌≤ℤ◌, ◌≡◌, ◌↔◌, ◌⊎◌, arith, IsInt64, int_laws, false,
}
use aegis_ai_platform.Errors.{ok}
use aegis_ai_platform.Budget.{can_reserve, over_limit, IsNatural, any_negative-IsNatural, sub64}

-- No subtraction wraps where the code makes it.
sub64-natural : (a b : ℕ) → b ≤ a → a < 9223372036854775808 → sub64 (pos a) (pos b) ≡ pos (a - b)
unfolding sub64
sub64-natural a b h k = ground arith

over_limit-natural :
    (l c a r : ℕ)
    → l < 9223372036854775808
    → (over_limit (pos l) (pos c) (pos a) (pos r) ≡ false) ↔ (c + a + r ≤ l)
unfolding over_limit
over_limit-natural l c a r h = ground (arith, sub64-natural l r, sub64-natural (l - r) c)

-- For a limit and amounts in the range of int64, CanReserve admits exactly if the limit is zero, or
-- no value is negative and committed usage, active reservations and the request together stay
-- within the limit: the wrapping subtractions decide the sum over the integers.
pub can_reserve_iff :
    (limit committed active requested : ℤ)
    → IsInt64 limit
    → (can_reserve limit committed active requested ≡ ok tt) ↔ (
        (limit ≡ pos 0)
        ⊎ ((pos 0 ≤ℤ committed)
            × (pos 0 ≤ℤ active)
            × (pos 0 ≤ℤ requested)
            × (committed +ℤ active +ℤ requested ≤ℤ limit)))
unfolding can_reserve
can_reserve_iff limit committed active requested h = ground (
  arith,
  any_negative-IsNatural limit committed active requested,
  sum_natural committed active requested,
  within limit committed active requested h,
)
  where
    sum_natural : (c a r : ℤ) → pos 0 ≤ℤ c → pos 0 ≤ℤ a → pos 0 ≤ℤ r → pos 0 ≤ℤ c +ℤ a +ℤ r
    sum_natural c a r hc ha hr = omega int_laws

    within :
        (l c a r : ℤ)
        → IsInt64 l
        → IsNatural l c a r
        → (over_limit l c a r ≡ false) ↔ (c +ℤ a +ℤ r ≤ℤ l)
    within (pos l) (pos c) (pos a) (pos r) h n =
        unfold ◌+ℤ◌ in ground (arith, over_limit-natural l c a r)
    within _ _ _ _ h n = absurd (omega arith)

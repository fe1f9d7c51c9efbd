-- ===== src/Budget.antt =====
-- internal/budget/budget.go: fixed-precision cost and reservation decisions. Amounts are signed
-- integers; int64 values are those in `IsInt64`, and int64 subtraction wraps by `int64`.
pub mod Cost
pub mod Reserve
mod Tests
use aegis_ai_platform.Prelude.{
  Bool, false, ◌≤ℤ◌, ◌≡◌, ◌↔◌, arith, ℕ, ℤ, pos, ◌+ℤ◌, ◌-ℤ◌, ◌*ℤ◌, quo, rem, ltb_ℤ, int64, ◌||◌,
  ◌==◌, int_eq, if◌then◌else◌,
}
use aegis_ai_platform.Errors.{Result, ok, err, Failure, plain, exceeded}

abbrev pub tokens_per_price_unit : ℕ
tokens_per_price_unit = 1_000_000

-- quotient.IsInt64, for a quotient that is not negative.
abbrev fits_int64 : ℤ → Bool
fits_int64 q = ltb_ℤ q (pos 9223372036854775808)

-- The products and the sum are big.Int values, so they are exact.
total_price : ℤ → ℤ → ℤ → ℤ → ℤ
unfolding ◌+ℤ◌ ◌*ℤ◌
total_price prompt_tokens completion_tokens input_price output_price =
    prompt_tokens *ℤ input_price +ℤ completion_tokens *ℤ output_price

-- QuoRem, and one more where a remainder is left.
round_up : ℤ → ℤ
unfolding ◌+ℤ◌ quo rem
round_up total =
    let quotient = quo total tokens_per_price_unit in
    let remainder = rem total tokens_per_price_unit in
    if ltb_ℤ (pos 0) remainder then quotient +ℤ pos 1 else quotient

unfoldable pub any_negative : ℤ → ℤ → ℤ → ℤ → Bool
any_negative a b c d = ltb_ℤ a (pos 0) || ltb_ℤ b (pos 0) || ltb_ℤ c (pos 0) || ltb_ℤ d (pos 0)

abbrev pub IsNatural : ℤ → ℤ → ℤ → ℤ → Type 0
IsNatural a b c d = (pos 0 ≤ℤ a) × (pos 0 ≤ℤ b) × (pos 0 ≤ℤ c) × (pos 0 ≤ℤ d)

any_negative-IsNatural : (a b c d : ℤ) → (any_negative a b c d ≡ false) ↔ IsNatural a b c d
unfolding any_negative
any_negative-IsNatural a b c d = ground arith

unfoldable pub cost_micro_usd : ℤ → ℤ → ℤ → ℤ → Result ℤ
unfolding total_price round_up any_negative
cost_micro_usd prompt_tokens completion_tokens input_price output_price =
    if any_negative prompt_tokens completion_tokens input_price output_price
    then err (plain "tokens and prices must not be negative")
    else let quotient =
        round_up (total_price prompt_tokens completion_tokens input_price output_price) in
      if fits_int64 quotient
      then ok quotient
      else err (plain "calculated cost exceeds supported range")

sub64 : ℤ → ℤ → ℤ
unfolding ◌-ℤ◌ int64
sub64 a b = int64 (a -ℤ b)

unfoldable pub over_limit : ℤ → ℤ → ℤ → ℤ → Bool
unfolding sub64
over_limit limit committed active_reservations requested =
    ltb_ℤ limit requested
    || ltb_ℤ (sub64 limit requested) committed
    || ltb_ℤ (sub64 (sub64 limit requested) committed) active_reservations

unfoldable pub can_reserve : ℤ → ℤ → ℤ → ℤ → Result (Unit {0})
can_reserve limit committed active_reservations requested =
    if limit == pos 0
    then ok tt
    else if any_negative limit committed active_reservations requested
    then err (plain "budget values must not be negative")
    else if over_limit limit committed active_reservations requested
    then err exceeded
    else ok tt

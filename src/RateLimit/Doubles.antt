-- ===== src/RateLimit/Doubles.antt =====
-- The numbers of the Lua scripts in internal/ratelimit/redis.go: doubles, rounded to the nearest, and
-- to the even one of two.
use aegis_ai_platform.Prelude.{
  ℕ, zero, suc, ◌+◌, ◌-◌, ◌*◌, ◌%◌, ◌<◌, ◌≡◌, ◌&&◌, ◌||◌, ltb, nat_beq, if◌then◌else◌, arith,
}

-- The nearest multiple of the step. `n % (2 * step)` is below the step if the quotient is even.
unfoldable pub round_to : ℕ → ℕ → ℕ
round_to step n =
    let over = n % step in
    if ltb (2 * over) step || (nat_beq (2 * over) step && ltb (n % (2 * step)) step)
    then n - over
    else n - over + step

-- The step between the doubles around n: 1 below 2^53, and twice as large at each power of two from
-- there on. Twelve doublings reach 2^65, more than the sum of two numbers of int64.
unfoldable pub spacing : ℕ → ℕ → ℕ → ℕ
spacing zero step n = step
spacing (suc left) step n =
    let rest = spacing left (2 * step) n in if ltb n (9007199254740992 * step) then step else rest

unfoldable pub to_double : ℕ → ℕ
unfolding round_to spacing
to_double n = round_to (spacing 12 1 n) n

-- A whole number below 2^53 is a double.
pub to_double-small : (n : ℕ) → n < 9007199254740992 → to_double n ≡ n
unfolding to_double
to_double-small n h = ground arith

-- A whole number that is rounded to less than 2^53 is not changed.
pub to_double-exact : (n : ℕ) → to_double n < 9007199254740992 → to_double n ≡ n
unfolding to_double
to_double-exact n h = ground arith

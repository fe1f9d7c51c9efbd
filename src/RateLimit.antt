-- ===== src/RateLimit.antt =====
-- internal/ratelimit/redis.go: the two scripts, as steps of a Redis, and Allow and Release around them.
-- Times are seconds, and `now` is Redis's clock in a script. A counter is natural: Allow refuses
-- limits that are not positive and tokens that are negative. The numbers of a script are Lua's, which
-- are doubles, while Redis counts in 64-bit integers.
mod Doubles
unfoldable pub use Doubles.*
pub mod Scripts
pub mod Windows
mod Tests
use aegis_ai_platform.Prelude.{
  ℕ, ◌+◌, ◌-◌, ◌/◌, ℤ, pos, pos_part, ltb_ℤ, leb_ℤ, Text, text, text_eq, Bool, true, false, ◌||◌,
  ◌++◌, List, [], Option, none, some, ltb, leb, nat_beq, ◌==◌, if◌then◌else◌,
}
use aegis_ai_platform.Errors.{Result, ok, err, Failure, plain, wrapped}

-- A counter and the second at which it expires.
abbrev pub Redis : Type 0
Redis = Text → Option (ℕ × ℕ)

-- tonumber(redis.call('GET', key) or '0')
unfoldable pub value : ℕ → Option (ℕ × ℕ) → ℕ
value now none = 0
value now (some (n, deadline)) = if ltb now deadline then n else 0

-- The commands INCR and INCRBY fail where the sum is out of the range of int64.
unfoldable pub overflows : ℕ → Text → ℕ → Redis → Bool
unfolding value
overflows now key by redis = leb 9223372036854775808 (value now (redis key) + by)

unfoldable pub store : Text → Option (ℕ × ℕ) → Redis → Redis
store key entry redis k = if k == key then entry else redis k

-- INCRBY, with a fresh counter where there is none, and EXPIRE.
unfoldable pub count_up : ℕ → Text → ℕ → ℕ → Redis → Redis
unfolding value store
count_up now key by ttl redis = store key (some (value now (redis key) + by, now + ttl)) redis

-- Redis's reply to such a command.
abbrev pub out_of_range : Failure
out_of_range = plain "increment or decrement would overflow"

pub record Limits : Type 0 where
  pub requests_per_minute : ℤ
  pub tokens_per_minute : ℤ
  pub max_concurrent : ℤ

-- a + b > c for Lua numbers made by tonumber.
unfoldable pub exceeds : ℕ → ℕ → ℕ → Bool
exceeds a b c = ltb (to_double c) (to_double (to_double a + to_double b))

-- allowScript: KEYS, ARGV, and its reply of two numbers. A command that fails ends the script with an
-- error, and what the commands before it wrote stays.
unfoldable pub allow_script :
    ℕ → Text → Text → Text → ℕ → ℕ → ℕ → ℕ → ℕ → Redis → Result (ℕ × ℕ) × Redis
unfolding value exceeds overflows count_up
allow_script now requests_key tokens_key concurrent_key rpm tpm limit tokens ttl redis =
    let called = count_up now requests_key 1 60 redis in
    let metered = count_up now tokens_key tokens 60 called in
    if exceeds (value now (redis requests_key)) 1 rpm
    then (ok (0, 1), redis)
    else if exceeds (value now (redis tokens_key)) tokens tpm
    then (ok (0, 2), redis)
    else if exceeds (value now (redis concurrent_key)) 1 limit
    then (ok (0, 3), redis)
    else if overflows now requests_key 1 redis
    then (err out_of_range, redis)
    else if overflows now tokens_key tokens called
    then (err out_of_range, called)
    else if overflows now concurrent_key 1 metered
    then (err out_of_range, metered)
    else (ok (1, 0), count_up now concurrent_key 1 ttl metered)

-- DECR keeps the expiry.
unfoldable pub count_down : Option (ℕ × ℕ) → Option (ℕ × ℕ)
count_down none = none
count_down (some (n, deadline)) = some (n - 1, deadline)

-- finishScript.
unfoldable pub finish_script : ℕ → Text → Redis → Redis
unfolding value store count_down
finish_script now key redis =
    if leb (to_double (value now (redis key))) 1
    then store key none redis
    else store key (count_down (redis key)) redis

pub record Decision : Type 0 where
  pub allowed : Bool
  pub reason : Text
  pub retry_after : ℕ

-- The key of the slot that a Permit holds, and whether it has been released.
pub record Permit : Type 0 where
  pub key : Text
  pub released : Bool

unfoldable pub reason_of : ℕ → Text
reason_of code =
    if nat_beq code 1
    then text "requests_per_minute"
    else if nat_beq code 2
    then text "tokens_per_minute"
    else if nat_beq code 3
    then text "maximum_concurrency"
    else []

unfoldable pub decision_of : Text → ℕ × ℕ → Decision × Option Permit
unfolding reason_of
decision_of key (granted, code) =
    if nat_beq granted 1
    then (
      record { allowed = true; reason = []; retry_after = 0 },
      some (record { key = key; released = false }),
    )
    else (record { allowed = false; reason = reason_of code; retry_after = 60 }, none)

-- Allow, where the script runs. `itoa` writes a number in decimals, and `clock` is the clock of the
-- process.
unfoldable pub allow_bucket :
    (ℕ → Text)
    → Text
    → ℕ
    → ℕ
    → Text
    → Limits
    → ℤ
    → ℕ
    → Redis
    → Result (Decision × Option Permit) × Redis
unfolding allow_script decision_of
allow_bucket itoa prefix clock now bucket limits tokens ttl redis =
    let base = prefix ++ text ":" ++ bucket ++ text ":" ++ itoa (clock / 60) in
    let concurrent_key = prefix ++ text ":" ++ bucket ++ text ":concurrent" in
    let (reply, redis') =
      allow_script now (base ++ text ":requests") (base ++ text ":tokens") concurrent_key
        (pos_part limits.requests_per_minute) (pos_part limits.tokens_per_minute)
        (pos_part limits.max_concurrent) (pos_part tokens) ttl redis in
    if bucket == []
      || leb_ℤ limits.requests_per_minute (pos 0)
      || leb_ℤ limits.tokens_per_minute (pos 0)
      || leb_ℤ limits.max_concurrent (pos 0)
      || ltb_ℤ tokens (pos 0)
    then (err (plain "invalid rate-limit input"), redis)
    else elim reply [
      | err e ↦ (err (wrapped "execute rate-limit script" e), redis')
      | ok numbers ↦ (ok (decision_of concurrent_key numbers), redis')
    ]

-- Release, where the script runs.
unfoldable pub release_permit : ℕ → Permit → Redis → Permit × Redis
unfolding finish_script
release_permit now permit redis =
    if permit.released
    then (permit, redis)
    else (record permit { released = true }, finish_script now permit.key redis)

-- ===== src/RateLimit/Scripts.antt =====
-- The scripts of internal/ratelimit/redis.go that run on a bucket, and what its counters read.
use aegis_ai_platform.Prelude.{
  ℕ, ◌+◌, ◌*◌, ◌≤◌, ◌<◌, Text, text_eq, text_beq_iff, Bool, false, List, [], ◌∷◌, Option, nat_beq,
  ◌==◌, if◌then◌else◌, ◌≡◌, ◌≢◌, refl, sym, ap, ◌∙◌, inl, inr, arith, Bool-cases,
}
use aegis_ai_platform.Errors.{Result, ok, err}
use aegis_ai_platform.RateLimit.{
  Redis, value, store, count_up, allow_script, finish_script, exceeds, to_double, to_double-small,
  to_double-exact,
}

-- A script that runs on a bucket: a call of Allow for some tokens, with the time to live of its slot,
-- or a Release.
pub data Step : Type 0 where
  allows : ℕ → ℕ → ℕ → Step
  releases : ℕ → Step

-- Allow lets a call through if the script answers 1.
abbrev pub grants : Result (ℕ × ℕ) → Bool
grants (ok (answer, code)) = nat_beq answer 1
grants (err e) = false

unfoldable pub time : Step → ℕ
time (allows now tokens ttl) = now
time (releases now) = now

module _ (requests_key tokens_key concurrent_key : Text) (rpm tpm limit : ℕ) where
  unfoldable pub script : Step → Redis → Result (ℕ × ℕ) × Redis
  script (allows now tokens ttl) r =
      allow_script now requests_key tokens_key concurrent_key rpm tpm limit tokens ttl r
  script (releases now) r = (ok (0, 0), finish_script now concurrent_key r)

  unfoldable pub weight : Step → ℕ
  weight (allows now tokens ttl) = tokens
  weight (releases now) = 0

  -- The calls that were allowed and their tokens.
  unfoldable pub granted : List Step → Redis → ℕ × ℕ
  granted [] r = (0, 0)
  granted (s ∷ ss) r =
      let (reply, r') = script s r in
      let (calls, tokens) = granted ss r' in
      if grants reply then (calls + 1, tokens + weight s) else (calls, tokens)

-- What a counter reads through a minute.
unfoldable pub Reads : ℕ → Text → ℕ → Redis → Type 0
Reads minute key n r =
    (now : ℕ) → 60 * minute ≤ now → now < 60 * minute + 60 → value now (r key) ≡ n

-- In the range where doubles are exact a limit is compared with the sum itself.
pub exceeds-false : (a b c : ℕ) → c < 9007199254740992 → exceeds a b c ≡ false → a + b ≤ c
unfolding exceeds
exceeds-false a b c small e =
    let limit = to_double-small c small in
    let sum = to_double-exact (to_double a + to_double b) (ground (arith, limit, e)) in
    let first = to_double-exact a (ground (arith, limit, sum, e)) in
    let second = to_double-exact b (ground (arith, limit, sum, e)) in
    ground (arith, limit, sum, first, second, e)

is_equal_false : (k j : Text) → k ≢ j → (k == j) ≡ false
is_equal_false k j other = elim (Bool-cases (k == j)) [
  | inl e ↦ absurd (other ((text_beq_iff k j).0 e))
  | inr e ↦ e
]

store-other : (k key : Text) (e : Option (ℕ × ℕ)) (r : Redis) → k ≢ key → store k e r key ≡ r key
unfolding store
store-other k key e r other = rw (is_equal_false key k (λ e'. other (sym e'))) refl

pub store-Reads :
    (minute : ℕ) (key k : Text) (n : ℕ) (e : Option (ℕ × ℕ)) (r : Redis)
    → k ≢ key
    → Reads minute key n r
    → Reads minute key n (store k e r)
unfolding Reads
store-Reads minute key k n e r other v now low high =
    ap (value now) (store-other k key e r other) ∙ v now low high

pub count_up-other :
    (minute now : ℕ) (key k : Text) (n by ttl : ℕ) (r : Redis)
    → k ≢ key
    → Reads minute key n r
    → Reads minute key n (count_up now k by ttl r)
unfolding count_up
count_up-other minute now key k n by ttl r other v = store-Reads minute key k n _ r other v

-- A counter that is raised in the minute does not expire before it ends.
pub count_up-Reads :
    (minute now : ℕ) (key : Text) (n by : ℕ) (r : Redis)
    → 60 * minute ≤ now
    → now < 60 * minute + 60
    → Reads minute key n r
    → Reads minute key (n + by) (count_up now key by 60 r)
unfolding store Reads count_up value
count_up-Reads minute now key n by r low high v now' low' high' =
    rw ((text_beq_iff key key).1 refl, v now low high) (ground arith)

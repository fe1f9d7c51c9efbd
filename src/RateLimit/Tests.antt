-- ===== src/RateLimit/Tests.antt =====
-- Runs of internal/ratelimit/redis.go, and its theorem at a concrete input.
use aegis_ai_platform.Prelude.{
  ◌≤◌, text, text_eq, text_beq, true, false, List, [], ◌∷◌, none, some, ◌≡◌, refl, arith,
}
use aegis_ai_platform.RateLimit.{
  Redis, value, store, count_up, count_down, allow_script, finish_script, release_permit, exceeds,
  overflows, to_double,
}
use aegis_ai_platform.RateLimit.Scripts.{Step, allows, releases, time, script, weight, granted}
use aegis_ai_platform.RateLimit.Windows.{IsWithin, granted_within}

abbrev no_keys : Redis
no_keys k = none

-- Two requests and 100 tokens a minute: the second call asks for too many tokens.
abbrev steps : List Step
steps = allows 60 80 5 ∷ allows 61 30 5 ∷ releases 62 ∷ allows 63 20 5 ∷ allows 64 0 5 ∷ []

two_granted : granted (text "r") (text "t") (text "c") 2 100 1 steps no_keys ≡ (2, 100)
unfolding granted script weight allow_script finish_script count_up count_down store value exceeds
    overflows to_double text_beq
two_granted = refl

-- 2^53 + 1 is halfway between two doubles, and is rounded to the even one.
rounded : exceeds 9007199254740992 1 9007199254740992 ≡ false
unfolding exceeds to_double
rounded = refl

-- So a limit of 2^53 tokens lets one more through.
beyond_limit :
    granted
      (text "r")
      (text "t")
      (text "c")
      2
      9007199254740992
      2
      (allows 60 9007199254740992 5 ∷ allows 61 1 5 ∷ [])
      no_keys
    ≡ (2, 9007199254740993)
unfolding granted script weight allow_script finish_script count_up count_down store value exceeds
    overflows to_double text_beq
beyond_limit = refl

-- Two calls for 2^62 tokens, at the largest limit: the second raises the requests and then fails.
overflowed :
    granted
      (text "r")
      (text "t")
      (text "c")
      2
      9223372036854775807
      2
      (allows 60 4611686018427387904 5 ∷ allows 61 4611686018427387904 5 ∷ [])
      no_keys
    ≡ (1, 4611686018427387904)
unfolding granted script weight allow_script finish_script count_up count_down store value exceeds
    overflows to_double text_beq
overflowed = refl

-- A second Release does nothing.
released_once :
    (release_permit 9
        (record { key = text "c"; released = true })
        (store (text "c") (some (2, 99)) no_keys)).1
      (text "c")
    ≡ some (2, 99)
unfolding release_permit store text_beq
released_once = refl

granted_within_example :
    ((granted (text "r") (text "t") (text "c") 2 100 1 steps no_keys).0 ≤ 2)
    × ((granted (text "r") (text "t") (text "c") 2 100 1 steps no_keys).1 ≤ 100)
unfolding IsWithin time
granted_within_example =
    granted_within (text "r") (text "t") (text "c") 2 100 1 1 (λ e. ground (arith, e))
      (λ e. ground (arith, e)) (λ e. ground (arith, e)) (omega arith) (omega arith) steps no_keys
      (
        (omega arith, omega arith),
        (
          (omega arith, omega arith),
          (
            (omega arith, omega arith),
            ((omega arith, omega arith), ((omega arith, omega arith), tt)),
          ),
        ),
      )
      refl refl

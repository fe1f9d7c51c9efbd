-- ===== src/Routing/Tests.antt =====
-- Runs of internal/routing/router.go, and its theorems at concrete inputs.
use aegis_ai_platform.Prelude.{
  ℤ, pos, ◌≤ℤ◌, ◌+ℤ◌, int64, map, max_ℤ, Text, text, text_eq, text_beq, ◌≡◌, refl, arith, true,
  false, List, [], ◌∷◌, none, some, get_elem?, contains,
}
use aegis_ai_platform.Errors.{ok, err, panicked}
use aegis_ai_platform.Provider.{Provider}
use aegis_ai_platform.Breaker
use aegis_ai_platform.Breaker.{Config, Breaker, allow, state_at, cool, admit, has_cooled}
use aegis_ai_platform.Routing.Strategy.{weighted_round_robin, least_outstanding}
use aegis_ai_platform.Routing.Entry.{
  ProviderConfig, Managed, Router, Selection, manage, register, new, permits, is_allowed,
  has_capacity, is_eligible,
}
use aegis_ai_platform.Routing.Order.{
  Candidate, order, divides_by_zero, total_weight, sort_by, insert_by,
}
use aegis_ai_platform.Routing.Select.{
  Lease, eligible, try_entry, lease_of, acquire, or_none, select_from, select, raise, raise_all,
  highest_prices,
}
use aegis_ai_platform.Routing.Lease.{FloatOps}
use aegis_ai_platform.Routing.Prices.{highest_prices_cover}
use aegis_ai_platform.Routing.Rotation.{weight_before, round_robin_turns}
use aegis_ai_platform.Routing.Eligible.{IsOffered, IsOn, select-IsOffered}
use aegis_ai_platform.Routing.Load.{Becomes, taken, leased_of, select-Becomes}
use aegis_ai_platform.Routing.Balance.{live, IsCounted}
use aegis_ai_platform.Routing.Session.{Reach, here, next, selects, Reach-IsCounted}

abbrev breaker_config : Config
breaker_config = record {
  failure_threshold = pos 2;
  window = pos 60;
  open_duration = pos 10;
  half_open_probes = pos 1;
}

abbrev provider : Text → Provider
provider name = record {
  name = name;
  capabilities = record { models = text "small" ∷ []; data_classifications = text "public" ∷ [] };
}

abbrev config : Text → ℤ → ℤ → ProviderConfig
config name weight price = record {
  provider = some (provider name);
  weight = weight;
  priority = weight;
  max_concurrency = pos 1;
  timeout = pos 100;
  input_price = price;
  output_price = price;
  enabled = true;
}

abbrev closed_breaker : Breaker
closed_breaker = record {
  config = breaker_config;
  state = Breaker.closed;
  failures = [];
  opened_at = pos 0;
  half_open_active = 0;
}

abbrev entry : Text → ℤ → ℤ → Managed
entry name weight price = record {
  config = config name weight price;
  provider = provider name;
  in_use = 0;
  breaker = closed_breaker;
  outstanding = pos 0;
  healthy = true;
  ewma_ms = pos 0;
}

abbrev alpha : Managed
alpha = entry (text "alpha") (pos 2) (pos 30)

abbrev beta : Managed
beta = entry (text "beta") (pos 1) (pos 50)

abbrev router : Router
router = record { providers = alpha ∷ beta ∷ []; sequence = 0 }

abbrev both : List Candidate
both = (0, alpha) ∷ (1, beta) ∷ []

abbrev selection : Selection
selection = record {
  model = text "small";
  data_classification = text "public";
  allowed_providers = none;
  excluded_providers = text "alpha" ∷ [];
  now = some (pos 5);
}

abbrev lease : Lease
lease = record {
  provider = provider (text "beta");
  timeout = pos 100;
  input_price = pos 50;
  output_price = pos 50;
  entry = 1;
  released = false;
}

highest_prices_cover_example : (pos 30 ≤ℤ pos 50) × (pos 30 ≤ℤ pos 50)
unfolding highest_prices raise_all raise permits is_allowed max_ℤ contains text_beq
highest_prices_cover_example =
    highest_prices_cover router selection 0 alpha {input = pos 50} {output = pos 50} refl refl refl

round_robin_turns_example :
    (divides_by_zero weighted_round_robin both ≡ false)
    × (order weighted_round_robin 5 both ≡ ((1, beta) ∷ (0, alpha) ∷ [], 6))
unfolding weight_before
round_robin_turns_example =
    round_robin_turns 5 1 both (omega arith, (omega arith, tt)) (omega arith) (omega arith)
      (omega arith) (omega arith) (omega arith)

-- Four weights of 2^62 wrap to 0, and the selection panics.
abbrev heavy : Managed
heavy = record alpha { config = record alpha.config { weight = pos 4611686018427387904 } }

wrapped_to_zero :
    (select_from weighted_round_robin (pos 5) (map (λ i. (i, heavy)) (0 ∷ 1 ∷ 2 ∷ 3 ∷ [])) router).0
    ≡ err (panicked "integer divide by zero")
unfolding select_from divides_by_zero total_weight ◌+ℤ◌ int64
wrapped_to_zero = refl

abbrev busy : Router
busy = record {
  providers = alpha ∷ record beta { in_use = 1; outstanding = pos 1 } ∷ [];
  sequence = 0;
}

selected : select least_outstanding selection (pos 9) router ≡ (ok lease, busy)
unfolding select eligible select_from order divides_by_zero sort_by insert_by acquire or_none
    try_entry lease_of is_eligible permits is_allowed contains text_beq has_capacity allow state_at
    cool has_cooled admit ◌+ℤ◌
selected = refl

select-IsOffered_example :
    (m : Managed) × (get_elem? router.providers 1 ≡ some m)
    × IsOffered selection (pos 5) m
    × IsOn lease m
select-IsOffered_example =
    select-IsOffered least_outstanding selection (pos 9) router {lease = lease} (cc selected)

select-Becomes_example :
    Becomes 1
      (taken (leased_of (select least_outstanding selection (pos 9) router).0) 1)
      beta
      (select least_outstanding selection (pos 9) router).1.providers
select-Becomes_example = select-Becomes least_outstanding selection (pos 9) router 1 beta refl

-- Truncating arithmetic that is only good for these runs.
abbrev floats : FloatOps
floats = record {
  of_int = λ n. n;
  add = λ a b. a;
  mul = λ a b. a;
  one_fifth = pos 0;
  four_fifths = pos 1;
}

made :
    new
      (config (text "alpha") (pos 2) (pos 30) ∷ config (text "beta") (pos 1) (pos 50) ∷ [])
      breaker_config
    ≡ ok router
unfolding new register manage Breaker.new
made = refl

reached : Reach floats router [] busy (lease ∷ [])
reached = next here (selects least_outstanding selection (pos 9) selected)

Reach-IsCounted_example : IsCounted 1 (record beta { in_use = 1; outstanding = pos 1 })
unfolding live
Reach-IsCounted_example =
    Reach-IsCounted floats
      (config (text "alpha") (pos 2) (pos 30) ∷ config (text "beta") (pos 1) (pos 50) ∷ [])
      breaker_config 1 (record beta { in_use = 1; outstanding = pos 1 }) made reached refl

-- ===== src/Gateway/Tests.antt =====
-- Runs of internal/gateway/service.go, and its theorems at concrete inputs.
use aegis_ai_platform.Prelude.{
  ℕ, zero, suc, pos, ◌≤ℤ◌, ◌<ℤ◌, text, text_eq, text_beq, contains, max_ℤ, ◌+ℤ◌, len, ◌≡◌, refl,
  arith, true, false, [], ◌∷◌, none, some, get_elem?,
}
use aegis_ai_platform.Errors.{Result, ok, err, plain}
use aegis_ai_platform.Auth.{Principal}
use aegis_ai_platform.Request.{ChatInput, Usage}
use aegis_ai_platform.Provider.{Provider, Chunk}
use aegis_ai_platform.Breaker
use aegis_ai_platform.Breaker.{allow, cool, state_at, has_cooled}
use aegis_ai_platform.Routing.Strategy.{weighted_round_robin, least_outstanding}
use aegis_ai_platform.Budget.{cost_micro_usd}
use aegis_ai_platform.Routing.Entry.{
  Managed, Router, Selection, permits, is_allowed, has_capacity, is_eligible,
}
use aegis_ai_platform.Routing.Order.{order, divides_by_zero, sort_by, insert_by}
use aegis_ai_platform.Routing.Select.{
  Lease, eligible, try_entry, lease_of, acquire, or_none, select_from, select, raise, raise_all,
  highest_prices,
}
use aegis_ai_platform.Routing.Session.{next, here, selects}
use aegis_ai_platform.Routing.Balance.{IsBalanced, IsCounted, live}
use aegis_ai_platform.Store.{empty, TenantPolicy}
use aegis_ai_platform.Gateway.{
  Config, Script, ends, emits, nothing, gather, pass_on, stop_on, relay, backoff,
}
use aegis_ai_platform.Gateway.World.{Env, World}
use aegis_ai_platform.Gateway.Execute.{execute}
use aegis_ai_platform.Gateway.Relay.{
  script_text, IsBounded, relay-nothing-IsBounded, relay-nothing-content,
}
use aegis_ai_platform.Gateway.Backoff.{backoff-le}
use aegis_ai_platform.Gateway.Capacity.{execute-IsBalanced}
use aegis_ai_platform.Gateway.Reservation.{charge-le}

abbrev usage : Usage
usage = record { prompt_tokens = pos 1; completion_tokens = pos 2; total_tokens = pos 3 }

abbrev two_chunks : Script
two_chunks =
    emits (record { content = text "Hel"; finish_reason = text "" }) (λ e. e)
      (emits (record { content = text "lo"; finish_reason = text "" }) (λ e. e) (ends (ok usage)))

abbrev accepts : ℕ → Chunk → Result (Unit {0})
accepts passed chunk = ok tt

too_long :
    (relay (pos 4) accepts two_chunks nothing).0
    ≡ err (plain "stream exceeded bounded response size")
unfolding relay pass_on stop_on gather text_beq len
too_long = refl

relay-nothing-IsBounded_example : IsBounded (pos 4) (relay (pos 4) accepts two_chunks nothing).1
relay-nothing-IsBounded_example = relay-nothing-IsBounded (pos 4) accepts two_chunks (omega arith)

relay-nothing-content_example : (relay (pos 9) accepts two_chunks nothing).1.content ≡ text "Hello"
unfolding relay pass_on stop_on gather text_beq len script_text
relay-nothing-content_example =
    relay-nothing-content (pos 9) accepts two_chunks {usage = usage} refl

backoff-le_example :
    (pos 500 ≤ℤ backoff (pos 400) (pos 1000) 3 12345)
    × (backoff (pos 400) (pos 1000) 3 12345 <ℤ pos 1000)
backoff-le_example = backoff-le 400 1000 3 12345 (omega arith) (omega arith)

abbrev provider : Provider
provider = record {
  name = text "mock";
  capabilities = record { models = text "small" ∷ []; data_classifications = text "public" ∷ [] };
}

abbrev entry : Managed
entry = record {
  config = record {
    provider = some provider;
    weight = pos 1;
    priority = pos 0;
    max_concurrency = pos 2;
    timeout = pos 100;
    input_price = pos 30;
    output_price = pos 60;
    enabled = true;
  };
  provider = provider;
  in_use = 0;
  breaker = record {
    config = record {
      failure_threshold = pos 5;
      window = pos 30;
      open_duration = pos 15;
      half_open_probes = pos 1;
    };
    state = Breaker.closed;
    failures = [];
    opened_at = pos 0;
    half_open_active = 0;
  };
  outstanding = pos 0;
  healthy = true;
  ewma_ms = pos 0;
}

abbrev policy : TenantPolicy
policy = record {
  data_classification = text "public";
  allowed_providers = none;
  requests_per_minute = pos 10;
  tokens_per_minute = pos 10000;
  max_concurrent = pos 2;
  monthly_budget = pos 1000000;
  daily_budget = pos 0;
}

abbrev world : World
world = record {
  memory = record empty { policies = (text "t1", policy) ∷ [] };
  router = record { providers = entry ∷ []; sequence = 0 };
  reads = 0;
}

abbrev env : Env
env = record {
  times = λ n. pos n;
  hash = λ input. ok (7 ∷ []);
  fresh = text "r1";
  allow = none;
  complete = λ number p request. ok (record {
    provider_request_id = text "p1";
    model = text "small";
    content = text "Hello";
    finish_reason = text "stop";
    usage = usage;
  });
  stream = λ number p request. two_chunks;
  wait = λ number. ok tt;
  floats = record {
    of_int = λ n. n;
    add = λ a b. a;
    mul = λ a b. a;
    one_fifth = pos 0;
    four_fifths = pos 1;
  };
}

abbrev config : Config
config = record {
  strategy = some weighted_round_robin;
  max_attempts = pos 3;
  initial_backoff = pos 50;
  maximum_backoff = pos 1000;
  default_max_tokens = pos 1024;
  maximum_stream_bytes = pos 1000;
}

abbrev principal : Principal
principal = record {
  api_key_id = text "k1";
  tenant_id = text "t1";
  user_id = text "u1";
  scopes = [];
}

abbrev hello : ChatInput
hello = record {
  model = text "small";
  messages = record { role = text "user"; content = text "hi" } ∷ [];
  temperature = none;
  max_tokens = pos 64;
  stream = false;
}

idle : IsBalanced world.router []
unfolding live
idle = record { counted = idle_at }
  where
    idle_at : (j : ℕ) (m : Managed) → get_elem? world.router.providers j ≡ some m → IsCounted 0 m
    idle_at zero m h = let same : entry ≡ m = ground arith in rw (← same) (ground arith)
    idle_at (suc j) m h = cc

execute-IsBalanced_example :
    IsBalanced (execute env config principal (text "once") (text "c1") hello none world).1.router []
execute-IsBalanced_example =
    execute-IsBalanced env config principal (text "once") (text "c1") hello none [] world idle

abbrev selection : Selection
selection = record {
  model = text "small";
  data_classification = text "public";
  allowed_providers = none;
  excluded_providers = [];
  now = none;
}

abbrev lease : Lease
lease = record {
  provider = provider;
  timeout = pos 100;
  input_price = pos 30;
  output_price = pos 60;
  entry = 0;
  released = false;
}

abbrev busy : Router
busy = record { providers = record entry { in_use = 1; outstanding = pos 1 } ∷ []; sequence = 0 }

abbrev busier : Router
busier = record { providers = record entry { in_use = 2; outstanding = pos 2 } ∷ []; sequence = 0 }

selected_first : select least_outstanding selection (pos 5) world.router ≡ (ok lease, busy)
unfolding select eligible select_from order divides_by_zero sort_by insert_by acquire or_none
    try_entry lease_of is_eligible permits is_allowed contains text_beq has_capacity allow state_at
    cool has_cooled Breaker.admit ◌+ℤ◌
selected_first = refl

selected_second : select least_outstanding selection (pos 5) busy ≡ (ok lease, busier)
unfolding select eligible select_from order divides_by_zero sort_by insert_by acquire or_none
    try_entry lease_of is_eligible permits is_allowed contains text_beq has_capacity allow state_at
    cool has_cooled Breaker.admit ◌+ℤ◌
selected_second = refl

charge-le_example : pos 5 ≤ℤ pos 9
unfolding highest_prices raise_all raise permits is_allowed max_ℤ contains text_beq cost_micro_usd
charge-le_example =
    charge-le env.floats least_outstanding selection [] none (pos 5) (pos 100000) (pos 100000)
      (pos 9) (pos 50000) (pos 50000) (pos 5) {r = world.router} {leases = []} {r' = busy}
      {leases' = lease ∷ []} {lease = lease} {input = pos 30} {output = pos 60} refl
      (next here (selects least_outstanding selection (pos 5) selected_first)) (cc selected_second)
      refl refl (omega arith) (omega arith)

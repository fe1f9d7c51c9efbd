-- ===== src/Routing/Entry.antt =====
-- The registered providers of internal/routing/router.go, and the tests that filter them.
use aegis_ai_platform.Prelude.{
  ℕ, ℤ, pos, pos_part, Text, Bool, true, ◌&&◌, not, List, [], ◌∷◌, Option, none, some, contains,
  text_eq, ltb, leb_ℤ, if◌then◌else◌,
}
use aegis_ai_platform.Errors.{Result, ok, err, plain, ◌>>=◌}
use aegis_ai_platform.Request.{Float64}
use aegis_ai_platform.Provider.{Provider}
use aegis_ai_platform.Breaker
use aegis_ai_platform.Breaker.{Breaker, Config, state_at, is_open}

pub record ProviderConfig : Type 0 where
  pub provider : Option Provider
  pub weight : ℤ
  pub priority : ℤ
  pub max_concurrency : ℤ
  pub timeout : ℤ
  pub input_price : ℤ
  pub output_price : ℤ
  pub enabled : Bool

-- `in_use` is the length of the semaphore's channel, and its capacity is `max_concurrency`.
-- `provider` is the one of the configuration, which `new` requires.
pub record Managed : Type 0 where
  pub config : ProviderConfig
  pub open config use {
    weight, priority, max_concurrency, timeout, input_price, output_price, enabled,
  }
  pub provider : Provider
  pub in_use : ℕ
  pub breaker : Breaker
  pub outstanding : ℤ
  pub healthy : Bool
  pub ewma_ms : Float64

-- `sequence` is a uint64.
pub record Router : Type 0 where
  pub providers : List Managed
  pub sequence : ℕ

abbrev or_default : ℤ → ℤ → ℤ
or_default value default = if leb_ℤ value (pos 0) then default else value

unfoldable pub manage : ProviderConfig → Config → Provider → Managed
manage config breaker_config provider = record {
  config = record config {
    weight = or_default config.weight (pos 1);
    max_concurrency = or_default config.max_concurrency (pos 20);
    timeout = or_default config.timeout (pos 30_000_000_000);
  };
  provider = provider;
  in_use = 0;
  breaker = Breaker.new breaker_config;
  outstanding = pos 0;
  healthy = true;
  ewma_ms = pos 0;
}

unfoldable pub register : List ProviderConfig → Config → Result (List Managed)
unfolding manage
register [] breaker_config = ok []
register (config ∷ configs) breaker_config = elim config.provider [
  | none ↦ err (plain "provider is required")
  | some provider ↦ do
    entries ← register configs breaker_config
    ok (manage config breaker_config provider ∷ entries)
]

unfoldable pub new : List ProviderConfig → Config → Result Router
new [] breaker_config = err (plain "at least one provider is required")
new (config ∷ configs) breaker_config = do
  entries ← register (config ∷ configs) breaker_config
  ok (record { providers = entries; sequence = 0 })

-- Selection without its strategy: `now` is `none` for the zero time.
pub record Selection : Type 0 where
  pub model : Text
  pub data_classification : Text
  pub allowed_providers : Option (List Text)
  pub excluded_providers : List Text
  pub now : Option ℤ

-- A nil map allows every provider.
unfoldable pub is_allowed : Option (List Text) → Text → Bool
is_allowed none name = true
is_allowed (some names) name = contains names name

-- The static policy, which HighestPrices and Select both test.
unfoldable pub permits : Selection → Managed → Bool
unfolding is_allowed
permits s m =
    m.enabled
    && is_allowed s.allowed_providers m.provider.name
    && contains m.provider.capabilities.models s.model
    && contains m.provider.capabilities.data_classifications s.data_classification

unfoldable pub has_capacity : Managed → Bool
has_capacity m = ltb m.in_use (pos_part m.max_concurrency)

unfoldable pub is_eligible : Selection → ℤ → Managed → Bool
unfolding permits has_capacity
is_eligible s now m =
    permits s m
    && m.healthy
    && not (contains s.excluded_providers m.provider.name)
    && not (is_open (state_at m.breaker now))
    && has_capacity m

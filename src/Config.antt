-- ===== src/Config.antt =====
-- internal/config/config.go: configuration from environment variables. The variables, and the parsers
-- strings.ToUpper, time.ParseDuration, strconv.Atoi and strconv.ParseBool, are parameters. Durations
-- are in nanoseconds.
pub mod Validated
mod Tests
use aegis_ai_platform.Prelude.{
  ℕ, ◌+◌, ◌*◌, ℤ, pos, leb_ℤ, ltb, nat_beq, String, Text, text, text_eq, len, is_space, trim_space,
  Bool, true, false, not, ◌||◌, List, [], ◌∷◌, ◌++◌, ◌==◌, if◌then◌else◌,
}
use aegis_ai_platform.Errors.{Result, ok, err, Failure, plain, wrapped, ◌>>=◌}

pub record Config : Type 0 where
  pub service : Text
  pub environment : Text
  pub log_level : Text
  pub http_address : Text
  pub shutdown_timeout : ℤ
  pub read_header_timeout : ℤ
  pub read_timeout : ℤ
  pub write_timeout : ℤ
  pub idle_timeout : ℤ
  pub max_header_bytes : ℤ
  pub database_url : Text
  pub redis_address : Text
  pub kafka_brokers : List Text
  pub rabbitmq_url : Text
  pub api_key_pepper : Text
  pub dev_api_key : Text
  pub provider_name : Text
  pub provider_endpoint : Text
  pub provider_api_key : Text
  pub provider_models : List Text
  pub routing_strategy : Text
  pub kafka_topic : Text
  pub kafka_consumer_group : Text
  pub otlp_endpoint : Text
  pub max_body_bytes : ℤ
  pub worker_concurrency : ℤ
  pub dev_memory : Bool

-- strings.Split(s, ","), with the part that is being read.
unfoldable pub split_from : Text → Text → List Text
split_from part [] = part ∷ []
split_from part (c ∷ s) =
    let next = split_from [] s in
    let longer = split_from (part ++ c ∷ []) s in if nat_beq c 44 then part ∷ next else longer

-- The parts that are not blank, trimmed.
unfoldable pub non_blank : List Text → List Text
unfolding trim_space
non_blank [] = []
non_blank (part ∷ parts) =
    let rest = non_blank parts in
    let trimmed = trim_space part in if trimmed == [] then rest else trimmed ∷ rest

abbrev pub is_empty {ℓ} : {A : Type ℓ} → List A → Bool
is_empty [] = true
is_empty (x ∷ xs) = false

abbrev pub second : ℕ → ℤ
second n = pos (n * 1000000000)

-- `getenv` is os.Getenv. A parser returns the error of its package.
module _ (getenv : Text → Text) (to_upper : Text → Text) (parse_duration atoi : Text → Result ℤ)
    (parse_bool : Text → Result Bool) where
  unfoldable pub env : String → Text
  unfolding trim_space
  env name = trim_space (getenv (text name))

  unfoldable pub env_or : String → String → Text
  unfolding env
  env_or name fallback = if env name == [] then text fallback else env name

  unfoldable pub parsed : {A : Type 0} → String → Text → (Text → Result A) → A → Result A
  parsed name value parse fallback =
      if value == []
      then ok fallback
      else elim (parse value) [ ok a ↦ ok a | err e ↦ err (wrapped name e) ]

  unfoldable pub duration_env : String → ℤ → Result ℤ
  unfolding env parsed
  duration_env name fallback = parsed name (env name) parse_duration fallback

  unfoldable pub int_env : String → ℤ → Result ℤ
  unfolding env parsed
  int_env name fallback = parsed name (env name) atoi fallback

  unfoldable pub bool_env : String → Bool → Result Bool
  unfolding env parsed
  bool_env name fallback = parsed name (env name) parse_bool fallback

  -- The tests at the end of Load.
  unfoldable pub validate_config : Config → Result Config
  unfolding len
  validate_config c =
      if leb_ℤ c.shutdown_timeout (pos 0)
        || leb_ℤ c.read_header_timeout (pos 0)
        || leb_ℤ c.max_header_bytes (pos 0)
        || leb_ℤ c.max_body_bytes (pos 0)
        || leb_ℤ c.worker_concurrency (pos 0)
      then err (plain "timeouts and maximum header bytes must be positive")
      else if ltb (len c.api_key_pepper) 32
      then err (plain "AEGIS_API_KEY_PEPPER must contain at least 32 bytes")
      else if is_empty c.provider_models
      then err (plain "at least one provider model is required")
      else ok c

  unfoldable pub load : Text → Result Config
  load service = if trim_space service == [] then err (plain "service name is required") else do
    let database_url = env "AEGIS_DATABASE_URL"
    dev_memory ← bool_env "AEGIS_DEV_MEMORY" (database_url == [])
    shutdown_timeout ← duration_env "AEGIS_SHUTDOWN_TIMEOUT" (second 20)
    read_header_timeout ← duration_env "AEGIS_READ_HEADER_TIMEOUT" (second 5)
    read_timeout ← duration_env "AEGIS_READ_TIMEOUT" (second 15)
    write_timeout ← duration_env "AEGIS_WRITE_TIMEOUT" (second 30)
    idle_timeout ← duration_env "AEGIS_IDLE_TIMEOUT" (second 60)
    max_header_bytes ← int_env "AEGIS_MAX_HEADER_BYTES" (pos 1048576)
    max_body_bytes ← int_env "AEGIS_MAX_BODY_BYTES" (pos 1048576)
    worker_concurrency ← int_env "AEGIS_WORKER_CONCURRENCY" (pos 4)
    validate_config (record {
      service = service;
      environment = env_or "AEGIS_ENVIRONMENT" "development";
      log_level = to_upper (env_or "AEGIS_LOG_LEVEL" "INFO");
      http_address = env_or "AEGIS_HTTP_ADDRESS" ":8080";
      shutdown_timeout = shutdown_timeout;
      read_header_timeout = read_header_timeout;
      read_timeout = read_timeout;
      write_timeout = write_timeout;
      idle_timeout = idle_timeout;
      max_header_bytes = max_header_bytes;
      database_url = database_url;
      redis_address = env "AEGIS_REDIS_ADDRESS";
      kafka_brokers = non_blank (split_from [] (getenv (text "AEGIS_KAFKA_BROKERS")));
      rabbitmq_url = env "AEGIS_RABBITMQ_URL";
      api_key_pepper = env_or "AEGIS_API_KEY_PEPPER" "development-only-pepper-change-me-32-bytes";
      dev_api_key =
          env_or "AEGIS_DEV_API_KEY" "aegis_devkey0000_0123456789abcdefghijklmnopqrstuvwxyzABCDEFG";
      provider_name = env_or "AEGIS_PROVIDER_NAME" "mock-primary";
      provider_endpoint = env "AEGIS_PROVIDER_ENDPOINT";
      provider_api_key = env "AEGIS_PROVIDER_API_KEY";
      provider_models =
          non_blank (split_from [] (env_or "AEGIS_PROVIDER_MODELS" "aegis-small,aegis-medium"));
      routing_strategy = env_or "AEGIS_ROUTING_STRATEGY" "weighted_round_robin";
      kafka_topic = env_or "AEGIS_KAFKA_TOPIC" "aegis.events.v1";
      kafka_consumer_group = env_or "AEGIS_KAFKA_CONSUMER_GROUP" "aegis-audit-v1";
      otlp_endpoint = env "AEGIS_OTLP_ENDPOINT";
      max_body_bytes = max_body_bytes;
      worker_concurrency = worker_concurrency;
      dev_memory = dev_memory;
    })

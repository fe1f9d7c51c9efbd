-- ===== src/Config/Tests.antt =====
-- Runs of internal/config/config.go, and its theorem at a concrete input.
use aegis_ai_platform.Prelude.{
  ℤ, pos, Text, text, text_eq, text_beq, len, is_space, trim_left, trim_space, Bool, true, [], ◌∷◌,
  ◌==◌, if◌then◌else◌, ◌≡◌, refl,
}
use aegis_ai_platform.Errors.{Result, ok, err, plain}
use aegis_ai_platform.Config.{
  Config, load, env, env_or, bool_env, duration_env, int_env, parsed, non_blank, split_from,
  validate_config,
}
use aegis_ai_platform.Config.Validated.{IsUsable, load-IsUsable}

abbrev unset : Text → Text
unset name = []

abbrev no_workers : Text → Text
no_workers name = if name == text "AEGIS_WORKER_CONCURRENCY" then text " 0 " else []

abbrev same : Text → Text
same s = s

abbrev number : Text → Result ℤ
number s = if s == text "0" then ok (pos 0) else err (plain "invalid syntax")

abbrev truth : Text → Result Bool
truth s = if s == text "true" then ok true else err (plain "invalid syntax")

abbrev defaults : Config
defaults = record {
  service = text "gateway";
  environment = text "development";
  log_level = text "INFO";
  http_address = text ":8080";
  shutdown_timeout = pos 20000000000;
  read_header_timeout = pos 5000000000;
  read_timeout = pos 15000000000;
  write_timeout = pos 30000000000;
  idle_timeout = pos 60000000000;
  max_header_bytes = pos 1048576;
  database_url = [];
  redis_address = [];
  kafka_brokers = [];
  rabbitmq_url = [];
  api_key_pepper = text "development-only-pepper-change-me-32-bytes";
  dev_api_key = text "aegis_devkey0000_0123456789abcdefghijklmnopqrstuvwxyzABCDEFG";
  provider_name = text "mock-primary";
  provider_endpoint = [];
  provider_api_key = [];
  provider_models = text "aegis-small" ∷ text "aegis-medium" ∷ [];
  routing_strategy = text "weighted_round_robin";
  kafka_topic = text "aegis.events.v1";
  kafka_consumer_group = text "aegis-audit-v1";
  otlp_endpoint = [];
  max_body_bytes = pos 1048576;
  worker_concurrency = pos 4;
  dev_memory = true;
}

default_load : load unset same number number truth (text "gateway") ≡ ok defaults
unfolding load env env_or bool_env duration_env int_env parsed non_blank split_from validate_config
    trim_left trim_space is_space len text_beq
default_load = refl

no_workers_load :
    load no_workers same number number truth (text "gateway")
    ≡ err (plain "timeouts and maximum header bytes must be positive")
unfolding load env env_or bool_env duration_env int_env parsed non_blank split_from validate_config
    trim_left trim_space is_space len text_beq
no_workers_load = refl

load-IsUsable_example : IsUsable defaults
load-IsUsable_example =
    load-IsUsable unset same number number truth (text "gateway") defaults default_load

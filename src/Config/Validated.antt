-- ===== src/Config/Validated.antt =====
-- What internal/config/config.go guarantees.
use aegis_ai_platform.Prelude.{
  ◌≤◌, ℤ, pos, ◌<ℤ◌, Text, text_eq, len, trim_space, Bool, true, false, [], ◌==◌, if◌then◌else◌,
  ◌≡◌, ◌≢◌, arith, subst,
}
use aegis_ai_platform.Errors.{Result, ok, err, Failure, plain, ◌>>=◌}
use aegis_ai_platform.Config.{
  Config, load, env, second, validate_config, duration_env, int_env, bool_env,
}

-- What the services take for granted.
pub record IsUsable (c : Config) : Type 0 where
  pub shutdown : pos 0 <ℤ c.shutdown_timeout
  pub read_header : pos 0 <ℤ c.read_header_timeout
  pub header_bytes : pos 0 <ℤ c.max_header_bytes
  pub body_bytes : pos 0 <ℤ c.max_body_bytes
  pub workers : pos 0 <ℤ c.worker_concurrency
  pub pepper : 32 ≤ len c.api_key_pepper
  pub models : c.provider_models ≢ []

-- Every configuration that it returns is usable.
IsSafe : Result Config → Type 0
IsSafe r = (c : Config) → r ≡ ok c → IsUsable c

>>=-IsSafe :
    {A : Type 0} (r : Result A) (f : A → Result Config)
    → ((a : A) → IsSafe (f a))
    → IsSafe (r >>= f)
unfolding IsSafe
>>=-IsSafe (ok a) f h c e = h a c e
>>=-IsSafe (err x) f h c e = cc

choice-IsSafe :
    (b : Bool) (r r' : Result Config) → IsSafe r → IsSafe r' → IsSafe (if b then r else r')
choice-IsSafe true r r' h k = h
choice-IsSafe false r r' h k = k

err-IsSafe : (x : Failure) → IsSafe (err x)
unfolding IsSafe
err-IsSafe x c e = cc

module _ (getenv : Text → Text) (to_upper : Text → Text) (parse_duration atoi : Text → Result ℤ)
    (parse_bool : Text → Result Bool) where
  validate_config-IsSafe :
      (c : Config) → IsSafe (validate_config getenv to_upper parse_duration atoi parse_bool c)
  unfolding validate_config IsSafe
  validate_config-IsSafe c d h =
      let same : c ≡ d = ground (arith, h) in
      subst IsUsable same (record {
        shutdown = ground (arith, h);
        read_header = ground (arith, h);
        header_bytes = ground (arith, h);
        body_bytes = ground (arith, h);
        workers = ground (arith, h);
        pepper = ground (arith, h);
        models = λ e. ground (arith, h, e);
      })

  load-IsSafe :
      (service : Text) → IsSafe (load getenv to_upper parse_duration atoi parse_bool service)
  unfolding load
  load-IsSafe service =
      choice-IsSafe (trim_space service == []) _ _ (err-IsSafe (plain "service name is required")) (
        >>=-IsSafe
          (bool_env getenv to_upper parse_duration atoi parse_bool "AEGIS_DEV_MEMORY"
            (env getenv to_upper parse_duration atoi parse_bool "AEGIS_DATABASE_URL" == []))
          _
          λ dev_memory.
            >>=-IsSafe
              (duration_env getenv to_upper parse_duration atoi parse_bool "AEGIS_SHUTDOWN_TIMEOUT"
                (second 20))
              _
              λ shutdown_timeout.
                >>=-IsSafe
                  (duration_env getenv to_upper parse_duration atoi parse_bool
                    "AEGIS_READ_HEADER_TIMEOUT" (second 5))
                  _
                  λ read_header_timeout.
                    >>=-IsSafe
                      (duration_env getenv to_upper parse_duration atoi parse_bool
                        "AEGIS_READ_TIMEOUT" (second 15))
                      _
                      λ read_timeout.
                        >>=-IsSafe
                          (duration_env getenv to_upper parse_duration atoi parse_bool
                            "AEGIS_WRITE_TIMEOUT" (second 30))
                          _
                          λ write_timeout.
                            >>=-IsSafe
                              (duration_env getenv to_upper parse_duration atoi parse_bool
                                "AEGIS_IDLE_TIMEOUT" (second 60))
                              _
                              λ idle_timeout.
                                >>=-IsSafe
                                  (int_env getenv to_upper parse_duration atoi parse_bool
                                    "AEGIS_MAX_HEADER_BYTES" (pos 1048576))
                                  _
                                  λ max_header_bytes.
                                    >>=-IsSafe
                                      (int_env getenv to_upper parse_duration atoi parse_bool
                                        "AEGIS_MAX_BODY_BYTES" (pos 1048576))
                                      _
                                      λ max_body_bytes.
                                        >>=-IsSafe
                                          (int_env getenv to_upper parse_duration atoi parse_bool
                                            "AEGIS_WORKER_CONCURRENCY" (pos 4))
                                          _ λ worker_concurrency. validate_config-IsSafe _)

  -- A configuration that Load returns is usable: the timeouts of the shutdown and of the headers, the
  -- maxima of bytes and the number of workers are positive, the pepper has 32 bytes at least, and
  -- there is a model; whatever the environment and the parsers say, every other is refused.
  pub load-IsUsable :
      (service : Text) (c : Config)
      → load getenv to_upper parse_duration atoi parse_bool service ≡ ok c
      → IsUsable c
  unfolding IsSafe
  load-IsUsable service c h = load-IsSafe service c h

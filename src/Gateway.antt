-- ===== src/Gateway.antt =====
-- internal/gateway/service.go: the gateway's settings, the relay of a stream, the back-off between
-- attempts and its small helpers. Providers, the rate limiter and the clock are arguments.
pub mod World
pub mod Execute
pub mod Relay
pub mod Backoff
pub mod Settled
pub mod Capacity
pub mod Reservation
mod Tests
use aegis_ai_platform.Prelude.{
  ℕ, suc, ◌+◌, ◌-◌, ◌/◌, ◌%◌, ◌*◌, ◌^◌, ℤ, pos, ◌+ℤ◌, ◌*ℤ◌, quo, max_ℤ, pos_part, int64, Text, text,
  text_eq, len, Bool, true, false, not, ◌&&◌, ◌||◌, List, [], ◌∷◌, ◌++◌, Option, none, some, leb_ℤ,
  ltb_ℤ, ltb, ◌==◌, if◌then◌else◌,
}
use aegis_ai_platform.Errors.{
  Result, ok, err, Failure, plain, root, as_provider, canceled, deadline_exceeded, ProviderError,
}
use aegis_ai_platform.Request.{Message, Usage}
use aegis_ai_platform.Provider.{Chunk, characters, estimate}
use aegis_ai_platform.Routing.Strategy.{Strategy, weighted_round_robin}

-- `strategy` is none for the empty text.
pub record Config : Type 0 where
  pub strategy : Option Strategy
  pub max_attempts : ℤ
  pub initial_backoff : ℤ
  pub maximum_backoff : ℤ
  pub default_max_tokens : ℤ
  pub maximum_stream_bytes : ℤ

abbrev or_default : ℤ → ℤ → ℤ
or_default value default = if leb_ℤ value (pos 0) then default else value

abbrev pub strategy_of : Option Strategy → Strategy
strategy_of none = weighted_round_robin
strategy_of (some strategy) = strategy

-- The settings of NewService.
unfoldable pub with_defaults : Config → Config
with_defaults config = record {
  strategy = some (strategy_of config.strategy);
  max_attempts = or_default config.max_attempts (pos 3);
  initial_backoff = or_default config.initial_backoff (pos 50_000_000);
  maximum_backoff = or_default config.maximum_backoff (pos 1_000_000_000);
  default_max_tokens = or_default config.default_max_tokens (pos 1024);
  maximum_stream_bytes = or_default config.maximum_stream_bytes (pos 1048576);
}

-- What a provider's Stream does: it emits a chunk, and on an error of the emitter returns its own
-- error for it, or it ends.
pub data Script : Type 0 where
  ends : Result Usage → Script
  emits : Chunk → (Failure → Failure) → Script → Script

-- What the callback of `call` has gathered, and how many chunks it has passed on.
pub record Relayed : Type 0 where
  pub content : Text
  pub partial : Bool
  pub passed : ℕ

abbrev pub nothing : Relayed
nothing = record { content = []; partial = false; passed = 0 }

unfoldable pub gather : Chunk → Relayed → Relayed
gather chunk r =
    if chunk.content == []
    then record r { passed = r.passed + 1 }
    else record r { content = r.content ++ chunk.content; partial = true; passed = r.passed + 1 }

-- The callback. The emitter is told how many chunks came before.
unfoldable pub pass_on :
    ℤ → (ℕ → Chunk → Result (Unit {0})) → Chunk → Relayed → Result (Unit {0}) × Relayed
unfolding gather
pass_on maximum emit chunk r =
    if ltb_ℤ maximum (pos (len r.content + len chunk.content))
    then (err (plain "stream exceeded bounded response size"), r)
    else (emit r.passed chunk, gather chunk r)

unfoldable pub stop_on :
    (Failure → Failure)
    → Result (Unit {0})
    → Relayed
    → Result Usage × Relayed
    → Result Usage × Relayed
stop_on on_error (err e) r rest = (err (on_error e), r)
stop_on on_error (ok _) r rest = rest

-- selected.Stream(ctx, input, callback).
unfoldable pub relay :
    ℤ → (ℕ → Chunk → Result (Unit {0})) → Script → Relayed → Result Usage × Relayed
unfolding pass_on stop_on
relay maximum emit (ends result) r = (result, r)
relay maximum emit (emits chunk on_error script) r =
    let (passed, r') = pass_on maximum emit chunk r in
    stop_on on_error passed r' (relay maximum emit script r')

-- initial << (attempt - 1), in int64.
unfoldable pub shifted : ℤ → ℕ → ℤ
unfolding int64 ◌*ℤ◌
shifted initial attempt = int64 (initial *ℤ pos (2 ^ (attempt - 1)))

-- How long waitBackoff waits, for eight random bytes as a uint64.
unfoldable pub backoff : ℤ → ℤ → ℕ → ℕ → ℤ
unfolding ◌+ℤ◌ quo max_ℤ shifted
backoff initial maximum attempt random =
    let shift = shifted initial attempt in
    let delay = if ltb_ℤ maximum shift then maximum else shift in
    quo delay 2 +ℤ pos (random % pos_part (max_ℤ (pos 1) (quo delay 2)))

abbrev context_category : Failure → Text
context_category canceled = text "cancelled"
context_category deadline_exceeded = text "deadline_exceeded"
context_category _ = text "provider_unavailable"

unfoldable pub error_category : Failure → Text
unfolding root as_provider
error_category f = elim (as_provider f) [ some e ↦ e.category | none ↦ context_category (root f) ]

unfoldable pub estimate_prompt_tokens : List Message → ℤ
unfolding characters estimate
estimate_prompt_tokens messages = pos (estimate (characters messages))

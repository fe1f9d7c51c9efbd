-- ===== src/Gateway/World.antt =====
-- The state that `execute` of internal/gateway/service.go works on, what its environment answers, and
-- its small steps.
use aegis_ai_platform.Prelude.{
  ℕ, ◌+◌, ℤ, pos, quo, Text, text, text_eq, Bool, List, [], ◌∷◌, ◌++◌, Option, none, some, ◌==◌,
  int_eq, if◌then◌else◌,
}
use aegis_ai_platform.Errors.{Result, ok, err, panicked, Failure, rate_limited}
use aegis_ai_platform.Action.{Action}
use aegis_ai_platform.Auth.{Principal}
use aegis_ai_platform.Request.{completed, ChatInput, ChatResponse, Record, Usage}
use aegis_ai_platform.Provider.{Provider, CompletionRequest, Completion, Chunk}
use aegis_ai_platform.Routing.Entry.{Router}
use aegis_ai_platform.Routing.Lease.{FloatOps}
use aegis_ai_platform.Store.{Memory, TenantPolicy}
use aegis_ai_platform.Gateway.{Config, Script, Relayed}

-- Errors and results of the code that is not modelled. `times n` is what the n-th time.Now returns.
-- Calls of a provider and waits are told the attempt. `allow` is the limiter's Allow for a bucket.
pub record Env : Type 0 where
  pub times : ℕ → ℤ
  pub hash : ChatInput → Result (List ℕ)
  pub fresh : Text
  pub allow : Option (Text → TenantPolicy → ℤ → Result (Option Text))
  pub complete : ℕ → Provider → CompletionRequest → Result Completion
  pub stream : ℕ → Provider → CompletionRequest → Script
  pub wait : ℕ → Result (Unit {0})
  pub floats : FloatOps

pub record World : Type 0 where
  pub memory : Memory
  pub router : Router
  pub reads : ℕ

pub record Outcome : Type 0 where
  pub record' : Record
  pub response : Option ChatResponse
  pub replayed : Bool
  pub pending : Bool

abbrev pub Emitter : Type 0
Emitter = ℕ → ℕ → Chunk → Result (Unit {0})

abbrev pub on_memory : {A : Type 0} → Action Memory A → Action World A
on_memory action w =
    let (result, memory) = action w.memory in (result, record w { memory = memory })

abbrev pub ignore : {A : Type 0} → Action World A → Action World (Unit {0})
ignore action w = (ok tt, (action w).1)

-- time.Now.
abbrev pub read_clock : Env → Action World ℤ
read_clock env w = (ok (env.times w.reads), record w { reads = w.reads + 1 })

pub data Verdict : Type 0 where
  -- execute returns at once.
  returns : Result Outcome → Verdict
  -- The loop ends, with the request finalized or not.
  concludes gives_up : Failure → Verdict
  -- The next attempt, without the provider of this one.
  retries : Text → Failure → Verdict

-- Where Select returns no lease: an error ends the loop, and a panic ends execute.
unfoldable pub refused : Failure → Verdict
refused (panicked message) = returns (err (panicked message))
refused e = gives_up e

unfoldable pub completion_of : ChatInput → Relayed → Usage → Completion
completion_of input r usage = record {
  provider_request_id = text "";
  model = input.model;
  content = r.content;
  finish_reason = text "stop";
  usage = usage;
}

unfoldable pub streamed : ChatInput → Result Usage × Relayed → Result Completion × Bool
unfolding completion_of
streamed input (ok usage, r) = (ok (completion_of input r usage), r.partial)
streamed input (err e, r) = (err e, r.partial)

unfoldable pub build_response : Text → Text → ℤ → Completion → ChatResponse
unfolding quo
build_response request_id model clock completion = record {
  id = text "chatcmpl-" ++ request_id;
  object = text "chat.completion";
  created = quo clock 1_000_000_000;
  model = model;
  choices =
      record {
        index = 0;
        message = record { role = text "assistant"; content = completion.content };
        finish_reason = completion.finish_reason;
      }
      ∷ [];
  usage = completion.usage;
  aegis = record { request_id = request_id; status = completed };
}

-- The limit reached in the first of the buckets that rejects.
unfoldable pub admit_buckets :
    (Text → TenantPolicy → ℤ → Result (Option Text))
    → TenantPolicy
    → ℤ
    → List Text
    → Result (Unit {0})
admit_buckets allow policy tokens [] = ok tt
admit_buckets allow policy tokens (bucket ∷ buckets) =
    let rest = admit_buckets allow policy tokens buckets in
    elim (allow bucket policy tokens) [
      | err e ↦ err e
      | ok decision ↦ elim decision [ some reason ↦ err (rate_limited reason) | none ↦ rest ]
    ]

unfoldable pub admit : Env → Principal → TenantPolicy → ℤ → Result (Unit {0})
unfolding admit_buckets
admit env principal policy tokens = elim env.allow [
  | none ↦ ok tt
  | some allow ↦
      admit_buckets allow policy tokens
        ((text "tenant:" ++ principal.tenant_id) ∷ (text "key:" ++ principal.api_key_id) ∷ [])
]

unfoldable pub max_completion : Config → ChatInput → ℤ
max_completion config input =
    if input.max_tokens == pos 0 then config.default_max_tokens else input.max_tokens

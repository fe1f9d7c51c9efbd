-- ===== src/Gateway/Execute.antt =====
-- `execute` of internal/gateway/service.go over the in-memory store: the admission of a request and
-- its attempts.
use aegis_ai_platform.Prelude.{
  ℕ, zero, suc, ◌+◌, ℤ, pos, ◌+ℤ◌, ◌-ℤ◌, pos_part, int64, Text, text_eq, Bool, true, false, not,
  ◌&&◌, [], ◌∷◌, Option, none, some, ltb_ℤ, int_eq, if◌then◌else◌,
}
use aegis_ai_platform.Errors.{Result, ok, err, Failure, exceeded, no_eligible_provider, root}
use aegis_ai_platform.Action.{Action, ◌>>=◌, ◌>>◌, pure, raise, lift}
use aegis_ai_platform.Auth.{Principal}
use aegis_ai_platform.Budget.{cost_micro_usd}
use aegis_ai_platform.Request.{
  State, received, validated, routing, in_progress, completed, failed, state_beq, validate,
  ChatInput, ChatResponse, Record,
}
use aegis_ai_platform.Provider.{Provider, CompletionRequest, Completion, is_retryable}
use aegis_ai_platform.Routing.Entry.{Selection}
use aegis_ai_platform.Routing.Select.{Lease, select, highest_prices}
use aegis_ai_platform.Routing.Lease
use aegis_ai_platform.Routing.Lease.{FloatOps}
use aegis_ai_platform.Store.{
  TenantPolicy, create_or_get_request, transition_request, tenant_policy, reserve_budget,
  reject_budget, start_attempt, complete_request, fail_attempt, reconcile_budget,
}
use aegis_ai_platform.Gateway.{
  Config, strategy_of, nothing, relay, error_category, estimate_prompt_tokens,
}
use aegis_ai_platform.Gateway.World.{
  Env, World, Outcome, Emitter, on_memory, ignore, read_clock, Verdict, returns, concludes, refused,
  gives_up, retries, streamed, build_response, admit, max_completion,
}

-- One request that the gateway has created.
module _ (env : Env) (config : Config) (principal : Principal) (correlation_id : Text)
    (input : ChatInput) (emit : Option Emitter) (r : Record) where
  unfoldable pub moves : State → State → Action World (Unit {0})
  moves from to = do
    now ← read_clock env
    on_memory (transition_request principal.tenant_id r.id from to now)

  unfoldable pub call : ℕ → Provider → Result Completion × Bool
  unfolding streamed
  call number provider =
      let request : CompletionRequest = record {
        request_id = r.id;
        model = input.model;
        messages = input.messages;
        temperature = input.temperature;
        max_tokens = input.max_tokens;
      } in
      elim emit [
        | none ↦ (env.complete number provider request, false)
        | some emitter ↦ streamed input (
            relay config.maximum_stream_bytes (emitter number) (env.stream number provider request)
              nothing)
      ]

  unfoldable pub lease_failure : Bool → Lease → World → World
  lease_failure retryable lease w = record w {
    router = (Lease.failure retryable (env.times w.reads) lease w.router).1;
    reads = w.reads + 1;
  }

  -- time.Since(started).
  unfoldable pub lease_success : ℤ → Lease → World → World
  unfolding ◌-ℤ◌
  lease_success started lease w = record w {
    router = (Lease.success env.floats (env.times w.reads -ℤ started) lease w.router).1;
    reads = w.reads + 1;
  }

  unfoldable pub save_failure : ℕ → Text → Bool → Bool → Bool → Action World (Unit {0})
  save_failure number category retryable partial final = do
    now ← read_clock env
    on_memory (
        fail_attempt
          (record {
            request_id = r.id;
            tenant_id = principal.tenant_id;
            attempt_number = number;
            category = category;
            retryable = retryable;
            partial = partial;
            final = final;
          })
          now)

  abbrev completed_outcome : ChatResponse → ℤ → Outcome
  completed_outcome response cost = record {
    record' = record r { state = completed; response = some response; cost_micro_usd = cost };
    response = some response;
    replayed = false;
    pending = false;
  }

  -- The rest of a successful call once its response is stored, or is not.
  unfoldable pub after_save :
      Lease → ℤ → ChatResponse → ℤ → Result (Unit {0}) → World → Verdict × World
  unfolding lease_failure lease_success
  after_save lease started response cost (err e) w = (returns (err e), lease_failure false lease w)
  after_save lease started response cost (ok _) w = (
    returns (ok (completed_outcome response cost)),
    (ignore (on_memory (reconcile_budget r.id cost)) (lease_success started lease w)).1,
  )

  unfoldable pub save_completion : ℕ → Completion → ChatResponse → ℤ → Action World (Unit {0})
  save_completion number completion response cost = do
    now ← read_clock env
    on_memory (
        complete_request
          (record {
            request_id = r.id;
            tenant_id = principal.tenant_id;
            attempt_number = number;
            provider_request_id = completion.provider_request_id;
            response = response;
            cost_micro_usd = cost;
          })
          now)

  unfoldable pub save_response : ℕ → Lease → ℤ → Completion → Result ℤ → World → Verdict × World
  unfolding lease_failure build_response save_completion after_save
  save_response number lease started completion (err e) w =
      (returns (err e), lease_failure false lease w)
  save_response number lease started completion (ok cost) w =
      let response = build_response r.id input.model (env.times w.reads) completion in
      let (saved, w') =
        save_completion number completion response cost (record w { reads = w.reads + 1 }) in
      after_save lease started response cost saved w'

  unfoldable pub after_failure : ℕ → Lease → Failure → Bool → Result (Unit {0}) → Verdict
  after_failure number lease e retryable (err e') = returns (err e')
  after_failure number lease e retryable (ok _) =
      if not retryable
      then concludes e
      else elim (env.wait number) [ err e' ↦ gives_up e' | ok _ ↦ retries lease.provider.name e ]

  unfoldable pub may_retry : ℕ → Failure → Bool → Bool
  may_retry number e partial =
      is_retryable e && not partial && ltb_ℤ (pos number) config.max_attempts

  unfoldable pub handle : ℕ → Lease → ℤ → Result Completion × Bool → World → Verdict × World
  unfolding lease_failure save_failure save_response after_failure may_retry
  handle number lease started (ok completion, partial) w =
      save_response number lease started completion
        (cost_micro_usd completion.usage.prompt_tokens completion.usage.completion_tokens
          lease.input_price lease.output_price)
        w
  handle number lease started (err e, partial) w =
      let retryable = may_retry number e partial in
      let (saved, w') =
        save_failure number (error_category e) retryable partial (not retryable)
          (lease_failure retryable lease w) in
      (after_failure number lease e retryable saved, w')

  -- Once the attempt is stored, or is not.
  unfoldable pub on_started : ℕ → Lease → Result (Unit {0}) → World → Verdict × World
  unfolding call handle lease_failure
  on_started number lease (err e) w = (returns (err e), lease_failure false lease w)
  on_started number lease (ok _) w =
      handle number lease (env.times w.reads) (call number lease.provider)
        (record w { reads = w.reads + 1 })

  unfoldable pub on_lease : ℕ → Lease → World → Verdict × World
  unfolding on_started
  on_lease number lease w =
      let (started, w') =
        on_memory
          (start_attempt (record {
            request_id = r.id;
            tenant_id = principal.tenant_id;
            number = number;
            provider_name = lease.provider.name;
            model = input.model;
            correlation_id = correlation_id;
          }))
          w in
      on_started number lease started w'

  unfoldable pub on_selected : ℕ → Result Lease → World → Verdict × World
  unfolding on_lease refused
  on_selected number (err e) w = (refused e, w)
  on_selected number (ok lease) w = on_lease number lease w

  -- The body of the loop. selection.Now is set, so Select reads no clock.
  unfoldable pub attempt : Selection → ℕ → World → Verdict × World
  unfolding on_selected
  attempt selection number w =
      let now = env.times w.reads in
      let (selected, router) =
        select (strategy_of config.strategy) (record selection { now = some now }) now w.router in
      on_selected number selected (record w { router = router; reads = w.reads + 1 })

  -- After the loop: FailAttempt unless the request is final, and ReconcileBudget.
  unfoldable pub finalize : Bool → Failure → Action World Outcome
  unfolding save_failure
  finalize finalized e = do
    (if finalized then pure tt else ignore (save_failure 0 (error_category e) false false true))
    ignore (on_memory (reconcile_budget r.id (pos 0)))
    raise e

  unfoldable pub settle :
      Verdict → World → (Text → Failure → World → Result Outcome × World) → Result Outcome × World
  unfolding finalize
  settle (returns result) w next = (result, w)
  settle (concludes e) w next = finalize true e w
  settle (gives_up e) w next = finalize false e w
  settle (retries name e) w next = next name e w

  -- The loop, with as many attempts left as the first argument says. `last` is lastErr.
  unfoldable pub attempts : ℕ → ℕ → Selection → Option Failure → World → Result Outcome × World
  unfolding attempt settle
  attempts zero number selection last w = elim last [
    | none ↦ finalize false no_eligible_provider w
    | some e ↦ finalize false e w
  ]
  attempts (suc left) number selection last w =
      let (verdict, w') = attempt selection number w in
      settle verdict w' (λ name e w''.
        attempts left (number + 1)
          (record selection { excluded_providers = name ∷ selection.excluded_providers }) (some e)
          w'')

  -- A failed step of the admission also fails the request.
  unfoldable pub or_fail : {A : Type 0} → Action World A → Action World A
  unfolding moves
  or_fail action w =
      let (result, w') = action w in
      elim result [ ok a ↦ (ok a, w') | err e ↦ (err e, (moves validated failed w').1) ]

  abbrev is_exceeded : Failure → Bool
  is_exceeded exceeded = true
  is_exceeded _ = false

  -- The clock is read for the budget's day.
  unfoldable pub reserve : ℤ → Action World (Unit {0})
  unfolding root
  reserve amount w =
      let (reserved, w') =
        on_memory (reserve_budget principal.tenant_id r.id amount)
          (record w { reads = w.reads + 1 }) in
      elim reserved [
        | ok _ ↦ (ok tt, w')
        | err e ↦
            if is_exceeded (root e)
            then (
              err e,
              (on_memory (reject_budget principal.tenant_id r.id (env.times w'.reads))
                  (record w' { reads = w'.reads + 1 })).1,
            )
            else (err e, w')
      ]

  abbrev pub selection_of : TenantPolicy → Selection
  selection_of policy = record {
    model = input.model;
    data_classification = policy.data_classification;
    allowed_providers = policy.allowed_providers;
    excluded_providers = [];
    now = none;
  }

  -- execute, from the reservation on.
  unfoldable pub run_attempts : TenantPolicy → Action World Outcome
  unfolding moves attempts
  run_attempts policy = do
    moves validated routing
    moves routing in_progress
    attempts (pos_part config.max_attempts) 1 (selection_of policy) none

  unfoldable pub reserve_at : TenantPolicy → ℤ × ℤ → Action World Outcome
  unfolding reserve run_attempts
  reserve_at policy prices = do
    reservation ← lift (
        cost_micro_usd (estimate_prompt_tokens input.messages) (max_completion config input)
          prices.0 prices.1)
    reserve reservation
    run_attempts policy

  abbrev pub prices_of : TenantPolicy → Action World (ℤ × ℤ)
  prices_of policy w = (highest_prices w.router (selection_of policy), w)

  unfoldable pub admit_by : TenantPolicy → Action World Outcome
  unfolding or_fail reserve_at ◌+ℤ◌ int64
  admit_by policy = do
    or_fail (
        lift (
          admit env principal policy
            (int64 (estimate_prompt_tokens input.messages +ℤ max_completion config input))))
    prices ← or_fail (prices_of policy)
    reserve_at policy prices

  -- execute, from the creation of the request on.
  unfoldable pub proceed : Action World Outcome
  unfolding moves or_fail admit_by
  proceed = do
    moves received validated
    policy ← or_fail (on_memory (tenant_policy principal.tenant_id))
    admit_by policy

-- What a repeated call returns.
unfoldable pub replay_of : Record → Outcome
replay_of r = elim r.response [
  | none ↦ record { record' = r; response = none; replayed = true; pending = true }
  | some response ↦
      if state_beq r.state completed
      then record { record' = r; response = some response; replayed = true; pending = false }
      else record { record' = r; response = none; replayed = true; pending = true }
]

-- Submit, with no emitter, and Stream, with one.
unfoldable pub execute :
    Env → Config → Principal → Text → Text → ChatInput → Option Emitter → Action World Outcome
unfolding proceed replay_of
execute env config principal idempotency_key correlation_id input emit = do
  lift (validate input)
  hash ← lift (env.hash input)
  now ← read_clock env
  found ← on_memory (
      create_or_get_request
        (record {
          tenant_id = principal.tenant_id;
          api_key_id = principal.api_key_id;
          user_id = principal.user_id;
          idempotency_key = idempotency_key;
          canonical_hash = hash;
          input = input;
          correlation_id = correlation_id;
        })
        env.fresh now)
  if found.1
      then proceed env config principal correlation_id input emit found.0
      else pure (replay_of found.0)

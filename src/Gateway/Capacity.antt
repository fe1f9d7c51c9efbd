-- ===== src/Gateway/Capacity.antt =====
-- What `execute` of internal/gateway/service.go does to the router's capacity.
use aegis_ai_platform.Prelude.{
  ℕ, zero, suc, ◌+◌, ℤ, pos_part, ◌+ℤ◌, int64, Text, Bool, true, false, List, ◌∷◌, Option, none,
  some, ◌≡◌, refl, ap, subst, sym, inl, inr, arith, if◌then◌else◌,
}
use aegis_ai_platform.Errors.{Result, ok, err, Failure, Result-cases, no_eligible_provider}
use aegis_ai_platform.Action.{Action, ◌>>=◌, lift, pure}
use aegis_ai_platform.Auth.{Principal}
use aegis_ai_platform.Request.{
  validate, ChatInput, ChatResponse, Record, State, received, validated, routing, in_progress,
  failed,
}
use aegis_ai_platform.Provider.{Completion}
use aegis_ai_platform.Routing.Entry.{Router, Selection}
use aegis_ai_platform.Routing.Select.{Lease, select}
use aegis_ai_platform.Routing.Balance.{IsBalanced}
use aegis_ai_platform.Routing.Session.{selects, misses, Step-IsBalanced}
use aegis_ai_platform.Store.{create_or_get_request, TenantPolicy, tenant_policy}
use aegis_ai_platform.Gateway.{Config, strategy_of, estimate_prompt_tokens}
use aegis_ai_platform.Gateway.World.{
  Env, World, Outcome, Emitter, Verdict, returns, concludes, gives_up, retries, on_memory, admit,
  max_completion, read_clock,
}
use aegis_ai_platform.Gateway.Execute.{
  moves, call, save_failure, after_save, save_response, handle, on_started, on_lease, on_selected,
  attempt, finalize, settle, attempts, selection_of, or_fail, reserve, run_attempts, reserve_at,
  prices_of, admit_by, replay_of, proceed, execute,
}
use aegis_ai_platform.Gateway.Settled.{
  Holds, Keeps, lease_success-Holds, lease_failure-Holds, >>=-Keeps,
}

-- One request, while other callers hold some leases.
module _ (env : Env) (config : Config) (principal : Principal) (correlation_id : Text)
    (input : ChatInput) (emit : Option Emitter) (r : Record) (leases : List Lease) where
  moves-Keeps :
      (from to : State)
      → Keeps leases (moves env config principal correlation_id input emit r from to)
  unfolding moves
  moves-Keeps from to w v = v

  save_failure-Keeps :
      (number : ℕ) (category : Text) (retryable partial final : Bool)
      → Keeps leases (
          save_failure env config principal correlation_id input emit r number category retryable
            partial final)
  unfolding save_failure
  save_failure-Keeps number category retryable partial final w v = v

  after_save-Holds :
      (lease : Lease) (started : ℤ) (response : ChatResponse) (cost : ℤ) (saved : Result (Unit {0}))
      (w : World)
      → Holds (lease ∷ leases) w
      → Holds leases
          (after_save env config principal correlation_id input emit r lease started response cost
            saved w).1
  unfolding after_save
  after_save-Holds lease started response cost (err e) w v =
      lease_failure-Holds env config principal correlation_id input emit r false lease leases w v
  after_save-Holds lease started response cost (ok _) w v =
      lease_success-Holds env config principal correlation_id input emit r started lease leases w v

  save_response-Holds :
      (number : ℕ) (lease : Lease) (started : ℤ) (completion : Completion) (cost : Result ℤ)
      (w : World)
      → Holds (lease ∷ leases) w
      → Holds leases
          (save_response env config principal correlation_id input emit r number lease started
            completion cost w).1
  unfolding save_response
  save_response-Holds number lease started completion (err e) w v =
      lease_failure-Holds env config principal correlation_id input emit r false lease leases w v
  save_response-Holds number lease started completion (ok cost) w v =
      after_save-Holds lease started _ cost _ _ v

  handle-Holds :
      (number : ℕ) (lease : Lease) (started : ℤ) (result : Result Completion) (partial : Bool)
      (w : World)
      → Holds (lease ∷ leases) w
      → Holds leases
          (handle env config principal correlation_id input emit r number lease started
            (result, partial)
            w).1
  unfolding handle
  handle-Holds number lease started (ok completion) partial w v =
      save_response-Holds number lease started completion _ w v
  handle-Holds number lease started (err e) partial w v =
      lease_failure-Holds env config principal correlation_id input emit r _ lease leases w v

  on_started-Holds :
      (number : ℕ) (lease : Lease) (started : Result (Unit {0})) (w : World)
      → Holds (lease ∷ leases) w
      → Holds leases
          (on_started env config principal correlation_id input emit r number lease started w).1
  unfolding on_started
  on_started-Holds number lease (err e) w v =
      lease_failure-Holds env config principal correlation_id input emit r false lease leases w v
  on_started-Holds number lease (ok _) w v =
      let answer = call env config principal correlation_id input emit r number lease.provider in
      handle-Holds number lease (env.times w.reads) answer.0 answer.1
        (record w { reads = w.reads + 1 }) v

  on_lease-Holds :
      (number : ℕ) (lease : Lease) (w : World)
      → Holds (lease ∷ leases) w
      → Holds leases (on_lease env config principal correlation_id input emit r number lease w).1
  unfolding on_lease
  on_lease-Holds number lease w v = on_started-Holds number lease _ _ v

  on_selected-Holds :
      (number : ℕ) (selected : Result Lease) (w : World)
      → ((lease : Lease) → selected ≡ ok lease → Holds (lease ∷ leases) w)
      → ((e : Failure) → selected ≡ err e → Holds leases w)
      → Holds leases
          (on_selected env config principal correlation_id input emit r number selected w).1
  unfolding on_selected
  on_selected-Holds number (err e) w granted refused = refused e refl
  on_selected-Holds number (ok lease) w granted refused =
      on_lease-Holds number lease w (granted lease refl)

  attempt-Holds :
      (selection : Selection) (number : ℕ) (w : World)
      → Holds leases w
      → Holds leases (attempt env config principal correlation_id input emit r selection number w).1
  unfolding attempt
  attempt-Holds selection number w v =
      on_selected-Holds number _ _
        (λ lease e.
          Step-IsBalanced env.floats
            (selects (strategy_of config.strategy) (record selection { now = some now }) now
              (ap (λ s. (s, router)) e))
            v)
        (λ x e.
          Step-IsBalanced env.floats
            (misses (strategy_of config.strategy) (record selection { now = some now }) now
              (ap (λ s. (s, router)) e))
            v)
    where
      now : ℤ
      now = env.times w.reads

      router : Router
      router =
          (select (strategy_of config.strategy) (record selection { now = some now }) now
            w.router).1

  finalize-Keeps :
      (finalized : Bool) (e : Failure)
      → Keeps leases (finalize env config principal correlation_id input emit r finalized e)
  unfolding finalize
  finalize-Keeps true e w v = v
  finalize-Keeps false e w v = v

  settle-Holds :
      (verdict : Verdict) (w : World) (next : Text → Failure → World → Result Outcome × World)
      → Holds leases w
      → ((name : Text) (e : Failure) (w' : World)
          → Holds leases w'
          → Holds leases (next name e w').1)
      → Holds leases (settle env config principal correlation_id input emit r verdict w next).1
  unfolding settle
  settle-Holds (returns result) w next v h = v
  settle-Holds (concludes e) w next v h = finalize-Keeps true e w v
  settle-Holds (gives_up e) w next v h = finalize-Keeps false e w v
  settle-Holds (retries name e) w next v h = h name e w v

  attempts-Keeps :
      (left number : ℕ) (selection : Selection) (last : Option Failure) (w : World)
      → Holds leases w
      → Holds leases
          (attempts env config principal correlation_id input emit r left number selection last w).1
  unfolding attempts
  attempts-Keeps zero number selection none w v = finalize-Keeps false no_eligible_provider w v
  attempts-Keeps zero number selection (some e) w v = finalize-Keeps false e w v
  attempts-Keeps (suc left) number selection last w v =
      settle-Holds _ _ _ (attempt-Holds selection number w v) (λ name e w'.
        attempts-Keeps left (number + 1)
          (record selection { excluded_providers = name ∷ selection.excluded_providers }) (some e)
          w')

  or_fail-Keeps :
      {A : Type 0} (action : Action World A)
      → Keeps leases action
      → Keeps leases (or_fail env config principal correlation_id input emit r action)
  unfolding or_fail
  or_fail-Keeps action k w v = elim (Result-cases (action w).0) [
    | inl (a, e) ↦ rw (e, or_fail) (k w v)
    | inr (x, e) ↦ rw (e, or_fail) (moves-Keeps validated failed (action w).1 (k w v))
  ]

  reserve-router :
      (amount : ℤ) (w : World)
      → (reserve env config principal correlation_id input emit r amount w).1.router ≡ w.router
  unfolding reserve
  reserve-router amount w = ground arith

  reserve-Keeps :
      (amount : ℤ) → Keeps leases (reserve env config principal correlation_id input emit r amount)
  reserve-Keeps amount w v = subst (λ q. IsBalanced q leases) (sym (reserve-router amount w)) v

  run_attempts-Keeps :
      (policy : TenantPolicy)
      → Keeps leases (run_attempts env config principal correlation_id input emit r policy)
  unfolding run_attempts
  run_attempts-Keeps policy =
      >>=-Keeps leases (moves env config principal correlation_id input emit r validated routing)
        (λ _. moves env config principal correlation_id input emit r routing in_progress >>= loop)
        (moves-Keeps validated routing)
        (λ _.
          >>=-Keeps leases
            (moves env config principal correlation_id input emit r routing in_progress) loop
            (moves-Keeps routing in_progress)
            (λ _. attempts-Keeps (pos_part config.max_attempts) 1 selection none))
    where
      selection : Selection
      selection = selection_of env config principal correlation_id input emit r policy

      loop : Unit {0} → Action World Outcome
      loop _ =
          attempts env config principal correlation_id input emit r (pos_part config.max_attempts) 1
            selection none

  reserve_at-Keeps :
      (policy : TenantPolicy) (prices : ℤ × ℤ)
      → Keeps leases (reserve_at env config principal correlation_id input emit r policy prices)
  unfolding reserve_at
  reserve_at-Keeps policy prices =
      >>=-Keeps leases (lift _) next (λ w v. v)
        (λ reservation.
          >>=-Keeps leases (reserve env config principal correlation_id input emit r reservation)
            (λ _. run_attempts env config principal correlation_id input emit r policy)
            (reserve-Keeps reservation) (λ _. run_attempts-Keeps policy))
    where
      next : ℤ → Action World Outcome
      next reservation =
          reserve env config principal correlation_id input emit r reservation >>= λ _.
          run_attempts env config principal correlation_id input emit r policy

  admit_by-Keeps :
      (policy : TenantPolicy)
      → Keeps leases (admit_by env config principal correlation_id input emit r policy)
  unfolding admit_by
  admit_by-Keeps policy =
      >>=-Keeps leases (or_fail env config principal correlation_id input emit r admission)
        (λ _. priced) (or_fail-Keeps admission (λ w v. v))
        (λ _.
          >>=-Keeps leases
            (or_fail env config principal correlation_id input emit r
              (prices_of env config principal correlation_id input emit r policy))
            (reserve_at env config principal correlation_id input emit r policy)
            (or_fail-Keeps (prices_of env config principal correlation_id input emit r policy)
              (λ w v. v))
            (reserve_at-Keeps policy))
    where
      admission : Action World (Unit {0})
      admission = lift (
          admit env principal policy
            (int64 (estimate_prompt_tokens input.messages +ℤ max_completion config input)))

      priced : Action World Outcome
      priced =
          or_fail env config principal correlation_id input emit r
            (prices_of env config principal correlation_id input emit r policy)
          >>= reserve_at env config principal correlation_id input emit r policy

  proceed-Keeps : Keeps leases (proceed env config principal correlation_id input emit r)
  unfolding proceed
  proceed-Keeps =
      >>=-Keeps leases (moves env config principal correlation_id input emit r received validated)
        (λ _. rest) (moves-Keeps received validated)
        (λ _.
          >>=-Keeps leases (or_fail env config principal correlation_id input emit r policy_of)
            (admit_by env config principal correlation_id input emit r)
            (or_fail-Keeps policy_of (λ w v. v)) admit_by-Keeps)
    where
      policy_of : Action World TenantPolicy
      policy_of = on_memory (tenant_policy principal.tenant_id)

      rest : Action World Outcome
      rest =
          or_fail env config principal correlation_id input emit r policy_of
          >>= admit_by env config principal correlation_id input emit r

-- After the creation of the request, or its replay.
found-Keeps :
    (env : Env) (config : Config) (principal : Principal) (correlation_id : Text)
    (input : ChatInput) (emit : Option Emitter) (leases : List Lease) (r : Record) (created : Bool)
    → Keeps leases (
        if created
        then proceed env config principal correlation_id input emit r
        else pure (replay_of r))
found-Keeps env config principal correlation_id input emit leases r true =
    proceed-Keeps env config principal correlation_id input emit r leases
found-Keeps env config principal correlation_id input emit leases r false = λ w v. v

execute-Keeps :
    (env : Env) (config : Config) (principal : Principal) (key correlation_id : Text)
    (input : ChatInput) (emit : Option Emitter) (leases : List Lease)
    → Keeps leases (execute env config principal key correlation_id input emit)
unfolding execute
execute-Keeps env config principal key correlation_id input emit leases w v =
    elim (Result-cases (validate input)) [
      | inr (x, e) ↦ rw (e, execute) v
      | inl (_, e) ↦ elim (Result-cases (env.hash input)) [
        | inr (x, f) ↦ rw (e, f, execute) v
        | inl (hash, f) ↦ rw (e, f, execute) (created hash)
      ]
    ]
  where
    finds : List ℕ → ℤ → Action World (Record × Bool)
    finds hash now = on_memory (
        create_or_get_request
          (record {
            tenant_id = principal.tenant_id;
            api_key_id = principal.api_key_id;
            user_id = principal.user_id;
            idempotency_key = key;
            canonical_hash = hash;
            input = input;
            correlation_id = correlation_id;
          })
          env.fresh now)

    next : Record × Bool → Action World Outcome
    next found =
        if found.1
        then proceed env config principal correlation_id input emit found.0
        else pure (replay_of found.0)

    created :
        (hash : List ℕ) → Holds leases ((read_clock env >>= λ now. finds hash now >>= next) w).1
    created hash =
        >>=-Keeps leases (read_clock env) (λ now. finds hash now >>= next) (λ w' v'. v')
          (λ now.
            >>=-Keeps leases (finds hash now) next (λ w' v'. v')
              (λ found.
                found-Keeps env config principal correlation_id input emit leases found.0 found.1))
          w v

-- Whatever the providers, the limiter, the clock and the emitter do, and however a request ends,
-- handling it gives back all the capacity that it took: if before, each provider's semaphore and
-- outstanding count held what other callers' leases hold, within its concurrency, so they do after.
pub execute-IsBalanced :
    (env : Env) (config : Config) (principal : Principal) (key correlation_id : Text)
    (input : ChatInput) (emit : Option Emitter) (leases : List Lease) (w : World)
    → IsBalanced w.router leases
    → IsBalanced (execute env config principal key correlation_id input emit w).1.router leases
execute-IsBalanced env config principal key correlation_id input emit leases w v =
    execute-Keeps env config principal key correlation_id input emit leases w v

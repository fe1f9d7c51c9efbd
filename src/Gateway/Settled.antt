-- ===== src/Gateway/Settled.antt =====
-- What the outcome of a lease, and an action, of internal/gateway/service.go leaves of the capacity
-- that other leases hold.
use aegis_ai_platform.Prelude.{
  ℕ, ℤ, ◌-ℤ◌, Text, Bool, true, List, ◌∷◌, Option, ◌≡◌, refl, subst, inl, inr, arith,
}
use aegis_ai_platform.Errors.{Result-cases}
use aegis_ai_platform.Action.{Action, ◌>>=◌}
use aegis_ai_platform.Auth.{Principal}
use aegis_ai_platform.Request.{ChatInput, Record}
use aegis_ai_platform.Routing.Entry.{Router}
use aegis_ai_platform.Routing.Select.{Lease}
use aegis_ai_platform.Routing.Lease
use aegis_ai_platform.Routing.Lease.{FloatOps, finish}
use aegis_ai_platform.Routing.Balance.{IsBalanced, IsCounted, live}
use aegis_ai_platform.Routing.Session.{succeeds, fails, Step-IsBalanced}
use aegis_ai_platform.Gateway.{Config}
use aegis_ai_platform.Gateway.World.{Env, World, Emitter}
use aegis_ai_platform.Gateway.Execute.{lease_failure, lease_success}

-- A router as callers with these leases left it.
abbrev pub Holds : List Lease → World → Type 0
Holds leases w = IsBalanced w.router leases

-- The first of some leases is settled: its own outcome, and no lease on it is left.
live-settled :
    (lease : Lease) (leases : List Lease) (j : ℕ)
    → lease.released ≡ true
    → live j (lease ∷ leases) ≡ live j leases
unfolding live
live-settled lease leases j e = rw e (omega arith)

success-released :
    (fl : FloatOps) (latency : ℤ) (lease : Lease) (r : Router)
    → (Lease.success fl latency lease r).0.released ≡ true
unfolding Lease.success
success-released fl latency lease r = ground arith

failure-released :
    (retryable : Bool) (now : ℤ) (lease : Lease) (r : Router)
    → (Lease.failure retryable now lease r).0.released ≡ true
unfolding Lease.failure
failure-released retryable now lease r = ground arith

forget-settled :
    (lease : Lease) (leases : List Lease) (r : Router)
    → lease.released ≡ true
    → IsBalanced r (lease ∷ leases)
    → IsBalanced r leases
forget-settled lease leases r e v = record {
  counted = λ j m h. subst (λ n. IsCounted n m) (live-settled lease leases j e) (v.counted j m h);
}

-- Reporting an outcome of the first lease leaves what the other leases hold.
pub lease_success-Holds :
    (env : Env) (config : Config) (principal : Principal) (correlation_id : Text)
    (input : ChatInput) (emit : Option Emitter) (r : Record) (started : ℤ) (lease : Lease)
    (leases : List Lease) (w : World)
    → Holds (lease ∷ leases) w
    → Holds leases (lease_success env config principal correlation_id input emit r started lease w)
unfolding lease_success
lease_success-Holds env config principal correlation_id input emit r started lease leases w v =
    forget-settled _ leases _
      (success-released env.floats (env.times w.reads -ℤ started) lease w.router)
      (Step-IsBalanced env.floats (succeeds {lease = lease} 0 (env.times w.reads -ℤ started) refl)
        v)

pub lease_failure-Holds :
    (env : Env) (config : Config) (principal : Principal) (correlation_id : Text)
    (input : ChatInput) (emit : Option Emitter) (r : Record) (retryable : Bool) (lease : Lease)
    (leases : List Lease) (w : World)
    → Holds (lease ∷ leases) w
    → Holds leases
        (lease_failure env config principal correlation_id input emit r retryable lease w)
unfolding lease_failure
lease_failure-Holds env config principal correlation_id input emit r retryable lease leases w v =
    forget-settled _ leases _ (failure-released retryable (env.times w.reads) lease w.router)
      (Step-IsBalanced env.floats (fails {lease = lease} 0 retryable (env.times w.reads) refl) v)

-- An action that leaves the capacity that some leases hold as it was.
abbrev pub Keeps : List Lease → {A : Type 0} → Action World A → Type 0
Keeps leases action = (w : World) → Holds leases w → Holds leases (action w).1

pub >>=-Keeps :
    {A B : Type 0} (leases : List Lease) (m : Action World A) (f : A → Action World B)
    → Keeps leases m
    → ((a : A) → Keeps leases (f a))
    → Keeps leases (m >>= f)
>>=-Keeps leases m f k h w v = elim (Result-cases (m w).0) [
  | inl (a, e) ↦ rw e (h a (m w).1 (k w v))
  | inr (x, e) ↦ rw e (k w v)
]

-- ===== src/Routing/Session.antt =====
-- A router of internal/routing/router.go together with the leases that its callers hold.
use aegis_ai_platform.Prelude.{
  ℕ, zero, suc, ◌+◌, ℤ, ◌+ℤ◌, Bool, true, false, List, [], ◌∷◌, none, some, get_elem?, set,
  if◌then◌else◌, ◌≡◌, ap, subst, inl, inr, arith, Option-cases, nat_eq,
}
use aegis_ai_platform.Errors.{Failure, ok, err, Result-cases}
use aegis_ai_platform.Provider.{Provider}
use aegis_ai_platform.Breaker
use aegis_ai_platform.Breaker.{Config}
use aegis_ai_platform.Routing.Strategy.{Strategy}
use aegis_ai_platform.Routing.Entry.{
  ProviderConfig, Managed, Router, Selection, manage, register, new,
}
use aegis_ai_platform.Routing.Select.{Lease, select}
use aegis_ai_platform.Routing.Lease.{FloatOps, measure, on_breaker, success, failure}
use aegis_ai_platform.Routing.Load.{
  IsLoaded, add_zero_ℤ, taken, leased_of, select-Becomes, select-none, select-fresh,
}
use aegis_ai_platform.Routing.Balance.{live, IsCounted, IsBalanced, finish-IsBalanced}

-- What happens to a router and the leases that its callers hold: a selection, or the outcome of
-- some lease, also of one that has had an outcome before.
pub data Step (fl : FloatOps) : Router → List Lease → Router → List Lease → Type 0 where
  selects :
      {r r' : Router} {leases : List Lease} {lease : Lease} (strategy : Strategy) (s : Selection)
      (clock : ℤ)
      → select strategy s clock r ≡ (ok lease, r')
      → Step fl r leases r' (lease ∷ leases)
  misses :
      {r r' : Router} {leases : List Lease} {e : Failure} (strategy : Strategy) (s : Selection)
      (clock : ℤ)
      → select strategy s clock r ≡ (err e, r')
      → Step fl r leases r' leases
  succeeds :
      {r : Router} {leases : List Lease} {lease : Lease} (k : ℕ) (latency : ℤ)
      → get_elem? leases k ≡ some lease
      → Step fl r leases
          (success fl latency lease r).1
          (set leases k (success fl latency lease r).0)
  fails :
      {r : Router} {leases : List Lease} {lease : Lease} (k : ℕ) (retryable : Bool) (now : ℤ)
      → get_elem? leases k ≡ some lease
      → Step fl r leases
          (failure retryable now lease r).1
          (set leases k (failure retryable now lease r).0)

pub data Reach (fl : FloatOps) (r : Router) (leases : List Lease)
    : Router → List Lease → Type 0 where
  here : Reach fl r leases r leases
  next :
      {r' r'' : Router} {leases' leases'' : List Lease}
      → Reach fl r leases r' leases'
      → Step fl r' leases' r'' leases''
      → Reach fl r leases r'' leases''

IsCounted-more : (k n : ℕ) (m m' : Managed) → IsLoaded k m m' → IsCounted n m → IsCounted (k + n) m'
unfolding ◌+ℤ◌
IsCounted-more k n m m' f c = ground arith

select-IsCounted :
    (strategy : Strategy) (s : Selection) (clock : ℤ) (r : Router) (leases : List Lease)
    → IsBalanced r leases
    → (j : ℕ) (m' : Managed) → get_elem? (select strategy s clock r).1.providers j ≡ some m'
    → IsCounted (taken (leased_of (select strategy s clock r).0) j + live j leases) m'
select-IsCounted strategy s clock r leases v j m' h' =
    elim (Option-cases (get_elem? r.providers j)) [
      | inl e ↦ cc (select-none strategy s clock r j e)
      | inr (m, h) ↦
          let (m'', h'', f) = select-Becomes strategy s clock r j m h in
          let equal : m'' ≡ m' = ground arith in
          rw (← equal) (IsCounted-more _ (live j leases) m m'' f (v.counted j m h))
    ]

pub measure_keeps :
    (fl : FloatOps) (latency : ℤ) (m : Managed)
    → IsLoaded 0 m (on_breaker Breaker.success (measure fl latency m))
unfolding measure
measure_keeps fl latency m = ground (arith, add_zero_ℤ m.outstanding)

pub outcome_keeps :
    (retryable : Bool) (now : ℤ) (m : Managed)
    → IsLoaded 0 m (
        (if retryable then on_breaker (λ b. Breaker.failure b now) else on_breaker Breaker.release)
          m)
outcome_keeps true now m = ground (arith, add_zero_ℤ m.outstanding)
outcome_keeps false now m = ground (arith, add_zero_ℤ m.outstanding)

pub Step-IsBalanced :
    (fl : FloatOps) {r r' : Router} {leases leases' : List Lease}
    → Step fl r leases r' leases'
    → IsBalanced r leases
    → IsBalanced r' leases'
unfolding live success failure
Step-IsBalanced fl (selects {r} {r'} {leases} {lease} strategy s clock h) v =
    let fresh = select-fresh strategy s clock r (ap (λ p. p.0) h) in
    let count = select-IsCounted strategy s clock r leases v in
    record {
      counted = λ j m' h'.
          let here' : get_elem? (select strategy s clock r).1.providers j ≡ some m' = rw h h' in
          let c : IsCounted (taken (some lease) j + live j leases) m' =
            rw h at (count j m' here') in
          rw fresh c;
    }
Step-IsBalanced fl (misses {r} {r'} {leases} strategy s clock h) v =
    let count = select-IsCounted strategy s clock r leases v in
    record {
      counted = λ j m' h'.
          let here' : get_elem? (select strategy s clock r).1.providers j ≡ some m' = rw h h' in
          let c : IsCounted (0 + live j leases) m' = rw h at (count j m' here') in
          subst (λ n. IsCounted n m') (omega arith) c;
    }
Step-IsBalanced fl (succeeds {r} {leases} {lease} k latency h) v =
    finish-IsBalanced _ (measure_keeps fl latency) r leases k lease h v
Step-IsBalanced fl (fails {r} {leases} {lease} k retryable now h) v =
    finish-IsBalanced _ (outcome_keeps retryable now) r leases k lease h v

abbrev IsIdle : List Managed → Type 0
IsIdle ms = (j : ℕ) (m : Managed) → get_elem? ms j ≡ some m → IsCounted 0 m

manage-IsCounted :
    (config : ProviderConfig) (breaker_config : Config) (provider : Provider)
    → IsCounted 0 (manage config breaker_config provider)
unfolding manage
manage-IsCounted config breaker_config provider = ground arith

IsIdle-cons : (m : Managed) (ms : List Managed) → IsCounted 0 m → IsIdle ms → IsIdle (m ∷ ms)
IsIdle-cons m ms c idle zero m' h = let same : m ≡ m' = ground arith in rw (← same) c
IsIdle-cons m ms c idle (suc j) m' h = idle j m' h

register-IsIdle :
    (configs : List ProviderConfig) (breaker_config : Config) (ms : List Managed)
    → register configs breaker_config ≡ ok ms
    → IsIdle ms
unfolding register
register-IsIdle [] breaker_config ms e = λ j m h.
    let empty : [] ≡ ms = ground arith in let none' : none ≡ some m = rw (← empty) at h in cc
register-IsIdle (config ∷ configs) breaker_config ms e = elim (Option-cases config.provider) [
  | inl missing ↦ cc (rw (missing, register) at e)
  | inr (provider, given) ↦ elim (Result-cases (register configs breaker_config)) [
    | inl (rest, more) ↦
        let built : manage config breaker_config provider ∷ rest ≡ ms =
          ground (arith, rw (given, register, more) at e) in
        rw (← built) (
          IsIdle-cons _ rest (manage-IsCounted config breaker_config provider)
            (register-IsIdle configs breaker_config rest more))
    | inr (f, failed) ↦ cc (rw (given, register, failed) at e)
  ]
]

new-IsBalanced :
    (configs : List ProviderConfig) (breaker_config : Config) (r : Router)
    → new configs breaker_config ≡ ok r
    → IsBalanced r []
unfolding new live
new-IsBalanced [] breaker_config r e = cc
new-IsBalanced (config ∷ configs) breaker_config r e =
    elim (Result-cases (register (config ∷ configs) breaker_config)) [
      | inl (ms, built) ↦
          let same : r.providers ≡ ms = ground (arith, built) in
          record {
            counted = λ j m h.
                register-IsIdle (config ∷ configs) breaker_config ms built j m (rw (← same) h);
          }
      | inr (f, failed) ↦ cc (rw failed at e)
    ]

Reach-IsBalanced :
    (fl : FloatOps) (configs : List ProviderConfig) (breaker_config : Config) {r r' : Router}
    {leases : List Lease}
    → new configs breaker_config ≡ ok r
    → Reach fl r [] r' leases
    → IsBalanced r' leases
unfolding new
Reach-IsBalanced fl configs breaker_config {r} e here = new-IsBalanced configs breaker_config r e
Reach-IsBalanced fl configs breaker_config e (next before step) =
    Step-IsBalanced fl step (Reach-IsBalanced fl configs breaker_config e before)

-- In every state that callers can bring a new router to, the semaphore of each provider holds one
-- token, and its outstanding count one call, for each lease on it that has had no outcome, and no
-- provider has more than its configured concurrency.
pub Reach-IsCounted :
    (fl : FloatOps) (configs : List ProviderConfig) (breaker_config : Config) {r r' : Router}
    {leases : List Lease} (j : ℕ) (m : Managed)
    → new configs breaker_config ≡ ok r
    → Reach fl r [] r' leases
    → get_elem? r'.providers j ≡ some m
    → IsCounted (live j leases) m
Reach-IsCounted fl configs breaker_config j m e reach h =
    (Reach-IsBalanced fl configs breaker_config e reach).counted j m h

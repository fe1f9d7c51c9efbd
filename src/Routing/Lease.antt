-- ===== src/Routing/Lease.antt =====
-- The outcome of a lease in internal/routing/router.go: `Success`, `Failure` and `release`.
use aegis_ai_platform.Prelude.{
  ℕ, ◌-◌, ℤ, pos, ◌-ℤ◌, quo, Bool, true, none, some, get_elem?, set, ◌==◌, int_eq, if◌then◌else◌,
}
use aegis_ai_platform.Request.{Float64}
use aegis_ai_platform.Breaker
use aegis_ai_platform.Breaker.{Breaker}
use aegis_ai_platform.Routing.Entry.{Managed, Router}
use aegis_ai_platform.Routing.Select.{Lease}

-- What the hardware does for float64 arithmetic.
pub record FloatOps : Type 0 where
  pub of_int : ℤ → Float64
  pub add : Float64 → Float64 → Float64
  pub mul : Float64 → Float64 → Float64
  pub one_fifth : Float64
  pub four_fifths : Float64

-- An update through the entry's pointer.
unfoldable pub update : ℕ → (Managed → Managed) → Router → Router
update i f r = elim (get_elem? r.providers i) [
  | none ↦ r
  | some m ↦ record r { providers = set r.providers i (f m) }
]

-- The receive from the semaphore, and outstanding.Add(-1). The receive would wait on an empty
-- channel: no unreleased lease finds one.
unfoldable pub give_back : Managed → Managed
unfolding ◌-ℤ◌
give_back m = record m { in_use = m.in_use - 1; outstanding = m.outstanding -ℤ pos 1 }

unfoldable pub measure : FloatOps → ℤ → Managed → Managed
unfolding quo
measure fl latency m =
    let measurement = fl.of_int (quo latency 1_000_000) in
    if m.ewma_ms == pos 0 then record m { ewma_ms = measurement } else record m {
      ewma_ms = fl.add (fl.mul fl.one_fifth measurement) (fl.mul fl.four_fifths m.ewma_ms);
    }

abbrev pub on_breaker : (Breaker → Breaker) → Managed → Managed
on_breaker f m = record m { breaker = f m.breaker }

-- CompareAndSwap lets the first outcome through.
unfoldable pub finish : (Managed → Managed) → Lease → Router → Lease × Router
unfolding update give_back
finish outcome lease r =
    if lease.released
    then (lease, r)
    else (record lease { released = true }, update lease.entry (λ m. outcome (give_back m)) r)

unfoldable pub success : FloatOps → ℤ → Lease → Router → Lease × Router
unfolding finish measure
success fl latency = finish (λ m. on_breaker Breaker.success (measure fl latency m))

unfoldable pub failure : Bool → ℤ → Lease → Router → Lease × Router
unfolding finish
failure retryable now =
    finish
      (if retryable then on_breaker (λ b. Breaker.failure b now) else on_breaker Breaker.release)

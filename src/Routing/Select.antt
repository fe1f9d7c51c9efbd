-- ===== src/Routing/Select.antt =====
-- `Select` and `HighestPrices` of internal/routing/router.go.
use aegis_ai_platform.Prelude.{
  ℕ, suc, ◌+◌, ℤ, pos, ◌+ℤ◌, max_ℤ, Bool, true, false, not, List, [], ◌∷◌, Option, none, some,
  get_elem?, set, if◌then◌else◌,
}
use mathlib.Core.Option
use aegis_ai_platform.Errors.{Result, ok, err, no_eligible_provider, panicked}
use aegis_ai_platform.Provider.{Provider}
use aegis_ai_platform.Breaker.{allow, release}
use aegis_ai_platform.Routing.Strategy.{Strategy}
use aegis_ai_platform.Routing.Entry.{Managed, Router, Selection, permits, is_eligible, has_capacity}
use aegis_ai_platform.Routing.Order.{Candidate, order, divides_by_zero, next_sequence}

-- `entry` is the place of the leased entry, and `released` guards against a second outcome.
pub record Lease : Type 0 where
  pub provider : Provider
  pub timeout : ℤ
  pub input_price : ℤ
  pub output_price : ℤ
  pub entry : ℕ
  pub released : Bool

unfoldable pub eligible : Selection → ℤ → ℕ → List Managed → List Candidate
unfolding is_eligible
eligible s now i [] = []
eligible s now i (m ∷ ms) =
    let rest = eligible s now (suc i) ms in if is_eligible s now m then (i, m) ∷ rest else rest

-- Allow, and then the send to the semaphore, which fails if the channel is full.
unfoldable pub try_entry : ℤ → Managed → Managed × Bool
unfolding has_capacity ◌+ℤ◌
try_entry now m =
    let (breaker, granted) = allow m.breaker now in
    if not granted
    then (record m { breaker = breaker }, false)
    else if has_capacity m
    then (
      record m { breaker = breaker; in_use = m.in_use + 1; outstanding = m.outstanding +ℤ pos 1 },
      true,
    )
    else (record m { breaker = release breaker }, false)

unfoldable pub lease_of : ℕ → Managed → Lease
lease_of i m = record {
  provider = m.provider;
  timeout = m.timeout;
  input_price = m.input_price;
  output_price = m.output_price;
  entry = i;
  released = false;
}

-- The loop over the ordered entries: the lease of the first that can be had.
unfoldable pub acquire : ℤ → List Candidate → List Managed → Option Lease × List Managed
unfolding try_entry lease_of
acquire now [] ms = (none, ms)
acquire now (c ∷ cs) ms = elim (get_elem? ms c.0) [
  | none ↦ acquire now cs ms
  | some m ↦
      let (m', leased) = try_entry now m in
      let ms' = set ms c.0 m' in
      let rest = acquire now cs ms' in if leased then (some (lease_of c.0 m), ms') else rest
]

unfoldable pub or_none : Option Lease → Result Lease
or_none none = err no_eligible_provider
or_none (some lease) = ok lease

-- Select from its second `if` on, over the eligible entries.
unfoldable pub select_from : Strategy → ℤ → List Candidate → Router → Result Lease × Router
unfolding acquire or_none next_sequence
select_from strategy now [] r = (err no_eligible_provider, r)
select_from strategy now (c ∷ cs) r =
    let (ordered, sequence) = order strategy r.sequence (c ∷ cs) in
    let (leased, providers) = acquire now ordered r.providers in
    if divides_by_zero strategy (c ∷ cs)
    then (err (panicked "integer divide by zero"), record r { sequence = next_sequence r.sequence })
    else (or_none leased, record { providers = providers; sequence = sequence })

-- `clock` is what time.Now returns.
unfoldable pub select : Strategy → Selection → ℤ → Router → Result Lease × Router
unfolding eligible select_from
select strategy s clock r =
    let now = Option.get_or s.now clock in select_from strategy now (eligible s now 0 r.providers) r

pub record Prices : Type 0 where
  pub found : Bool
  pub input : ℤ
  pub output : ℤ

unfoldable pub raise : Selection → Managed → Prices → Prices
unfolding permits max_ℤ
raise s m p =
    if permits s m
    then record {
      found = true;
      input = max_ℤ p.input m.input_price;
      output = max_ℤ p.output m.output_price;
    }
    else p

unfoldable pub raise_all : Selection → List Managed → Prices → Prices
unfolding raise
raise_all s [] p = p
raise_all s (m ∷ ms) p = raise_all s ms (raise s m p)

unfoldable pub highest_prices : Router → Selection → Result (ℤ × ℤ)
unfolding raise_all
highest_prices r s =
    let p = raise_all s r.providers (record { found = false; input = pos 0; output = pos 0 }) in
    if p.found then ok (p.input, p.output) else err no_eligible_provider

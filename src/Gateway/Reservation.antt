-- ===== src/Gateway/Reservation.antt =====
-- Why the budget that `execute` of internal/gateway/service.go reserves is enough.
use aegis_ai_platform.Prelude.{ℤ, ◌≤ℤ◌, Text, text_eq, true, List, Option, ◌≡◌, arith}
use aegis_ai_platform.Errors.{ok}
use aegis_ai_platform.Budget.{cost_micro_usd}
use aegis_ai_platform.Budget.Cost.{cost_mono}
use aegis_ai_platform.Routing.Strategy.{Strategy}
use aegis_ai_platform.Routing.Entry.{Managed, Router, Selection, permits}
use aegis_ai_platform.Routing.Select.{Lease, select, highest_prices}
use aegis_ai_platform.Routing.Lease.{FloatOps}
use aegis_ai_platform.Routing.Load.{IsSame}
use aegis_ai_platform.Routing.Prices.{highest_prices_cover}
use aegis_ai_platform.Routing.Eligible.{IsOffered, select-IsOffered}
use aegis_ai_platform.Routing.Session.{Reach}
use aegis_ai_platform.Routing.Settings.{Reach-Origin}

IsOffered-permits :
    (s : Selection) (excluded : List Text) (at : Option ℤ) (now : ℤ) (m m' : Managed)
    → IsOffered (record s { excluded_providers = excluded; now = at }) now m'
    → IsSame m m'
    → permits s m ≡ true
unfolding permits
IsOffered-permits s excluded at now m m' o f = rw (← f.config, ← f.provider) (ground arith)

-- The cost reserved at the highest prices covers the cost at the prices of a lease that is selected
-- later, whatever selections and outcomes come between, whichever providers are excluded and at
-- whatever time, if the call uses no more prompt and completion tokens than were estimated.
pub charge-le :
    (fl : FloatOps) (strategy : Strategy) (s : Selection) (excluded : List Text) (at : Option ℤ)
    (clock p c reservation p' c' charge : ℤ) {r : Router} {leases : List Lease} {r' : Router}
    {leases' : List Lease} {lease : Lease} {input output : ℤ}
    → highest_prices r s ≡ ok (input, output)
    → Reach fl r leases r' leases'
    → (select strategy (record s { excluded_providers = excluded; now = at }) clock r').0 ≡ ok lease
    → cost_micro_usd p c input output ≡ ok reservation
    → cost_micro_usd p' c' lease.input_price lease.output_price ≡ ok charge
    → p' ≤ℤ p
    → c' ≤ℤ c
    → charge ≤ℤ reservation
charge-le fl strategy s excluded at clock p c reservation p' c' charge {r} {lease = lease} highest
      reach selected reserved charged hp hc =
    let (m', there, offered, on) =
      select-IsOffered strategy (record s { excluded_providers = excluded; now = at }) clock _
        selected in
    let (m, before, same) = Reach-Origin fl reach lease.entry m' there in
    let (low, high) =
      highest_prices_cover r s lease.entry m highest before
        (IsOffered-permits s excluded at _ m m' offered same) in
    cost_mono p' c' lease.input_price lease.output_price charge p c _ _ reservation charged reserved
      hp hc (rw (on.input_price, same.config) low) (rw (on.output_price, same.config) high)

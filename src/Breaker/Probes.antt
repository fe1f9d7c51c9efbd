-- ===== src/Breaker/Probes.antt =====
-- Who is let through an open breaker of internal/circuitbreaker/breaker.go.
use aegis_ai_platform.Prelude.{
  ℕ, suc, ◌+◌, ◌-◌, min, ℤ, pos, ◌<ℤ◌, ◌≤ℤ◌, ◌+ℤ◌, ◌-ℤ◌, ◌++◌, ◌≢◌, pos_part, length, ◌≡◌, refl,
  ◌∙◌, ◌↔◌, ◌⊎◌, List, [], ◌∷◌, arith, Bool, true, false, All,
}
use aegis_ai_platform.Breaker.{
  closed, opened, half_open, Breaker, allow, admit, failure, cool, has_cooled, state_at,
}
use aegis_ai_platform.Breaker.Invariant.{IsValid}

-- Allow grants a call exactly if the circuit is closed, or is half-open at that time, as State
-- reports it, with a probe to spare; and then it counts the probe.
pub allow_iff :
    (b : Breaker) (now : ℤ)
    → ((allow b now).1 ≡ true) ↔ (
        (state_at b now ≡ closed)
        ⊎ ((state_at b now ≡ half_open)
            × (pos (cool b now).half_open_active <ℤ b.half_open_probes)
            × ((allow b now).0.half_open_active ≡ suc (cool b now).half_open_active)))
unfolding allow state_at
allow_iff b now = ground arith

-- How many of the calls at these times Allow grants.
abbrev count : Bool → ℕ → ℕ
count true n = suc n
count false n = n

pub granted : Breaker → List ℤ → ℕ
granted b [] = 0
granted b (t ∷ ts) = count (allow b t).1 (granted (allow b t).0 ts)

granted-half_open :
    (b : Breaker) (ts : List ℤ)
    → b.state ≡ half_open
    → pos 0 <ℤ b.half_open_probes
    → granted b ts ≡ min (length ts) (pos_part b.half_open_probes - b.half_open_active)
unfolding granted allow
granted-half_open b [] s p = omega arith
granted-half_open b (t ∷ ts) s p = ground (
  arith,
  granted-half_open b ts,
  granted-half_open (record b { half_open_active = b.half_open_active + 1 }) ts,
)

granted-cooled :
    (b : Breaker) (t : ℤ) (ts : List ℤ)
    → b.state ≡ opened
    → has_cooled b t ≡ true
    → granted b (t ∷ ts) ≡ granted (record b { state = half_open; half_open_active = 0 }) (t ∷ ts)
unfolding granted allow
granted-cooled b t ts s h = ground arith

-- Once the open circuit has cooled down, of any number of calls in a row exactly as many are let
-- through as there are probes, at whatever times the later ones come.
pub probes_granted :
    (b : Breaker) (t : ℤ) (ts : List ℤ)
    → IsValid b
    → b.state ≡ opened
    → has_cooled b t ≡ true
    → granted b (t ∷ ts) ≡ min (length (t ∷ ts)) (pos_part b.half_open_probes)
probes_granted b t ts v s h =
    granted-cooled b t ts s h
    ∙ granted-half_open (record b { state = half_open; half_open_active = 0 }) (t ∷ ts) refl
        v.probes_pos
    ∙ omega arith

-- The cool-down ends when the open duration has passed since the circuit opened.
pub has_cooled-le :
    (b : Breaker) (t : ℤ) → b.opened_at +ℤ b.open_duration ≤ℤ t → has_cooled b t ≡ true
unfolding has_cooled ◌-ℤ◌ ◌+ℤ◌
has_cooled-le b t h = ground arith

pub has_cooled-lt :
    (b : Breaker) (t : ℤ) → t <ℤ b.opened_at +ℤ b.open_duration → has_cooled b t ≡ false
unfolding has_cooled ◌-ℤ◌ ◌+ℤ◌
has_cooled-lt b t h = ground arith

allow-hot :
    (b : Breaker) (t : ℤ)
    → b.state ≡ opened
    → t <ℤ b.opened_at +ℤ b.open_duration
    → allow b t ≡ (b, false)
unfolding allow cool admit
allow-hot b t s h = ground (arith, has_cooled-lt b t h)

granted-hot :
    (b : Breaker) (ts : List ℤ) (t : ℤ)
    → b.state ≡ opened
    → pos 0 <ℤ b.half_open_probes
    → All (λ u. u <ℤ b.opened_at +ℤ b.open_duration) ts
    → b.opened_at +ℤ b.open_duration ≤ℤ t
    → (granted b ts ≡ 0) × (granted b (ts ++ t ∷ []) ≡ 1)
unfolding granted
granted-hot b [] t s p h late =
    let cooled = granted-cooled b t [] s (has_cooled-le b t late) in
    let probe =
      granted-half_open (record b { state = half_open; half_open_active = 0 }) (t ∷ []) refl p in
    (refl, cooled ∙ probe ∙ omega arith)
granted-hot b (u ∷ ts) t s p h late = rw (allow-hot b u s h.0) (granted-hot b ts t s p h.1 late)

failure-opened_at :
    (b : Breaker) (now : ℤ)
    → b.state ≢ opened
    → (failure b now).state ≡ opened
    → ((failure b now).opened_at ≡ now) × ((failure b now).config ≡ b.config)
unfolding failure
failure-opened_at b now s o = ground arith

-- After a failure that opens the circuit of a breaker with a positive number of probes, of the calls
-- that come before the open duration has passed since that failure every one is refused, however
-- many there are, and the first one that comes at its end or later is let through.
pub hot_refuses :
    (b : Breaker) (now : ℤ) (ts : List ℤ) (t : ℤ)
    → pos 0 <ℤ b.half_open_probes
    → b.state ≢ opened
    → (failure b now).state ≡ opened
    → All (λ u. u <ℤ now +ℤ b.open_duration) ts
    → now +ℤ b.open_duration ≤ℤ t
    → (granted (failure b now) ts ≡ 0) × (granted (failure b now) (ts ++ t ∷ []) ≡ 1)
hot_refuses b now ts t p s o h late =
    let (at, same) = failure-opened_at b now s o in
    granted-hot (failure b now) ts t o (rw same p) (rw (at, same) h) (rw (at, same) late)

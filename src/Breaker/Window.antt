-- ===== src/Breaker/Window.antt =====
-- Which failures open a closed breaker of internal/circuitbreaker/breaker.go.
use aegis_ai_platform.Prelude.{
  suc, ◌+◌, ℤ, pos, ◌+ℤ◌, ◌-ℤ◌, ◌≤ℤ◌, ◌<ℤ◌, ltb_ℤ, pos_part, neg_part, length, ◌≡◌, refl, ap, ◌↔◌,
  ◌⊎◌, List, [], ◌∷◌, ◌++◌, arith, All, keep, int_laws, length-append,
}
use aegis_ai_platform.Breaker.{closed, opened, Breaker, success, failure, retained}
use aegis_ai_platform.Breaker.Invariant.{IsValid}

pub fail_all : Breaker → List ℤ → Breaker
fail_all b [] = b
fail_all b (t ∷ ts) = fail_all (failure b t) ts

-- A time in the interval of the window's length from lo.
abbrev pub Within : Breaker → ℤ → ℤ → Type 0
Within b lo t = (lo ≤ℤ t) × (t <ℤ lo +ℤ b.window)

keep-All :
    (lo cutoff : ℤ) (ts : List ℤ)
    → cutoff <ℤ lo
    → All (λ t. lo ≤ℤ t) ts
    → keep (ltb_ℤ cutoff) ts ≡ ts
unfolding keep
keep-All lo cutoff [] h a = refl
keep-All lo cutoff (t ∷ ts) h a = ground (arith, keep-All lo cutoff ts h a.1)

module _ (lo w threshold : ℤ) where
  -- What holds while failures come in that the window keeps.
  record InBurst (b : Breaker) : Type 0 where
    same_window : b.window ≡ w
    same_threshold : b.failure_threshold ≡ threshold
    recent : All (λ t. lo ≤ℤ t) b.failures
    not_half_open : (b.state ≡ closed) ⊎ (b.state ≡ opened)
    opened_iff : (b.state ≡ opened) ↔ (threshold ≤ℤ pos (length b.failures))

  recent-append :
      (ts : List ℤ) (t : ℤ) → All (λ t. lo ≤ℤ t) ts → lo ≤ℤ t → All (λ t. lo ≤ℤ t) (ts ++ t ∷ [])
  recent-append [] t a h = (h, tt)
  recent-append (u ∷ ts) t a h = (a.0, recent-append ts t a.1 h)

  failure-InBurst :
      (b : Breaker) (t : ℤ)
      → InBurst b
      → lo ≤ℤ t
      → t <ℤ lo +ℤ w
      → InBurst (failure b t) × (length (failure b t).failures ≡ suc (length b.failures))
  unfolding failure retained
  failure-InBurst b t v h k = ground (
    arith,
    keep-All lo (t -ℤ b.window) b.failures
        (omega (int_laws, ap (λ x. pos_part x) v.same_window, ap (λ x. neg_part x) v.same_window))
        v.recent,
    recent-append b.failures t v.recent h,
    length-append b.failures (t ∷ []),
  )

  fail_all-InBurst :
      (b : Breaker) (ts : List ℤ)
      → InBurst b
      → All (λ t. (lo ≤ℤ t) × (t <ℤ lo +ℤ w)) ts
      → ((fail_all b ts).state ≡ opened) ↔ (threshold ≤ℤ pos (length b.failures + length ts))
  unfolding fail_all
  fail_all-InBurst b [] v h = ground (arith, v.opened_iff)
  fail_all-InBurst b (t ∷ ts) v h =
      let (v', grown) = failure-InBurst b t v h.0.0 h.0.1 in
      let (to, from) = fail_all-InBurst (failure b t) ts v' h.1 in
      (λ o. omega (arith, to o, grown), λ k. from (omega (arith, grown)))

-- After a success, failures that all fall within one window open the circuit exactly if there are
-- at least as many as the threshold.
pub burst_opens_iff :
    (b : Breaker) (lo : ℤ) (ts : List ℤ)
    → IsValid b
    → All (Within b lo) ts
    → ((fail_all (success b) ts).state ≡ opened) ↔ (b.failure_threshold ≤ℤ pos (length ts))
unfolding success
burst_opens_iff b lo ts v h =
    let (to, from) = fail_all-InBurst lo b.window b.failure_threshold (success b) ts fresh h in
    (λ o. omega (arith, to o), λ k. from (omega arith))
  where
    fresh : InBurst lo b.window b.failure_threshold (success b)
    fresh = ground (arith, v.threshold_pos)

-- Each time comes at least a window after the one before.
abbrev pub Spaced : ℤ → ℤ → List ℤ → Type 0
Spaced w prev [] = Unit {0}
Spaced w prev (t ∷ ts) = (prev +ℤ w ≤ℤ t) × Spaced w t ts

abbrev AtMost : List ℤ → ℤ → Type 0
AtMost [] prev = Unit {0}
AtMost (t ∷ []) prev = t ≤ℤ prev
AtMost (t ∷ u ∷ ts) prev = ⊥

keep-none :
    (cutoff prev : ℤ) (fs : List ℤ) → AtMost fs prev → prev ≤ℤ cutoff → keep (ltb_ℤ cutoff) fs ≡ []
unfolding keep
keep-none cutoff prev [] a h = refl
keep-none cutoff prev (f ∷ []) a h = ground arith
keep-none cutoff prev (f ∷ g ∷ fs) a h = absurd a

module _ (w threshold : ℤ) (many : pos 2 ≤ℤ threshold) where
  record IsSparse (b : Breaker) (prev : ℤ) : Type 0 where
    same_window : b.window ≡ w
    same_threshold : b.failure_threshold ≡ threshold
    still_closed : b.state ≡ closed
    old : AtMost b.failures prev

  failure-IsSparse :
      (b : Breaker) (prev t : ℤ) → IsSparse b prev → prev +ℤ w ≤ℤ t → IsSparse (failure b t) t
  unfolding failure retained
  failure-IsSparse b prev t v h = ground (
    arith,
    keep-none (t -ℤ b.window) prev b.failures v.old
        (omega (int_laws, ap (λ x. pos_part x) v.same_window, ap (λ x. neg_part x) v.same_window)),
  )

  fail_all-IsSparse :
      (b : Breaker) (prev : ℤ) (ts : List ℤ)
      → IsSparse b prev
      → Spaced w prev ts
      → (fail_all b ts).state ≡ closed
  unfolding fail_all
  fail_all-IsSparse b prev [] v h = v.still_closed
  fail_all-IsSparse b prev (t ∷ ts) v h =
      fail_all-IsSparse (failure b t) t ts (failure-IsSparse b prev t v h.0) h.1

-- Failures that come a window apart never open a circuit whose threshold is at least two, however
-- many there are.
pub sparse_stays_closed :
    (b : Breaker) (start : ℤ) (ts : List ℤ)
    → pos 2 ≤ℤ b.failure_threshold
    → Spaced b.window start ts
    → (fail_all (success b) ts).state ≡ closed
unfolding success
sparse_stays_closed b start ts many h =
    fail_all-IsSparse b.window b.failure_threshold many (success b) start ts
      (record { same_window = refl; same_threshold = refl; still_closed = refl; old = tt }) h

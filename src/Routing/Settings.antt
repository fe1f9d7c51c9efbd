-- ===== src/Routing/Settings.antt =====
-- A router of internal/routing/router.go keeps the settings of its providers.
use aegis_ai_platform.Prelude.{
  ℕ, ℤ, List, some, get_elem?, set, get_elem?-set_self, get_elem?-set_ne, nat_eq, nat_beq_iff, ◌==◌,
  ◌≡◌, ◌≢◌, sym, ◌∙◌, inl, inr, arith, Bool-cases, Option-cases,
}
use aegis_ai_platform.Routing.Strategy.{Strategy}
use aegis_ai_platform.Routing.Entry.{Managed, Router, Selection}
use aegis_ai_platform.Routing.Select.{Lease, select}
use aegis_ai_platform.Routing.Lease.{FloatOps, update, give_back, finish, success, failure}
use aegis_ai_platform.Routing.Load.{IsSame, IsLoaded, select-Becomes, select-none}
use aegis_ai_platform.Routing.Session.{
  Step, selects, misses, succeeds, fails, Reach, here, next, measure_keeps, outcome_keeps,
}

-- Each provider of the later router with what it was before.
abbrev pub Origin : Router → ℕ → Managed → Type 0
Origin r j m' = (m : Managed) × (get_elem? r.providers j ≡ some m) × IsSame m m'

IsSame-refl : (m : Managed) → IsSame m m
IsSame-refl m = ground arith

IsSame-trans : (a b c : Managed) → IsSame a b → IsSame b c → IsSame a c
IsSame-trans a b c f g = ground arith

give_back-IsSame : (m : Managed) → IsSame m (give_back m)
unfolding give_back
give_back-IsSame m = ground arith

select-Origin :
    (strategy : Strategy) (s : Selection) (clock : ℤ) (r : Router) (j : ℕ) (m' : Managed)
    → get_elem? (select strategy s clock r).1.providers j ≡ some m'
    → Origin r j m'
select-Origin strategy s clock r j m' h = elim (Option-cases (get_elem? r.providers j)) [
  | inl e ↦ cc (select-none strategy s clock r j e)
  | inr (m, e) ↦
      let (m'', e', f) = select-Becomes strategy s clock r j m e in
      let equal : m'' ≡ m' = ground arith in (m, e, rw (← equal) f.same)
]

update-Origin :
    (i : ℕ) (f : Managed → Managed) (r : Router)
    → ((m : Managed) → IsSame m (f m))
    → (j : ℕ) (m' : Managed) → get_elem? (update i f r).providers j ≡ some m'
    → Origin r j m'
unfolding update
update-Origin i f r same j m' h = elim (Option-cases (get_elem? r.providers i)) [
  | inl e ↦ (m', rw (e, update) at h, IsSame-refl m')
  | inr (m, e) ↦ elim (Bool-cases (i == j)) [
    | inl hit ↦
        let at_j : i ≡ j = (nat_beq_iff i j).0 hit in
        let now : get_elem? (set r.providers i (f m)) j ≡ some (f m) =
          rw (← at_j) (get_elem?-set_self r.providers i (f m) m e) in
        let after : get_elem? (set r.providers i (f m)) j ≡ some m' = rw (e, update) at h in
        let equal : f m ≡ m' = ground arith in (m, rw (← at_j) e, rw (← equal) (same m))
    | inr miss ↦
        let other : i ≢ j = λ e'. cc ((nat_beq_iff i j).1 e') in
        let after : get_elem? (set r.providers i (f m)) j ≡ some m' = rw (e, update) at h in
        (m', sym (get_elem?-set_ne r.providers i j (f m) other) ∙ after, IsSame-refl m')
  ]
]

finish-Origin :
    (outcome : Managed → Managed) (lease : Lease) (r : Router)
    → ((m : Managed) → IsLoaded 0 m (outcome m))
    → (j : ℕ) (m' : Managed) → get_elem? (finish outcome lease r).1.providers j ≡ some m'
    → Origin r j m'
unfolding finish
finish-Origin outcome lease r keeps j m' h = elim (Bool-cases lease.released) [
  | inl e ↦ (m', rw (e, finish) at h, IsSame-refl m')
  | inr e ↦
      update-Origin lease.entry (λ m. outcome (give_back m)) r
        (λ m.
          IsSame-trans m (give_back m) (outcome (give_back m)) (give_back-IsSame m)
            (keeps (give_back m)).same)
        j m' (rw (e, finish) at h)
]

Step-Origin :
    (fl : FloatOps) {r r' : Router} {leases leases' : List Lease}
    → Step fl r leases r' leases'
    → (j : ℕ) (m' : Managed) → get_elem? r'.providers j ≡ some m'
    → Origin r j m'
unfolding success failure
Step-Origin fl (selects {r} {r'} strategy s clock e) j m' h =
    select-Origin strategy s clock r j m' (rw e h)
Step-Origin fl (misses {r} {r'} strategy s clock e) j m' h =
    select-Origin strategy s clock r j m' (rw e h)
Step-Origin fl (succeeds {r} {leases} {lease} k latency e) j m' h =
    finish-Origin _ lease r (measure_keeps fl latency) j m' h
Step-Origin fl (fails {r} {leases} {lease} k retryable now e) j m' h =
    finish-Origin _ lease r (outcome_keeps retryable now) j m' h

pub Reach-Origin :
    (fl : FloatOps) {r : Router} {leases : List Lease} {r' : Router} {leases' : List Lease}
    → Reach fl r leases r' leases'
    → (j : ℕ) (m' : Managed) → get_elem? r'.providers j ≡ some m'
    → Origin r j m'
Reach-Origin fl here j m' h = (m', h, IsSame-refl m')
Reach-Origin fl (next before step) j m' h =
    let (m₁, h₁, f₁) = Step-Origin fl step j m' h in
    let (m₀, h₀, f₀) = Reach-Origin fl before j m₁ h₁ in (m₀, h₀, IsSame-trans m₀ m₁ m' f₀ f₁)

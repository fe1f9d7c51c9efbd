-- ===== src/Routing/Balance.antt =====
-- What the unreleased leases of internal/routing/router.go hold of the providers' capacity.
use aegis_ai_platform.Prelude.{
  ℕ, zero, suc, ◌+◌, ◌≤◌, pos, pos_part, ◌+ℤ◌, true, false, List, [], ◌∷◌, none, some, get_elem?,
  set, if◌then◌else◌, ◌≡◌, sym, ◌∙◌, subst, inl, inr, ◌≢◌, arith, Bool-cases, Option-cases,
  get_elem?-set_self, get_elem?-set_ne, ◌==◌, nat_eq, nat_beq_iff,
}
use aegis_ai_platform.Routing.Entry.{Managed, Router}
use aegis_ai_platform.Routing.Select.{Lease}
use aegis_ai_platform.Routing.Lease.{update, give_back, finish}
use aegis_ai_platform.Routing.Load.{IsLoaded, at}

-- The unreleased leases on the entry at j.
abbrev pub held : ℕ → Lease → ℕ
held j lease = if lease.released then 0 else at lease.entry j 1

unfoldable pub live : ℕ → List Lease → ℕ
live j [] = 0
live j (lease ∷ leases) = held j lease + live j leases

live-set :
    (j k : ℕ) (leases : List Lease) (lease lease' : Lease)
    → get_elem? leases k ≡ some lease
    → live j (set leases k lease') + held j lease ≡ live j leases + held j lease'
unfolding live
live-set j k [] lease lease' h = cc
live-set j zero (l ∷ leases) lease lease' h =
    let same : l ≡ lease = ground arith in rw same (omega arith)
live-set j (suc k) (l ∷ leases) lease lease' h = omega (arith, live-set j k leases lease lease' h)

-- Each semaphore holds one token for each unreleased lease on its entry, `outstanding` counts the
-- same, and neither passes the configured concurrency.
pub record IsCounted (n : ℕ) (m : Managed) : Type 0 where
  pub tokens : m.in_use ≡ n
  pub calls : m.outstanding ≡ pos n
  pub within : m.in_use ≤ pos_part m.max_concurrency

pub record IsBalanced (r : Router) (leases : List Lease) : Type 0 where
  pub counted :
      (j : ℕ) (m : Managed) → get_elem? r.providers j ≡ some m → IsCounted (live j leases) m

live-le :
    (j k : ℕ) (leases : List Lease) (lease : Lease)
    → get_elem? leases k ≡ some lease
    → held j lease ≤ live j leases
unfolding live
live-le j k [] lease h = cc
live-le j zero (l ∷ leases) lease h = let same : l ≡ lease = ground arith in rw same (omega arith)
live-le j (suc k) (l ∷ leases) lease h = omega (arith, live-le j k leases lease h)

give_back-IsCounted :
    (n : ℕ) (m m' : Managed) → IsCounted (suc n) m → IsLoaded 0 (give_back m) m' → IsCounted n m'
unfolding give_back ◌+ℤ◌
give_back-IsCounted n m m' v f = ground arith

module _ (outcome : Managed → Managed) (keeps : (m : Managed) → IsLoaded 0 m (outcome m))
    (r : Router) (leases : List Lease) (k : ℕ) (lease : Lease)
    (holds : get_elem? leases k ≡ some lease) (v : IsBalanced r leases) where
  freed : Lease
  freed = record lease { released = true }

  live-freed : (j : ℕ) → live j (set leases k freed) + held j lease ≡ live j leases
  unfolding freed
  live-freed j = omega (arith, live-set j k leases lease freed holds)

  update-IsCounted :
      (m : Managed)
      → lease.released ≡ false
      → get_elem? r.providers lease.entry ≡ some m
      → (j : ℕ) (m' : Managed)
      → get_elem? (set r.providers lease.entry (outcome (give_back m))) j ≡ some m'
      → IsCounted (live j (set leases k freed)) m'
  update-IsCounted m open' h j m' h' = elim (Bool-cases (lease.entry == j)) [
    | inl hit ↦
        let same : lease.entry ≡ j = (nat_beq_iff lease.entry j).0 hit in
        let now : get_elem? (set r.providers lease.entry (outcome (give_back m))) j
            ≡ some (outcome (give_back m)) =
          rw (← same) (get_elem?-set_self r.providers lease.entry (outcome (give_back m)) m h) in
        let equal : outcome (give_back m) ≡ m' = ground arith in
        let before : IsCounted (live j leases) m = v.counted j m (rw (← same) h) in
        let count : live j leases ≡ suc (live j (set leases k freed)) =
          ground (arith, live-freed j) in
        rw (← equal) (
          give_back-IsCounted _ m (outcome (give_back m)) (subst (λ n. IsCounted n m) count before)
            (keeps (give_back m)))
    | inr miss ↦
        let other : lease.entry ≢ j = λ same. cc ((nat_beq_iff lease.entry j).1 same) in
        let count : live j leases ≡ live j (set leases k freed) = ground (arith, live-freed j) in
        subst (λ n. IsCounted n m') count
          (v.counted j m' (sym (get_elem?-set_ne r.providers lease.entry j _ other) ∙ h'))
  ]

  missing-IsCounted :
      get_elem? r.providers lease.entry ≡ none
      → (j : ℕ) (m' : Managed) → get_elem? r.providers j ≡ some m'
      → IsCounted (live j (set leases k freed)) m'
  unfolding freed
  missing-IsCounted h j m' h' = elim (Bool-cases (lease.entry == j)) [
    | inl hit ↦
        let same : lease.entry ≡ j = (nat_beq_iff lease.entry j).0 hit in
        let there : get_elem? r.providers lease.entry ≡ some m' = rw same h' in cc
    | inr miss ↦
        let count : live j leases ≡ live j (set leases k freed) = ground (arith, live-freed j) in
        subst (λ n. IsCounted n m') count (v.counted j m' h')
  ]

  -- The first outcome of a lease frees its unit, and a later one frees nothing.
  pub finish-IsBalanced :
      IsBalanced (finish outcome lease r).1 (set leases k (finish outcome lease r).0)
  unfolding finish update freed
  finish-IsBalanced = elim (Bool-cases lease.released) [
    | inl e ↦
        rw (e, finish)
          (record {
            counted = λ j m' h'.
                let count : live j leases ≡ live j (set leases k freed) =
                  ground (arith, live-freed j) in
                subst (λ n. IsCounted n m') count (v.counted j m' h');
          })
    | inr e ↦ elim (Option-cases (get_elem? r.providers lease.entry)) [
      | inl h ↦ rw (e, h, finish, update) (record { counted = missing-IsCounted h })
      | inr (m, h) ↦ rw (e, h, finish, update) (record { counted = update-IsCounted m e h })
    ]
  ]

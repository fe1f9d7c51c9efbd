-- ===== src/Routing/Load.antt =====
-- The capacity that leases of internal/routing/router.go hold: semaphores and outstanding counts.
use aegis_ai_platform.Prelude.{
  ℕ, zero, suc, ◌+◌, ◌≤◌, ℤ, pos, pos_part, ◌+ℤ◌, Bool, true, false, List, [], ◌∷◌, Option, none,
  some, get_elem?, set, if◌then◌else◌, ◌≡◌, refl, sym, ◌∙◌, ap, subst, inl, inr, arith, Bool-cases,
  Option-cases, get_elem?-set_self, get_elem?-set_ne, ◌==◌, nat_eq, nat_beq_iff,
}
use aegis_ai_platform.Errors.{Result, ok, err}
use aegis_ai_platform.Routing.Strategy.{Strategy}
use aegis_ai_platform.Routing.Entry.{Managed, Router, Selection}
use aegis_ai_platform.Routing.Order.{Candidate, order, divides_by_zero}
use aegis_ai_platform.Routing.Select.{Lease, try_entry, acquire, or_none, select, select_from}

-- What of an entry selection and release leave alone.
pub record IsSame (m m' : Managed) : Type 0 where
  pub config : m'.config ≡ m.config
  pub provider : m'.provider ≡ m.provider
  pub healthy : m'.healthy ≡ m.healthy

pub try_entry-IsSame : (now : ℤ) (m : Managed) → IsSame m (try_entry now m).0
unfolding try_entry
try_entry-IsSame now m = ground arith

-- One unit of load if the entry was leased.
abbrev pub unit : Bool → ℕ
unit true = 1
unit false = 0

pub record IsLoaded (k : ℕ) (m m' : Managed) : Type 0 where
  pub same : IsSame m m'
  pub in_use : m'.in_use ≡ m.in_use + k
  pub outstanding : m'.outstanding ≡ m.outstanding +ℤ pos k
  pub bounded : m.in_use ≤ pos_part m.max_concurrency → m'.in_use ≤ pos_part m.max_concurrency

pub add_zero_ℤ : (a : ℤ) → a +ℤ pos 0 ≡ a
unfolding ◌+ℤ◌
add_zero_ℤ a = ground arith

try_entry-IsLoaded :
    (now : ℤ) (m : Managed) → IsLoaded (unit (try_entry now m).1) m (try_entry now m).0
unfolding try_entry
try_entry-IsLoaded now m = ground (arith, add_zero_ℤ m.outstanding)

IsLoaded-refl : (m : Managed) → IsLoaded 0 m m
IsLoaded-refl m = ground (arith, add_zero_ℤ m.outstanding)

IsLoaded-after : (k : ℕ) (a b c : Managed) → IsLoaded 0 a b → IsLoaded k b c → IsLoaded k a c
IsLoaded-after k a b c f g = ground (arith, add_zero_ℤ a.outstanding)

-- What the entry at j bears when the one at i bears k more.
abbrev pub at : ℕ → ℕ → ℕ → ℕ
at i j k = if i == j then k else 0

-- An entry at j of one list and what it has become in the next.
abbrev pub Becomes : ℕ → ℕ → Managed → List Managed → Type 0
Becomes j k m ms = (m' : Managed) × (get_elem? ms j ≡ some m') × IsLoaded k m m'

set-Becomes :
    (ms : List Managed) (i j k : ℕ) (n n' m : Managed)
    → get_elem? ms i ≡ some n
    → IsLoaded k n n'
    → get_elem? ms j ≡ some m
    → Becomes j (at i j k) m (set ms i n')
set-Becomes ms i j k n n' m e f h = elim (Bool-cases (i == j)) [
  | inl hit ↦
      let same : i ≡ j = (nat_beq_iff i j).0 hit in
      let there : get_elem? ms i ≡ some m = rw same h in
      let equal : n ≡ m = cc in
      rw hit (n', rw (← same) (get_elem?-set_self ms i n' n e), rw (← equal) f)
  | inr miss ↦
      rw miss
        (m, get_elem?-set_ne ms i j n' (λ same. cc ((nat_beq_iff i j).1 same)) ∙ h, IsLoaded-refl m)
]

abbrev pub taken : Option Lease → ℕ → ℕ
taken none j = 0
taken (some lease) j = at lease.entry j 1

at_zero : (i j : ℕ) → at i j 0 ≡ 0
at_zero i j = ground arith

acquire-Becomes :
    (now : ℤ) (cs : List Candidate) (ms : List Managed) (j : ℕ) (m : Managed)
    → get_elem? ms j ≡ some m
    → Becomes j (taken (acquire now cs ms).0 j) m (acquire now cs ms).1
unfolding acquire
acquire-Becomes now [] ms j m h = (m, h, IsLoaded-refl m)
acquire-Becomes now (c ∷ cs) ms j m h = elim (Option-cases (get_elem? ms c.0)) [
  | inl e ↦ rw (e, acquire) (acquire-Becomes now cs ms j m h)
  | inr (n, e) ↦ elim (Bool-cases (try_entry now n).1) [
    | inl yes' ↦
        rw (e, acquire, yes')
          (set-Becomes ms c.0 j 1 n (try_entry now n).0 m e
            (subst (λ b. IsLoaded (unit b) n (try_entry now n).0) yes' (try_entry-IsLoaded now n))
            h)
    | inr no' ↦
        let (m₁, h₁, f₁) =
          set-Becomes ms c.0 j 0 n (try_entry now n).0 m e
            (subst (λ b. IsLoaded (unit b) n (try_entry now n).0) no' (try_entry-IsLoaded now n))
            h in
        let (m₂, h₂, f₂) = acquire-Becomes now cs (set ms c.0 (try_entry now n).0) j m₁ h₁ in
        rw (e, acquire, no')
          (m₂, h₂, IsLoaded-after _ m m₁ m₂ (subst (λ k. IsLoaded k m m₁) (at_zero c.0 j) f₁) f₂)
  ]
]

abbrev pub leased_of : Result Lease → Option Lease
leased_of (ok lease) = some lease
leased_of (err e) = none

pub leased_of-or_none : (o : Option Lease) → leased_of (or_none o) ≡ o
unfolding or_none
leased_of-or_none none = refl
leased_of-or_none (some lease) = refl

select_from-Becomes :
    (strategy : Strategy) (now : ℤ) (cs : List Candidate) (r : Router) (j : ℕ) (m : Managed)
    → get_elem? r.providers j ≡ some m
    → Becomes j
        (taken (leased_of (select_from strategy now cs r).0) j)
        m
        (select_from strategy now cs r).1.providers
unfolding select_from
select_from-Becomes strategy now [] r j m h = (m, h, IsLoaded-refl m)
select_from-Becomes strategy now (c ∷ cs) r j m h =
    let ordered = (order strategy r.sequence (c ∷ cs)).0 in
    let (m', h', f) = acquire-Becomes now ordered r.providers j m h in
    elim (Bool-cases (divides_by_zero strategy (c ∷ cs))) [
      | inl e ↦ rw (e, select_from) (m, h, IsLoaded-refl m)
      | inr e ↦
          rw (e, select_from) (m', h', rw (leased_of-or_none (acquire now ordered r.providers).0) f)
    ]

-- Selection takes one unit of capacity from the entry that it leases and none from any other entry,
-- also when it leases none: it raises the semaphore and the outstanding count of the leased entry by
-- one and of any other by nothing, keeps each entry's configuration, provider and health, and
-- leaves an entry that was within its concurrency within it.
pub select-Becomes :
    (strategy : Strategy) (s : Selection) (clock : ℤ) (r : Router) (j : ℕ) (m : Managed)
    → get_elem? r.providers j ≡ some m
    → Becomes j
        (taken (leased_of (select strategy s clock r).0) j)
        m
        (select strategy s clock r).1.providers
unfolding select
select-Becomes strategy s clock r j m h = select_from-Becomes strategy _ _ r j m h

get_elem?-set-none :
    (xs : List Managed) (i j : ℕ) (v : Managed)
    → get_elem? xs j ≡ none
    → get_elem? (set xs i v) j ≡ none
get_elem?-set-none [] i j v h = refl
get_elem?-set-none (x ∷ xs) zero zero v h = cc
get_elem?-set-none (x ∷ xs) zero (suc j) v h = h
get_elem?-set-none (x ∷ xs) (suc i) zero v h = cc
get_elem?-set-none (x ∷ xs) (suc i) (suc j) v h = get_elem?-set-none xs i j v h

acquire-none :
    (now : ℤ) (cs : List Candidate) (ms : List Managed) (j : ℕ)
    → get_elem? ms j ≡ none
    → get_elem? (acquire now cs ms).1 j ≡ none
unfolding acquire
acquire-none now [] ms j h = h
acquire-none now (c ∷ cs) ms j h = elim (Option-cases (get_elem? ms c.0)) [
  | inl e ↦ rw (e, acquire) (acquire-none now cs ms j h)
  | inr (n, e) ↦
      let gone = get_elem?-set-none ms c.0 j (try_entry now n).0 h in
      elim (Bool-cases (try_entry now n).1) [
        | inl yes' ↦ rw (e, acquire, yes') gone
        | inr no' ↦
            rw (e, acquire, no') (acquire-none now cs (set ms c.0 (try_entry now n).0) j gone)
      ]
]

select_from-none :
    (strategy : Strategy) (now : ℤ) (cs : List Candidate) (r : Router) (j : ℕ)
    → get_elem? r.providers j ≡ none
    → get_elem? (select_from strategy now cs r).1.providers j ≡ none
unfolding select_from
select_from-none strategy now [] r j h = h
select_from-none strategy now (c ∷ cs) r j h =
    elim (Bool-cases (divides_by_zero strategy (c ∷ cs))) [
      | inl e ↦ rw (e, select_from) h
      | inr e ↦ rw (e, select_from) (acquire-none now _ r.providers j h)
    ]

pub select-none :
    (strategy : Strategy) (s : Selection) (clock : ℤ) (r : Router) (j : ℕ)
    → get_elem? r.providers j ≡ none
    → get_elem? (select strategy s clock r).1.providers j ≡ none
unfolding select
select-none strategy s clock r j h = select_from-none strategy _ _ r j h

-- A lease as `select` returns it has had no outcome.
acquire-fresh :
    (now : ℤ) (cs : List Candidate) (ms : List Managed) {lease : Lease}
    → (acquire now cs ms).0 ≡ some lease
    → lease.released ≡ false
unfolding acquire
acquire-fresh now [] ms h = cc
acquire-fresh now (c ∷ cs) ms h = elim (Option-cases (get_elem? ms c.0)) [
  | inl e ↦ acquire-fresh now cs ms (rw (e, acquire) at h)
  | inr (n, e) ↦ elim (Bool-cases (try_entry now n).1) [
    | inl yes' ↦ cc (rw (e, acquire, yes') at h)
    | inr no' ↦ acquire-fresh now cs (set ms c.0 (try_entry now n).0) (rw (e, acquire, no') at h)
  ]
]

select_from-fresh :
    (strategy : Strategy) (now : ℤ) (cs : List Candidate) (r : Router) {lease : Lease}
    → (select_from strategy now cs r).0 ≡ ok lease
    → lease.released ≡ false
unfolding select_from
select_from-fresh strategy now [] r h = cc
select_from-fresh strategy now (c ∷ cs) r h =
    elim (Bool-cases (divides_by_zero strategy (c ∷ cs))) [
      | inl e ↦ cc (rw (e, select_from) at h)
      | inr e ↦
          acquire-fresh now (order strategy r.sequence (c ∷ cs)).0 r.providers
            (sym (leased_of-or_none _) ∙ ap leased_of (rw (e, select_from) at h))
    ]

pub select-fresh :
    (strategy : Strategy) (s : Selection) (clock : ℤ) (r : Router) {lease : Lease}
    → (select strategy s clock r).0 ≡ ok lease
    → lease.released ≡ false
unfolding select
select-fresh strategy s clock r h = select_from-fresh strategy _ _ r h

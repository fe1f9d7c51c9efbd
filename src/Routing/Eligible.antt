-- ===== src/Routing/Eligible.antt =====
-- Whom `Select` of internal/routing/router.go may return.
use mathlib.Core.Option
use aegis_ai_platform.Prelude.{
  ℕ, zero, suc, ◌+◌, ◌<◌, ℤ, pos, pos_part, true, false, List, [], ◌∷◌, ◌++◌, some, get_elem?, set,
  contains, text_eq, ◌≡◌, ◌≢◌, refl, sym, subst, ◌∙◌, ap, arith, All, Bool-cases, Option-cases, inl,
  inr, take, drop, get_elem?-set_self, get_elem?-set_ne, ◌==◌, nat_eq, nat_beq_iff,
}
use aegis_ai_platform.Errors.{ok}
use aegis_ai_platform.Breaker.{state_at, opened}
use aegis_ai_platform.Routing.Strategy.{
  Strategy, weighted_round_robin, least_outstanding, least_latency, priority_fallback,
}
use aegis_ai_platform.Routing.Entry.{Managed, Router, Selection, is_eligible, is_allowed}
use aegis_ai_platform.Routing.Order.{
  Candidate, insert_by, sort_by, rotate, order, latency, pick, position, total_weight,
  divides_by_zero,
}
use aegis_ai_platform.Routing.Select.{
  Lease, eligible, try_entry, lease_of, acquire, or_none, select_from, select,
}
use aegis_ai_platform.Routing.Load.{IsSame, try_entry-IsSame, leased_of, leased_of-or_none}

module _ (P : Candidate → Type 0) where
  insert_by-All :
      (key : Candidate → ℤ) (c : Candidate) (cs : List Candidate)
      → P c
      → All P cs
      → All P (insert_by key c cs)
  unfolding insert_by
  insert_by-All key c [] h a = (h, tt)
  insert_by-All key c (d ∷ ds) h a = ground (arith, insert_by-All key c ds h a.1)

  sort_by-All : (key : Candidate → ℤ) (cs : List Candidate) → All P cs → All P (sort_by key cs)
  unfolding sort_by
  sort_by-All key [] a = tt
  sort_by-All key (c ∷ cs) a = insert_by-All key c (sort_by key cs) a.0 (sort_by-All key cs a.1)

  All-append : (cs ds : List Candidate) → All P cs → All P ds → All P (cs ++ ds)
  All-append [] ds a b = b
  All-append (c ∷ cs) ds a b = (a.0, All-append cs ds a.1 b)

  All-drop : (n : ℕ) (cs : List Candidate) → All P cs → All P (drop n cs)
  All-drop zero cs a = a
  All-drop (suc n) [] a = a
  All-drop (suc n) (c ∷ cs) a = All-drop n cs a.1

  All-take : (n : ℕ) (cs : List Candidate) → All P cs → All P (take n cs)
  All-take zero cs a = tt
  All-take (suc n) [] a = tt
  All-take (suc n) (c ∷ cs) a = (a.0, All-take n cs a.1)

  rotate-All : (n : ℕ) (cs : List Candidate) → All P cs → All P (rotate n cs)
  unfolding rotate
  rotate-All n cs a = All-append (drop n cs) (take n cs) (All-drop n cs a) (All-take n cs a)

  order-All :
      (strategy : Strategy) (sequence : ℕ) (cs : List Candidate)
      → All P cs
      → All P (order strategy sequence cs).0
  unfolding order
  order-All weighted_round_robin sequence cs a =
      rotate-All (pick (position sequence (total_weight (pos 0) cs)) 0 cs) cs a
  order-All least_outstanding sequence cs a = sort_by-All (λ c. c.1.outstanding) cs a
  order-All least_latency sequence cs a = sort_by-All latency cs a
  order-All priority_fallback sequence cs a = sort_by-All (λ c. c.1.priority) cs a

module _ (s : Selection) (now : ℤ) (full : List Managed) where
  -- A candidate shows a registered entry that passed the filter.
  abbrev IsGood : Candidate → Type 0
  IsGood c = (get_elem? full c.0 ≡ some c.1) × (is_eligible s now c.1 ≡ true)

  eligible-IsGood :
      (i : ℕ) (ms : List Managed)
      → ((k : ℕ) (m : Managed) → get_elem? ms k ≡ some m → get_elem? full (i + k) ≡ some m)
      → All IsGood (eligible s now i ms)
  unfolding eligible
  eligible-IsGood i [] there = tt
  eligible-IsGood i (m ∷ ms) there =
      let rest =
        eligible-IsGood (suc i) ms
          (λ k n h. subst (λ j. get_elem? full j ≡ some n) (omega arith) (there (suc k) n h)) in
      let first : get_elem? full i ≡ some m =
        subst (λ j. get_elem? full j ≡ some m) (omega arith) (there zero m refl) in
      elim (Bool-cases (is_eligible s now m)) [
        | inl e ↦ rw e ((first, e), rest)
        | inr e ↦ rw e rest
      ]

  -- The entries have kept what a lease is made of.
  abbrev HasKept : List Managed → Type 0
  HasKept ms =
      (i : ℕ) (m' : Managed)
      → get_elem? ms i ≡ some m'
      → (m : Managed) × (get_elem? full i ≡ some m) × IsSame m m'

  set-HasKept :
      (ms : List Managed) (i : ℕ) (n n' : Managed)
      → get_elem? ms i ≡ some n
      → IsSame n n'
      → HasKept ms
      → HasKept (set ms i n')
  set-HasKept ms i n n' h same kept j m' h' = elim (Bool-cases (i == j)) [
    | inl hit ↦
        let here : i ≡ j = (nat_beq_iff i j).0 hit in
        let (m, at, f) = kept i n h in
        let now' : get_elem? (set ms i n') i ≡ some m' =
          subst (λ k. get_elem? (set ms i n') k ≡ some m') (sym here) h' in
        let equal : n' ≡ m' = ground (arith, get_elem?-set_self ms i n' n h) in
        rw (← equal) (m, rw (← here) at, ground (arith, f, same))
    | inr miss ↦ kept j m' (sym (get_elem?-set_ne ms i j n' (λ e. cc ((nat_beq_iff i j).1 e))) ∙ h')
  ]

  lease_same :
      (i : ℕ) (m n : Managed) (lease : Lease)
      → IsSame m n
      → some (lease_of i n) ≡ some lease
      → lease ≡ lease_of i m
  unfolding lease_of
  lease_same i m n lease f found = ground arith

  acquire-IsGood :
      (cs : List Candidate) (ms : List Managed) {lease : Lease}
      → All IsGood cs
      → HasKept ms
      → (acquire now cs ms).0 ≡ some lease
      → (c : Candidate) × IsGood c × (lease ≡ lease_of c.0 c.1)
  unfolding acquire
  acquire-IsGood [] ms good kept h = cc
  acquire-IsGood (c ∷ cs) ms {lease} good kept h = elim (Option-cases (get_elem? ms c.0)) [
    | inl e ↦ acquire-IsGood cs ms good.1 kept (rw (e, acquire) at h)
    | inr (n, e) ↦
        let (m, at, f) = kept c.0 n e in
        let same : m ≡ c.1 = ground (arith, good.0.0) in
        elim (Bool-cases (try_entry now n).1) [
          | inl yes' ↦
              let found : some (lease_of c.0 n) ≡ some lease = rw (e, acquire, yes') at h in
              (c, good.0, lease_same c.0 c.1 n lease (rw same at f) found)
          | inr no' ↦
              acquire-IsGood cs (set ms c.0 (try_entry now n).0) good.1
                (set-HasKept ms c.0 n (try_entry now n).0 e (try_entry-IsSame now n) kept)
                (rw (e, acquire, no') at h)
        ]
  ]

-- What the policy and the state of an entry must be for it to be selected.
pub record IsOffered (s : Selection) (now : ℤ) (m : Managed) : Type 0 where
  pub is_enabled : m.enabled ≡ true
  pub is_healthy : m.healthy ≡ true
  pub serves_model : contains m.provider.capabilities.models s.model ≡ true
  pub serves_class :
      contains m.provider.capabilities.data_classifications s.data_classification ≡ true
  pub allowed : is_allowed s.allowed_providers m.provider.name ≡ true
  pub not_excluded : contains s.excluded_providers m.provider.name ≡ false
  pub circuit_not_open : state_at m.breaker now ≢ opened
  pub has_room : m.in_use < pos_part m.max_concurrency

is_eligible-IsOffered :
    (s : Selection) (now : ℤ) (m : Managed) → is_eligible s now m ≡ true → IsOffered s now m
unfolding is_eligible
is_eligible-IsOffered s now m h = record {
  is_enabled = ground arith;
  is_healthy = ground arith;
  serves_model = ground arith;
  serves_class = ground arith;
  allowed = ground arith;
  not_excluded = ground arith;
  circuit_not_open = λ e. ground arith;
  has_room = ground arith;
}

-- A lease on that entry, at its terms.
pub record IsOn (lease : Lease) (m : Managed) : Type 0 where
  pub provider : lease.provider ≡ m.provider
  pub timeout : lease.timeout ≡ m.timeout
  pub input_price : lease.input_price ≡ m.input_price
  pub output_price : lease.output_price ≡ m.output_price

lease_of-IsOn :
    (i : ℕ) (m : Managed) (lease : Lease) → lease ≡ lease_of i m → (lease.entry ≡ i) × IsOn lease m
unfolding lease_of
lease_of-IsOn i m lease e = ground arith

-- Select returns a lease only on a registered provider that the tenant's policy, the model, the data
-- classification, the exclusions, its health, its circuit and its free capacity all admit at the time
-- of selection, with that provider's timeout and prices.
pub select-IsOffered :
    (strategy : Strategy) (s : Selection) (clock : ℤ) (r : Router) {lease : Lease}
    → (select strategy s clock r).0 ≡ ok lease
    → (m : Managed) × (get_elem? r.providers lease.entry ≡ some m)
      × IsOffered s (Option.get_or s.now clock) m
      × IsOn lease m
unfolding select select_from
select-IsOffered strategy s clock r {lease} h =
    let now = Option.get_or s.now clock in
    from (eligible s now 0 r.providers) (eligible-IsGood s now r.providers 0 r.providers start) h
  where
    start :
        (k : ℕ) (m : Managed)
        → get_elem? r.providers k ≡ some m
        → get_elem? r.providers (0 + k) ≡ some m
    start k m e = subst (λ j. get_elem? r.providers j ≡ some m) (omega arith) e

    unchanged : HasKept s (Option.get_or s.now clock) r.providers r.providers
    unchanged i m e = (m, e, ground arith)

    from_order :
        (c : Candidate) (cs : List Candidate)
        → All (IsGood s (Option.get_or s.now clock) r.providers) (c ∷ cs)
        → or_none
            (acquire
              (Option.get_or s.now clock)
              (order strategy r.sequence (c ∷ cs)).0
              r.providers).0
          ≡ ok lease
        → (m : Managed) × (get_elem? r.providers lease.entry ≡ some m)
          × IsOffered s (Option.get_or s.now clock) m
          × IsOn lease m
    from_order c cs good e =
        let (d, ok', same) =
          acquire-IsGood s (Option.get_or s.now clock) r.providers
            (order strategy r.sequence (c ∷ cs)).0 r.providers
            (order-All (IsGood s (Option.get_or s.now clock) r.providers) strategy r.sequence
              (c ∷ cs) good)
            unchanged (sym (leased_of-or_none _) ∙ ap leased_of e) in
        let (at, on) = lease_of-IsOn d.0 d.1 lease same in
        (
          d.1,
          subst (λ j. get_elem? r.providers j ≡ some d.1) (sym at) ok'.0,
          is_eligible-IsOffered s (Option.get_or s.now clock) d.1 ok'.1,
          on,
        )

    from :
        (cs : List Candidate)
        → All (IsGood s (Option.get_or s.now clock) r.providers) cs
        → (select_from strategy (Option.get_or s.now clock) cs r).0 ≡ ok lease
        → (m : Managed) × (get_elem? r.providers lease.entry ≡ some m)
          × IsOffered s (Option.get_or s.now clock) m
          × IsOn lease m
    from [] good e = cc
    from (c ∷ cs) good e = elim (Bool-cases (divides_by_zero strategy (c ∷ cs))) [
      | inl zero' ↦ cc (rw (zero', select_from) at e)
      | inr divides ↦ from_order c cs good (rw (divides, select_from) at e)
    ]

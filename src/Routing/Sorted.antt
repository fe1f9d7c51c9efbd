-- ===== src/Routing/Sorted.antt =====
-- `order` of internal/routing/router.go permutes the eligible entries, and sorts them by its key.
use mathlib.Core.List.{Perm, perm_append_comm}
use mathlib.Core.List.Perm
use aegis_ai_platform.Prelude.{
  ℕ, ℤ, ◌≤ℤ◌, ltb_ℤ, List, [], ◌∷◌, ◌++◌, subst, arith, Bool-cases, take, drop, take-append-drop,
  All, inl, inr,
}
use aegis_ai_platform.Routing.Strategy.{
  Strategy, weighted_round_robin, least_outstanding, least_latency, priority_fallback,
}
use aegis_ai_platform.Routing.Order.{Candidate, insert_by, sort_by, rotate, order, latency}

insert_by-perm :
    (key : Candidate → ℤ) (c : Candidate) (cs : List Candidate) → Perm (insert_by key c cs) (c ∷ cs)
unfolding insert_by
insert_by-perm key c [] = Perm.refl (c ∷ [])
insert_by-perm key c (d ∷ ds) = elim (Bool-cases (ltb_ℤ (key d) (key c))) [
  | inl e ↦ rw e (Perm.trans (Perm.cons d (insert_by-perm key c ds)) (Perm.swap c d ds))
  | inr e ↦ rw e (Perm.refl (c ∷ d ∷ ds))
]

sort_by-perm : (key : Candidate → ℤ) (cs : List Candidate) → Perm (sort_by key cs) cs
unfolding sort_by
sort_by-perm key [] = Perm.refl []
sort_by-perm key (c ∷ cs) =
    Perm.trans (insert_by-perm key c (sort_by key cs)) (Perm.cons c (sort_by-perm key cs))

rotate-perm : (n : ℕ) (cs : List Candidate) → Perm (rotate n cs) cs
unfolding rotate
rotate-perm n cs =
    subst (λ ds. Perm (drop n cs ++ take n cs) ds) (take-append-drop n cs)
      (perm_append_comm (drop n cs) (take n cs))

-- The key of no later entry is below that of an earlier one.
abbrev pub IsSorted : (Candidate → ℤ) → List Candidate → Type 0
IsSorted key [] = Unit {0}
IsSorted key (c ∷ cs) = All (λ d. key c ≤ℤ key d) cs × IsSorted key cs

abbrev AtLeast : (Candidate → ℤ) → ℤ → List Candidate → Type 0
AtLeast key n cs = All (λ d. n ≤ℤ key d) cs

AtLeast-mono :
    (key : Candidate → ℤ) (m n : ℤ) (cs : List Candidate)
    → m ≤ℤ n
    → AtLeast key n cs
    → AtLeast key m cs
AtLeast-mono key m n [] h a = tt
AtLeast-mono key m n (c ∷ cs) h a = (omega arith, AtLeast-mono key m n cs h a.1)

insert_by-AtLeast :
    (key : Candidate → ℤ) (n : ℤ) (c : Candidate) (cs : List Candidate)
    → n ≤ℤ key c
    → AtLeast key n cs
    → AtLeast key n (insert_by key c cs)
unfolding insert_by
insert_by-AtLeast key n c [] h a = (h, tt)
insert_by-AtLeast key n c (d ∷ ds) h a = ground (arith, insert_by-AtLeast key n c ds h a.1)

insert_by-IsSorted :
    (key : Candidate → ℤ) (c : Candidate) (cs : List Candidate)
    → IsSorted key cs
    → IsSorted key (insert_by key c cs)
unfolding insert_by
insert_by-IsSorted key c [] s = (tt, tt)
insert_by-IsSorted key c (d ∷ ds) s = elim (Bool-cases (ltb_ℤ (key d) (key c))) [
  | inl e ↦
      let below : key d ≤ℤ key c = ground arith in
      rw e (insert_by-AtLeast key (key d) c ds below s.0, insert_by-IsSorted key c ds s.1)
  | inr e ↦
      let below : key c ≤ℤ key d = ground arith in
      rw e ((below, AtLeast-mono key (key c) (key d) ds below s.0), s)
]

sort_by-IsSorted : (key : Candidate → ℤ) (cs : List Candidate) → IsSorted key (sort_by key cs)
unfolding sort_by
sort_by-IsSorted key [] = tt
sort_by-IsSorted key (c ∷ cs) = insert_by-IsSorted key c (sort_by key cs) (sort_by-IsSorted key cs)

-- What a strategy sorts by.
abbrev pub Sorts : Strategy → List Candidate → Type 0
Sorts weighted_round_robin cs = Unit {0}
Sorts least_outstanding cs = IsSorted (λ c. c.1.outstanding) cs
Sorts least_latency cs = IsSorted latency cs
Sorts priority_fallback cs = IsSorted (λ c. c.1.priority) cs

pub order-Sorts :
    (strategy : Strategy) (sequence : ℕ) (cs : List Candidate)
    → Perm (order strategy sequence cs).0 cs × Sorts strategy (order strategy sequence cs).0
unfolding order
order-Sorts weighted_round_robin sequence cs = (rotate-perm _ cs, tt)
order-Sorts least_outstanding sequence cs =
    (sort_by-perm (λ c. c.1.outstanding) cs, sort_by-IsSorted (λ c. c.1.outstanding) cs)
order-Sorts least_latency sequence cs = (sort_by-perm latency cs, sort_by-IsSorted latency cs)
order-Sorts priority_fallback sequence cs =
    (sort_by-perm (λ c. c.1.priority) cs, sort_by-IsSorted (λ c. c.1.priority) cs)

pub order-perm :
    (strategy : Strategy) (sequence : ℕ) (cs : List Candidate)
    → Perm (order strategy sequence cs).0 cs
order-perm strategy sequence cs = (order-Sorts strategy sequence cs).0

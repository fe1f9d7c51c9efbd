-- ===== src/Worker/Attempts.antt =====
-- The attempts of the worker of internal/rabbitmq/rabbitmq.go.
use aegis_ai_platform.Prelude.{
  ℕ, zero, suc, ◌+◌, ℤ, pos, ◌+ℤ◌, ◌≤ℤ◌, ◌<ℤ◌, leb_ℤ, int64, IsInt64, int64_id, +ℤ_parts, Text,
  text_eq, Bool, true, false, ◌||◌, List, [], Option, some, ◌==◌, ◌≡◌, refl, ◌∙◌, ◌⊎◌, inl, inr,
  arith, Bool-cases,
}
use aegis_ai_platform.Errors.{Result, ok, err}
use aegis_ai_platform.Evaluation.{Input, Evaluated}
use aegis_ai_platform.Worker.{
  Job, Store, Fate, acked, dropped, requeued, retried, retry, after_complete, after_load,
  after_mark, process, settle, deliver,
}

module _ {S : Type 0} (store : Store S) (limit : ℤ) (evaluators : List (Input → Evaluated)) where
  -- A delivery of which Publish was confirmed is the last, or leads to one more attempt.
  data Goes (job : Job) : Fate → Type 0 where
    acks : Goes job acked
    drops : Goes job dropped
    retries :
        (next : Job)
        → next.attempt ≡ int64 (job.attempt +ℤ pos 1)
        → leb_ℤ limit next.attempt ≡ false
        → Goes job (retried next)

  retry-Goes :
      (job : Job) (category : Text) (s : S) → Goes job (retry store limit true job category s).0
  unfolding retry
  retry-Goes job category s = elim (Bool-cases (leb_ℤ limit (int64 (job.attempt +ℤ pos 1)))) [
    | inl e ↦ rw e drops
    | inr e ↦ rw e (retries _ refl e)
  ]

  after_complete-Goes :
      (job : Job) (r : Result (Unit {0}) × S)
      → Goes job (after_complete store limit evaluators true job r).0
  unfolding after_complete
  after_complete-Goes job (ok _, s) = acks
  after_complete-Goes job (err e, s) = retry-Goes job _ s

  after_load-Goes :
      (job : Job) (r : Result Input × S) → Goes job (after_load store limit evaluators true job r).0
  unfolding after_load
  after_load-Goes job (ok input, s) = after_complete-Goes job _
  after_load-Goes job (err e, s) = retry-Goes job _ s

  after_mark-Goes :
      (job : Job) (r : Result (Unit {0}) × S)
      → Goes job (after_mark store limit evaluators true job r).0
  unfolding after_mark
  after_mark-Goes job (ok _, s) = after_load-Goes job _
  after_mark-Goes job (err e, s) = retry-Goes job _ s

  process-Goes : (job : Job) (s : S) → Goes job (process store limit evaluators true (some job) s).0
  unfolding process
  process-Goes job s =
      elim (Bool-cases (job.job_id == [] || job.tenant_id == [] || job.execution_id == [])) [
        | inl e ↦ rw e drops
        | inr e ↦ rw e (after_mark-Goes job (store.mark_running job.tenant_id job.job_id s))
      ]

  next_attempt :
      (a : ℤ) → IsInt64 a → a <ℤ pos 9223372036854775807 → int64 (a +ℤ pos 1) ≡ a +ℤ pos 1
  next_attempt a v h = int64_id (a +ℤ pos 1) (ground (arith, v, h, +ℤ_parts a (pos 1)))

  -- The last delivery, acknowledged or dead-lettered.
  abbrev pub Ends : Option (Fate × S) → Type 0
  Ends o = (fate : Fate) × (s : S) × (o ≡ some (fate, s)) × ((fate ≡ acked) ⊎ (fate ≡ dropped))

  settle-Ends :
      (again : Job → S → Option (Fate × S)) (job : Job) (r : Fate × S)
      → Goes job r.0
      → ((next : Job) (s : S)
          → next.attempt ≡ int64 (job.attempt +ℤ pos 1)
          → leb_ℤ limit next.attempt ≡ false
          → Ends (again next s))
      → Ends (settle store limit evaluators again job r)
  unfolding settle
  settle-Ends again job (acked, s) acks k = (acked, s, refl, inl refl)
  settle-Ends again job (dropped, s) drops k = (dropped, s, refl, inr refl)
  settle-Ends again job (requeued, s) x k = elim x [ ]
  settle-Ends again job (retried next, s) (retries _ e below) k = k next s e below

  -- The next attempt is nearer to the limit.
  nearer :
      (job next : Job) (fuel : ℕ)
      → IsInt64 job.attempt
      → job.attempt <ℤ pos 9223372036854775807
      → limit ≤ℤ (job.attempt +ℤ pos (suc fuel))
      → next.attempt ≡ int64 (job.attempt +ℤ pos 1)
      → IsInt64 next.attempt × (limit ≤ℤ (next.attempt +ℤ pos fuel))
  nearer job next fuel v h enough e =
      let next_is : next.attempt ≡ job.attempt +ℤ pos 1 = e ∙ next_attempt job.attempt v h in
      (
        rw next_is (ground (arith, v, h, +ℤ_parts job.attempt (pos 1))),
        rw next_is (
            omega (
              arith,
              enough,
              +ℤ_parts job.attempt (pos 1),
              +ℤ_parts job.attempt (pos (suc fuel)),
              +ℤ_parts (job.attempt +ℤ pos 1) (pos fuel),
            )),
      )

  -- A job whose attempts are below the largest int64: where the broker confirms every publication,
  -- as many deliveries as the limit exceeds the attempts made, and one at least, are enough for the
  -- last of them to be acknowledged or to go to the dead letters, whatever the store answers.
  pub deliver-Ends :
      (confirms : ℕ → Bool) (fuel n : ℕ) (job : Job) (s : S)
      → ((k : ℕ) → confirms k ≡ true)
      → IsInt64 limit
      → IsInt64 job.attempt
      → job.attempt <ℤ pos 9223372036854775807
      → limit ≤ℤ (job.attempt +ℤ pos (suc fuel))
      → Ends (deliver store limit evaluators (suc fuel) confirms n job s)
  unfolding deliver
  deliver-Ends confirms zero n job s always w v h enough =
      settle-Ends (deliver store limit evaluators zero confirms (n + 1)) job
        (process store limit evaluators (confirms n) (some job) s)
        (rw (always n) (process-Goes job s))
        λ next s' e below.
          let (v', enough') = nearer job next zero v h enough e in
          absurd (ground (arith, below, enough', +ℤ_parts next.attempt (pos 0)))
  deliver-Ends confirms (suc fuel) n job s always w v h enough =
      settle-Ends (deliver store limit evaluators (suc fuel) confirms (n + 1)) job
        (process store limit evaluators (confirms n) (some job) s)
        (rw (always n) (process-Goes job s))
        λ next s' e below.
          let (v', enough') = nearer job next (suc fuel) v h enough e in
          deliver-Ends confirms fuel (n + 1) next s' always w v' (ground (arith, below, w)) enough'

-- ===== src/RateLimit/Windows.antt =====
-- The limits of a minute in internal/ratelimit/redis.go.
use aegis_ai_platform.Prelude.{
  ℕ, ◌+◌, ◌*◌, ◌≤◌, ◌<◌, Text, text_eq, List, [], ◌∷◌, Option, none, leb, if◌then◌else◌, ◌≡◌, ◌≢◌,
  refl, sym, subst, inl, inr, arith, Bool-cases, All,
}
use aegis_ai_platform.Errors.{Result, ok, err}
use aegis_ai_platform.RateLimit.{
  Redis, value, store, count_up, allow_script, finish_script, count_down, exceeds, overflows,
  out_of_range, to_double,
}
use aegis_ai_platform.RateLimit.Scripts.{
  Step, allows, releases, grants, time, script, weight, granted, Reads, exceeds-false, store-Reads,
  count_up-other, count_up-Reads,
}

module _ (requests_key tokens_key concurrent_key : Text) (rpm tpm limit minute : ℕ)
    (apart : requests_key ≢ tokens_key) (apart_requests : concurrent_key ≢ requests_key)
    (apart_tokens : concurrent_key ≢ tokens_key) (small_rpm : rpm < 9007199254740992)
    (small_tpm : tpm < 9007199254740992) where
  -- The counters of the minute read the calls and the tokens granted so far.
  pub record Counts (a b : ℕ) (r : Redis) : Type 0 where
    pub calls : Reads minute requests_key a r
    pub tokens : Reads minute tokens_key b r

  called-Counts :
      (now a b : ℕ) (r : Redis)
      → 60 * minute ≤ now
      → now < 60 * minute + 60
      → Counts a b r
      → Counts (a + 1) b (count_up now requests_key 1 60 r)
  called-Counts now a b r low high v = record {
    calls = count_up-Reads minute now requests_key a 1 r low high v.calls;
    tokens = count_up-other minute now tokens_key requests_key b 1 60 r apart v.tokens;
  }

  metered-Counts :
      (now t a b : ℕ) (r : Redis)
      → 60 * minute ≤ now
      → now < 60 * minute + 60
      → Counts a b r
      → Counts a (b + t) (count_up now tokens_key t 60 r)
  metered-Counts now t a b r low high v = record {
    calls = count_up-other minute now requests_key tokens_key a t 60 r (λ e. apart (sym e)) v.calls;
    tokens = count_up-Reads minute now tokens_key b t r low high v.tokens;
  }

  slot-Counts :
      (now ttl a b : ℕ) (r : Redis)
      → Counts a b r
      → Counts a b (count_up now concurrent_key 1 ttl r)
  slot-Counts now ttl a b r v = record {
    calls = count_up-other minute now requests_key concurrent_key a 1 ttl r apart_requests v.calls;
    tokens = count_up-other minute now tokens_key concurrent_key b 1 ttl r apart_tokens v.tokens;
  }

  finish-Counts :
      (now a b : ℕ) (r : Redis) → Counts a b r → Counts a b (finish_script now concurrent_key r)
  unfolding finish_script
  finish-Counts now a b r v = elim (Bool-cases (leb (to_double (value now (r concurrent_key))) 1)) [
    | inl e ↦ rw (e, finish_script) (slot none)
    | inr e ↦ rw (e, finish_script) (slot (count_down (r concurrent_key)))
  ]
    where
      slot : (e : Option (ℕ × ℕ)) → Counts a b (store concurrent_key e r)
      slot e = record {
        calls = store-Reads minute requests_key concurrent_key a e r apart_requests v.calls;
        tokens = store-Reads minute tokens_key concurrent_key b e r apart_tokens v.tokens;
      }

  unfoldable pub IsWithin : Step → Type 0
  IsWithin s = (60 * minute ≤ time s) × (time s < 60 * minute + 60)

  -- What a script for t tokens makes of the counters a and b: they stay within the limits, and cover
  -- what it granted.
  record Grown (t a b : ℕ) (o : Result (ℕ × ℕ) × Redis) : Type 0 where
    calls : ℕ
    tokens : ℕ
    counts : Counts calls tokens o.1
    calls_le : calls ≤ rpm
    tokens_le : tokens ≤ tpm
    calls_grow : a + (if grants o.0 then 1 else 0) ≤ calls
    tokens_grow : b + (if grants o.0 then t else 0) ≤ tokens

  abbrev called : ℕ → Redis → Redis
  called now r = count_up now requests_key 1 60 r

  abbrev metered : ℕ → ℕ → Redis → Redis
  metered now t r = count_up now tokens_key t 60 r

  grown :
      {t a b a' b' : ℕ} {reply : Result (ℕ × ℕ)} {r : Redis}
      → Counts a' b' r
      → a' ≤ rpm
      → b' ≤ tpm
      → a + (if grants reply then 1 else 0) ≤ a'
      → b + (if grants reply then t else 0) ≤ b'
      → Grown t a b (reply, r)
  grown {a'} {b'} v h k p q = record {
    calls = a';
    tokens = b';
    counts = v;
    calls_le = h;
    tokens_le = k;
    calls_grow = p;
    tokens_grow = q;
  }

  -- Past the three limits a command may still fail, with the counters before it raised.
  admitted-Grown :
      (now t ttl a b : ℕ) (r : Redis)
      → a ≤ rpm
      → b ≤ tpm
      → a + 1 ≤ rpm
      → b + t ≤ tpm
      → Counts a b r
      → Counts (a + 1) b (called now r)
      → Counts (a + 1) (b + t) (metered now t (called now r))
      → Grown t a b (
          if overflows now requests_key 1 r
          then (err out_of_range, r)
          else if overflows now tokens_key t (called now r)
          then (err out_of_range, called now r)
          else if overflows now concurrent_key 1 (metered now t (called now r))
          then (err out_of_range, metered now t (called now r))
          else (ok (1, 0), count_up now concurrent_key 1 ttl (metered now t (called now r))))
  admitted-Grown now t ttl a b r h k more most v v' v'' =
      elim (Bool-cases (overflows now requests_key 1 r)) [
        | inl e ↦ rw e (grown v h k (omega arith) (omega arith))
        | inr e ↦ elim (Bool-cases (overflows now tokens_key t (called now r))) [
          | inl f ↦ rw (e, f) (grown v' more k (omega arith) (omega arith))
          | inr f ↦
              elim (Bool-cases (overflows now concurrent_key 1 (metered now t (called now r)))) [
                | inl g ↦ rw (e, f, g) (grown v'' more most (omega arith) (omega arith))
                | inr g ↦
                    rw (e, f, g)
                      (grown (slot-Counts now ttl (a + 1) (b + t) _ v'') more most (omega arith)
                        (omega arith))
              ]
        ]
      ]

  allow-Grown :
      (now t ttl a b : ℕ) (r : Redis)
      → 60 * minute ≤ now
      → now < 60 * minute + 60
      → a ≤ rpm
      → b ≤ tpm
      → Counts a b r
      → Grown t a b (allow_script now requests_key tokens_key concurrent_key rpm tpm limit t ttl r)
  unfolding allow_script Reads
  allow-Grown now t ttl a b r low high h k v =
      let calls : value now (r requests_key) ≡ a = v.calls now low high in
      let tokens : value now (r tokens_key) ≡ b = v.tokens now low high in
      let v' : Counts (a + 1) b (called now r) = called-Counts now a b r low high v in
      let v'' : Counts (a + 1) (b + t) (metered now t (called now r)) =
        metered-Counts now t (a + 1) b (called now r) low high v' in
      elim (Bool-cases (exceeds (value now (r requests_key)) 1 rpm)) [
        | inl e ↦ rw e (refused v)
        | inr e ↦
            let more : a + 1 ≤ rpm =
              subst (λ n. n + 1 ≤ rpm) calls (exceeds-false _ 1 rpm small_rpm e) in
            elim (Bool-cases (exceeds (value now (r tokens_key)) t tpm)) [
              | inl f ↦ rw (e, f) (refused v)
              | inr f ↦
                  let most : b + t ≤ tpm =
                    subst (λ n. n + t ≤ tpm) tokens (exceeds-false _ t tpm small_tpm f) in
                  elim (Bool-cases (exceeds (value now (r concurrent_key)) 1 limit)) [
                    | inl g ↦ rw (e, f, g) (refused v)
                    | inr g ↦ rw (e, f, g) (admitted-Grown now t ttl a b r h k more most v v' v'')
                  ]
            ]
      ]
    where
      refused : {code : ℕ} → Counts a b r → Grown t a b (ok (0, code), r)
      refused w = grown w h k (omega arith) (omega arith)

  step-Grown :
      (s : Step) (a b : ℕ) (r : Redis)
      → IsWithin s
      → a ≤ rpm
      → b ≤ tpm
      → Counts a b r
      → Grown
          (weight requests_key tokens_key concurrent_key rpm tpm limit s)
          a
          b
          (script requests_key tokens_key concurrent_key rpm tpm limit s r)
  unfolding script weight time IsWithin
  step-Grown (allows now t ttl) a b r w h k v = allow-Grown now t ttl a b r w.0 w.1 h k v
  step-Grown (releases now) a b r w h k v =
      grown (finish-Counts now a b r v) h k (omega arith) (omega arith)

  granted-le :
      (ss : List Step) (a b : ℕ) (r : Redis)
      → All IsWithin ss
      → a ≤ rpm
      → b ≤ tpm
      → Counts a b r
      → (a + (granted requests_key tokens_key concurrent_key rpm tpm limit ss r).0 ≤ rpm)
        × (b + (granted requests_key tokens_key concurrent_key rpm tpm limit ss r).1 ≤ tpm)
  unfolding granted
  granted-le [] a b r w h k v = (omega (arith, h), omega (arith, k))
  granted-le (s ∷ ss) a b r (w, ws) h k v =
      let g = step-Grown s a b r w h k v in
      let later = granted-le ss g.calls g.tokens _ ws g.calls_le g.tokens_le g.counts in
      ground (arith, g.calls_grow, g.tokens_grow, later.0, later.1)

  -- Start a minute without counters of a bucket, whose three keys differ and whose limits of requests
  -- and of tokens are below 2^53, and run its scripts in any order, all of them within the minute by
  -- Redis's clock, calls of Allow for any tokens and Releases, whether or not their commands fail.
  -- The calls that are allowed are at most the limit of requests, and their tokens at most the limit
  -- of tokens.
  pub granted_within :
      (ss : List Step) (r : Redis)
      → All IsWithin ss
      → r requests_key ≡ none
      → r tokens_key ≡ none
      → ((granted requests_key tokens_key concurrent_key rpm tpm limit ss r).0 ≤ rpm)
        × ((granted requests_key tokens_key concurrent_key rpm tpm limit ss r).1 ≤ tpm)
  unfolding Reads value
  granted_within ss r w h k =
      let most =
        granted-le ss 0 0 r w (omega arith) (omega arith)
          (record { calls = λ now low high. rw h refl; tokens = λ now low high. rw k refl }) in
      (omega (arith, most.0), omega (arith, most.1))

-- ===== src/Postgres/Outbox/Creates.antt =====
-- CreateOrGetRequest of internal/persistence/postgres.go writes the outbox with the row.
use aegis_ai_platform.Prelude.{
  ℕ, ℤ, Text, text, text_eq, Bool, true, false, [], ◌∷◌, Option, none, some, lookup, insert,
  lookup-insert_same, ◌==◌, if◌then◌else◌, ◌≡◌, refl, sym, subst, ◌∙◌, inl, inr, arith,
  Option-cases,
}
use aegis_ai_platform.Errors.{Result, ok, err, model_forbidden, not_found, wrapped, Result-cases}
use aegis_ai_platform.Action.{◌>>=◌, ◌>>◌, pure, lift}
use aegis_ai_platform.Request.{Record}
use aegis_ai_platform.Store.{CreateRequestParams, new_record}
use aegis_ai_platform.Events.{request_accepted}
use aegis_ai_platform.Sql.{Answer, Session, round_trip, label}
use aegis_ai_platform.Sql.Atomic.{
  Ensures, round_trip-Ensures, label-Ensures, >>=-Ensures, transaction-Keeps,
}
use aegis_ai_platform.Postgres.{
  Event, Tables, Db, insert_outbox, insert_new, insert_request, query_request, find_key, string,
  boolean,
}
use aegis_ai_platform.Postgres.Operations
use aegis_ai_platform.Postgres.Outbox.{IsPublished, write-IsPublished, announce_accepted}
use aegis_ai_platform.Postgres.Outbox.Changes.{Adds}
use aegis_ai_platform.Postgres.Outbox.Keeps.{
  event, insert_outbox-Adds, Publishes, then-Publishes, aside-Publishes, pure-Publishes,
}
use aegis_ai_platform.Postgres.Outbox.Starts.{check-Publishes, lift-Publishes}

-- What the INSERT leaves: the row, where it returns that it made one.
Inserted : CreateRequestParams → Text → ℤ → Bool → Tables → Tables → Type 0
Inserted params fresh now true t t' =
    (lookup fresh t.requests ≡ none)
    × (t' ≡ record t { requests = insert fresh (new_record params fresh now) t.requests })
Inserted params fresh now false t t' = t' ≡ t

insert_request-Inserted :
    (params : CreateRequestParams) (fresh : Text) (now : ℤ) (t : Tables) (created : Bool)
    → (insert_request params fresh now t).0 ≡ ok created
    → Inserted params fresh now created t (insert_request params fresh now t).1
unfolding insert_request Inserted
insert_request-Inserted params fresh now t created h =
    elim (Option-cases (find_key params.tenant_id params.idempotency_key t.requests)) [
      | inr (id, e) ↦
          let same : false ≡ created = cc (rw (e, insert_request) at h) in
          subst (λ b. Inserted params fresh now b t (insert_request params fresh now t).1) same
            (rw (e, insert_request) refl)
      | inl e ↦ elim (Option-cases (lookup fresh t.requests)) [
        | inr (r, f) ↦ absurd (ground (arith, rw (e, insert_request, insert_new, f) at h))
        | inl f ↦
            let same : true ≡ created = cc (rw (e, insert_request, insert_new, f) at h) in
            subst (λ b. Inserted params fresh now b t (insert_request params fresh now t).1) same
              (rw (e, insert_request, insert_new, f) (refl, refl))
      ]
    ]

-- What queryRequest returns is in the table, which it leaves alone.
query_request-Ensures :
    (answers : ℕ → Answer) (tenant id : Text)
    → Ensures
        (query_request answers tenant id)
        (λ r t t'. (t' ≡ t) × (lookup id t.requests ≡ some r))
unfolding query_request
query_request-Ensures answers tenant id =
    >>=-Ensures (label "get logical request" (round_trip answers read))
      (λ found. lift (elim found [ none ↦ err not_found | some r ↦ ok r ]))
      (λ found t t'. (t' ≡ t) × (found ≡ seen t))
      (λ r t t'. (t' ≡ t) × (lookup id t.requests ≡ some r))
      (label-Ensures "get logical request" (round_trip answers read)
        (λ found t t'. (t' ≡ t) × (found ≡ seen t))
        (λ s found h.
          let (e, same) = round_trip-Ensures answers read s found h in (same, ground arith)))
      (λ found s r h t p. (p.0, present found r h t p.1))
  where
    seen : Tables → Option Record
    seen t = elim (lookup id t.requests) [
      | none ↦ none
      | some r ↦ if r.tenant_id == tenant then some r else none
    ]

    read : Tables → Result (Option Record) × Tables
    read t = (ok (seen t), t)

    present :
        (found : Option Record) (r : Record)
        → elim found [ none ↦ err not_found | some q ↦ ok q ] ≡ ok r
        → (t : Tables) → found ≡ seen t
        → lookup id t.requests ≡ some r
    present none r h t p = cc
    present (some q) r h t p = ground arith

module _ (answers : ℕ → Answer) (params : CreateRequestParams) (fresh : Text) (now : ℤ) where
  -- The body after the INSERT.
  rest : Bool → Text → Record → Db (Record × Bool)
  rest created id r =
      lift (Operations.check_hash params r created)
      >> ((if created
            then insert_outbox answers request_accepted r.id params.tenant_id params.correlation_id
                ((text "request_id", string r.id)
                  ∷ (text "model", string params.input.model)
                  ∷ (text "stream", boolean params.input.stream)
                  ∷ [])
                now
            else pure tt)
          >> pure (r, created))

  rest-Adds :
      (id : Text) (r : Record)
      → Ensures (rest true id r) (λ _ t t'.
        (e : Event) × (e.kind ≡ request_accepted) × (e.aggregate_id ≡ r.id) × Adds (e ∷ []) t t')
  unfolding rest event Adds Operations.check_hash
  rest-Adds id r s b h = elim (Result-cases (insert s).0) [
    | inr (x, e) ↦ cc (rw e at h)
    | inl (u, e) ↦ rw e (
      _,
      refl,
      refl,
      insert_outbox-Adds answers request_accepted r.id params.tenant_id params.correlation_id _ now
          s u e,
    )
  ]
    where
      insert : Db (Unit {0})
      insert =
          insert_outbox answers request_accepted r.id params.tenant_id params.correlation_id
            ((text "request_id", string r.id)
              ∷ (text "model", string params.input.model)
              ∷ (text "stream", boolean params.input.stream)
              ∷ [])
            now

  -- Where the INSERT made the row, the event is about it.
  Accepts : Tables → Tables → Type 0
  Accepts t t' =
      lookup fresh t.requests ≡ some (new_record params fresh now)
      → (e : Event) × (e.kind ≡ request_accepted) × (e.aggregate_id ≡ fresh) × Adds (e ∷ []) t t'

  created-Adds :
      Ensures
        (Operations.id_of answers params fresh true >>= λ id.
          query_request answers params.tenant_id id >>= λ r. rest true id r)
        (λ _ t t'. Accepts t t')
  unfolding Operations.id_of Adds Accepts
  created-Adds =
      >>=-Ensures (query_request answers params.tenant_id fresh) (λ r. rest true fresh r)
        (λ r t t'. (t' ≡ t) × (lookup fresh t.requests ≡ some r)) (λ _ t t'. Accepts t t')
        (query_request-Ensures answers params.tenant_id fresh)
        λ r s b h t p there.
          let (e, kd, ag, added) = rest-Adds fresh r s b h in
          let same : some r ≡ some (new_record params fresh now) = sym p.1 ∙ there in
          let same_id : r.id ≡ fresh = cc in (e, kd, ag ∙ same_id, rw (← p.0) added)

  -- Where it made none, nothing is written.
  found-Publishes : (id : Text) (r : Record) → Publishes (rest false id r)
  unfolding rest Operations.check_hash
  found-Publishes id r =
      then-Publishes (lift (Operations.check_hash params r false)) _
        (lift-Publishes (Operations.check_hash params r false)) λ _. pure-Publishes (r, false)

  replayed-Publishes : Publishes (
      Operations.id_of answers params fresh false >>= λ id.
      query_request answers params.tenant_id id >>= λ r. rest false id r)
  unfolding Operations.id_of query_request
  replayed-Publishes =
      then-Publishes _ _
        (aside-Publishes answers "load conflicting logical request" _ (λ t. refl) (λ t. refl))
        λ id.
          then-Publishes _ _
            (then-Publishes _ _
              (aside-Publishes answers "get logical request" _ (λ t. refl) (λ t. refl))
              λ found. lift-Publishes (elim found [ none ↦ err not_found | some r ↦ ok r ]))
            λ r. found-Publishes id r

  body-Publishes :
      (created : Bool)
      → Ensures
          (Operations.id_of answers params fresh created >>= λ id.
            query_request answers params.tenant_id id >>= λ r. rest created id r)
          (λ _ t t'.
            (t0 : Tables)
            → Inserted params fresh now created t0 t
            → IsPublished t0
            → IsPublished t')
  unfolding Inserted Publishes Adds Accepts
  body-Publishes false s b h t0 same v = replayed-Publishes s b h (rw same v)
  body-Publishes true s b h t0 (free, same) v =
      let (e, kd, ag, added) =
        created-Adds s b h
          (rw same (lookup-insert_same fresh (new_record params fresh now) t0.requests)) in
      rw (added, same)
        (write-IsPublished t0 fresh none (new_record params fresh now) (e ∷ []) free
          (announce_accepted fresh e _ kd ag refl) v)

  pub create_or_get_request-IsPublished :
      (s : Session Tables)
      → IsPublished s.tables
      → IsPublished (Operations.create_or_get_request answers params fresh now s).1.tables
  unfolding Operations.create_or_get_request Publishes rest
  create_or_get_request-IsPublished s v =
      transaction-Keeps IsPublished answers (wrapped "begin create request")
        (wrapped "commit create request") _
        (then-Publishes _ _ (aside-Publishes answers "authorize model" _ (λ t. refl) (λ t. refl))
          λ allowed. then-Publishes _ _ (check-Publishes allowed model_forbidden) λ _.
            >>=-Ensures _ _ (Inserted params fresh now) (λ _ t t'. IsPublished t → IsPublished t')
              (label-Ensures "insert logical request"
                (round_trip answers (insert_request params fresh now)) (Inserted params fresh now)
                inserted)
              body-Publishes)
        s v
    where
      inserted :
          Ensures
            (round_trip answers (insert_request params fresh now))
            (λ created t t'. Inserted params fresh now created t t')
      inserted s created h =
          let (r, same) =
            round_trip-Ensures answers (insert_request params fresh now) s created h in
          subst (λ t'. Inserted params fresh now created s.tables t') (sym same)
            (insert_request-Inserted params fresh now s.tables created r)

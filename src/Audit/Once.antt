-- ===== src/Audit/Once.antt =====
-- What internal/persistence/audit.go does of an event that comes again.
use aegis_ai_platform.Prelude.{
  ℕ, Text, text_eq, text_beq_iff, Bool, true, false, Option, nat_beq, ◌==◌, if◌then◌else◌, ◌≡◌,
  refl, sym, ap, subst, ◌∙◌, inl, inr, arith, Bool-cases, String,
}
use aegis_ai_platform.Errors.{Result, ok, err, wrapped}
use aegis_ai_platform.Action.{Action, ◌>>=◌, lift, after}
use aegis_ai_platform.Events.{Envelope, validate, kind_text, usage_recorded}
use aegis_ai_platform.Sql.{Answer, Session, round_trip, transaction, label}
use aegis_ai_platform.Sql.Atomic.{
  Ensures, round_trip-Ensures, label-Ensures, >>=-Ensures, transaction-Keeps, transaction-Ensures,
}
use aegis_ai_platform.Audit.{
  Usage, AuditTables, has_pair_of, insert_marker, insert_audit, insert_usage, record_usage,
  apply_event, process_kafka_event,
}

HasMarker : Text → Text → AuditTables → Type 0
HasMarker consumer id t = has_pair_of consumer id t.markers ≡ true

insert_marker-HasMarker :
    (consumer id : Text) (t : AuditTables) → HasMarker consumer id (insert_marker consumer id t).1
unfolding insert_marker HasMarker has_pair_of
insert_marker-HasMarker consumer id t = elim (Bool-cases (has_pair_of consumer id t.markers)) [
  | inl e ↦ rw (e, insert_marker) e
  | inr e ↦
      rw (e, insert_marker, (text_beq_iff consumer consumer).1 refl, (text_beq_iff id id).1 refl)
        refl
]

insert_marker-seen :
    (consumer id : Text) (t : AuditTables)
    → HasMarker consumer id t
    → insert_marker consumer id t ≡ (ok 0, t)
unfolding insert_marker HasMarker
insert_marker-seen consumer id t seen = rw (seen, insert_marker) refl

insert_audit-markers :
    (event : Envelope) (t : AuditTables) → (insert_audit event t).1.markers ≡ t.markers
unfolding insert_audit
insert_audit-markers event t = ground arith

insert_usage-markers :
    (event : Envelope) (usage : Usage) (t : AuditTables)
    → (insert_usage event usage t).1.markers ≡ t.markers
unfolding insert_usage
insert_usage-markers event usage t = ground arith

module _ (answers : ℕ → Answer) (decode : Option Text → Result Usage) (consumer : Text)
    (event : Envelope) where
  -- A step that keeps the marker.
  Marks : {A : Type 0} → Action (Session AuditTables) A → Type 0
  Marks m =
      Ensures m
        (λ _ t t'. HasMarker consumer event.event_id t → HasMarker consumer event.event_id t')

  label-Marks :
      {A : Type 0} (message : String) (statement : AuditTables → Result A × AuditTables)
      → ((t : AuditTables) → (statement t).1.markers ≡ t.markers)
      → Marks (label message (round_trip answers statement))
  unfolding Marks HasMarker
  label-Marks message statement same =
      label-Ensures message (round_trip answers statement)
        (λ _ t t'. HasMarker consumer event.event_id t → HasMarker consumer event.event_id t')
        (λ s a h v. rw ((round_trip-Ensures answers statement s a h).1, same s.tables) v)

  then-Marks :
      {A B : Type 0} (m : Action (Session AuditTables) A) (f : A → Action (Session AuditTables) B)
      → Marks m
      → ((a : A) → Marks (f a))
      → Marks (m >>= f)
  unfolding Marks
  then-Marks m f h k =
      >>=-Ensures m f
        (λ _ t t'. HasMarker consumer event.event_id t → HasMarker consumer event.event_id t')
        (λ _ t t'. HasMarker consumer event.event_id t → HasMarker consumer event.event_id t') h
        (λ a s b r t kept v. k a s b r (kept v))

  lift-Marks : {A : Type 0} (r : Result A) → Marks (lift r)
  unfolding Marks
  lift-Marks r s a h v = v

  choice-Marks :
      {A : Type 0} (b : Bool) (m n : Action (Session AuditTables) A)
      → Marks m
      → Marks n
      → Marks (if b then m else n)
  choice-Marks true m n h k = h
  choice-Marks false m n h k = k

  usage-Marks :
      (r : Result Usage)
      → Marks (elim r [
        | err e ↦ lift (err (wrapped "decode usage event" e))
        | ok usage ↦
            label "insert usage ledger entry" (round_trip answers (insert_usage event usage))
      ])
  usage-Marks (err e) = lift-Marks (err (wrapped "decode usage event" e))
  usage-Marks (ok usage) =
      label-Marks "insert usage ledger entry" (insert_usage event usage)
        (insert_usage-markers event usage)

  apply_event-Marks : (rows : ℕ) → Marks (apply_event answers decode event rows)
  unfolding apply_event record_usage
  apply_event-Marks rows = choice-Marks (nat_beq rows 0) _ _ (lift-Marks (ok false)) (
      then-Marks _ _
        (label-Marks "insert immutable audit event" (insert_audit event)
          (insert_audit-markers event))
        λ _.
          then-Marks _ _
            (choice-Marks (event.event_type == kind_text usage_recorded) _ _
              (usage-Marks (decode event.payload)) (lift-Marks (ok tt)))
            λ _. lift-Marks (ok true))

  -- The INSERT of the marker, and the body of the transaction.
  mark : Action (Session AuditTables) ℕ
  mark =
      label "insert processed event marker"
        (round_trip answers (insert_marker consumer event.event_id))

  body : Action (Session AuditTables) Bool
  body = mark >>= apply_event answers decode event

  Marked : ℕ → AuditTables → AuditTables → Type 0
  Marked rows t t' =
      HasMarker consumer event.event_id t'
      × (HasMarker consumer event.event_id t → (rows ≡ 0) × (t' ≡ t))

  mark-Marked : Ensures mark Marked
  unfolding mark Marked
  mark-Marked =
      label-Ensures "insert processed event marker"
        (round_trip answers (insert_marker consumer event.event_id)) Marked
        λ s rows h.
          let (r, same) =
            round_trip-Ensures answers (insert_marker consumer event.event_id) s rows h in
          subst (Marked rows s.tables) (sym same) (
            insert_marker-HasMarker consumer event.event_id s.tables,
            λ seen.
                let already = insert_marker-seen consumer event.event_id s.tables seen in
                (rows_of rows (sym (ap (λ x. x.0) already) ∙ r), ap (λ x. x.1) already),
          )
    where
      rows_of : (rows : ℕ) → ok 0 ≡ ok rows → rows ≡ 0
      rows_of rows e = cc

  apply_event-skips :
      (rows : ℕ) (s : Session AuditTables)
      → rows ≡ 0
      → apply_event answers decode event rows s ≡ (ok false, s)
  unfolding apply_event
  apply_event-skips rows s e = rw e refl

  -- What the body makes of an event, and of one that has its marker.
  Settled : Bool → AuditTables → AuditTables → Type 0
  Settled b t t' =
      HasMarker consumer event.event_id t'
      × (HasMarker consumer event.event_id t → (t' ≡ t) × (b ≡ false))

  body-Settled : Ensures body Settled
  unfolding body Marked Settled Marks
  body-Settled =
      >>=-Ensures mark (apply_event answers decode event) Marked Settled mark-Marked
        λ rows s b h t (there, again). (
          apply_event-Marks rows s b h there,
          λ seen.
              let (none_new, same) = again seen in
              let (kept, repeated) = skipped rows s b none_new h in (kept ∙ same, repeated),
        )
    where
      is_false : (b : Bool) → ok false ≡ ok b → b ≡ false
      is_false b e = cc

      skipped :
          (rows : ℕ) (s : Session AuditTables) (b : Bool)
          → rows ≡ 0
          → (apply_event answers decode event rows s).0 ≡ ok b
          → ((apply_event answers decode event rows s).1.tables ≡ s.tables) × (b ≡ false)
      skipped rows s b e h =
          let skips = apply_event-skips rows s e in
          (ap (λ x. x.1.tables) skips, is_false b (sym (ap (λ x. x.0) skips) ∙ h))

  transact : Action (Session AuditTables) Bool
  transact =
      transaction answers (wrapped "begin Kafka event processing")
        (wrapped "commit Kafka event processing") body

  again_unchanged :
      (v : Result (Unit {0})) (s : Session AuditTables) (b : Bool)
      → (after v (λ _. transact) s).0 ≡ ok b
      → ((after v (λ _. transact) (after v (λ _. transact) s).1).1.tables
          ≡ (after v (λ _. transact) s).1.tables)
        × ((c : Bool)
            → (after v (λ _. transact) (after v (λ _. transact) s).1).0 ≡ ok c
            → c ≡ false)
  unfolding transact Settled
  again_unchanged (err e) s b h = cc
  again_unchanged (ok _) s b h = (
    transaction-Keeps (λ t. t ≡ (transact s).1.tables) answers
        (wrapped "begin Kafka event processing") (wrapped "commit Kafka event processing") body
        (λ s1 a r same. ((body-Settled s1 a r).1 (rw same there)).0 ∙ same) (transact s).1 refl,
    λ c h'. ((settled (transact s).1 c h').1 there).1,
  )
    where
      settled : Ensures transact Settled
      settled =
          transaction-Ensures answers (wrapped "begin Kafka event processing")
            (wrapped "commit Kafka event processing") body Settled body-Settled

      there : HasMarker consumer event.event_id (transact s).1.tables
      there = (settled s b h).0

  -- Take an event for which ProcessKafkaEvent returned without an error, whatever it returned before:
  -- processing it again changes no table, whatever the server answers, and where that returns without
  -- an error either, it reports the event as already processed.
  pub process_kafka_event-repeated :
      (s : Session AuditTables) (b : Bool)
      → (process_kafka_event answers decode consumer event s).0 ≡ ok b
      → ((process_kafka_event answers decode consumer event
            (process_kafka_event answers decode consumer event s).1).1.tables
          ≡ (process_kafka_event answers decode consumer event s).1.tables)
        × ((c : Bool)
            → (process_kafka_event answers decode consumer event
                (process_kafka_event answers decode consumer event s).1).0
              ≡ ok c
            → c ≡ false)
  unfolding process_kafka_event transact body mark
  process_kafka_event-repeated s b h = again_unchanged (validate event) s b h

-- ===== src/Postgres/Outbox/Changes.antt =====
-- The steps that the methods of internal/persistence/postgres.go share, and the outbox.
use aegis_ai_platform.Prelude.{
  ℕ, Text, text_eq, Bool, true, false, List, [], ◌++◌, some, lookup, insert, nat_beq, ◌≡◌, refl,
  sym, subst, ◌⊎◌, inl, inr, arith, Bool-cases, Option-cases, String,
}
use aegis_ai_platform.Errors.{Result, ok, err, Failure}
use aegis_ai_platform.Action.{◌>>=◌, ◌>>◌, check}
use aegis_ai_platform.Request.{State, Record}
use aegis_ai_platform.Sql.{Answer, Session, round_trip, label}
use aegis_ai_platform.Sql.Atomic.{
  Ensures, round_trip-Ensures, round_trip-Keeps, label-Ensures, >>=-Ensures,
}
use aegis_ai_platform.Postgres.{Event, Tables, Db, matches, update_request, expect_one}
use aegis_ai_platform.Postgres.Outbox.{IsPublished, Announces, write-IsPublished}

-- What an UPDATE of one request does where it changes a row.
Updated : Text → (State → Bool) → (Record → Record) → ℕ → Tables → Tables → Type 0
Updated id in_state set rows t t' =
    rows ≡ 1
    → (r : Record) × (lookup id t.requests ≡ some r)
      × (in_state r.state ≡ true)
      × (t' ≡ record t { requests = insert id (set r) t.requests })

matches-in_state :
    (tenant : Text) (in_state : State → Bool) (r : Record)
    → matches tenant in_state r ≡ true
    → in_state r.state ≡ true
unfolding matches
matches-in_state tenant in_state r h = ground arith

update_request-Updated :
    (tenant id : Text) (in_state : State → Bool) (set : Record → Record) (t : Tables) (rows : ℕ)
    → (update_request tenant id in_state set t).0 ≡ ok rows
    → Updated id in_state set rows t (update_request tenant id in_state set t).1
unfolding update_request Updated
update_request-Updated tenant id in_state set t rows h =
    elim (Option-cases (lookup id t.requests)) [
      | inl e ↦ λ one. absurd (ground (arith, rw (e, update_request) at h))
      | inr (r, e) ↦ elim (Bool-cases (matches tenant in_state r)) [
        | inl m ↦
            λ one. rw (e, update_request, m) (r, refl, matches-in_state tenant in_state r m, refl)
        | inr m ↦ λ one. absurd (ground (arith, rw (e, update_request, m) at h))
      ]
    ]

-- An UPDATE alone.
pub update_request-IsPublished :
    (tenant id : Text) (in_state : State → Bool) (set : Record → Record) (t : Tables)
    → ((r : Record) → in_state r.state ≡ true → Announces id (some r) (set r) [])
    → IsPublished t
    → IsPublished (update_request tenant id in_state set t).1
unfolding update_request
update_request-IsPublished tenant id in_state set t a v =
    elim (Option-cases (lookup id t.requests)) [
      | inl e ↦ rw (e, update_request) v
      | inr (r, e) ↦ elim (Bool-cases (matches tenant in_state r)) [
        | inl m ↦
            rw (e, update_request, m)
              (write-IsPublished t id (some r) (set r) [] e
                (a r (matches-in_state tenant in_state r m)) v)
        | inr m ↦ rw (e, update_request, m) v
      ]
    ]

unfoldable pub Adds : List Event → Tables → Tables → Type 0
Adds es t t' = t' ≡ record t { outbox = es ++ t.outbox }

-- A statement and the test of its rows, outside a transaction.
pub alone-Keeps :
    (Inv : Tables → Type 0) (answers : ℕ → Answer) (message : String) (e : Failure)
    (statement : Tables → Result ℕ × Tables) (s : Session Tables)
    → Inv s.tables
    → Inv (statement s.tables).1
    → Inv ((label message (round_trip answers statement) >>= λ rows. expect_one e rows) s).1.tables
alone-Keeps Inv answers message e statement s v w =
    tested (round_trip answers statement s).0 (round_trip answers statement s).1
      (round_trip-Keeps Inv answers statement s v w)
  where
    checked : (b : Bool) (s' : Session Tables) → Inv s'.tables → Inv (check b e s').1.tables
    checked true s' h = h
    checked false s' h = h

    tested :
        (r : Result ℕ) (s' : Session Tables)
        → Inv s'.tables
        → Inv ((label message (λ _. (r, s')) >>= λ rows. expect_one e rows) s).1.tables
    tested (ok rows) s' h = checked (nat_beq rows 1) s' h
    tested (err f) s' h = h

-- An UPDATE that must change a row, and then the events about it.
pub change-IsPublished :
    (answers : ℕ → Answer) (message : String) (e : Failure) (tenant id : Text)
    (in_state : State → Bool) (set : Record → Record) (k : Db (Unit {0})) (es : List Event)
    → Ensures k (λ _ t t'. Adds es t t')
    → ((r : Record) → in_state r.state ≡ true → Announces id (some r) (set r) es)
    → Ensures
        (label message (round_trip answers (update_request tenant id in_state set)) >>= λ rows.
          expect_one e rows >> k)
        (λ _ t t'. IsPublished t → IsPublished t')
unfolding Updated Adds
change-IsPublished answers message e tenant id in_state set k es adds announces =
    >>=-Ensures (label message (round_trip answers (update_request tenant id in_state set)))
      (λ rows. expect_one e rows >> k) (Updated id in_state set)
      (λ _ t t'. IsPublished t → IsPublished t')
      (label-Ensures message (round_trip answers (update_request tenant id in_state set))
        (Updated id in_state set) updated)
      (λ rows s b h t up v. go rows s b h t up v (Bool-cases (nat_beq rows 1)))
  where
    updated :
        Ensures
          (round_trip answers (update_request tenant id in_state set))
          (Updated id in_state set)
    updated s rows h =
        let (r, same) =
          round_trip-Ensures answers (update_request tenant id in_state set) s rows h in
        subst (λ t'. Updated id in_state set rows s.tables t') (sym same)
          (update_request-Updated tenant id in_state set s.tables rows r)

    go :
        (rows : ℕ) (s : Session Tables) (b : Unit {0})
        → ((expect_one e rows >> k) s).0 ≡ ok b
        → (t : Tables) → Updated id in_state set rows t s.tables
        → IsPublished t
        → (nat_beq rows 1 ≡ true) ⊎ (nat_beq rows 1 ≡ false)
        → IsPublished ((expect_one e rows >> k) s).1.tables
    go rows s b h t up v (inr miss) = cc (rw miss at h)
    go rows s b h t up v (inl hit) =
        let (r, there, state, now) = up (ground arith) in
        let added : Adds es s.tables (k s).1.tables = adds s b (rw hit at h) in
        rw (hit, added, now)
          (write-IsPublished t id (some r) (set r) es there (announces r state) v)

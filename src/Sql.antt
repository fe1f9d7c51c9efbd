-- ===== src/Sql.antt =====
-- Statements and transactions of a PostgreSQL server, as internal/persistence uses them through pgx.
-- Tables are an argument: a statement is a function on them. Statements of one transaction run as one
-- step, as they do on the rows that they lock.
pub mod Atomic
use aegis_ai_platform.Prelude.{ℕ, ◌+◌, String}
use aegis_ai_platform.Errors.{Result, ok, err, Failure, wrapped}
use aegis_ai_platform.Action.{Action}

-- How the server answers a round trip: with the result; with an error, having done nothing, as on a
-- violated constraint; or not at all, having done it, as when the connection breaks.
pub data Answer : Type 0 where
  heard : Answer
  refused unheard : Failure → Answer

pub record Session (T : Type 0) : Type 0 where
  pub tables : T
  pub trips : ℕ

module _ {T : Type 0} where
  unfoldable pub answer_with :
      {A : Type 0} → Answer → Result A → T → Session T → Result A × Session T
  answer_with heard result tables s = (result, record { tables = tables; trips = s.trips + 1 })
  answer_with (refused e) result tables s =
      (err e, record { tables = s.tables; trips = s.trips + 1 })
  answer_with (unheard e) result tables s = (err e, record { tables = tables; trips = s.trips + 1 })

  -- One statement. `answers n` is the answer to the n-th round trip.
  unfoldable pub round_trip :
      {A : Type 0} → (ℕ → Answer) → (T → Result A × T) → Action (Session T) A
  unfolding answer_with
  round_trip answers statement s =
      let (result, tables) = statement s.tables in answer_with (answers s.trips) result tables s

  -- COMMIT of a transaction that began at `before`.
  unfoldable pub commit :
      {A : Type 0} → Answer → (Failure → Failure) → T → A → Session T → Result A × Session T
  commit heard commit_error before a s = (ok a, record { tables = s.tables; trips = s.trips + 1 })
  commit (refused e) commit_error before a s =
      (err (commit_error e), record { tables = before; trips = s.trips + 1 })
  commit (unheard e) commit_error before a s =
      (err (commit_error e), record { tables = s.tables; trips = s.trips + 1 })

  -- COMMIT, or ROLLBACK after an error.
  unfoldable pub conclude :
      {A : Type 0}
      → (ℕ → Answer)
      → (Failure → Failure)
      → T
      → Result A
      → Session T
      → Result A × Session T
  unfolding commit
  conclude answers commit_error before (err e) s =
      (err e, record { tables = before; trips = s.trips })
  conclude answers commit_error before (ok a) s = commit (answers s.trips) commit_error before a s

  unfoldable pub transact :
      {A : Type 0}
      → (ℕ → Answer)
      → (Failure → Failure)
      → Action (Session T) A
      → T
      → Result (Unit {0})
      → Action (Session T) A
  unfolding conclude
  transact answers commit_error body before (err e) s = (err e, s)
  transact answers commit_error body before (ok _) s =
      let (result, s') = body s in conclude answers commit_error before result s'

  -- BEGIN, the body, and COMMIT or ROLLBACK, with what the code makes of errors of the first and last.
  unfoldable pub transaction :
      {A : Type 0}
      → (ℕ → Answer)
      → (Failure → Failure)
      → (Failure → Failure)
      → Action (Session T) A
      → Action (Session T) A
  unfolding round_trip transact
  transaction answers begin_error commit_error body s =
      let (begun, s') = round_trip answers (λ t. (ok tt, t)) s in
      transact answers commit_error body s.tables
        (elim begun [ ok _ ↦ ok tt | err e ↦ err (begin_error e) ]) s'

-- fmt.Errorf("...: %w", err) on an error of an action.
abbrev pub label : {S A : Type 0} → String → Action S A → Action S A
label message action s =
    let (result, s') = action s in
    (elim result [ ok a ↦ ok a | err e ↦ err (wrapped message e) ], s')

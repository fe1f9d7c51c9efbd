-- ===== src/Sql/Atomic.antt =====
-- Transactions are all or nothing, whatever the server answers.
use aegis_ai_platform.Prelude.{ℕ, ◌≡◌, refl, inl, inr, sym, subst, String, Bool, true, false}
use aegis_ai_platform.Errors.{Result, ok, err, Failure, Result-cases}
use aegis_ai_platform.Action.{Action, ◌>>=◌, after, lift, check}
use aegis_ai_platform.Sql.{
  Answer, heard, refused, unheard, Session, answer_with, round_trip, commit, conclude, transact,
  transaction, label,
}

-- What an action that returns a result has made of the tables.
abbrev pub Ensures : {T A : Type 0} → Action (Session T) A → (A → T → T → Type 0) → Type 0
Ensures {T} {A} m P = (s : Session T) (a : A) → (m s).0 ≡ ok a → P a s.tables (m s).1.tables

pub round_trip-Ensures :
    {T A : Type 0} (answers : ℕ → Answer) (statement : T → Result A × T)
    → Ensures
        (round_trip answers statement)
        (λ a t t'. ((statement t).0 ≡ ok a) × (t' ≡ (statement t).1))
unfolding round_trip
round_trip-Ensures answers statement s a h = go (answers s.trips) h
  where
    go :
        (x : Answer)
        → (answer_with x (statement s.tables).0 (statement s.tables).1 s).0 ≡ ok a
        → ((statement s.tables).0 ≡ ok a)
          × ((answer_with x (statement s.tables).0 (statement s.tables).1 s).1.tables
              ≡ (statement s.tables).1)
    go heard e = (e, refl)
    go (refused f) e = cc
    go (unheard f) e = cc

pub round_trip-Keeps :
    {T A : Type 0} (Inv : T → Type 0) (answers : ℕ → Answer) (statement : T → Result A × T)
    (s : Session T)
    → Inv s.tables
    → Inv (statement s.tables).1
    → Inv (round_trip answers statement s).1.tables
unfolding round_trip
round_trip-Keeps Inv answers statement s v w = go (answers s.trips)
  where
    go : (x : Answer) → Inv (answer_with x (statement s.tables).0 (statement s.tables).1 s).1.tables
    go heard = w
    go (refused f) = v
    go (unheard f) = w

pub label-Ensures :
    {T A : Type 0} (message : String) (m : Action (Session T) A) (P : A → T → T → Type 0)
    → Ensures m P
    → Ensures (label message m) P
label-Ensures message m P k s a h = elim (Result-cases (m s).0) [
  | inl (b, e) ↦
      let same : b ≡ a = cc (rw e at h) in subst (λ c. P c s.tables (m s).1.tables) same (k s b e)
  | inr (x, e) ↦ cc (rw e at h)
]

-- The second action starts from the tables that the first one leaves.
pub >>=-Ensures :
    {T A B : Type 0} (m : Action (Session T) A) (f : A → Action (Session T) B)
    (P : A → T → T → Type 0) (Q : B → T → T → Type 0)
    → Ensures m P
    → ((a : A) → Ensures (f a) (λ b t' t''. (t : T) → P a t t' → Q b t t''))
    → Ensures (m >>= f) Q
>>=-Ensures m f P Q k h s b e = elim (Result-cases (m s).0) [
  | inl (a, r) ↦ rw r (h a (m s).1 b (rw r at e) s.tables (k s a r))
  | inr (x, r) ↦ cc (rw r at e)
]

module _ {T A : Type 0} (Inv : T → Type 0) (commit_error : Failure → Failure) (before : T) where
  commit-Keeps :
      (x : Answer) (a : A) (s : Session T)
      → Inv before
      → Inv s.tables
      → Inv (commit x commit_error before a s).1.tables
  unfolding commit
  commit-Keeps heard a s v w = w
  commit-Keeps (refused e) a s v w = v
  commit-Keeps (unheard e) a s v w = w

  conclude-Keeps :
      (answers : ℕ → Answer) (r : Result A) (s : Session T)
      → Inv before
      → ((a : A) → r ≡ ok a → Inv s.tables)
      → Inv (conclude answers commit_error before r s).1.tables
  unfolding conclude
  conclude-Keeps answers (err e) s v h = v
  conclude-Keeps answers (ok a) s v h = commit-Keeps (answers s.trips) a s v (h a refl)

  transact-Keeps :
      (answers : ℕ → Answer) (body : Action (Session T) A) (begun : Result (Unit {0}))
      (s : Session T)
      → Ensures body (λ a t t'. Inv t → Inv t')
      → s.tables ≡ before
      → Inv before
      → Inv (transact answers commit_error body before begun s).1.tables
  unfolding transact
  transact-Keeps answers body (err e) s k same v = subst Inv (sym same) v
  transact-Keeps answers body (ok _) s k same v =
      conclude-Keeps answers (body s).0 (body s).1 v (λ a e. k s a e (subst Inv (sym same) v))

begin-tables :
    {T : Type 0} (answers : ℕ → Answer) (s : Session T)
    → (round_trip answers (λ (t : T). (ok tt, t)) s).1.tables ≡ s.tables
unfolding round_trip
begin-tables answers s = go (answers s.trips)
  where
    go : (x : Answer) → (answer_with x (ok tt) s.tables s).1.tables ≡ s.tables
    go heard = refl
    go (refused f) = refl
    go (unheard f) = refl

-- An invariant of the tables that the body re-establishes where it returns a result holds after the
-- transaction, whether or not it was committed and whether or not the answer came back.
pub transaction-Keeps :
    {T A : Type 0} (Inv : T → Type 0) (answers : ℕ → Answer)
    (begin_error commit_error : Failure → Failure) (body : Action (Session T) A)
    → Ensures body (λ a t t'. Inv t → Inv t')
    → (s : Session T) → Inv s.tables
    → Inv (transaction answers begin_error commit_error body s).1.tables
unfolding transaction
transaction-Keeps Inv answers begin_error commit_error body k s v =
    transact-Keeps Inv commit_error s.tables answers body _
      (round_trip answers (λ t. (ok tt, t)) s).1 k (begin-tables answers s) v

-- An invariant that every step keeps, also where it fails.
unfoldable pub Keeps : {T A : Type 0} → (T → Type 0) → Action (Session T) A → Type 0
Keeps {T} Inv m = (s : Session T) → Inv s.tables → Inv (m s).1.tables

pub >>=-Keeps :
    {T A B : Type 0} (Inv : T → Type 0) (m : Action (Session T) A) (f : A → Action (Session T) B)
    → Keeps Inv m
    → ((a : A) → Keeps Inv (f a))
    → Keeps Inv (m >>= f)
unfolding Keeps
>>=-Keeps {T = T} {A = A} Inv m f h k s v = go (m s).0 (m s).1 (h s v)
  where
    go : (r : Result A) (s' : Session T) → Inv s'.tables → Inv (after r f s').1.tables
    go (ok a) s' w = k a s' w
    go (err e) s' w = w

pub lift-Keeps : {T A : Type 0} (Inv : T → Type 0) (r : Result A) → Keeps Inv (lift r)
unfolding Keeps
lift-Keeps Inv r s v = v

pub check-Keeps : {T : Type 0} (Inv : T → Type 0) (b : Bool) (e : Failure) → Keeps Inv (check b e)
unfolding Keeps
check-Keeps Inv true e s v = v
check-Keeps Inv false e s v = v

pub label-Keeps :
    {T A : Type 0} (Inv : T → Type 0) (answers : ℕ → Answer) (message : String)
    (statement : T → Result A × T)
    → ((t : T) → Inv t → Inv (statement t).1)
    → Keeps Inv (label message (round_trip answers statement))
unfolding Keeps
label-Keeps Inv answers message statement h s v =
    round_trip-Keeps Inv answers statement s v (h s.tables v)

conclude-ok :
    {T A : Type 0} (answers : ℕ → Answer) (commit_error : Failure → Failure) (before : T)
    (r : Result A) (s : Session T) (a : A)
    → (conclude answers commit_error before r s).0 ≡ ok a
    → (r ≡ ok a) × ((conclude answers commit_error before r s).1.tables ≡ s.tables)
unfolding conclude commit
conclude-ok answers commit_error before (err e) s a h = cc
conclude-ok {A = A} answers commit_error before (ok b) s a h = go (answers s.trips) h
  where
    go :
        (x : Answer)
        → (commit x commit_error before b s).0 ≡ ok a
        → (ok b ≡ ok a) × ((commit x commit_error before b s).1.tables ≡ s.tables)
    go heard e = (e, refl)
    go (refused f) e = cc
    go (unheard f) e = cc

transact-ok :
    {T A : Type 0} (answers : ℕ → Answer) (commit_error : Failure → Failure)
    (body : Action (Session T) A) (before : T) (begun : Result (Unit {0})) (s : Session T) (a : A)
    (P : A → T → T → Type 0)
    → Ensures body P
    → (transact answers commit_error body before begun s).0 ≡ ok a
    → P a s.tables (transact answers commit_error body before begun s).1.tables
unfolding transact
transact-ok answers commit_error body before (err e) s a P k h = cc
transact-ok answers commit_error body before (ok _) s a P k h =
    let (r, same) = conclude-ok answers commit_error before (body s).0 (body s).1 a h in
    subst (P a s.tables) (sym same) (k s a r)

-- A transaction that returns a result has done what its body does.
pub transaction-Ensures :
    {T A : Type 0} (answers : ℕ → Answer) (begin_error commit_error : Failure → Failure)
    (body : Action (Session T) A) (P : A → T → T → Type 0)
    → Ensures body P
    → Ensures (transaction answers begin_error commit_error body) P
unfolding transaction
transaction-Ensures answers begin_error commit_error body P k s a h =
    subst (λ t. P a t (transaction answers begin_error commit_error body s).1.tables)
      (begin-tables answers s)
      (transact-ok answers commit_error body s.tables _ (round_trip answers (λ t. (ok tt, t)) s).1 a
        P k h)

-- ===== src/Action.antt =====
-- A Go method that may fail: it returns its result, and leaves its receiver in some state also when
-- it fails. `do` blocks stop at the first error.
use aegis_ai_platform.Prelude.{Bool, true, false}
use aegis_ai_platform.Errors.{Result, ok, err, Failure}

abbrev pub Action : Type 0 → Type 0 → Type 0
Action S A = S → Result A × S

abbrev pub after {ℓ} :
    {A B : Type 0} {S : Type ℓ} → Result A → (A → S → Result B × S) → S → Result B × S
after (ok a) f s = f a s
after (err e) f s = (err e, s)

infixl 5 ◌>>=◌ ◌>>◌
abbrev pub ◌>>=◌ : {S A B : Type 0} → Action S A → (A → Action S B) → Action S B
◌>>=◌ m f s = let (r, t) = m s in after r f t

abbrev pub ◌>>◌ : {S B : Type 0} → Action S (Unit {0}) → Action S B → Action S B
m >> k = m >>= λ _. k

abbrev pub pure : {S A : Type 0} → A → Action S A
pure a s = (ok a, s)

abbrev pub raise : {S A : Type 0} → Failure → Action S A
raise e s = (err e, s)

abbrev pub lift : {S A : Type 0} → Result A → Action S A
lift r s = (r, s)

abbrev pub modify : {S : Type 0} → (S → S) → Action S (Unit {0})
modify f s = (ok tt, f s)

abbrev pub gets : {S A : Type 0} → (S → A) → Action S A
gets f s = (ok (f s), s)

abbrev pub check : {S : Type 0} → Bool → Failure → Action S (Unit {0})
check true e s = (ok tt, s)
check false e s = (err e, s)

-- ===== src/Auth/Verified.antt =====
-- Whom Verify of internal/auth/apikey.go lets in.
use aegis_ai_platform.Prelude.{
  ℕ, ℤ, ◌<ℤ◌, Text, false, List, Option, none, some, ◌≡◌, refl, ◌↔◌, text_eq, text_beq_iff, arith,
  length, nat_beq_iff,
}
use aegis_ai_platform.Errors.{Result, ok, err, >>=-eq-ok}
use aegis_ai_platform.Auth.{
  StoredKey, Principal, principal_of, parse_prefix, or_invalid, verify, verify_stored, has_expired,
}

-- A key is refused from its expiry on.
abbrev pub IsUnexpired : Option ℤ → ℤ → Type 0
IsUnexpired none now = Unit {0}
IsUnexpired (some expires_at) now = now <ℤ expires_at

abbrev pub IsCurrent : StoredKey → ℤ → Type 0
IsCurrent stored now = (stored.revoked_at ≡ none) × IsUnexpired stored.expires_at now

has_expired_iff : (o : Option ℤ) (now : ℤ) → (has_expired o now ≡ false) ↔ IsUnexpired o now
unfolding has_expired
has_expired_iff none now = ground arith
has_expired_iff (some u) now = ground arith

verify_stored-eq-ok :
    (digest : Text → List ℕ) (plain : Text) (now : ℤ) (stored : StoredKey) (p : Principal)
    → verify_stored digest plain now stored ≡ ok p
    → (digest plain ≡ stored.hash) × IsCurrent stored now × (p ≡ principal_of stored)
unfolding verify_stored
verify_stored-eq-ok digest plain now stored p h = (
  ground (arith, text_beq_iff (digest plain) stored.hash),
  (ground arith, (has_expired_iff stored.expires_at now).0 (ground arith)),
  ground arith,
)

or_invalid-eq-ok : {A : Type 0} (r : Result A) (a : A) → or_invalid r ≡ ok a → r ≡ ok a
unfolding or_invalid
or_invalid-eq-ok (ok b) a h = h
or_invalid-eq-ok (err e) a h = cc

stored-verify :
    (digest : Text → List ℕ) (plain : Text) (now : ℤ) (stored : StoredKey)
    → digest plain ≡ stored.hash
    → IsCurrent stored now
    → verify_stored digest plain now stored ≡ ok (principal_of stored)
unfolding verify_stored
stored-verify digest plain now stored same (unrevoked, unexpired) =
    rw
      (
        same,
        (text_beq_iff stored.hash stored.hash).1 refl,
        (nat_beq_iff (length stored.hash) (length stored.hash)).1 refl,
        unrevoked,
        (has_expired_iff stored.expires_at now).1 unexpired,
      )
      refl

-- Verify lets in exactly the holder of a well-formed key whose prefix finds a stored key with the
-- digest of the whole key, which is not revoked and not past its expiry, as the principal that the
-- stored key names.
pub verify_iff :
    (find : Text → Result StoredKey) (digest : Text → List ℕ) (plain : Text) (now : ℤ)
    (p : Principal)
    → (verify find digest plain now ≡ ok p) ↔ (
        (prefix : Text) × (stored : StoredKey) × (parse_prefix plain ≡ ok prefix)
        × (find prefix ≡ ok stored)
        × (digest plain ≡ stored.hash)
        × IsCurrent stored now
        × (p ≡ principal_of stored))
unfolding verify or_invalid
verify_iff find digest plain now p = (forth, back)
  where
    forth :
        verify find digest plain now ≡ ok p
        → (prefix : Text) × (stored : StoredKey) × (parse_prefix plain ≡ ok prefix)
          × (find prefix ≡ ok stored)
          × (digest plain ≡ stored.hash)
          × IsCurrent stored now
          × (p ≡ principal_of stored)
    forth h =
        let (prefix, parsed, h') = >>=-eq-ok (or_invalid (parse_prefix plain)) _ h in
        let (stored, found, h'') = >>=-eq-ok (or_invalid (find prefix)) _ h' in
        let (same, current, who) = verify_stored-eq-ok digest plain now stored p h'' in
        (
          prefix,
          stored,
          or_invalid-eq-ok _ prefix parsed,
          or_invalid-eq-ok _ stored found,
          same,
          current,
          who,
        )

    back :
        ((prefix : Text) × (stored : StoredKey) × (parse_prefix plain ≡ ok prefix)
          × (find prefix ≡ ok stored)
          × (digest plain ≡ stored.hash)
          × IsCurrent stored now
          × (p ≡ principal_of stored))
        → verify find digest plain now ≡ ok p
    back (prefix, stored, parsed, found, same, current, who) =
        rw (parsed, found, who) (stored-verify digest plain now stored same current)

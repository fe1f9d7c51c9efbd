-- ===== src/Auth.antt =====
-- internal/auth/apikey.go: API-key verification and scopes. The keyed digest of package crypto/hmac
-- and the lookup in the store are arguments. A scope map is a list of its keys.
pub mod Verified
mod Tests
use aegis_ai_platform.Prelude.{
  ℕ, zero, suc, ℤ, Text, text, len, Bool, true, false, not, ◌&&◌, ◌||◌, List, [], ◌∷◌, Option, none,
  some, contains, text_eq, ltb, leb, nat_beq, ltb_ℤ, if◌then◌else◌, ◌==◌, length,
}
use aegis_ai_platform.Errors.{
  Result, ok, err, Failure, invalid_key, expired_key, revoked_key, scope_denied, ◌>>=◌, ◌>>◌,
}

pub record StoredKey : Type 0 where
  pub id : Text
  pub tenant_id : Text
  pub user_id : Text
  pub prefix : Text
  pub hash : List ℕ
  pub scopes : List Text
  pub expires_at : Option ℤ
  pub revoked_at : Option ℤ

pub record Principal : Type 0 where
  pub api_key_id : Text
  pub tenant_id : Text
  pub user_id : Text
  pub scopes : List Text

-- The text before the first separator, and the text after it.
unfoldable pub cut : ℕ → Text → Option (Text × Text)
cut sep [] = none
cut sep (c ∷ s) =
    let rest = cut sep s in
    if nat_beq c sep
    then some ([], s)
    else elim rest [ none ↦ none | some (a, b) ↦ some (c ∷ a, b) ]

-- strings.SplitN(plain, "_", 3), where it gives three parts.
unfoldable pub split_three : Text → Option (Text × Text × Text)
unfolding cut
split_three plain = elim (cut 0x5f plain) [
  | none ↦ none
  | some (a, rest) ↦ elim (cut 0x5f rest) [ none ↦ none | some (b, c) ↦ some (a, b, c) ]
]

abbrev key_prefix : Text
key_prefix = text "aegis"

unfoldable pub check_parts : Option (Text × Text × Text) → Result Text
check_parts none = err invalid_key
check_parts (some (a, b, c)) =
    if not (a == key_prefix) || not (nat_beq (len b) 10) || ltb (len c) 40
    then err invalid_key
    else ok b

unfoldable pub parse_prefix : Text → Result Text
unfolding split_three check_parts
parse_prefix plain = check_parts (split_three plain)

-- An error of the lookup, whatever it is, becomes ErrInvalidKey.
unfoldable pub or_invalid {ℓ} : {A : Type ℓ} → Result A → Result A
or_invalid (ok a) = ok a
or_invalid (err e) = err invalid_key

abbrev pub is_some {ℓ} : {A : Type ℓ} → Option A → Bool
is_some none = false
is_some (some a) = true

-- stored.ExpiresAt != nil && !now.Before(*stored.ExpiresAt)
unfoldable pub has_expired : Option ℤ → ℤ → Bool
has_expired none now = false
has_expired (some expires_at) now = not (ltb_ℤ now expires_at)

abbrev pub principal_of : StoredKey → Principal
principal_of stored = record {
  api_key_id = stored.id;
  tenant_id = stored.tenant_id;
  user_id = stored.user_id;
  scopes = stored.scopes;
}

-- ConstantTimeCompare of slices of one length is equality of the bytes.
unfoldable pub verify_stored : (Text → List ℕ) → Text → ℤ → StoredKey → Result Principal
unfolding has_expired
verify_stored digest plain now stored =
    if not (nat_beq (length (digest plain)) (length stored.hash))
      || not (digest plain == stored.hash)
    then err invalid_key
    else if is_some stored.revoked_at
    then err revoked_key
    else if has_expired stored.expires_at now
    then err expired_key
    else ok (principal_of stored)

-- `digest` is Hash(pepper, ·).
unfoldable pub verify : (Text → Result StoredKey) → (Text → List ℕ) → Text → ℤ → Result Principal
unfolding parse_prefix or_invalid verify_stored
verify find digest plain now = do
  prefix ← or_invalid (parse_prefix plain)
  stored ← or_invalid (find prefix)
  verify_stored digest plain now stored

unfoldable pub require_scope : Principal → Text → Result (Unit {0})
require_scope principal scope =
    if contains principal.scopes (text "*")
    then ok tt
    else if not (contains principal.scopes scope)
    then err scope_denied
    else ok tt

-- ===== src/Auth/Tests.antt =====
-- Runs of internal/auth/apikey.go, and its theorems at a concrete input.
use aegis_ai_platform.Prelude.{
  ℕ, pos, Text, text, ◌≡◌, refl, List, [], ◌∷◌, none, some, arith, ◌==◌, text_eq, text_beq, len,
  if◌then◌else◌,
}
use aegis_ai_platform.Errors.{Result, ok, err, not_found, expired_key}
use aegis_ai_platform.Auth.{
  StoredKey, principal_of, cut, split_three, check_parts, parse_prefix, verify, verify_stored,
  or_invalid, has_expired,
}
use aegis_ai_platform.Auth.Verified.{verify_iff}

abbrev plain : Text
plain = text "aegis_0123456789_0123456789abcdefghij0123456789abcdefghij"

-- A digest that is only good for these runs.
abbrev digest : Text → List ℕ
digest s = 7 ∷ s

abbrev key : StoredKey
key = record {
  id = text "k1";
  tenant_id = text "t1";
  user_id = text "u1";
  prefix = text "0123456789";
  hash = digest plain;
  scopes = text "chat" ∷ [];
  expires_at = some (pos 100);
  revoked_at = none;
}

abbrev find : Text → Result StoredKey
find prefix = if prefix == key.prefix then ok key else err not_found

expired : verify find digest plain (pos 100) ≡ err expired_key
unfolding verify parse_prefix split_three cut check_parts or_invalid verify_stored has_expired
    text_beq len
expired = refl

verify_iff_example : verify find digest plain (pos 99) ≡ ok (principal_of key)
unfolding parse_prefix split_three cut check_parts text_beq len
verify_iff_example =
    (verify_iff find digest plain (pos 99) (principal_of key)).1
      (text "0123456789", key, refl, refl, refl, (refl, omega arith), refl)

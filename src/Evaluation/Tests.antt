-- ===== src/Evaluation/Tests.antt =====
-- Runs of internal/evaluation/evaluation.go, and its theorems at concrete inputs.
use aegis_ai_platform.Prelude.{
  pos, Text, text, text_eq, text_beq, len, is_space, trim_space, trim_left, true, List, [], ◌∷◌,
  length, lookup, ◌==◌, if◌then◌else◌, ◌≡◌, refl,
}
use aegis_ai_platform.Evaluation.{
  Input, mask, rune_at, evaluate_pii, evaluate_quality, evaluate_safety, evaluate_performance,
  assess, penalize, fields_from, is_repetitive, most_repeated, has_prefix, has_suffix,
}
use aegis_ai_platform.Evaluation.Scores.{IsCoherent, evaluators-IsCoherent}
use aegis_ai_platform.Evaluation.Masking.{mask_hides}

-- A response of five bytes, for which JSON was asked, from a slow provider.
abbrev brief : Input
brief = record {
  response = text " short ";
  requested_format = text "json";
  provider_latency = pos 2000;
  total_latency = pos 2000;
  prompt_tokens = pos 10;
  completion_tokens = pos 5;
  cost_micro_usd = pos 3;
  max_provider_latency = pos 1000;
  max_total_latency = pos 0;
  max_tokens = pos 15;
  max_cost_micro_usd = pos 2;
  blocked_terms = text " SHORT" ∷ text " " ∷ [];
}

abbrev same : Text → Text
same s = s

abbrev found : Text → Text → List Text
found code response = if code == text "email" then text "alice@example.com" ∷ [] else []

brief_quality : (evaluate_quality same brief (pos 0)).score_milli ≡ 450
unfolding evaluate_quality trim_left trim_space is_space assess penalize fields_from is_repetitive
    most_repeated has_prefix has_suffix len text_beq lookup
brief_quality = refl

brief_performance : (evaluate_performance brief (pos 0)).score_milli ≡ 500
unfolding evaluate_performance
brief_performance = refl

masked_email : mask (text "alice@example.com") ≡ text "a***************m"
unfolding mask
masked_email = refl

evaluators-IsCoherent_example :
    IsCoherent (evaluate_pii found (λ s. true) brief (pos 1))
    × IsCoherent (evaluate_quality same brief (pos 1))
    × IsCoherent (evaluate_safety same brief (pos 1))
    × IsCoherent (evaluate_performance brief (pos 1))
evaluators-IsCoherent_example = evaluators-IsCoherent found (λ s. true) same brief (pos 1)

mask_hides_example :
    (length (mask (text "alice")) ≡ length (text "alice"))
    × (mask (text "alice") ≡ mask (text "ample"))
unfolding rune_at
mask_hides_example = mask_hides (text "alice") (text "ample") refl (λ h. (refl, refl))

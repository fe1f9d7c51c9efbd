-- ===== src/Evaluation.antt =====
-- internal/evaluation/evaluation.go: the deterministic evaluators of a response. The matches of the
-- regular expressions, net.ParseIP and strings.ToLower are parameters; so is the measured duration.
-- A score is a natural number: subtraction stops at 0, as max(0, ...) does.
mod Words
pub mod Scores
pub mod Masking
mod Tests
use aegis_ai_platform.Prelude.{
  ℕ, zero, suc, ◌+◌, ◌-◌, ◌*◌, max, ℤ, pos, ◌+ℤ◌, ltb_ℤ, int64, Text, text, text_eq, text_beq, len,
  is_space, trim_space, Bool, true, false, not, ◌&&◌, ◌||◌, List, [], ◌∷◌, ◌++◌, Option, none, some,
  lookup, insert, length, get_elem?, replicate, ltb, leb, nat_beq, ◌==◌, String, if◌then◌else◌,
}
unfoldable pub use Words.*

pub record Input : Type 0 where
  pub response : Text
  pub requested_format : Text
  pub provider_latency : ℤ
  pub total_latency : ℤ
  pub prompt_tokens : ℤ
  pub completion_tokens : ℤ
  pub cost_micro_usd : ℤ
  pub max_provider_latency : ℤ
  pub max_total_latency : ℤ
  pub max_tokens : ℤ
  pub max_cost_micro_usd : ℤ
  pub blocked_terms : List Text

pub data Severity : Type 0 where
  medium high : Severity

pub record Finding : Type 0 where
  pub code : Text
  pub severity : Severity
  pub message : Text
  pub masked : Text

pub data Outcome : Type 0 where
  passed failed : Outcome

pub record Evaluated : Type 0 where
  pub name : Text
  pub version : Text
  pub score_milli : ℕ
  pub status : Outcome
  pub findings : List Finding
  pub duration : ℤ

-- Slices in range.
unfoldable pub rune_at : List ℕ → ℕ → ℕ
rune_at [] n = 0
rune_at (c ∷ s) zero = c
rune_at (c ∷ s) (suc n) = rune_at s n

unfoldable pub mask : Text → Text
unfolding rune_at
mask value =
    if leb (length value) 4
    then replicate (length value) 42
    else rune_at value 0 ∷ replicate (length value - 2) 42
      ++ (rune_at value (length value - 1) ∷ [])

-- The codes of piiPatterns.
abbrev pub pii_codes : List Text
pii_codes =
    text "email"
    ∷ text "phone"
    ∷ text "payment_card_like"
    ∷ text "national_identifier_like"
    ∷ text "ip_address"
    ∷ []

-- `find_all code` is FindAllString of the pattern under the code, and `is_ip` says that net.ParseIP
-- does not return nil.
module _ (find_all : Text → Text → List Text) (is_ip : Text → Bool) where
  unfoldable pub pii_matches : Text → List Text → List Finding
  unfolding mask
  pii_matches code [] = []
  pii_matches code (match ∷ matches) =
      let rest = pii_matches code matches in
      if code == text "ip_address" && not (is_ip match)
      then rest
      else record {
        code = code;
        severity = high;
        message = text "possible sensitive value detected";
        masked = mask match;
      }
        ∷ rest

  unfoldable pub pii_findings : Text → List Text → List Finding
  unfolding pii_matches
  pii_findings response [] = []
  pii_findings response (code ∷ codes) =
      pii_matches code (find_all code response) ++ pii_findings response codes

  unfoldable pub evaluate_pii : Input → ℤ → Evaluated
  unfolding pii_findings
  evaluate_pii input duration =
      let findings = pii_findings input.response pii_codes in
      record {
        name = text "pii_detector";
        version = text "1.0.0";
        score_milli = 1000 - length findings * 250;
        status = if is_empty findings then passed else failed;
        findings = findings;
        duration = duration;
      }

-- A finding of Quality, which takes points off the score.
unfoldable pub penalize : Bool → String → String → ℕ → ℕ × List Finding → ℕ × List Finding
penalize found code message points (score, findings) =
    if found
    then (
      score - points,
      findings
          ++ record { code = text code; severity = medium; message = text message; masked = [] }
            ∷ [],
    )
    else (score, findings)

-- `lower` is strings.ToLower.
module _ (lower : Text → Text) where
  unfoldable pub assess : Text → Text → ℕ × List Finding
  unfolding fields_from is_repetitive has_prefix has_suffix len
  assess format [] = (
    0,
    record {
      code = text "empty_response";
      severity = high;
      message = text "response is empty";
      masked = [];
    }
        ∷ [],
  )
  assess format (c ∷ s) =
      let trimmed = c ∷ s in
      let words = fields_from [] (lower trimmed) in
      penalize
        (format == text "json"
          && not (has_prefix trimmed (text "{") && has_suffix trimmed (text "}")))
        "format_mismatch" "response does not match requested JSON format" 300
        (penalize (is_repetitive words && leb 8 (length words)) "repetition"
          "response contains excessive repetition" 300
          (penalize (ltb (len trimmed) 20) "too_short" "response may not be useful" 250 (1000, [])))

  unfoldable pub evaluate_quality : Input → ℤ → Evaluated
  unfolding assess trim_space
  evaluate_quality input duration =
      let (score, findings) = assess input.requested_format (trim_space input.response) in
      record {
        name = text "quality";
        version = text "1.0.0";
        score_milli = score;
        status = if ltb score 700 then failed else passed;
        findings = findings;
        duration = duration;
      }

  unfoldable pub blocked : Text → List Text → List Finding
  unfolding trim_space contains_text mask
  blocked response [] = []
  blocked response (blocked_term ∷ terms) =
      let rest = blocked response terms in
      let term = trim_space (lower blocked_term) in
      if not (is_empty term) && contains_text response term
      then record {
        code = text "blocked_term";
        severity = high;
        message = text "configured blocked pattern detected";
        masked = mask term;
      }
        ∷ rest
      else rest

  unfoldable pub evaluate_safety : Input → ℤ → Evaluated
  unfolding blocked
  evaluate_safety input duration =
      let findings = blocked (lower input.response) input.blocked_terms in
      record {
        name = text "safety";
        version = text "1.0.0";
        score_milli = if is_empty findings then 1000 else 0;
        status = if is_empty findings then passed else failed;
        findings = findings;
        duration = duration;
      }

-- A limit that is not positive is none.
unfoldable pub exceeds : ℤ → ℤ → Bool
exceeds value limit = ltb_ℤ (pos 0) limit && ltb_ℤ limit value

unfoldable pub exceeded : List (Bool × (String × String)) → List Finding
exceeded [] = []
exceeded ((b, (code, message)) ∷ checks) =
    let rest = exceeded checks in
    if b
    then record { code = text code; severity = medium; message = text message; masked = [] } ∷ rest
    else rest

unfoldable pub evaluate_performance : Input → ℤ → Evaluated
unfolding exceeds exceeded int64 ◌+ℤ◌
evaluate_performance input duration =
    let findings = exceeded (
      (
        exceeds input.provider_latency input.max_provider_latency,
        ("provider_latency", "provider latency exceeded threshold"),
      )
      ∷ (
        exceeds input.total_latency input.max_total_latency,
        ("total_latency", "total latency exceeded threshold"),
      )
      ∷ (
        exceeds (int64 (input.prompt_tokens +ℤ input.completion_tokens)) input.max_tokens,
        ("token_count", "token count exceeded threshold"),
      )
      ∷ (exceeds input.cost_micro_usd input.max_cost_micro_usd, ("cost", "cost exceeded threshold"))
      ∷ []) in
    record {
      name = text "performance";
      version = text "1.0.0";
      score_milli = 1000 - length findings * 250;
      status = if is_empty findings then passed else failed;
      findings = findings;
      duration = duration;
    }

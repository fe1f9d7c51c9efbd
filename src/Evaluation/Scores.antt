-- ===== src/Evaluation/Scores.antt =====
-- Scores and findings of internal/evaluation/evaluation.go.
use aegis_ai_platform.Prelude.{
  ℕ, ◌-◌, ◌*◌, ◌≤◌, ◌<◌, ℤ, Text, text, trim_space, String, List, [], ◌∷◌, length, Bool, true,
  false, ltb, if◌then◌else◌, ◌≡◌, ◌↔◌, refl, arith,
}
use aegis_ai_platform.Evaluation.{
  Input, Finding, passed, failed, Evaluated, penalize, assess, evaluate_pii, evaluate_quality,
  evaluate_safety, evaluate_performance, is_empty,
}

-- A result whose score, status and findings tell the same.
pub record IsCoherent (r : Evaluated) : Type 0 where
  pub bounded : r.score_milli ≤ 1000
  pub perfect : (r.score_milli ≡ 1000) ↔ (r.findings ≡ [])
  pub clean : r.findings ≡ [] → r.status ≡ passed
  pub poor : r.score_milli < 700 → r.status ≡ failed

-- A finding takes 250 points off.
by_count :
    (name version : Text) (fs : List Finding) (duration : ℤ)
    → IsCoherent (record {
      name = name;
      version = version;
      score_milli = 1000 - length fs * 250;
      status = if is_empty fs then passed else failed;
      findings = fs;
      duration = duration;
    })
by_count name version [] duration = record {
  bounded = omega arith;
  perfect = ground arith;
  clean = λ e. refl;
  poor = λ h. absurd (omega (arith, h));
}
by_count name version (f ∷ fs) duration = record {
  bounded = omega arith;
  perfect = ground arith;
  clean = λ e. absurd (ground (arith, e));
  poor = λ h. refl;
}

all_or_nothing :
    (name version : Text) (fs : List Finding) (duration : ℤ)
    → IsCoherent (record {
      name = name;
      version = version;
      score_milli = if is_empty fs then 1000 else 0;
      status = if is_empty fs then passed else failed;
      findings = fs;
      duration = duration;
    })
all_or_nothing name version [] duration = record {
  bounded = omega arith;
  perfect = ground arith;
  clean = λ e. refl;
  poor = λ h. absurd (omega (arith, h));
}
all_or_nothing name version (f ∷ fs) duration = record {
  bounded = omega arith;
  perfect = ground arith;
  clean = λ e. absurd (ground (arith, e));
  poor = λ h. refl;
}

-- What the penalties keep: a score without findings is whole.
record IsFair (a : ℕ × List Finding) : Type 0 where
  most : a.0 ≤ 1000
  whole : (a.0 ≡ 1000) ↔ (a.1 ≡ [])

penalize-IsFair :
    (b : Bool) (code message : String) (points : ℕ) (a : ℕ × List Finding)
    → 0 < points
    → IsFair a
    → IsFair (penalize b code message points a)
unfolding penalize
penalize-IsFair false code message points a h v = v
penalize-IsFair true code message points (score, []) h v = record {
  most = omega (arith, v.most);
  whole = (λ e. absurd (omega (arith, h, e, v.most)), λ e. absurd (ground (arith, e)));
}
penalize-IsFair true code message points (score, f ∷ fs) h v = record {
  most = omega (arith, v.most);
  whole = (λ e. absurd (omega (arith, h, e, v.most)), λ e. absurd (ground (arith, e)));
}

assess-IsFair : (lower : Text → Text) (format trimmed : Text) → IsFair (assess lower format trimmed)
unfolding assess
assess-IsFair lower format [] = record { most = omega arith; whole = ground arith }
assess-IsFair lower format (c ∷ s) = penalize-IsFair _ _ _ 300 _ (omega arith) (
    penalize-IsFair _ _ _ 300 _ (omega arith) (
      penalize-IsFair _ _ _ 250 _ (omega arith)
        (record { most = omega arith; whole = (λ e. refl, λ e. refl) })))

quality-IsCoherent :
    (lower : Text → Text) (input : Input) (duration : ℤ)
    → IsCoherent (evaluate_quality lower input duration)
unfolding evaluate_quality
quality-IsCoherent lower input duration =
    from (assess lower input.requested_format (trim_space input.response))
      (assess-IsFair lower input.requested_format (trim_space input.response))
  where
    from :
        (a : ℕ × List Finding)
        → IsFair a
        → IsCoherent (record {
          name = text "quality";
          version = text "1.0.0";
          score_milli = a.0;
          status = if ltb a.0 700 then failed else passed;
          findings = a.1;
          duration = duration;
        })
    from a v = record {
      bounded = v.most;
      perfect = v.whole;
      clean = λ e. let full : a.0 ≡ 1000 = v.whole.1 e in rw full refl;
      poor = λ h. ground (arith, h);
    }

-- Whatever the response, the patterns and the limits: each of the four evaluators gives a score of at
-- most 1000, gives 1000 exactly where it has no finding, passes where it has none, and fails where
-- the score is below 700.
pub evaluators-IsCoherent :
    (find_all : Text → Text → List Text) (is_ip : Text → Bool) (lower : Text → Text) (input : Input)
    (duration : ℤ)
    → IsCoherent (evaluate_pii find_all is_ip input duration)
      × IsCoherent (evaluate_quality lower input duration)
      × IsCoherent (evaluate_safety lower input duration)
      × IsCoherent (evaluate_performance input duration)
unfolding evaluate_pii evaluate_safety evaluate_performance
evaluators-IsCoherent find_all is_ip lower input duration = (
  by_count _ _ _ duration,
  quality-IsCoherent lower input duration,
  all_or_nothing _ _ _ duration,
  by_count _ _ _ duration,
)

-- ===== src/Examples/Scoring.antt =====
-- Verdicts on concrete signals and features.
use realtime_fraud_feature_s.Prelude.{ℕ, ◌+◌, ◌<◌, ◌≡◌, ◌↔◌, true, false, [], ◌∷◌, codes, Dict, min}
use realtime_fraud_feature_s.Python.{Json}
use realtime_fraud_feature_s.Scorer.{Signals, assess, enforce}
use realtime_fraud_feature_s.Scorer.Policy.{IsBlocked, points, risk_score, enforce_verdict}

abbrev testing : Signals
testing = record {
  velocity = true;
  failures = true;
  travel = false;
  night = false;
  deviation = false;
}

abbrev night_testing : Signals
night_testing = record testing { night = true }

enforce_verdict_example :
    (IsBlocked (enforce 6 (assess testing)) ↔ (75 < points testing + 6))
    × (risk_score (enforce 6 (assess testing)) ≡ min (points testing + 6) 100)
enforce_verdict_example = enforce_verdict testing 6

abbrev nothing_known : Dict (Json ℕ)
nothing_known = (codes "user_id", Json.str (codes "u1")) ∷ []

-- ===== src/Fixtures/Floats.antt =====
-- Natural numbers in the place of floats.
use realtime_fraud_feature_s.Prelude.{ℕ, ◌*◌, ◌≡◌, false, ltb, ℤ, pos, negsuc, ltb_ℤ, arith}
use realtime_fraud_feature_s.Api.Health.{Hours, freshness_limit_hours}
use realtime_fraud_feature_s.Scorer.{Floats}

abbrev pub toy_of : ℤ → ℕ
toy_of (pos us) = us
toy_of (negsuc us) = 0

pub toy_below-of :
    (us : ℤ)
    → ltb (toy_of us) (freshness_limit_hours * 3_600_000_000)
      ≡ ltb_ℤ us (pos (freshness_limit_hours * 3_600_000_000))
toy_below-of (pos us) = ground arith
toy_below-of (negsuc us) = ground arith

-- Ages in microseconds.
abbrev pub toy_hours : Hours ℕ
toy_hours = record {
  of = toy_of;
  below = λ us hours. ltb us (hours * 3_600_000_000);
  round = λ us. us;
  below-of = toy_below-of;
}

pub toy_above-nought : (tenths : ℕ) → ltb tenths (0 * 10) ≡ false
toy_above-nought tenths = ground arith

abbrev pub toy_floats : Floats ℕ
toy_floats = record {
  nought = 0;
  above = λ x tenths. ltb tenths (x * 10);
  above-nought = toy_above-nought;
}

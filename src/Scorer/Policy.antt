-- ===== src/Scorer/Policy.antt =====
-- What the points and the threshold of the scorer amount to.
use Prim.Native.Nat.{min}
use realtime_fraud_feature_s.Prelude.{
  ℕ, ◌+◌, ◌*◌, ◌≤◌, ◌<◌, ◌≡◌, ◌↔◌, Bool, true, length, if◌then◌else◌, arith,
}
use realtime_fraud_feature_s.Scorer.{Risk, Signals, assess, Verdict, blocked, approved, enforce}

abbrev pub fired : Bool → ℕ
fired b = if b then 1 else 0

-- How many of the five tests pass.
abbrev pub count_signals : Signals → ℕ
count_signals s =
    fired s.velocity + fired s.failures + fired s.travel + fired s.night + fired s.deviation

pub score-assess :
    (s : Signals)
    → (assess s).score
      ≡ 30 * fired s.velocity
        + 40 * fired s.failures
        + 30 * fired s.travel
        + 20 * fired s.night
        + 25 * fired s.deviation
unfolding assess
score-assess s = ground arith

pub length-reasons : (s : Signals) → length (assess s).reasons ≡ count_signals s
unfolding assess
length-reasons s = ground arith

abbrev pub IsBlocked : Verdict → Type 0
IsBlocked (blocked score reasons) = Unit
IsBlocked (approved score) = ⊥

abbrev pub risk_score : Verdict → ℕ
risk_score (blocked score reasons) = score
risk_score (approved score) = score

-- The sum of the points of the tests that pass.
abbrev pub points : Signals → ℕ
points s =
    30 * fired s.velocity
    + 40 * fired s.failures
    + 30 * fired s.travel
    + 20 * fired s.night
    + 25 * fired s.deviation

enforce_iff : (noise : ℕ) (risk : Risk) → IsBlocked (enforce noise risk) ↔ (76 ≤ risk.score + noise)
unfolding enforce
enforce_iff noise risk = ground arith

risk_score-enforce :
    (noise : ℕ) (risk : Risk) → risk_score (enforce noise risk) ≡ min (risk.score + noise) 100
unfolding enforce
risk_score-enforce noise risk = ground arith

-- A transaction is blocked exactly if the points of the tests that pass and the noise add up to
-- more than 75, and the score is that sum, capped at 100.
pub enforce_verdict :
    (s : Signals) (noise : ℕ)
    → (IsBlocked (enforce noise (assess s)) ↔ (75 < points s + noise))
      × (risk_score (enforce noise (assess s)) ≡ min (points s + noise) 100)
enforce_verdict s noise =
    rw (← score-assess s) (enforce_iff noise (assess s), risk_score-enforce noise (assess s))

blocked_count : (s : Signals) (noise : ℕ) → noise ≤ 15 → 75 < points s + noise → 2 ≤ count_signals s
blocked_count s noise h b = ground arith

blocked_two :
    (s : Signals) (noise : ℕ)
    → noise ≤ 15
    → 75 < points s + noise
    → count_signals s ≡ 2
    → s.failures ≡ true
blocked_two s noise h b two = ground arith

four_points : (s : Signals) (noise : ℕ) → 4 ≤ count_signals s → 75 < points s + noise
four_points s noise four = ground arith

-- With noise of at most 15, one test that passes never blocks, two block at most if the failure
-- rate is one of them, and four always block.
pub enforce_signals :
    (s : Signals) (noise : ℕ)
    → noise ≤ 15
    → let v = enforce noise (assess s) in
      (IsBlocked v → 2 ≤ count_signals s)
      × (IsBlocked v → count_signals s ≡ 2 → s.failures ≡ true)
      × (4 ≤ count_signals s → IsBlocked v)
enforce_signals s noise h =
    let iff = (enforce_verdict s noise).0 in
    (
      λ b. blocked_count s noise h (iff.0 b),
      λ b two. blocked_two s noise h (iff.0 b) two,
      λ four. iff.1 (four_points s noise four),
    )

abbrev pub Implies : Signals → Signals → Type 0
Implies s s' =
    (fired s.velocity ≤ fired s'.velocity)
    × (fired s.failures ≤ fired s'.failures)
    × (fired s.travel ≤ fired s'.travel)
    × (fired s.night ≤ fired s'.night)
    × (fired s.deviation ≤ fired s'.deviation)

more_points :
    (s s' : Signals) (m n : ℕ) → Implies s s' → m ≤ n → 75 < points s + m → 75 < points s' + n
more_points s s' m n (a, b, c, d, e) h k = omega arith

-- More tests that pass and more noise never turn a block into an approval.
pub enforce_mono :
    (s s' : Signals) (m n : ℕ)
    → Implies s s'
    → m ≤ n
    → IsBlocked (enforce m (assess s))
    → IsBlocked (enforce n (assess s'))
enforce_mono s s' m n i h b =
    (enforce_verdict s' n).0.1 (more_points s s' m n i h ((enforce_verdict s m).0.0 b))

-- ===== src/Scorer.antt =====
-- feature_store/src/mock_ml_scorer.py. In `score_transaction`, `response` is what `requests.get`
-- brings, `none` for a `ConnectionError`, and `noise` is `random.randint(0, 15)`.
pub mod Policy
pub mod Features
use Prim.Native.Nat.{min}
use realtime_fraud_feature_s.Prelude.{
  ℕ, ◌+◌, ◌*◌, ◌≤◌, ◌≡◌, Option, none, some, Bool, true, false, List, [], ◌∷◌, ◌++◌, Text, codes,
  Dict, get, Outcome, returned, raised, ◌>>=◌, if◌then◌else◌, ltb, ℤ, pos, negsuc,
}
use realtime_fraud_feature_s.Python.{Json}

-- Floats, as far as the scorer compares them with a constant, which is given in tenths.
pub record Floats (F : Type 0) : Type 0 where
  pub nought : F
  pub above : F → ℕ → Bool
  pub above-nought : (tenths : ℕ) → above nought tenths ≡ false

pub data Reason : Type 0 where
  high_velocity extreme_failure_rate impossible_travel late_night amount_deviates : Reason

pub record Risk : Type 0 where
  pub score : ℕ
  pub reasons : List Reason

-- The tests of the five features, in the order of the code.
pub record Signals : Type 0 where
  pub velocity : Bool
  pub failures : Bool
  pub travel : Bool
  pub night : Bool
  pub deviation : Bool

-- if signal: risk_score += points; reasons.append(reason)
abbrev pub add_if : Bool → ℕ → Reason → Risk → Risk
add_if signal points reason risk =
    if signal
    then record { score = risk.score + points; reasons = risk.reasons ++ reason ∷ [] }
    else risk

unfoldable pub assess : Signals → Risk
assess s = add_if s.deviation 25 amount_deviates (
    add_if s.night 20 late_night (
      add_if s.travel 30 impossible_travel (
        add_if s.failures 40 extreme_failure_rate
          (add_if s.velocity 30 high_velocity (record { score = 0; reasons = [] })))))

pub data Verdict : Type 0 where
  blocked : ℕ → List Reason → Verdict
  approved : ℕ → Verdict

unfoldable pub enforce : ℕ → Risk → Verdict
enforce noise risk =
    let risk_score = min (risk.score + noise) 100 in
    if ltb 75 risk_score then blocked risk_score risk.reasons else approved risk_score

-- What ends the script: `sys.exit(1)`, or the `TypeError` of comparing `None` or a text.
pub data ScoreError : Type 0 where
  exit_one type_error : ScoreError

module _ {F : Type 0} (floats : Floats F) where
  -- value > tenths / 10
  unfoldable pub exceeds : Json F → ℕ → Outcome ScoreError Bool
  exceeds Json.null tenths = raised type_error
  exceeds (Json.str s) tenths = raised type_error
  exceeds (Json.compound s) tenths = raised type_error
  exceeds (Json.bool true) tenths = returned (ltb tenths 10)
  exceeds (Json.bool false) tenths = returned false
  exceeds (Json.int (pos n)) tenths = returned (ltb tenths (n * 10))
  exceeds (Json.int (negsuc n)) tenths = returned false
  exceeds (Json.float x) tenths = returned (floats.above x tenths)

  -- features.get(name, default)
  abbrev pub get_or : Text → Json F → Dict (Json F) → Json F
  get_or name default features = elim (get name features) [ none ↦ default | some v ↦ v ]

  unfoldable pub signals : Dict (Json F) → Outcome ScoreError Signals
  signals features = do
    velocity ← exceeds (get_or (codes "txn_count_24h") (Json.int (pos 0)) features) 150
    failures ← exceeds (get_or (codes "failure_rate_24h") (Json.float floats.nought) features) 4
    travel ← exceeds (get_or (codes "unique_cities_24h") (Json.int (pos 1)) features) 20
    night ← exceeds (get_or (codes "late_night_txn_count_24h") (Json.int (pos 0)) features) 20
    deviation ←
        exceeds (get_or (codes "latest_amount_zscore") (Json.float floats.nought) features) 30
    returned (record {
      velocity = velocity;
      failures = failures;
      travel = travel;
      night = night;
      deviation = deviation;
    })

  -- The verdict on the features of a 200; any other response, or none, ends the script.
  unfoldable pub score_transaction {κ} :
      {E : Type 0} {R : Type κ}
      → (R → Dict (Json F))
      → Option (Outcome E R)
      → ℕ
      → Outcome ScoreError Verdict
  score_transaction features none noise = raised exit_one
  score_transaction features (some (raised e)) noise = raised exit_one
  score_transaction features (some (returned resp)) noise = do
    s ← signals (features resp)
    returned (enforce noise (assess s))

abbrev pub api_key : Text
api_key = codes "sk_test_123"

-- API_URL.format(user_id), on the formatted id
unfoldable pub api_url : Text → Text
api_url user_id = codes "http://localhost:8002/v1/features/user/" ++ user_id

-- `fetched` is what the query brings: a user's id, nothing of an empty table, or an exception of the
-- database. The last two end the script.
unfoldable pub get_random_user_from_db {ℓ} :
    {E : Type 0} {A : Type ℓ} → Outcome E (Option A) → Outcome ScoreError A
get_random_user_from_db (raised e) = raised exit_one
get_random_user_from_db (returned none) = raised exit_one
get_random_user_from_db (returned (some user_id)) = returned user_id

-- args.user_id if args.user_id else get_random_user_from_db()
unfoldable pub chosen : Option Text → Outcome ScoreError Text → Outcome ScoreError Text
chosen none drawn = drawn
chosen (some []) drawn = drawn
chosen (some (c ∷ cs)) drawn = returned (c ∷ cs)

module _ {F : Type 0} (floats : Floats F) where
  -- The script, with `requests.get` of an address and a key as `request`.
  unfoldable pub main {κ ℓ} :
      {E D : Type 0} {R : Type κ} {V : Type ℓ}
      → (V → Text)
      → (R → Dict (Json F))
      → (Text → Text → Option (Outcome E R))
      → Outcome D (Option V)
      → Option Text
      → ℕ
      → Outcome ScoreError Verdict
  unfolding get_random_user_from_db chosen
  main format features request fetched user_id noise = do
    let drawn = get_random_user_from_db fetched >>= (λ v. returned (format v))
    user ← chosen user_id drawn
    score_transaction floats features (request (api_url user) api_key) noise

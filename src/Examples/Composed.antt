-- ===== src/Examples/Composed.antt =====
-- A purchase of a user that the loader has loaded.
use realtime_fraud_feature_s.Prelude.{
  ◌≡◌, refl, true, none, some, [], ◌∷◌, Text, codes, text_eq, get, put, put_all, Option, Outcome,
  returned, ◌>>=◌, pos, arith,
}
use realtime_fraud_feature_s.Fixtures.{toy_runtime, toy_redis, toy_floats}
use realtime_fraud_feature_s.Python.{PgValue}
use realtime_fraud_feature_s.Redis.Session.{Write}
use realtime_fraud_feature_s.Loader.Rows.{LoadError, record_of, field}
use realtime_fraud_feature_s.Loader.Users.{user_key, user_write}
use realtime_fraud_feature_s.Loader.Metadata.{run}
use realtime_fraud_feature_s.Api.{ApiError, FeatureResponse, get_user_features}
use realtime_fraud_feature_s.Scorer.{signals, assess, enforce, main}
use realtime_fraud_feature_s.Serving.{LastRow, features_of}
use realtime_fraud_feature_s.Serving.Decision.{main-run}
use realtime_fraud_feature_s.Examples.Loading.{
  at_thousand, at_thousand-Rises, users, merchants, users-Yields, merchants-Yields, started,
  loaded_at,
}

-- The API over what the loader left, for a request on behalf of `u1`.
abbrev request : Text → Text → Option (Outcome ApiError (FeatureResponse toy_runtime))
request url key = some (
    get_user_features toy_runtime toy_redis 5000 (codes "now") (codes "u1") (some key) (
      some (record {
        store = (run toy_runtime toy_redis at_thousand users merchants loaded_at started).1.store;
        reachable = true;
      })))

main-run_example :
    (w : Write) × (p : LastRow
      (user_write toy_runtime users.columns)
      (user_key (codes "u1"))
      users.rows
      w)
    × (main toy_floats {D = LoadError} toy_runtime.format
          (λ (resp : FeatureResponse toy_runtime). resp.features)
          request
          (returned (some (PgValue.text (codes "u1"))))
          none
          7
        ≡ (signals toy_floats (features_of toy_runtime users.columns p.row)
            >>= (λ s. returned (enforce 7 (assess s)))))
unfolding field get text_eq record_of put_all put
main-run_example =
    main-run toy_runtime toy_redis at_thousand at_thousand-Rises toy_floats users merchants
      loaded_at started [] (PgValue.text (codes "u1") ∷ PgValue.integer (pos 3) ∷ []) _
      (PgValue.text (codes "u1")) 5000 (codes "now") 7 request users-Yields merchants-Yields refl
      refl (omega arith) refl

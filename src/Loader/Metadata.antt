-- ===== src/Loader/Metadata.antt =====
-- `set_metadata` and `run` of feature_store/src/loader.py
use realtime_fraud_feature_s.Prelude.{
  ℕ, suc, Bool, true, false, List, [], ◌∷◌, Text, codes, Dict, Outcome, returned, raised, pos,
}
use realtime_fraud_feature_s.Python.{Json, Runtime, DateTime}
use realtime_fraud_feature_s.Redis.{Redis, set}
use realtime_fraud_feature_s.Redis.Session.{Session}
use realtime_fraud_feature_s.Loader.Rows.{LoadError, connection_error, Row}
use realtime_fraud_feature_s.Loader.Users.{load_user_features}
use realtime_fraud_feature_s.Loader.Merchants.{load_merchant_stats}

abbrev pub meta_key : Text
meta_key = codes "_meta:features:last_loaded"

-- A query's columns and rows.
pub record Table : Type 0 where
  pub columns : List Text
  pub rows : List Row

module _ (rt : Runtime) where
  unfoldable pub metadata : DateTime → ℕ → ℕ → Dict (Json rt.Float)
  metadata now user_count merchant_count =
      (codes "last_loaded_at", Json.str (rt.isoformat now))
      ∷ (codes "user_features_count", Json.int (pos user_count))
      ∷ (codes "merchant_stats_count", Json.int (pos merchant_count))
      ∷ (codes "loader_version", Json.str (codes "1.0.0"))
      ∷ []

  module _ (r : Redis) (clock : ℕ → ℕ) where
    unfoldable pub set_metadata : DateTime → ℕ → ℕ → Session r clock → Session r clock
    set_metadata now user_count merchant_count t =
        let value = rt.dumps (metadata now user_count merchant_count) in
        record t {
          store = r.run (clock t.executed) (set meta_key value) t.store;
          executed = suc t.executed;
        }

    -- The `try` body of `run`. `now` is the wall clock when the metadata is written. An exception of a load ends the run.
    unfoldable pub run :
        Table → Table → DateTime → Session r clock → Outcome LoadError (ℕ × ℕ) × Session r clock
    run users merchants now t =
        let (o, t1) = load_user_features rt r clock users.columns users.rows t in
        elim o [
          | raised e ↦ (raised e, t1)
          | returned user_count ↦
              let (p, t2) = load_merchant_stats rt r clock merchants.columns merchants.rows t1 in
              elim p [
                | raised e ↦ (raised e, t2)
                | returned merchant_count ↦ (
                  returned (user_count, merchant_count),
                  set_metadata now user_count merchant_count t2,
                )
              ]
        ]

    -- The connections, then the `try` body. `connects` says whether `psycopg2.connect` returns;
    -- redis-py opens its connection with the first command. What `finally` closes has no state here.
    unfoldable pub connect_and_run :
        Bool
        → Table
        → Table
        → DateTime
        → Session r clock
        → Outcome LoadError (ℕ × ℕ) × Session r clock
    connect_and_run false users merchants now t = (raised connection_error, t)
    connect_and_run true users merchants now t = run users merchants now t

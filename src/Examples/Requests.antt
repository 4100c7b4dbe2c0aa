-- ===== src/Examples/Requests.antt =====
-- Requests to the API over stores that hold features or metadata.

use realtime_fraud_feature_s.Prelude.{
  ℕ, ◌≡◌, ◌↔◌, refl, none, some, true, [], ◌∷◌, Text, codes, Dict, returned, arith, pos,
}
use realtime_fraud_feature_s.Fixtures.{toy_runtime, toy_redis, toy_hours}
use realtime_fraud_feature_s.Python.{Json, object, other, DateTime, subtract}
use realtime_fraud_feature_s.Redis.{Entry}
use realtime_fraud_feature_s.Loader.Users.{user_key}
use realtime_fraud_feature_s.Loader.Metadata.{set_metadata, meta_key}
use realtime_fraud_feature_s.Api.{
  dummy_api_key, FeatureResponse, BatchResponse, Client, get_user_features, get_batch_features,
}
use realtime_fraud_feature_s.Api.Lookup.{Serves, get_user_features_iff}
use realtime_fraud_feature_s.Api.Batch.{Reports, get_batch_features_iff}
use realtime_fraud_feature_s.Api.Health.{
  HealthResponse, report, healthy, health_check, health_check-set_metadata, health_check-IsFresh,
  IsFresh,
}
use realtime_fraud_feature_s.Examples.Loading.{at_thousand, started, loaded_at}

-- `u1` has one feature, `u7` a text that holds `null`, and nobody else has any.
abbrev one_feature : Dict (Json ℕ)
one_feature = (codes "txn_count_24h", Json.int (pos 4)) ∷ []

abbrev client : Client toy_runtime toy_redis
client = record {
  store =
      (user_key (codes "u1"), (toy_runtime.dumps one_feature, none))
      ∷ (user_key (codes "u7"), (1 ∷ 0 ∷ [], none))
      ∷ [];
  reachable = true;
}

abbrev u1_response : FeatureResponse toy_runtime
u1_response = record { user_id = codes "u1"; features = one_feature; served_at = codes "now" }

get_user_features_iff_example :
    (get_user_features toy_runtime toy_redis 5
        (codes "now")
        (codes "u1")
        (some dummy_api_key)
        (some client)
      ≡ returned u1_response)
    ↔ Serves toy_runtime toy_redis 5
        (codes "now")
        (codes "u1")
        (some dummy_api_key)
        (some client)
        u1_response
get_user_features_iff_example =
    get_user_features_iff toy_runtime toy_redis 5 (codes "now") (codes "u1") (some dummy_api_key)
      (some client) u1_response

abbrev batch : BatchResponse toy_runtime
batch = record {
  results =
      record { user_id = codes "u1"; features = object one_feature }
      ∷ record { user_id = codes "u7"; features = other Json.null }
      ∷ [];
  requested = 3;
  found = 2;
  missing = 1;
  missing_ids = codes "u9" ∷ [];
  served_at = codes "now";
}

get_batch_features_iff_example :
    (get_batch_features toy_runtime toy_redis 5
        (codes "now")
        (codes "u1" ∷ codes "u9" ∷ codes "u7" ∷ [])
        (some dummy_api_key)
        (some client)
      ≡ returned batch)
    ↔ Reports toy_runtime toy_redis 5
        (codes "now")
        client
        (codes "u1" ∷ codes "u9" ∷ codes "u7" ∷ [])
        batch
get_batch_features_iff_example =
    get_batch_features_iff toy_runtime toy_redis 5 (codes "now") client
      (codes "u1" ∷ codes "u9" ∷ codes "u7" ∷ []) batch refl (omega arith)

abbrev hour_later : DateTime
hour_later = record { wall = 3_605_000_000; tzinfo = some (pos 0) }

abbrev fresh_response : HealthResponse toy_runtime toy_hours
fresh_response = record {
  status = healthy;
  features_age_hours = some 3_600_000_000;
  last_loaded_at = some (toy_runtime.isoformat loaded_at);
}

abbrev fresh_store : Dict Entry
fresh_store = (set_metadata toy_runtime toy_redis at_thousand loaded_at 3 3 started).store

health_check-set_metadata_example :
    health_check toy_runtime toy_hours toy_redis 2000 hour_later
      (some (record { store = fresh_store; reachable = true }))
    ≡ returned (report fresh_response)
unfolding subtract
health_check-set_metadata_example =
    health_check-set_metadata toy_runtime toy_hours toy_redis at_thousand loaded_at hour_later 3 3
      started 2000 (pos 3_600_000_000) refl

health_check-IsFresh_example :
    (true ≡ true)
    × ((raw : Text) × (toy_redis.get 2000 fresh_store meta_key ≡ some raw)
        × IsFresh toy_runtime toy_hours hour_later raw)
health_check-IsFresh_example =
    health_check-IsFresh toy_runtime toy_hours toy_redis 2000 hour_later
      (record { store = fresh_store; reachable = true }) fresh_response
      health_check-set_metadata_example refl

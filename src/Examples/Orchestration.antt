-- ===== src/Examples/Orchestration.antt =====
-- A run of the loader that fails, and runs of the DAG.

use realtime_fraud_feature_s.Prelude.{
  ℕ, suc, ◌≤◌, ◌≡◌, refl, true, false, [], ◌∷◌, codes, text_eq, get, put, put_all, raised, pos,
  arith,
}
use realtime_fraud_feature_s.Fixtures.{toy_runtime, toy_redis}
use realtime_fraud_feature_s.Python.{PgValue}
use realtime_fraud_feature_s.Loader.Rows.{key_error, record_of, field, last_execute}
use realtime_fraud_feature_s.Loader.Users.{user_write, users_loop, load_user_features}
use realtime_fraud_feature_s.Loader.Metadata.{Table, meta_key, run}
use realtime_fraud_feature_s.Pipeline.{
  Task, dbt_snapshot, dbt_run, dbt_test, load_features_to_redis, upstream, assign, finish, Dbt,
  DagRun, scheduled, Reach, here, next, dbt_attempt, load_attempt,
}
use realtime_fraud_feature_s.Pipeline.Gate.{LoadedBy, gate}
use realtime_fraud_feature_s.Examples.Loading.{at_thousand, users, merchants, started, loaded_at}

-- A table whose rows have no `user_id`.
abbrev nameless : Table
nameless = record {
  columns = codes "txn_count_24h" ∷ [];
  rows = (PgValue.integer (pos 3) ∷ []) ∷ [];
}

nameless_raised :
    (run toy_runtime toy_redis at_thousand nameless merchants loaded_at started).0
    ≡ raised (key_error (codes "user_id"))
unfolding run load_user_features last_execute users_loop user_write record_of field get text_eq
    put_all put
nameless_raised = refl

-- Every dbt command succeeds, and the gold tables are always the same.
abbrev toy_dbt : Dbt
toy_dbt = record {
  Warehouse = ℕ;
  command = λ t n w. (true, suc w);
  tables = λ w. (users, merchants);
}

abbrev path :
    (d : DagRun toy_dbt toy_runtime toy_redis) × Reach toy_dbt toy_runtime toy_redis
      (scheduled toy_dbt toy_runtime toy_redis 0 [])
      d
unfolding upstream finish assign
path = (
  _,
  next
      (next
        (next
          (next here (
            dbt_attempt dbt_snapshot refl
              (record { pending = refl; tried = omega arith; triggered = refl })))
          (dbt_attempt dbt_run refl
            (record { pending = refl; tried = omega arith; triggered = refl })))
        (dbt_attempt dbt_test refl
          (record { pending = refl; tried = omega arith; triggered = refl })))
      (load_attempt true at_thousand loaded_at
        (record { pending = refl; tried = omega arith; triggered = refl })),
)

gate_example :
    (path.0.done dbt_test ≡ false → path.0.store ≡ [])
    × (path.0.done dbt_test ≡ true
        → (path.0.done dbt_run ≡ true) × (path.0.done dbt_snapshot ≡ true))
    × (path.0.done load_features_to_redis ≡ false
        → toy_redis.entry path.0.store meta_key ≡ toy_redis.entry [] meta_key)
    × (path.0.done load_features_to_redis ≡ true
        → LoadedBy toy_dbt toy_runtime toy_redis path.0.store)
    × ((t : Task) → path.0.tries t ≤ 3)
unfolding path
gate_example = gate toy_dbt toy_runtime toy_redis 0 [] path.0 path.1

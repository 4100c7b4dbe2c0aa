-- ===== src/Examples/Loading.antt =====
-- Two users, three days of two merchants, and a run of the loader over them.
use native.Mathlib.Nat.{le_refl}
use realtime_fraud_feature_s.Prelude.{
  ℕ, ◌≡◌, refl, Option, none, some, List, [], ◌∷◌, String, text_eq, get, put, put_all, Text, codes,
  returned, pos,
}
use realtime_fraud_feature_s.Fixtures.{toy_runtime, toy_redis}
use realtime_fraud_feature_s.Python.{PgValue, iso_date, DateTime}
use realtime_fraud_feature_s.Redis.Session.{Session, Write, last_write, Written}
use realtime_fraud_feature_s.Loader.Rows.{record_of, field, dump, Yields, done, yield, Rises}
use realtime_fraud_feature_s.Loader.Users.{user_key, user_write}
use realtime_fraud_feature_s.Loader.Merchants.{Stat, stat_of, latest_key, load_merchant_stats}
use realtime_fraud_feature_s.Loader.Merchants.Latest.{IsLatestOf}
use realtime_fraud_feature_s.Loader.Merchants.Load.{latest_write, load_merchant_stats-latest}
use realtime_fraud_feature_s.Loader.Metadata.{Table, metadata, meta_key, run}
use realtime_fraud_feature_s.Loader.Run.{run_lem}

abbrev pub at_thousand : ℕ → ℕ
at_thousand n = 1000

pub at_thousand-Rises : Rises at_thousand
at_thousand-Rises m n h = le_refl 1000

abbrev pub loaded_at : DateTime
loaded_at = record { wall = 5_000_000; tzinfo = some (pos 0) }

abbrev pub users : Table
users = record {
  columns = codes "user_id" ∷ codes "txn_count_24h" ∷ [];
  rows =
      (PgValue.text (codes "u1") ∷ PgValue.integer (pos 3) ∷ [])
      ∷ (PgValue.text (codes "u2") ∷ PgValue.integer (pos 20) ∷ [])
      ∷ (PgValue.text (codes "u1") ∷ PgValue.integer (pos 4) ∷ [])
      ∷ [];
}

abbrev pub day : ℕ → PgValue
day d = PgValue.date (record { year = 2024; month = 5; day = d })

abbrev pub merchants : Table
merchants = record {
  columns = codes "merchant_id" ∷ codes "event_date" ∷ [];
  rows =
      (PgValue.text (codes "m1") ∷ day 9 ∷ [])
      ∷ (PgValue.text (codes "m2") ∷ day 8 ∷ [])
      ∷ (PgValue.text (codes "m1") ∷ day 10 ∷ [])
      ∷ [];
}

abbrev pub user_entry : String → ℕ → Write
user_entry u n = record {
  key = user_key (codes u);
  value =
      dump toy_runtime
        (record_of users.columns (PgValue.text (codes u) ∷ PgValue.integer (pos n) ∷ []));
  ttl = 86400;
}

abbrev pub user_writes : List Write
user_writes = user_entry "u1" 3 ∷ user_entry "u2" 20 ∷ user_entry "u1" 4 ∷ []

pub users-Yields : Yields (user_write toy_runtime users.columns) users.rows user_writes
unfolding user_write field get text_eq record_of put_all put
users-Yields = yield refl (yield refl (yield refl done))

abbrev pub stat : String → ℕ → Stat
stat m d = record {
  merchant_id = codes m;
  event_date = iso_date (record { year = 2024; month = 5; day = d });
  value = dump toy_runtime (record_of merchants.columns (PgValue.text (codes m) ∷ day d ∷ []));
}

abbrev pub merchant_stats : List Stat
merchant_stats = stat "m1" 9 ∷ stat "m2" 8 ∷ stat "m1" 10 ∷ []

pub merchants-Yields : Yields (stat_of toy_runtime merchants.columns) merchants.rows merchant_stats
unfolding stat_of field get text_eq record_of put_all put
merchants-Yields = yield refl (yield refl (yield refl done))

abbrev pub started : Session toy_redis at_thousand
started = record { pipe = []; store = []; executed = 0 }

load_merchant_stats-latest_example :
    (o : Option (Text × Text)) × IsLatestOf (codes "m1") merchant_stats o
    × Written 1000 none (latest_write (codes "m1") o) (
        toy_redis.entry
          (load_merchant_stats toy_runtime toy_redis at_thousand merchants.columns merchants.rows
            started).1.store
          (latest_key (codes "m1")))
unfolding get
load_merchant_stats-latest_example =
    load_merchant_stats-latest toy_runtime toy_redis at_thousand at_thousand-Rises merchants.columns
      merchants-Yields started (codes "m1")

run_lem_example :
    let (o, t') = run toy_runtime toy_redis at_thousand users merchants loaded_at started in
    (o ≡ returned (3, 3))
    × (toy_redis.entry t'.store meta_key
        ≡ some (toy_runtime.dumps (metadata toy_runtime loaded_at 3 3), none))
    × ((u : Text)
        → Written 1000 none
            (last_write (user_key u) user_writes)
            (toy_redis.entry t'.store (user_key u)))
unfolding get
run_lem_example =
    run_lem toy_runtime toy_redis at_thousand at_thousand-Rises users merchants loaded_at started
      users-Yields merchants-Yields

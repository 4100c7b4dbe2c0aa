-- ===== src/Loader/Run.antt =====
-- A whole run of the loader that raises nothing.
use realtime_fraud_feature_s.Prelude.{
  ℕ, ◌≡◌, refl, none, some, false, List, [], ◌∷◌, map, Text, length, text_eq, text_eq_self,
  returned,
}
use realtime_fraud_feature_s.Python.{Runtime, DateTime}
use realtime_fraud_feature_s.Redis.{Redis}
use realtime_fraud_feature_s.Redis.Session.{Session, Write, last_write, Written}
use realtime_fraud_feature_s.Loader.Rows.{Yields, Rises}
use realtime_fraud_feature_s.Loader.Users.{
  user_key, user_write, load_user_features, load_user_features_lem,
}
use realtime_fraud_feature_s.Loader.Merchants.{
  Stat, Latest, stat_write, stats_key, latest_key, latest_writes, stat_of,
}
use realtime_fraud_feature_s.Loader.Merchants.Latest.{latest_of}
use realtime_fraud_feature_s.Loader.Merchants.Load.{
  all_writes, last_write-append, load_merchant_stats_lem,
}
use realtime_fraud_feature_s.Loader.Metadata.{Table, metadata, meta_key, set_metadata, run}

last_write-stat_writes :
    (u : Text) (ss : List Stat) → last_write (user_key u) (map stat_write ss) ≡ none
unfolding last_write stat_write stats_key user_key text_eq
last_write-stat_writes u [] = refl
last_write-stat_writes u (s ∷ ss) = rw (last_write-stat_writes u ss)

last_write-latest_writes :
    (u : Text) (latest : Latest) → last_write (user_key u) (latest_writes latest) ≡ none
unfolding last_write latest_writes latest_key user_key text_eq
last_write-latest_writes u [] = refl
last_write-latest_writes u ((m, (d, v)) ∷ latest) = rw (last_write-latest_writes u latest)

-- The merchant load writes no user's key.
last_write-all_writes : (u : Text) (ss : List Stat) → last_write (user_key u) (all_writes ss) ≡ none
last_write-all_writes u ss =
    rw
      (last_write-append, last_write-stat_writes u ss, last_write-latest_writes u (latest_of ss []))

user_key-ne-meta_key : (u : Text) → text_eq meta_key (user_key u) ≡ false
unfolding user_key text_eq
user_key-ne-meta_key u = refl

module _ (rt : Runtime) (r : Redis) (clock : ℕ → ℕ) (rises : Rises clock) where
  -- When all rows have the columns that the loads read, a run returns the two numbers of rows, the
  -- metadata in the store are the run's, and each user's key holds the JSON of the user's last
  -- row, with a timeout of at least 24 hours from the run's first execute (or what it held, if
  -- there is no row of the user).
  pub run_lem :
      (users merchants : Table) (now : DateTime) (t : Session r clock) {ws : List Write}
      {ss : List Stat}
      → Yields (user_write rt users.columns) users.rows ws
      → Yields (stat_of rt merchants.columns) merchants.rows ss
      → let (o, t') = run rt r clock users merchants now t in
        (o ≡ returned (length users.rows, length merchants.rows))
        × (r.entry t'.store meta_key
            ≡ some (rt.dumps (metadata rt now (length users.rows) (length merchants.rows)), none))
        × ((u : Text)
            → Written
                (clock t.executed)
                (r.entry t.store (user_key u))
                (last_write (user_key u) ws)
                (r.entry t'.store (user_key u)))
  unfolding run set_metadata
  run_lem users merchants now t {ws} {ss} yu ym =
      let (o1, w1) = load_user_features_lem rt r clock rises users.columns yu t in
      let t1 = (load_user_features rt r clock users.columns users.rows t).1 in
      let (o2, w2) = load_merchant_stats_lem rt r clock rises merchants.columns ym t1 in
      rw (o1, run, o2)
        (
          refl,
          rw (r.entry-set, text_eq_self),
          λ u.
              let same = rw (last_write-all_writes u ss) at (w2 (user_key u)) in
              rw (r.entry-set, user_key-ne-meta_key u, same) (w1 (user_key u)),
        )

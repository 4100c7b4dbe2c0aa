-- ===== src/Serving/Decision.antt =====
-- From a row of the gold table to the scorer's verdict: the loader, the API and the scorer.
use realtime_fraud_feature_s.Prelude.{
  ℕ, ◌+◌, ◌<◌, ◌≡◌, refl, Option, none, some, true, List, [], ◌∷◌, ◌++◌, Text, codes, text_eq_self,
  Outcome, returned, ◌>>=◌, Option-cases, inl, inr,
}
use realtime_fraud_feature_s.Python.{PgValue, Runtime, DateTime}
use realtime_fraud_feature_s.Redis.{Redis}
use realtime_fraud_feature_s.Redis.Session.{Session, Write, last_write}
use realtime_fraud_feature_s.Loader.Rows.{
  Row, LoadError, record_of, field, dump, user_ttl_seconds, Yields, yield, Rises,
}
use realtime_fraud_feature_s.Loader.Users.{user_key, user_write}
use realtime_fraud_feature_s.Loader.Merchants.{Stat, stat_of}
use realtime_fraud_feature_s.Loader.Metadata.{Table, run}
use realtime_fraud_feature_s.Api.{ApiError, FeatureResponse, get_user_features}
use realtime_fraud_feature_s.Scorer.{
  Floats, assess, enforce, signals, score_transaction, api_key, api_url, get_random_user_from_db,
  chosen, main,
}
use realtime_fraud_feature_s.Serving.{LastRow, features_of, get_user_features-run}

-- A row's write is not the only one at its key, but there is a last one.
last_write-some :
    (f : Row → Outcome LoadError Write) (before : List Row) (row : Row) (after : List Row)
    {ws : List Write} (w : Write)
    → Yields f (before ++ (row ∷ after)) ws
    → f row ≡ returned w
    → (v : Write) × (last_write w.key ws ≡ some v)
unfolding last_write
last_write-some f [] row after w (yield {b} {bs} e y) h =
    elim (Option-cases (last_write w.key bs)) [
      | inr (v, found) ↦ (v, rw (found) refl)
      | inl none_later ↦
          let same : b ≡ w = cc in (w, rw (none_later, same, text_eq_self w.key) refl)
    ]
last_write-some f (x ∷ before) row after w (yield {bs} e y) h =
    let (v, found) = last_write-some f before row after w y h in (v, rw (found) refl)

module _ (rt : Runtime) where
  user_write-format :
      (columns : List Text) (row : Row) (v : PgValue)
      → field (codes "user_id") (record_of columns row) ≡ returned v
      → (w : Write) × (user_write rt columns row ≡ returned w) × (w.key ≡ user_key (rt.format v))
  unfolding user_write
  user_write-format columns row v h = (
    record {
      key = user_key (rt.format v);
      value = dump rt (record_of columns row);
      ttl = user_ttl_seconds;
    },
    rw (h) refl,
    refl,
  )

  module _ (r : Redis) (clock : ℕ → ℕ) (rises : Rises clock) (floats : Floats rt.Float) where
    -- Let all rows have the columns that the loads read, and let `v` be the id of a row. For 24 hours
    -- from the loader's first execute the script that draws this user, and whose request reaches the
    -- API, does not end because of a missing user or a refused request: its verdict is that on the
    -- features of the user's last row.
    pub main-run :
        (users merchants : Table) (now : DateTime) (t : Session r clock) {ws : List Write}
        {ss : List Stat} (before : List Row) (row : Row) (after : List Row) (v : PgValue)
        (second : ℕ) (served_at : Text) (noise : ℕ)
        (request : Text → Text → Option (Outcome ApiError (FeatureResponse rt)))
        → Yields (user_write rt users.columns) users.rows ws
        → Yields (stat_of rt merchants.columns) merchants.rows ss
        → users.rows ≡ before ++ (row ∷ after)
        → field (codes "user_id") (record_of users.columns row) ≡ returned v
        → second < clock t.executed + user_ttl_seconds
        → request (api_url (rt.format v)) api_key
          ≡ some (
              get_user_features rt r second served_at (rt.format v) (some api_key) (
                some (record {
                  store = (run rt r clock users merchants now t).1.store;
                  reachable = true;
                })))
        → (w : Write) × (p : LastRow
            (user_write rt users.columns)
            (user_key (rt.format v))
            users.rows
            w)
          × (main floats {D = LoadError} rt.format
                (λ (resp : FeatureResponse rt). resp.features)
                request
                (returned (some v))
                none
                noise
              ≡ (signals floats (features_of rt users.columns p.row)
                  >>= (λ s. returned (enforce noise (assess s)))))
    unfolding main get_random_user_from_db chosen score_transaction
    main-run users merchants now t before row after v second served_at noise request yu ym parts id
          soon reaches =
        let (w0, writes, key) = user_write-format users.columns row v id in
        let (w, found) =
          last_write-some (user_write rt users.columns) before row after w0 (rw parts at yu)
            writes in
        let (p, served) =
          get_user_features-run rt r clock rises users merchants now t (rt.format v) w second
            served_at yu ym (rw key at found) soon in
        (w, p, rw (reaches, served) refl)

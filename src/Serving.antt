-- ===== src/Serving.antt =====
-- From the gold tables through the loader, Redis and the API to a client: feature_store/src as a
-- whole.
pub mod Decision
pub mod Deployed
use realtime_fraud_feature_s.Prelude.{
  ℕ, ◌+◌, ◌<◌, ◌≡◌, refl, sym, ◌∙◌, ap, none, some, true, List, [], ◌∷◌, ◌++◌, Text, codes, Dict,
  text_eq, text_eq_iff, put_all-IsDict, map_values, map_values-IsDict, Outcome, returned,
  >>=-returned, if◌then◌else◌, arith, Option-cases, Bool-cases, inl, inr, lt→ltb,
}
use mathlib.Core.Option.{some-injective}
use realtime_fraud_feature_s.Python.{Json, Runtime, DateTime}
use realtime_fraud_feature_s.Redis.{Redis, live}
use realtime_fraud_feature_s.Redis.Session.{Session, Write, last_write}
use realtime_fraud_feature_s.Loader.Rows.{
  Row, LoadError, record_of, field, encode, user_ttl_seconds, Yields, done, yield, Rises,
}
use realtime_fraud_feature_s.Loader.Users.{user_key, user_write}
use realtime_fraud_feature_s.Loader.Merchants.{Stat, stat_of}
use realtime_fraud_feature_s.Loader.Metadata.{Table, run}
use realtime_fraud_feature_s.Loader.Run.{run_lem}
use realtime_fraud_feature_s.Api.{dummy_api_key, feature_key, get_user_features}
use realtime_fraud_feature_s.Api.Lookup.{get_user_features_iff}

-- The API reads the key that the loader writes.
feature_key-eq-user_key : (u : Text) → feature_key u ≡ user_key u
unfolding feature_key user_key
feature_key-eq-user_key u = refl

-- The last of the rows that write at `k` is `row`, and it writes `w`.
pub record LastRow (f : Row → Outcome LoadError Write) (k : Text) (rows : List Row) (w : Write)
    : Type 0 where
  pub before : List Row
  pub row : Row
  pub after : List Row
  pub parts : rows ≡ before ++ (row ∷ after)
  pub writes : f row ≡ returned w
  pub at : w.key ≡ k
  pub later : List Write
  pub yields : Yields f after later
  pub last : last_write k later ≡ none

last_row :
    (f : Row → Outcome LoadError Write) (k : Text) {rows : List Row} {ws : List Write} (w : Write)
    → Yields f rows ws
    → last_write k ws ≡ some w
    → LastRow f k rows w
unfolding last_write
last_row f k w done h = cc
last_row f k w (yield {a} {b} {as'} {bs} e y) h = elim (Option-cases (last_write k bs)) [
  | inr (v, found) ↦
      let p = last_row f k w y (found ∙ (rw (found) at h)) in
      record {
        before = a ∷ p.before;
        row = p.row;
        after = p.after;
        parts = ap (◌∷◌ a) p.parts;
        writes = p.writes;
        at = p.at;
        later = p.later;
        yields = p.yields;
        last = p.last;
      }
  | inl none_later ↦
      let (same, it) = written_here b (rw (none_later) at h) in
      record {
        before = [];
        row = a;
        after = as';
        parts = refl;
        writes = e ∙ ap returned it;
        at = ap (λ (x : Write). x.key) (sym it) ∙ same;
        later = bs;
        yields = y;
        last = none_later;
      }
]
  where
    written_here :
        (b : Write) → (if text_eq b.key k then some b else none) ≡ some w → (b.key ≡ k) × (b ≡ w)
    written_here b h = elim (Bool-cases (text_eq b.key k)) [
      | inl same ↦ ((text_eq_iff b.key k).0 same, some-injective _ _ (rw (same) at h))
      | inr other ↦ cc (rw (other) at h)
    ]

module _ (rt : Runtime) where
  -- The features that a client gets for a row.
  abbrev pub features_of : List Text → Row → Dict (Json rt.Float)
  features_of columns row = map_values (encode rt) (record_of columns row)

  user_write-returned :
      (columns : List Text) (row : Row) (w : Write)
      → user_write rt columns row ≡ returned w
      → (w.value ≡ rt.dumps (features_of columns row)) × (w.ttl ≡ user_ttl_seconds)
  unfolding user_write
  user_write-returned columns row w h =
      let (v, got, e) = >>=-returned (field (codes "user_id") (record_of columns row)) _ h in
      (ground arith, ground arith)

  loads-features_of :
      (columns : List Text) (row : Row)
      → rt.loads (rt.dumps (features_of columns row)) ≡ some (features_of columns row)
  unfolding record_of
  loads-features_of columns row =
      rt.loads-dumps _ (map_values-IsDict (encode rt) _ (put_all-IsDict columns row [] tt))

  module _ (r : Redis) (clock : ℕ → ℕ) (rises : Rises clock) where
    -- Let all rows have the columns that the loads read. For 24 hours from its first execute, the run
    -- of the loader makes the API, reached and asked with the right key, answer for every user with
    -- a row with the features of the user's last row.
    pub get_user_features-run :
        (users merchants : Table) (now : DateTime) (t : Session r clock) {ws : List Write}
        {ss : List Stat} (u : Text) (w : Write) (second : ℕ) (served_at : Text)
        → Yields (user_write rt users.columns) users.rows ws
        → Yields (stat_of rt merchants.columns) merchants.rows ss
        → last_write (user_key u) ws ≡ some w
        → second < clock t.executed + user_ttl_seconds
        → (p : LastRow (user_write rt users.columns) (user_key u) users.rows w) × (get_user_features
              rt r second served_at u
              (some dummy_api_key)
              (some (record {
                store = (run rt r clock users merchants now t).1.store;
                reachable = true;
              }))
            ≡ returned (record {
              user_id = u;
              features = features_of users.columns p.row;
              served_at = served_at;
            }))
    get_user_features-run users merchants now t u w second served_at yu ym wrote soon =
        let p = last_row (user_write rt users.columns) (user_key u) w yu wrote in
        let (value, ttl) = user_write-returned users.columns p.row w p.writes in
        let (o, meta, written) = run_lem rt r clock rises users merchants now t yu ym in
        let (gone, stored, later) = rw (wrote) at (written u) in
        (
          p,
          (get_user_features_iff rt r second served_at u _ _ _).1 (record {
            authorized = refl;
            client = record {
              store = (run rt r clock users merchants now t).1.store;
              reachable = true;
            };
            initialized = refl;
            reachable = refl;
            raw = w.value;
            stored =
                ap (r.get second _) (feature_key-eq-user_key u)
                ∙ r.get-entry second _ (user_key u)
                ∙ (ap (live second) stored ∙ rw (lt→ltb second gone (omega (arith, ttl))));
            parsed = ap rt.loads value ∙ loads-features_of users.columns p.row;
            echoed = (refl, refl);
          }),
        )

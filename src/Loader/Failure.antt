-- ===== src/Loader/Failure.antt =====
-- A run of the loader that ends with an exception: what it leaves alone.
use realtime_fraud_feature_s.Prelude.{
  ℕ, ◌+◌, ◌%◌, ◌==◌, ◌≡◌, refl, Option, false, List, [], ◌∷◌, Text, codes, text_eq, Outcome,
  returned, raised, Outcome-cases, Bool-cases, inl, inr, >>=-returned, arith,
}
use realtime_fraud_feature_s.Python.{Runtime, DateTime}
use realtime_fraud_feature_s.Redis.{Redis, Entry}
use realtime_fraud_feature_s.Redis.Session.{Session, Write, write}
use realtime_fraud_feature_s.Redis.Keeps.{Keeps, pipeline-Keeps, write-Keeps, flush-Keeps}
use realtime_fraud_feature_s.Loader.Rows.{
  LoadError, Row, record_of, field, paced, turn, last_execute, pipeline_batch,
}
use realtime_fraud_feature_s.Loader.Users.{user_key, user_write, users_loop, load_user_features}
use realtime_fraud_feature_s.Loader.Merchants.{
  Stat, Latest, stat_write, stats_key, latest_key, latest_writes, note_latest, stat_of,
  merchants_loop, write_all, after_loop, load_merchant_stats,
}
use realtime_fraud_feature_s.Loader.Metadata.{Table, meta_key, run}

module _ (r : Redis) (clock : ℕ → ℕ) (k : Text) (old : Option Entry) where
  turn-Keeps :
      (w : Write) (n : ℕ) (t : Session r clock)
      → text_eq w.key k ≡ false
      → Keeps r clock k old t
      → Keeps r clock k old (turn r clock w n t)
  unfolding paced
  turn-Keeps w n t h keeps =
      let written = write-Keeps r clock k old w t h keeps in
      elim (Bool-cases (n % pipeline_batch == 0)) [
        | inl full ↦ rw full (flush-Keeps r clock k old (write r clock w t) written)
        | inr part ↦ rw part written
      ]

  last_execute-Keeps :
      (p : Outcome LoadError ℕ × Session r clock)
      → Keeps r clock k old p.1
      → Keeps r clock k old (last_execute r clock p).1
  unfolding last_execute
  last_execute-Keeps (raised e, t) keeps = keeps
  last_execute-Keeps (returned n, t) keeps = flush-Keeps r clock k old t keeps

  module _ (rt : Runtime) (columns : List Text) where
    users_loop-Keeps :
        ((row : Row) (w : Write) → user_write rt columns row ≡ returned w → text_eq w.key k ≡ false)
        → (rows : List Row) (loaded : ℕ) (t : Session r clock) → Keeps r clock k old t
        → Keeps r clock k old (users_loop rt r clock columns rows loaded t).1
    unfolding users_loop
    users_loop-Keeps other [] loaded t keeps = keeps
    users_loop-Keeps other (row ∷ rows) loaded t keeps =
        elim (Outcome-cases (user_write rt columns row)) [
          | inr (e, stop) ↦ rw (stop, users_loop) keeps
          | inl (w, goes) ↦
              rw (goes, users_loop)
                (users_loop-Keeps other rows (loaded + 1) (turn r clock w (loaded + 1) t)
                  (turn-Keeps w (loaded + 1) t (other row w goes) keeps))
        ]

    merchants_loop-Keeps :
        ((s : Stat) → text_eq (stat_write s).key k ≡ false)
        → (rows : List Row) (loaded : ℕ) (latest : Latest) (t : Session r clock)
        → Keeps r clock k old t
        → Keeps r clock k old (merchants_loop rt r clock columns rows loaded latest t).1
    unfolding merchants_loop
    merchants_loop-Keeps other [] loaded latest t keeps = keeps
    merchants_loop-Keeps other (row ∷ rows) loaded latest t keeps =
        elim (Outcome-cases (stat_of rt columns row)) [
          | inr (e, stop) ↦ rw (stop, merchants_loop) keeps
          | inl (s, goes) ↦
              rw (goes, merchants_loop)
                (merchants_loop-Keeps other rows (loaded + 1) (note_latest s latest)
                  (turn r clock (stat_write s) (loaded + 1) t)
                  (turn-Keeps (stat_write s) (loaded + 1) t (other s) keeps))
        ]

  latest_writes-Keeps :
      ((m : Text) → text_eq (latest_key m) k ≡ false)
      → (latest : Latest) (t : Session r clock) → Keeps r clock k old t
      → Keeps r clock k old (write_all r clock (latest_writes latest) t)
  unfolding write_all latest_writes
  latest_writes-Keeps other [] t keeps = keeps
  latest_writes-Keeps other ((m, (d, v)) ∷ latest) t keeps =
      latest_writes-Keeps other latest _ (write-Keeps r clock k old _ t (other m) keeps)

  after_loop-Keeps :
      ((m : Text) → text_eq (latest_key m) k ≡ false)
      → (p : Outcome LoadError (ℕ × Latest) × Session r clock) → Keeps r clock k old p.1
      → Keeps r clock k old (after_loop r clock p).1
  unfolding after_loop
  after_loop-Keeps other (raised e, t) keeps = keeps
  after_loop-Keeps other (returned (n, latest), t) keeps =
      last_execute-Keeps (returned n, write_all r clock (latest_writes latest) t)
        (latest_writes-Keeps other latest t keeps)

user_key-ne-meta_key : (u : Text) → text_eq (user_key u) meta_key ≡ false
unfolding user_key text_eq
user_key-ne-meta_key u = refl

latest_key-ne-meta_key : (m : Text) → text_eq (latest_key m) meta_key ≡ false
unfolding latest_key text_eq
latest_key-ne-meta_key m = refl

stat_write-ne-meta_key : (s : Stat) → text_eq (stat_write s).key meta_key ≡ false
unfolding stat_write stats_key text_eq
stat_write-ne-meta_key s = refl

user_write-ne-meta_key :
    (rt : Runtime) (columns : List Text) (row : Row) (w : Write)
    → user_write rt columns row ≡ returned w
    → text_eq w.key meta_key ≡ false
unfolding user_write
user_write-ne-meta_key rt columns row w h =
    let (v, got, e) = >>=-returned (field (codes "user_id") (record_of columns row)) _ h in
    let same : w.key ≡ user_key (rt.format v) = ground arith in
    rw same (user_key-ne-meta_key (rt.format v))

module _ (rt : Runtime) (r : Redis) (clock : ℕ → ℕ) where
  abbrev KeepsMeta : Option Entry → Session r clock → Type 0
  KeepsMeta old t = Keeps r clock meta_key old t

  load_user_features-Keeps :
      (columns : List Text) (rows : List Row) (old : Option Entry) (t : Session r clock)
      → r.entry t.store meta_key ≡ old
      → KeepsMeta old (load_user_features rt r clock columns rows t).1
  unfolding load_user_features
  load_user_features-Keeps columns rows old t h = last_execute-Keeps r clock meta_key old _ (
      users_loop-Keeps r clock meta_key old rt columns (user_write-ne-meta_key rt columns) rows 0 _
        (pipeline-Keeps r clock meta_key old t h))

  load_merchant_stats-Keeps :
      (columns : List Text) (rows : List Row) (old : Option Entry) (t : Session r clock)
      → r.entry t.store meta_key ≡ old
      → KeepsMeta old (load_merchant_stats rt r clock columns rows t).1
  unfolding load_merchant_stats
  load_merchant_stats-Keeps columns rows old t h =
      after_loop-Keeps r clock meta_key old latest_key-ne-meta_key _ (
        merchants_loop-Keeps r clock meta_key old rt columns stat_write-ne-meta_key rows 0 [] _
          (pipeline-Keeps r clock meta_key old t h))

  -- A run that ends with an exception, whichever row of whichever table raises it, leaves the
  -- metadata of the last complete run as they were.
  pub run_raised :
      (users merchants : Table) (now : DateTime) (t : Session r clock) (e : LoadError)
      → (run rt r clock users merchants now t).0 ≡ raised e
      → r.entry (run rt r clock users merchants now t).1.store meta_key ≡ r.entry t.store meta_key
  unfolding run
  run_raised users merchants now t e h =
      let first = load_user_features rt r clock users.columns users.rows t in
      let second = load_merchant_stats rt r clock merchants.columns merchants.rows first.1 in
      let kept = (load_user_features-Keeps users.columns users.rows _ t refl).entry in
      let kept_too =
        (load_merchant_stats-Keeps merchants.columns merchants.rows _ first.1 kept).entry in
      elim (Outcome-cases first.0) [
        | inr (x, stop) ↦ rw (stop, run) kept
        | inl (n, goes) ↦ elim (Outcome-cases second.0) [
          | inr (x, stop) ↦ rw (goes, run, stop) kept_too
          | inl (m, all) ↦ cc (rw (goes, run, all) at h)
        ]
      ]

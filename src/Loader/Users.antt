-- ===== src/Loader/Users.antt =====
-- `load_user_features` of feature_store/src/loader.py
use realtime_fraud_feature_s.Prelude.{
  ℕ, ◌+◌, ◌≡◌, refl, ap, ◌∙◌, List, [], ◌∷◌, ◌++◌, Text, codes, length, Outcome, returned, raised,
  arith, ◌>>=◌,
}
use realtime_fraud_feature_s.Python.{Runtime}
use realtime_fraud_feature_s.Redis.{Redis}
use realtime_fraud_feature_s.Redis.Session.{Session, Write, view, last_write, Written}
use realtime_fraud_feature_s.Loader.Rows.{
  LoadError, Row, record_of, field, dump, user_ttl_seconds, Yields, done, yield, turn, Rises,
  turn-Written, last_execute, last_execute_lem, view-pipeline,
}

unfoldable pub user_key : Text → Text
user_key user_id = codes "user:features:" ++ user_id

module _ (rt : Runtime) where
  -- The key, the value and the timeout that the loop's body queues for a row.
  unfoldable pub user_write : List Text → Row → Outcome LoadError Write
  unfolding user_key dump
  user_write columns row = do
    let rec = record_of columns row
    user_id ← field (codes "user_id") rec
    returned
        (record { key = user_key (rt.format user_id); value = dump rt rec; ttl = user_ttl_seconds })

  module _ (r : Redis) (clock : ℕ → ℕ) where
    unfoldable pub users_loop :
        List Text → List Row → ℕ → Session r clock → Outcome LoadError ℕ × Session r clock
    users_loop columns [] loaded t = (returned loaded, t)
    users_loop columns (row ∷ rows) loaded t = elim (user_write columns row) [
      | raised e ↦ (raised e, t)
      | returned w ↦ users_loop columns rows (loaded + 1) (turn r clock w (loaded + 1) t)
    ]

    -- An error leaves the queued commands unsent.
    unfoldable pub load_user_features :
        List Text → List Row → Session r clock → Outcome LoadError ℕ × Session r clock
    unfolding users_loop
    load_user_features columns rows t =
        last_execute r clock (users_loop columns rows 0 (record t { pipe = r.pipeline }))

module _ (rt : Runtime) (r : Redis) (clock : ℕ → ℕ) (rises : Rises clock)
    (columns : List Text) where
  users_loop_lem :
      {rows : List Row} {ws : List Write}
      → Yields (user_write rt columns) rows ws
      → (loaded : ℕ) (t : Session r clock)
      → let (o, t') = users_loop rt r clock columns rows loaded t in
        (o ≡ returned (loaded + length rows))
        × ((k : Text)
            → Written
                (clock t.executed)
                (r.entry (view r clock t) k)
                (last_write k ws)
                (r.entry (view r clock t') k))
  unfolding users_loop last_write
  users_loop_lem done loaded t = (ap returned (omega arith), λ k. refl)
  users_loop_lem (yield {b = w} e rest) loaded t =
      let (count, written) = users_loop_lem rest (loaded + 1) (turn r clock w (loaded + 1) t) in
      rw (e, users_loop)
        (
          count ∙ ap returned (omega arith),
          λ k. turn-Written r clock rises w (loaded + 1) t k _ _ (written k),
        )

  -- When every row has its `user_id`, the load returns the number of rows, and at every key of
  -- the store the last row with that key has left its JSON, with a timeout of at least 24 hours
  -- from the load's first execute; a key of no row is as it was.
  pub load_user_features_lem :
      {rows : List Row} {ws : List Write}
      → Yields (user_write rt columns) rows ws
      → (t : Session r clock)
      → let (o, t') = load_user_features rt r clock columns rows t in
        (o ≡ returned (length rows))
        × ((k : Text)
            → Written (clock t.executed) (r.entry t.store k) (last_write k ws) (r.entry t'.store k))
  unfolding load_user_features
  load_user_features_lem y t =
      let t0 : Session r clock = record t { pipe = r.pipeline } in
      let (count, written) = users_loop_lem y 0 t0 in
      let (same, sent) = last_execute_lem r clock _ _ count in
      (same ∙ ap returned (omega arith), λ k. rw sent (rw (view-pipeline r clock t) at (written k)))

-- ===== src/Pipeline/Gate.antt =====
-- The gate: when a run of the DAG may change what the API serves.
use realtime_fraud_feature_s.Prelude.{
  ℕ, suc, ◌+◌, ◌≤◌, ◌<◌, ◌≡◌, refl, ◌∙◌, Bool, true, false, Outcome-cases, Bool-cases, inl, inr,
  arith, ◌==◌,
}
use realtime_fraud_feature_s.Python.{Runtime, DateTime}
use realtime_fraud_feature_s.Redis.{Redis}
use realtime_fraud_feature_s.Loader.Metadata.{meta_key, connect_and_run}
use realtime_fraud_feature_s.Loader.Failure.{run_raised}
use realtime_fraud_feature_s.Pipeline.{
  Task, rank, dbt_snapshot, dbt_run, dbt_test, load_features_to_redis, retries, upstream, assign,
  Dbt, DagRun, scheduled, load, exits_zero, IsReady, finish, Step, dbt_attempt, load_attempt, Reach,
  here, next,
}

module _ (dbt : Dbt) (rt : Runtime) (r : Redis) where
  -- The store is what a loader process that exited with zero left.
  pub record LoadedBy (s : r.Store) : Type 0 where
    pub connects : Bool
    pub clock : ℕ → ℕ
    pub now : DateTime
    pub before : DagRun dbt rt r
    pub exited : exits_zero (load dbt rt r connects clock now before).0 ≡ true
    pub left : s ≡ (load dbt rt r connects clock now before).1.store
    pub tested : before.done dbt_test ≡ true

  pub record IsGated (s : r.Store) (d : DagRun dbt rt r) : Type 0 where
    pub in_order :
        (d.done dbt_run ≡ true → d.done dbt_snapshot ≡ true)
        × (d.done dbt_test ≡ true → d.done dbt_run ≡ true)
        × (0 < d.tries load_features_to_redis → d.done dbt_test ≡ true)
    pub done_tried : d.done load_features_to_redis ≡ true → 0 < d.tries load_features_to_redis
    pub untried : d.tries load_features_to_redis ≡ 0 → d.store ≡ s
    pub unloaded :
        d.done load_features_to_redis ≡ false → r.entry d.store meta_key ≡ r.entry s meta_key
    pub loaded : d.done load_features_to_redis ≡ true → LoadedBy d.store
    pub tries : (t : Task) → d.tries t ≤ suc retries

  load-unchanged :
      (connects : Bool) (clock : ℕ → ℕ) (now : DateTime) (d : DagRun dbt rt r)
      → exits_zero (load dbt rt r connects clock now d).0 ≡ false
      → r.entry (load dbt rt r connects clock now d).1.store meta_key ≡ r.entry d.store meta_key
  unfolding load connect_and_run
  load-unchanged false clock now d h = refl
  load-unchanged true clock now d h = elim (Outcome-cases (load dbt rt r true clock now d).0) [
    | inl (n, goes) ↦ cc (rw (goes) at h)
    | inr (e, stop) ↦ run_raised rt r clock _ _ now _ e stop
  ]

  tries_le :
      (t u : Task) (d : DagRun dbt rt r)
      → IsReady dbt rt r t d
      → d.tries u ≤ suc retries
      → assign t (d.tries t + 1) d.tries u ≤ suc retries
  unfolding assign
  tries_le t u d ready h = elim (Bool-cases (rank t == rank u)) [
    | inl same ↦ rw (same) (omega arith)
    | inr other ↦ rw (other) h
  ]

  Step-IsGated :
      (s : r.Store) {d e : DagRun dbt rt r} → Step dbt rt r d e → IsGated s d → IsGated s e
  unfolding finish assign upstream
  Step-IsGated s {d} (dbt_attempt dbt_snapshot _ ready) g = record {
    in_order = ground arith;
    done_tried = g.done_tried;
    untried = g.untried;
    unloaded = g.unloaded;
    loaded = g.loaded;
    tries = λ u. tries_le dbt_snapshot u d ready (g.tries u);
  }
  Step-IsGated s {d} (dbt_attempt dbt_run _ ready) g = record {
    in_order = ground arith;
    done_tried = g.done_tried;
    untried = g.untried;
    unloaded = g.unloaded;
    loaded = g.loaded;
    tries = λ u. tries_le dbt_run u d ready (g.tries u);
  }
  Step-IsGated s {d} (dbt_attempt dbt_test _ ready) g = record {
    in_order = ground arith;
    done_tried = g.done_tried;
    untried = g.untried;
    unloaded = g.unloaded;
    loaded = g.loaded;
    tries = λ u. tries_le dbt_test u d ready (g.tries u);
  }
  Step-IsGated s {d} (dbt_attempt load_features_to_redis no_ ready) g = cc
  Step-IsGated s {d} (load_attempt connects clock now ready) g = record {
    in_order = ground arith;
    done_tried = λ h. omega arith;
    untried = λ h. absurd (omega arith);
    unloaded = λ h. load-unchanged connects clock now d h ∙ g.unloaded ready.pending;
    loaded = λ h. record {
      connects = connects;
      clock = clock;
      now = now;
      before = d;
      exited = h;
      left = refl;
      tested = ready.triggered;
    };
    tries = λ u. tries_le load_features_to_redis u d ready (g.tries u);
  }

  scheduled-IsGated : (w : dbt.Warehouse) (s : r.Store) → IsGated s (scheduled dbt rt r w s)
  scheduled-IsGated w s = record {
    in_order = ground arith;
    done_tried = λ h. cc;
    untried = λ h. refl;
    unloaded = λ h. refl;
    loaded = λ h. cc;
    tries = λ t. omega arith;
  }

  Reach-IsGated :
      (s : r.Store) {d e : DagRun dbt rt r} → IsGated s d → Reach dbt rt r d e → IsGated s e
  Reach-IsGated s g here = g
  Reach-IsGated s g (next path step) = Step-IsGated s step (Reach-IsGated s g path)

  -- Until `dbt_test` has succeeded, after `dbt_run` and `dbt_snapshot`, the store is untouched. Until
  -- the load has succeeded, whatever its attempts did, the metadata are those before the run. Once it
  -- has, the store is what a loader process left that exited with zero, after the test. No task is
  -- tried more than three times.
  pub gate :
      (w : dbt.Warehouse) (s : r.Store) (d : DagRun dbt rt r)
      → Reach dbt rt r (scheduled dbt rt r w s) d
      → (d.done dbt_test ≡ false → d.store ≡ s)
        × (d.done dbt_test ≡ true → (d.done dbt_run ≡ true) × (d.done dbt_snapshot ≡ true))
        × (d.done load_features_to_redis ≡ false → r.entry d.store meta_key ≡ r.entry s meta_key)
        × (d.done load_features_to_redis ≡ true → LoadedBy d.store)
        × ((t : Task) → d.tries t ≤ 3)
  gate w s d path =
      let g = Reach-IsGated s (scheduled-IsGated w s) path in
      (λ h. g.untried (ground arith), ground arith, g.unloaded, g.loaded, g.tries)

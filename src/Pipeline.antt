-- ===== src/Pipeline.antt =====
-- orchestration/airflow/dags/fraud_pipeline_dag.py. What Airflow may do with a run of the DAG is a
-- step relation: it tries a task whose upstream task has succeeded, at most `retries` times again,
-- with the trigger rule `all_success` that an operator has by default. What a dbt command does to
-- the warehouse is a parameter, and `load_features_to_redis` is the loader's `run`.
pub mod Gate
use realtime_fraud_feature_s.Prelude.{
  ℕ, zero, suc, ◌+◌, ◌≤◌, ◌≡◌, Bool, true, false, Option, none, some, List, [], ◌∷◌, Outcome,
  returned, raised, ◌==◌, if◌then◌else◌,
}
use realtime_fraud_feature_s.Python.{Runtime, DateTime}
use realtime_fraud_feature_s.Redis.{Redis}
use realtime_fraud_feature_s.Redis.Session.{Session}
use realtime_fraud_feature_s.Loader.Rows.{LoadError}
use realtime_fraud_feature_s.Loader.Metadata.{Table, connect_and_run}

pub data Task : Type 0 where
  dbt_snapshot dbt_run dbt_test load_features_to_redis : Task

-- default_args["retries"]
abbrev pub retries : ℕ
retries = 2

-- dbt_snapshot >> dbt_run >> dbt_test >> load_features_to_redis
unfoldable pub upstream : Task → Option Task
upstream dbt_snapshot = none
upstream dbt_run = some dbt_snapshot
upstream dbt_test = some dbt_run
upstream load_features_to_redis = some dbt_test

abbrev pub rank : Task → ℕ
rank dbt_snapshot = 0
rank dbt_run = 1
rank dbt_test = 2
rank load_features_to_redis = 3

-- f[t] = v
unfoldable pub assign {ℓ} : {V : Type ℓ} → Task → V → (Task → V) → Task → V
assign t v f u = if rank t == rank u then v else f u

-- dbt in the warehouse: the exit code is zero or not. `tables` are the two gold tables.
pub record Dbt : Type 1 where
  pub Warehouse : Type 0
  pub command : Task → ℕ → Warehouse → Bool × Warehouse
  pub tables : Warehouse → Table × Table

abbrev pub exits_zero {ℓ} : {A : Type ℓ} → Outcome LoadError A → Bool
exits_zero (returned a) = true
exits_zero (raised e) = false

abbrev pub upstream_done : Option Task → (Task → Bool) → Bool
upstream_done none done = true
upstream_done (some t) done = done t

abbrev pub is_dbt : Task → Bool
is_dbt load_features_to_redis = false
is_dbt t = true

module _ (dbt : Dbt) (rt : Runtime) (r : Redis) where
  -- `tries` counts the attempts of a task, and `done` says that one of them succeeded.
  pub record DagRun : Type 0 where
    pub warehouse : dbt.Warehouse
    pub store : r.Store
    pub tries : Task → ℕ
    pub done : Task → Bool

  abbrev pub scheduled : dbt.Warehouse → r.Store → DagRun
  scheduled w s = record { warehouse = w; store = s; tries = λ t. 0; done = λ t. false }

  -- The process of `python -m feature_store.src.loader`, with its clocks; it exits with zero unless
  -- an exception ends it. The process is not killed, and Redis and Postgres answer to its end.
  unfoldable pub load :
      (connects : Bool) (clock : ℕ → ℕ)
      → DateTime
      → DagRun
      → Outcome LoadError (ℕ × ℕ) × Session r clock
  load connects clock now d =
      connect_and_run rt r clock connects (dbt.tables d.warehouse).0 (dbt.tables d.warehouse).1 now
        (record { pipe = r.pipeline; store = d.store; executed = 0 })

  -- Airflow may try the task.
  pub record IsReady (t : Task) (d : DagRun) : Type 0 where
    pub pending : d.done t ≡ false
    pub tried : d.tries t ≤ retries
    pub triggered : upstream_done (upstream t) d.done ≡ true

  unfoldable pub finish : Task → Bool → DagRun → DagRun
  unfolding assign
  finish t ok d = record d { tries = assign t (d.tries t + 1) d.tries; done = assign t ok d.done }

  pub data Step (d : DagRun) : DagRun → Type 0 where
    dbt_attempt :
        (t : Task)
        → is_dbt t ≡ true
        → IsReady t d
        → Step d (record (finish t (dbt.command t (d.tries t) d.warehouse).0 d) {
          warehouse = (dbt.command t (d.tries t) d.warehouse).1;
        })
    load_attempt :
        (connects : Bool) (clock : ℕ → ℕ) (now : DateTime)
        → IsReady load_features_to_redis d
        → Step d
            (record (finish load_features_to_redis (exits_zero (load connects clock now d).0) d) {
              store = (load connects clock now d).1.store;
            })

  pub data Reach (d : DagRun) : DagRun → Type 0 where
    here : Reach d d
    next : {e f : DagRun} → Reach d e → Step e f → Reach d f

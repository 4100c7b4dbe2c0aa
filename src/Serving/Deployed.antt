-- ===== src/Serving/Deployed.antt =====
-- The loader and the API as two processes in one environment, and a request over HTTP.
use realtime_fraud_feature_s.Prelude.{
  ℕ, ◌+◌, ◌<◌, ◌≡◌, refl, ◌∙◌, some, true, List, [], ◌∷◌, Text, codes, put, returned, arith,
}
use realtime_fraud_feature_s.Python.{Runtime, DateTime}
use realtime_fraud_feature_s.Redis.{Redis}
use realtime_fraud_feature_s.Redis.Session.{Session, Write, last_write}
use realtime_fraud_feature_s.Settings.{
  Env, getenv, Host, RedisConnection, get_redis_connection, api_redis,
}
use realtime_fraud_feature_s.Loader.Rows.{user_ttl_seconds, Yields, Rises}
use realtime_fraud_feature_s.Loader.Users.{user_key, user_write}
use realtime_fraud_feature_s.Loader.Merchants.{Stat, stat_of}
use realtime_fraud_feature_s.Loader.Metadata.{Table, run}
use realtime_fraud_feature_s.Api.{dummy_api_key}
use realtime_fraud_feature_s.Api.Health.{Hours}
use realtime_fraud_feature_s.Api.App.{
  user, features, FastApi, Moment, process_time_header, endpoint, handle,
}
use realtime_fraud_feature_s.Serving.{LastRow, features_of, get_user_features-run}

getenv-same :
    (e f : Env) (name default : Text)
    → e name ≡ f name
    → getenv e name default ≡ getenv f name default
unfolding getenv
getenv-same e f name default h = ground (arith)

-- The loader and the API make the same connection, where the loader's `.env` file says nothing new
-- of Redis.
api_redis-eq-get_redis_connection :
    (h : Host) (env : Env)
    → h.load_dotenv env (codes "REDIS_HOST") ≡ env (codes "REDIS_HOST")
    → h.load_dotenv env (codes "REDIS_PORT") ≡ env (codes "REDIS_PORT")
    → api_redis h env ≡ get_redis_connection h env
unfolding api_redis get_redis_connection
api_redis-eq-get_redis_connection h env host port =
    rw
      (
        getenv-same (h.load_dotenv env) env (codes "REDIS_HOST") (codes "127.0.0.1") host,
        getenv-same (h.load_dotenv env) env (codes "REDIS_PORT") (codes "6379") port,
      )
      refl

module _ (h : Host) (env : Env) (rt : Runtime) (hours : Hours rt.Float) (r : Redis)
    (fast_api : FastApi rt hours) (clock : ℕ → ℕ) (rises : Rises clock) where
  -- Let the loader connect, let its `.env` file say nothing new of Redis, and let all rows have the
  -- columns that the loads read. Then the API, in the same environment, has the same connection. And
  -- if what that reaches is as the run of the loader left it, for 24 hours from the run's first
  -- execute a request with the right key for a user with a row is answered with the status 200, the
  -- features of the user's last row, and the time that it took.
  pub handle-run :
      (c : RedisConnection) (users merchants : Table) (now : DateTime) (t : Session r clock)
      {ws : List Write} {ss : List Stat} (u : Text) (w : Write) (m : Moment rt r)
      → h.load_dotenv env (codes "REDIS_HOST") ≡ env (codes "REDIS_HOST")
      → h.load_dotenv env (codes "REDIS_PORT") ≡ env (codes "REDIS_PORT")
      → get_redis_connection h env ≡ returned c
      → Yields (user_write rt users.columns) users.rows ws
      → Yields (stat_of rt merchants.columns) merchants.rows ss
      → last_write (user_key u) ws ≡ some w
      → m.second < clock t.executed + user_ttl_seconds
      → m.server c
        ≡ record { store = (run rt r clock users merchants now t).1.store; reachable = true }
      → (api_redis h env ≡ returned c)
        × ((p : LastRow (user_write rt users.columns) (user_key u) users.rows w) × (handle rt hours
                r fast_api m
                (user u)
                (some dummy_api_key)
                (record { redis_client = some c })
              ≡ record {
                status_code = 200;
                body = features (record {
                  user_id = u;
                  features = features_of rt users.columns p.row;
                  served_at = m.served_at;
                });
                headers = (process_time_header, m.process_time) ∷ [];
              }))
  unfolding handle endpoint put
  handle-run c users merchants now t u w m host port connected yu ym wrote soon reaches =
      let (p, served) =
        get_user_features-run rt r clock rises users merchants now t u w m.second m.served_at yu ym
          wrote soon in
      (
        api_redis-eq-get_redis_connection h env host port ∙ connected,
        (p, rw (reaches, served) refl),
      )

-- ===== src/Examples/Application.antt =====
-- The API as an application over HTTP, the connections of the scripts and a run of the ingestion.
use realtime_fraud_feature_s.Prelude.{
  ◌≡◌, ◌≢◌, ◌↔◌, refl, true, false, Option, none, some, List, [], ◌∷◌, ◌++◌, Text, codes, text_eq,
  Outcome, returned, raised, pos, arith, if◌then◌else◌,
}
use realtime_fraud_feature_s.Fixtures.{toy_runtime, toy_redis, toy_hours, toy_host, value}
use realtime_fraud_feature_s.Redis.Session.{last_write}
use realtime_fraud_feature_s.Settings.{
  Env, RedisConnection, get_redis_connection, api_redis, get_postgres_connection, bronze_connection,
  getenv, integer,
}
use realtime_fraud_feature_s.Bronze.Script.{
  Stop, keyboard_interrupt, exception, bronze_table, dead_letters, Call, stop, await_termination,
  Cluster, run_script,
}
use realtime_fraud_feature_s.Bronze.Script.Ends.{Has, run_script_lem}
use realtime_fraud_feature_s.Loader.Users.{user_key, user_write}
use realtime_fraud_feature_s.Loader.Metadata.{run}
use realtime_fraud_feature_s.Api.{dummy_api_key, Client}
use realtime_fraud_feature_s.Api.App.{
  user, batch, features, FastApi, Moment, imported, Event, starts, asks, ends, serve, detail,
  respond, process_time_header, handle,
}
use realtime_fraud_feature_s.Api.App.Access.{handle_refused}
use realtime_fraud_feature_s.Api.App.Lifespan.{responses, answers, configured, serve_lem}
use realtime_fraud_feature_s.Serving.{LastRow, features_of}
use realtime_fraud_feature_s.Serving.Deployed.{handle-run}
use realtime_fraud_feature_s.Examples.Loading.{
  at_thousand, at_thousand-Rises, users, merchants, user_entry, users-Yields, merchants-Yields,
  started, loaded_at,
}

-- `.env.example` as the file that the loader reads, as far as the port goes.
abbrev example_file : Env
example_file name = if text_eq name (codes "PG_PORT") then some (codes "5432") else none

abbrev bare : Env
bare name = none

-- With that file the loader reads another database than load_bronze_to_postgres.py writes.
ports_differ :
    get_postgres_connection (toy_host example_file) bare
    ≡ returned (record (bronze_connection bare) { port = pos 5432 })
unfolding get_postgres_connection bronze_connection getenv integer text_eq value
ports_differ = refl

abbrev local_redis : RedisConnection
local_redis = record { host = codes "127.0.0.1"; port = pos 6379; db = 0; decode_responses = true }

redis_connected : get_redis_connection (toy_host bare) bare ≡ returned local_redis
unfolding get_redis_connection getenv integer value
redis_connected = refl

abbrev toy_fast_api : FastApi toy_runtime toy_hours
toy_fast_api = record {
  http_response = λ status text. respond toy_runtime toy_hours status (detail text);
  server_error = respond toy_runtime toy_hours 500 (detail (codes "Internal Server Error"));
  http_response-status = λ status text. refl;
  server_error-status = refl;
}

abbrev loaded : Client toy_runtime toy_redis
loaded = record {
  store = (run toy_runtime toy_redis at_thousand users merchants loaded_at started).1.store;
  reachable = true;
}

abbrev at_five_thousand : Client toy_runtime toy_redis → Moment toy_runtime toy_redis
at_five_thousand client = record {
  second = 5000;
  now = loaded_at;
  served_at = codes "now";
  process_time = codes "1.25";
  server = λ c. client;
}

handle-run_example :
    (api_redis (toy_host bare) bare ≡ returned local_redis)
    × ((p : LastRow
          (user_write toy_runtime users.columns)
          (user_key (codes "u1"))
          users.rows
          (user_entry "u1" 4))
        × (handle toy_runtime toy_hours toy_redis toy_fast_api
              (at_five_thousand loaded)
              (user (codes "u1"))
              (some dummy_api_key)
              (record { redis_client = some local_redis })
            ≡ record {
              status_code = 200;
              body = features (record {
                user_id = codes "u1";
                features = features_of toy_runtime users.columns p.row;
                served_at = codes "now";
              });
              headers = (process_time_header, codes "1.25") ∷ [];
            }))
unfolding last_write text_eq user_key
handle-run_example =
    handle-run (toy_host bare) bare toy_runtime toy_hours toy_redis toy_fast_api at_thousand
      at_thousand-Rises local_redis users merchants loaded_at started (codes "u1")
      (user_entry "u1" 4) (at_five_thousand loaded) refl refl redis_connected users-Yields
      merchants-Yields refl (omega arith) refl

abbrev empty_redis : Client toy_runtime toy_redis
empty_redis = record { store = []; reachable = false }

wrong_key : ◌≡◌ {A = Option Text} (some (codes "guess")) (some dummy_api_key) → ⊥
wrong_key h = cc

handle_refused_example :
    ((handle toy_runtime toy_hours toy_redis toy_fast_api
        (at_five_thousand loaded)
        (user (codes "u1"))
        (some (codes "guess"))
        (record { redis_client = some local_redis })).status_code
      ≡ 403)
    × (handle toy_runtime toy_hours toy_redis toy_fast_api
          (at_five_thousand loaded)
          (user (codes "u1"))
          (some (codes "guess"))
          (record { redis_client = some local_redis })
        ≡ handle toy_runtime toy_hours toy_redis toy_fast_api
            (at_five_thousand empty_redis)
            (batch [])
            (some (codes "guess"))
            imported)
handle_refused_example =
    handle_refused toy_runtime toy_hours toy_redis toy_fast_api (at_five_thousand loaded)
      (at_five_thousand empty_redis) (user (codes "u1")) (batch []) (some (codes "guess"))
      (record { redis_client = some local_redis }) imported refl refl wrong_key refl

abbrev request : Client toy_runtime toy_redis → Event toy_runtime toy_redis
request client = asks (at_five_thousand client) (user (codes "u1")) (some dummy_api_key)

-- Redis is not reached at the start, but when `u1` is asked for.
serve_lem_example :
    responses toy_runtime toy_hours
      (serve toy_runtime toy_hours toy_redis toy_fast_api local_redis
        (request loaded ∷ starts (at_five_thousand empty_redis) ∷ request loaded ∷ ends ∷ [])
        imported).1
    ≡ answers toy_runtime toy_hours toy_redis toy_fast_api imported (request loaded ∷ [])
      ++ answers toy_runtime toy_hours toy_redis toy_fast_api
          (configured local_redis)
          (request loaded ∷ ends ∷ [])
serve_lem_example =
    serve_lem toy_runtime toy_hours toy_redis toy_fast_api local_redis (request loaded ∷ [])
      (at_five_thousand empty_redis) (request loaded ∷ ends ∷ []) tt

-- The query of the dead letters fails while it is waited for.
abbrev failing : Cluster
failing = record { answer = answer; active = bronze_table ∷ dead_letters ∷ [] }
  where
    answer : Call → Outcome Stop (Unit {0})
    answer (await_termination dead_letters) = raised exception
    answer c = returned tt

run_script_lem_example :
    ((before : List Call) × ((run_script bare true failing).0 ≡ before ++ stop ∷ []))
    × ((((run_script bare true failing).1 ≡ raised exception) ↔ (
          (c : Call) × Has c (run_script bare true failing).0
          × (failing.answer c ≡ raised exception)))
        × ((run_script bare true failing).1 ≢ raised keyboard_interrupt))
run_script_lem_example = run_script_lem bare true failing refl refl

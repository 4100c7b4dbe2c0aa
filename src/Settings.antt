-- ===== src/Settings.antt =====
-- The environment that the scripts read with `os.getenv`, and the connections to Redis and Postgres
-- that they make of it. `int` and python-dotenv are parameters.
use realtime_fraud_feature_s.Prelude.{
  ℕ, ◌≡◌, ◌<◌, ◌^◌, Option, none, some, Bool, true, Text, codes, Outcome, returned, raised, ◌>>=◌,
  ℤ, pos,
}
use realtime_fraud_feature_s.Generator.{decimal}

abbrev pub Env : Type 0
Env = Text → Option Text

-- os.getenv(name, default)
unfoldable pub getenv : Env → Text → Text → Text
getenv env name default = elim (env name) [ none ↦ default | some value ↦ value ]

-- `int` of a text, with none for its `ValueError`, and `load_dotenv`, which does not change a
-- variable that is set.
pub record Host : Type 0 where
  pub int : Text → Option ℤ
  pub load_dotenv : Env → Env
  pub int-decimal : (n : ℕ) → n < 10 ^ 5 → int (decimal n) ≡ some (pos n)
  pub load_dotenv_keeps :
      (env : Env) (name value : Text) → env name ≡ some value → load_dotenv env name ≡ some value

pub data SettingsError : Type 0 where
  value_error : SettingsError

pub record RedisConnection : Type 0 where
  pub host : Text
  pub port : ℤ
  pub db : ℕ
  pub decode_responses : Bool

pub record PostgresConnection : Type 0 where
  pub host : Text
  pub port : ℤ
  pub dbname : Text
  pub user : Text
  pub password : Text

module _ (h : Host) where
  -- int(text)
  unfoldable pub integer : Text → Outcome SettingsError ℤ
  integer text = elim (h.int text) [ none ↦ raised value_error | some n ↦ returned n ]

  -- The loader's. Its module calls `load_dotenv` first.
  unfoldable pub get_redis_connection : Env → Outcome SettingsError RedisConnection
  unfolding getenv integer
  get_redis_connection env = do
    let loaded = h.load_dotenv env
    port ← integer (getenv loaded (codes "REDIS_PORT") (codes "6379"))
    returned (record {
      host = getenv loaded (codes "REDIS_HOST") (codes "127.0.0.1");
      port = port;
      db = 0;
      decode_responses = true;
    })

  -- The API's constants REDIS_HOST and REDIS_PORT, and the client that its lifespan makes of them.
  unfoldable pub api_redis : Env → Outcome SettingsError RedisConnection
  unfolding getenv integer
  api_redis env = do
    let redis_host = getenv env (codes "REDIS_HOST") (codes "127.0.0.1")
    redis_port ← integer (getenv env (codes "REDIS_PORT") (codes "6379"))
    returned (record { host = redis_host; port = redis_port; db = 0; decode_responses = true })

  -- `_connect` of seed_reference.py
  unfoldable pub connect : Env → Outcome SettingsError PostgresConnection
  unfolding getenv integer
  connect env = do
    port ← integer (getenv env (codes "PG_PORT") (codes "5434"))
    returned (record {
      host = getenv env (codes "PG_HOST") (codes "127.0.0.1");
      port = port;
      dbname = getenv env (codes "PG_DATABASE") (codes "fraud_reference");
      user = getenv env (codes "PG_USER") (codes "fraud_admin");
      password = getenv env (codes "PG_PASSWORD") (codes "changeme_local_only");
    })

  -- The loader's: the same calls after `load_dotenv`.
  unfoldable pub get_postgres_connection : Env → Outcome SettingsError PostgresConnection
  unfolding getenv integer
  get_postgres_connection env = do
    let loaded = h.load_dotenv env
    port ← integer (getenv loaded (codes "PG_PORT") (codes "5434"))
    returned (record {
      host = getenv loaded (codes "PG_HOST") (codes "127.0.0.1");
      port = port;
      dbname = getenv loaded (codes "PG_DATABASE") (codes "fraud_reference");
      user = getenv loaded (codes "PG_USER") (codes "fraud_admin");
      password = getenv loaded (codes "PG_PASSWORD") (codes "changeme_local_only");
    })

-- `main` of load_bronze_to_postgres.py, on both of its connections.
unfoldable pub bronze_connection : Env → PostgresConnection
unfolding getenv
bronze_connection env = record {
  host = codes "127.0.0.1";
  port = pos 5434;
  dbname = codes "fraud_reference";
  user = getenv env (codes "PG_USER") (codes "fraud_admin");
  password = getenv env (codes "PG_PASSWORD") (codes "changeme_local_only");
}

-- The scorer's, in `get_random_user_from_db`.
abbrev pub scorer_connection : PostgresConnection
scorer_connection = record {
  host = codes "localhost";
  port = pos 5434;
  dbname = codes "fraud_reference";
  user = codes "fraud_admin";
  password = codes "changeme_local_only";
}

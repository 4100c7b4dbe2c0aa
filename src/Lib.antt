-- ===== src/Lib.antt =====
-- The realtime fraud feature store, verified: the Python code of the repository.
--
-- Synthetic transactions go through Kafka, Spark and dbt into two gold tables in Postgres. The
-- loader writes the gold tables' rows as JSON into Redis, the API serves them over HTTP, and the
-- scorer decides on a purchase by what the API serves.
--
-- The parts:
--   Schemas    ingestion/transaction_generator/src/schemas.py: the event, its constraints and its
--              two validators (`create` is the construction `TransactionEvent(...)`)
--   Profiles   ingestion/transaction_generator/src/profiles.py: `ProfileFactory`, whose draws,
--              identifiers and clock are parameters
--   SeedReference  ingestion/transaction_generator/src/seed_reference.py: the rows and `main`
--   Generator  ingestion/transaction_generator/src/generator.py: the class and one event from its
--              random draws, which are an argument
--   Producer   ingestion/transaction_generator/src/kafka_producer.py: `send`, the callbacks and
--              `stats`, a step relation on the messages under way, in Payload what a message
--              holds, and in Delivery another step relation on its way to the topic,
--              which reads the options given to kafka-python
--   Runner     ingestion/transaction_generator/src/run.py: the loop of `main`, and in Publish all
--              of it with the events that it sends
--   Backfill   ingestion/transaction_generator/src/backfill.py: the loop of `main`, its profiles
--              and what it writes
--   Bronze     streaming/spark/src/bronze_ingest.py: what a micro-batch becomes, and in Stream the
--              two queries of `run`, with a step relation of what Spark may do; in Script the
--              calls of `run` with its exceptions
--   Flow       from the producer's messages to the bronze table, with the streams in Lake and
--              with Kafka and the streams in Delivered, and on to Postgres in Warehouse
--   SparkConfig  streaming/spark/src/config.py: the options of the session
--   Settings   the connections to Redis and Postgres that the scripts make of the environment
--   BronzeLoad load_bronze_to_postgres.py: the columns, the staging table and the swap
--   Pipeline   orchestration/airflow/dags/fraud_pipeline_dag.py: the chain of tasks, with a step
--              relation of what Airflow may do, down to the loader's process
--   Loader     feature_store/src/loader.py: `load_user_features`, `load_merchant_stats`,
--              `set_metadata` and `run`, by the names they have there
--   Api        feature_store/src/api.py: `get_user_features`, `get_batch_features` and
--              `health_check`, with `get_api_key` and `get_redis`, and in App the routes, the
--              middleware and the lifespan
--   Scorer     feature_store/src/mock_ml_scorer.py: `score_transaction` and the script
--   Serving    the loader and the API together, with the scorer in Decision and the
--              application over HTTP in Deployed
-- Prelude holds what they share, Python the values of Python that they use, Redis and Postgres
-- the servers and their clients. Fixtures and Examples are concrete stand-ins and runs.
--
-- State is passed: the loader's functions take a `Session`, the pipeline, the store and the number
-- of executes so far, and return it with a result or the exception. The API's functions read a
-- store. Numbers are natural numbers, which Python's unbounded integers are where they count.
-- Exceptions are values of `Outcome`.
--
-- What is not in the repository is a parameter with documented behaviour for laws: `Redis` (a set
-- and an expire change their key alone, an execute runs the queue in order), `Runtime` (json,
-- isoformat, str), `Postgres` (only a commit shows to other connections, and what each statement
-- does to tables and views), `Jdbc`, `Random`, `FakerLibrary`, `Outside` (identifiers, the clock
-- and the entropy of a process), `Formats` (the writer of the Parquet files), `Dbt`, `Hours` and the
-- two records `Floats` (floats), `Pydantic`, `Spark`, `Delta`, `Host` (`int` and python-dotenv),
-- `FastApi` (what it makes of exceptions) and `Wire` (what Spark's `from_json`
-- reads in an object that `json.dumps` writes).
--
-- The `while` loops of Runner, which may run for ever, and Backfill take fuel, one unit for a turn.
-- One more than the number of events or rows suffices. All other loops are structural.
--
-- Not modelled: logging and printing, command lines, Spark's triggers, how Parquet files lie,
-- FastAPI's own checks of a request, and the dbt models. The topic keeps its messages until both
-- queries have read them, Ctrl+C comes between two turns of the runner's loop, and no one else
-- writes the tables or keys that a script is writing. A load of the features runs to its end or to
-- its own exception: Redis and Postgres, once connected, answer, and no process is killed. Merchant
-- ids are texts and not NULL.
pub mod Prelude
pub mod Python
pub mod Redis
pub mod Loader
pub mod Api
pub mod Scorer
mod Fixtures
pub mod Serving
mod Examples
pub mod Schemas
pub mod Producer
pub mod Runner
pub mod Backfill
pub mod Bronze
pub mod Profiles
pub mod Generator
pub mod Postgres
pub mod BronzeLoad
pub mod SeedReference
pub mod Pipeline
pub mod Settings
pub mod SparkConfig
pub mod Flow

-- ===== src/Bronze/Script.antt =====
-- `run` of streaming/spark/src/bronze_ingest.py as a script: the calls that it makes of Spark, what
-- it does when one raises, and how it ends. What the calls answer is a parameter.
pub mod Ends
use realtime_fraud_feature_s.Prelude.{
  ◌≡◌, Bool, true, false, List, [], ◌∷◌, ◌++◌, map, Text, codes, Outcome, returned, raised,
  if◌then◌else◌,
}
use realtime_fraud_feature_s.Settings.{Env, getenv}
use realtime_fraud_feature_s.SparkConfig.{SparkSession, create_spark_session}

-- `KeyboardInterrupt`, or an `Exception`.
pub data Stop : Type 0 where
  keyboard_interrupt exception : Stop

-- trigger(availableNow=True) and trigger(processingTime="2 minutes")
pub data Trigger : Type 0 where
  available_now two_minutes : Trigger

-- The two queries.
pub data Sink : Type 0 where
  bronze_table dead_letters : Sink

pub data Call : Type 0 where
  session : SparkSession → Call
  kafka_source : Text → Text → Call
  transformations : Call
  -- the checkpoint and the path of the table
  start_table : Text → Text → Trigger → Call
  -- the checkpoint, the server and the topic of the dead letters
  start_letters : Text → Text → Text → Trigger → Call
  await_termination : Sink → Call
  await_any_termination : Call
  stop : Call

abbrev pub trigger : Bool → Trigger
trigger once = if once then available_now else two_minutes

abbrev pub topic : Text
topic = codes "transactions.raw"

abbrev pub dead_letter_topic : Text
dead_letter_topic = codes "transactions.dead_letter"

abbrev pub bronze_output : Text
bronze_output = codes "s3a://bronze/transactions_v2/"

abbrev pub bronze_checkpoint : Text
bronze_checkpoint = codes "s3a://bronze/_checkpoints/bronze_ingest_v2/"

abbrev pub dead_letter_checkpoint : Text
dead_letter_checkpoint = codes "s3a://bronze/_checkpoints/dead_letter/"

-- What a call answers, and the queries that `spark.streams.active` lists after the start.
pub record Cluster : Type 0 where
  pub answer : Call → Outcome Stop (Unit {0})
  pub active : List Sink

-- The `try` block.
unfoldable pub body : Env → Bool → List Sink → List Call
unfolding getenv
body env once active =
    let bootstrap = getenv env (codes "KAFKA_BOOTSTRAP_SERVERS") (codes "localhost:9092") in
    kafka_source bootstrap topic
    ∷ transformations
    ∷ start_table bronze_checkpoint bronze_output (trigger once)
    ∷ start_letters dead_letter_checkpoint bootstrap dead_letter_topic (trigger once)
    ∷ (if once then map await_termination active else await_any_termination ∷ [])

-- Calls in order, up to the first that raises.
unfoldable pub attempt :
    (Call → Outcome Stop (Unit {0})) → List Call → List Call × Outcome Stop (Unit {0})
attempt answer [] = ([], returned tt)
attempt answer (c ∷ cs) = elim (answer c) [
  | raised e ↦ (c ∷ [], raised e)
  | returned u ↦ let (made, o) = attempt answer cs in (c ∷ made, o)
]

-- The two `except` clauses.
abbrev pub handled : Outcome Stop (Unit {0}) → Outcome Stop (Unit {0})
handled (raised keyboard_interrupt) = returned tt
handled (raised exception) = raised exception
handled (returned u) = returned u

-- The `finally` block: an exception of `spark.stop()` takes the place of what came before.
abbrev pub stopped : Outcome Stop (Unit {0}) → Outcome Stop (Unit {0}) → Outcome Stop (Unit {0})
stopped (raised e) o = raised e
stopped (returned u) o = o

unfoldable pub run_script : Env → Bool → Cluster → List Call × Outcome Stop (Unit {0})
run_script env once cluster =
    let created = session (create_spark_session env (codes "bronze-ingest")) in
    elim (cluster.answer created) [
      | raised e ↦ (created ∷ [], raised e)
      | returned u ↦
          let (made, o) = attempt cluster.answer (body env once cluster.active) in
          (created ∷ (made ++ stop ∷ []), stopped (cluster.answer stop) (handled o))
    ]

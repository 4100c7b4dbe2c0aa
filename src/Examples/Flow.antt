-- ===== src/Examples/Flow.antt =====
-- An event on its way from the producer to the bronze table.
use mathlib.Core.List.{Perm}
use realtime_fraud_feature_s.Prelude.{
  ℕ, zero, suc, ◌≡◌, ◌⊎◌, ◌<◌, ◌++◌, refl, Option, none, some, List, [], ◌∷◌, map, Text, codes,
  returned, All, arith, length, pos, ℤ,
}
use realtime_fraud_feature_s.Fixtures.{
  toy_runtime, toy_json_spark, toy_wire, toy_str_decimal, toy_delta,
}
use realtime_fraud_feature_s.Producer.Payload.{
  value_serializer, object_of, value_serializer-returned,
}
use realtime_fraud_feature_s.Bronze.{KafkaRecord, run}
use realtime_fraud_feature_s.Bronze.Split.{origin, origin_of}
use realtime_fraud_feature_s.Bronze.Stream.{
  commits, Offsets, below, Plan, plans, adds, Streams, first_start, bronze_step, Reach, here, next,
}
use realtime_fraud_feature_s.Flow.{Carries, nothing, carries}
use realtime_fraud_feature_s.Flow.Arrives.{shown, expected, run-Carries}
use realtime_fraud_feature_s.Flow.Lake.{IsSent, Reach-sent}
use realtime_fraud_feature_s.Flow.Delivered.{HasRow, arrives_or_failed}
use realtime_fraud_feature_s.Flow.Warehouse.{
  Cell, string, date, timestamp, integer, frame_of, ShowsEvent, text_rows-sent,
}
use realtime_fraud_feature_s.BronzeLoad.{text_rows}
use realtime_fraud_feature_s.Python.{DateTime}
use realtime_fraud_feature_s.Producer.{TransactionKafkaProducer, Message, message_of}
use realtime_fraud_feature_s.Producer.Delivery
use realtime_fraud_feature_s.Producer.Delivery.{
  kafka_options, flat, Traffic, quiet, accepts, drains, delivers, at,
}
use realtime_fraud_feature_s.Producer.Delivery.Batches.{In}
use realtime_fraud_feature_s.Examples.Ingestion.{event}

abbrev payload : Text
payload = toy_runtime.dumps (object_of toy_runtime toy_str_decimal event)

abbrev message : KafkaRecord ℕ
message = record {
  value = some payload;
  topic = codes "transactions.raw";
  partition = 0;
  offset = 41;
  timestamp = 7;
}

encoded : value_serializer toy_runtime toy_str_decimal event ≡ returned payload
encoded = value_serializer-returned toy_runtime toy_str_decimal event

run-Carries_example :
    (map (shown toy_runtime toy_json_spark toy_wire) (run toy_json_spark 9 (message ∷ [])).0
      ≡ map (expected toy_runtime toy_json_spark toy_wire) (event ∷ []))
    × ((run toy_json_spark 9 (message ∷ [])).1 ≡ [])
run-Carries_example =
    run-Carries toy_runtime toy_json_spark toy_wire 9 (carries payload refl encoded nothing)

abbrev log : ℕ → List (KafkaRecord ℕ)
log p = message ∷ []

abbrev plan : Plan ℕ
plan = record { to = λ p. 1; now = 9 }

abbrev added :
    (s : Streams toy_json_spark toy_delta) × Reach toy_json_spark toy_delta 1
      (first_start toy_json_spark toy_delta log)
      s
added = (
  _,
  next
      (next here (
        bronze_step (
          plans plan refl (record {
            forward = λ p lt. omega arith;
            arrived = λ p lt. omega arith;
            capped = omega arith;
          }))))
      (bronze_step (adds plan _ refl refl refl)),
)

log-All : (p : ℕ) → p < 1 → All (IsSent toy_runtime toy_json_spark toy_wire) (added.0.log p)
log-All p lt = ((event, payload, refl, encoded), tt)

Reach-sent_example :
    (added.0.letters.sink ≡ [])
    × ((to : Offsets) × ((to ≡ added.0.bronze.committed)
          ⊎ ((p : Plan ℕ) × (added.0.bronze.planned ≡ some p) × (to ≡ p.to)))
        × Perm
            (map (origin_of toy_json_spark) (toy_delta.rows added.0.bronze.sink))
            (map (origin toy_json_spark) (below 1 added.0.log to)))
Reach-sent_example =
    Reach-sent toy_runtime toy_json_spark toy_wire toy_delta 1 log added.0 added.1 log-All

abbrev committed :
    (s : Streams toy_json_spark toy_delta) × Reach toy_json_spark toy_delta 1
      (first_start toy_json_spark toy_delta log)
      s
committed = (_, next added.1 (bronze_step (commits plan refl refl)))

abbrev only_partition : Text → ℕ
only_partition key = 0

abbrev no_millis : DateTime → ℤ
no_millis t = pos 0

abbrev producer : TransactionKafkaProducer
producer = record { topic = codes "transactions.raw"; sent_count = 0; error_count = 0 }

abbrev first_message : ℕ → Message
unfolding message_of
first_message n = message_of no_millis producer event

abbrev delivered :
    (t : Traffic) × Delivery.Reach
      (kafka_options (codes "localhost:9092"))
      only_partition
      no_millis
      producer
      (quiet first_message)
      t
unfolding message_of
delivered = (
  _,
  Delivery.next
      (Delivery.next (Delivery.next Delivery.here (accepts event 0 (λ k h. refl)))
        (drains 0 (0 ∷ []) [] (omega arith) refl))
      (delivers 0 [] _ [] refl),
)

carried :
    (p : ℕ)
    → p < 1
    → Carries toy_runtime toy_json_spark toy_wire
        (committed.0.log p)
        (map (λ i. (delivered.0.message i).value) (delivered.0.log p))
unfolding delivered
carried zero lt = carries payload refl encoded nothing
carried (suc p) lt = absurd (omega arith)

arrives_or_failed_example :
    (committed.0.letters.sink ≡ [])
    × ((i : ℕ)
        → i < delivered.0.total
        → let p = delivered.0.partition_of i in
          p < 1
          → committed.0.bronze.committed p ≡ length (committed.0.log p)
          → HasRow toy_runtime toy_json_spark toy_wire toy_delta
              (delivered.0.message i).value
              committed.0.bronze.sink
            ⊎ (In i delivered.0.failed
                ⊎ In i (flat (delivered.0.in_flight p) ++ delivered.0.waiting p)))
arrives_or_failed_example =
    arrives_or_failed toy_runtime toy_json_spark toy_wire (codes "localhost:9092") only_partition
      no_millis producer first_message delivered.0 toy_delta 1 log committed.0 delivered.1
      committed.1 carried refl

abbrev to_string : Cell ℕ → Option Text
to_string (string o) = o
to_string (date o) = o
to_string (timestamp none) = none
to_string (timestamp (some t)) = some (t ∷ [])
to_string (integer none) = none
to_string (integer (some n)) = some (n ∷ [])

text_rows-sent_example :
    All
      (ShowsEvent toy_json_spark toy_runtime toy_wire)
      (text_rows to_string (frame_of toy_json_spark (toy_delta.rows added.0.bronze.sink)))
text_rows-sent_example =
    text_rows-sent toy_json_spark toy_runtime toy_wire to_string (λ o. refl) toy_delta 1 log added.0
      added.1 log-All

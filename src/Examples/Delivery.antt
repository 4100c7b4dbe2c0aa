-- ===== src/Examples/Delivery.antt =====
-- Two events of one user in a batch whose acknowledgement is lost once: both reach the log twice.
use realtime_fraud_feature_s.Prelude.{
  ℕ, ◌<◌, ◌≡◌, ◌≢◌, ◌⊎◌, refl, List, [], ◌∷◌, ◌++◌, Text, codes, pos, arith, ℤ,
}
use realtime_fraud_feature_s.Python.{DateTime}
use realtime_fraud_feature_s.Producer.{TransactionKafkaProducer, Message, message_of}
use realtime_fraud_feature_s.Producer.Delivery.{
  kafka_options, flat, Traffic, quiet, accepts, drains, delivers, acknowledgement_lost, Reach, here,
  next,
}
use realtime_fraud_feature_s.Producer.Delivery.Batches.{In}
use realtime_fraud_feature_s.Producer.Delivery.Order.{per_user_order}
use realtime_fraud_feature_s.Examples.Ingestion.{event}

abbrev partition : Text → ℕ
partition key = 1

abbrev millis : DateTime → ℤ
millis t = pos t.wall

abbrev producer : TransactionKafkaProducer
producer = record { topic = codes "transactions.raw"; sent_count = 0; error_count = 0 }

abbrev nothing : ℕ → Message
unfolding message_of
nothing n = message_of millis producer event

abbrev repeated :
    (t : Traffic) × Reach
      (kafka_options (codes "localhost:9092"))
      partition
      millis
      producer
      (quiet nothing)
      t
unfolding message_of
repeated = (
  _,
  next
      (next
        (next (next (next here (accepts event 1 (λ k h. refl))) (accepts event 1 (λ k h. refl)))
          (drains 1 (0 ∷ 1 ∷ []) [] (omega arith) refl))
        (acknowledgement_lost 1 [] _ [] refl (omega arith)))
      (delivers 1 [] _ [] refl),
)

-- The second event stands before the repeated first one.
twice_in_log : repeated.0.log 1 ≡ 0 ∷ 1 ∷ 0 ∷ 1 ∷ []
unfolding repeated
twice_in_log = refl

per_user_order_example :
    ((n : ℕ)
      → n < repeated.0.total
      → let p = repeated.0.partition_of n in
        In n (repeated.0.log p)
        ⊎ (In n repeated.0.failed ⊎ In n (flat (repeated.0.in_flight p) ++ repeated.0.waiting p)))
    × ((p m n : ℕ) (before after : List ℕ)
        → repeated.0.log p ≡ before ++ (m ∷ after)
        → n < m
        → (repeated.0.message n).value.user_id ≡ (repeated.0.message m).value.user_id
        → (repeated.0.message m).value.user_id ≢ []
        → In n before ⊎ In n repeated.0.failed)
per_user_order_example =
    per_user_order (codes "localhost:9092") partition millis producer nothing repeated.0 repeated.1

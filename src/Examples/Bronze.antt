-- ===== src/Examples/Bronze.antt =====
-- A micro-batch of a payload and a tombstone.
use mathlib.Core.List.{Perm}
use realtime_fraud_feature_s.Prelude.{
  ℕ, Text, Option, none, some, List, [], ◌∷◌, ◌++◌, map, codes, All,
}
use realtime_fraud_feature_s.Fixtures.{toy_spark}
use realtime_fraud_feature_s.Bronze.{KafkaRecord, run}
use realtime_fraud_feature_s.Bronze.Split.{origin, origin_of, run-Perm}
use realtime_fraud_feature_s.Bronze.Masking.{IsMasked, run-IsMasked}

abbrev message : Option Text → ℕ → KafkaRecord ℕ
message value offset = record {
  value = value;
  topic = codes "transactions.raw";
  partition = 0;
  offset = offset;
  timestamp = 7;
}

abbrev pub batch : List (KafkaRecord ℕ)
batch = message (some (codes "payload")) 41 ∷ message none 42 ∷ []

run-Perm_example :
    let (bronze, letters) = run toy_spark 9 batch in
    Perm (map (origin_of toy_spark) bronze ++ letters) (map (origin toy_spark) batch)
run-Perm_example = run-Perm toy_spark 9 batch

run-IsMasked_example : All (IsMasked toy_spark 9) (run toy_spark 9 batch).0
run-IsMasked_example = run-IsMasked toy_spark 9 batch

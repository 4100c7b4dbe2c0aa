-- ===== src/Examples/Streams.antt =====
-- The two streaming queries on a topic with a payload and a tombstone. The table's query is stopped
-- after its first addition, and that of the dead letters in the middle of it.
use mathlib.Core.List.{Subset}
use mathlib.Core.List.Perm
use realtime_fraud_feature_s.Prelude.{◌≤◌, ◌*◌, ℕ, ◌≡◌, ◌⊎◌, refl, some, List, arith, length}
use realtime_fraud_feature_s.Fixtures.{toy_spark, toy_delta}
use realtime_fraud_feature_s.Bronze.{
  KafkaRecord, run, parse_and_validate, keep, select, required, mask_pii, mask_row,
  add_partition_columns, partitioned, dead_letter,
}
use realtime_fraud_feature_s.Bronze.Stream.{
  Offsets, below, Plan, plans, adds, breaks_off, restarts, Streams, first_start, bronze_step,
  letters_step, Reach, here, next,
}
use realtime_fraud_feature_s.Bronze.Stream.Offsets.{Arrived}
use realtime_fraud_feature_s.Bronze.Stream.Sides.{rejected}
use realtime_fraud_feature_s.Bronze.Stream.Table.{Holds, Reach-Holds}
use realtime_fraud_feature_s.Bronze.Stream.Letters.{ends, Reach-letters}
use realtime_fraud_feature_s.Examples.Bronze.{batch}

abbrev log : ℕ → List (KafkaRecord ℕ)
log p = batch

abbrev first_plan : Plan ℕ
first_plan = record { to = λ p. 2; now = 9 }

abbrev at_start : Streams toy_spark toy_delta
at_start = first_start toy_spark toy_delta log

abbrev restarted : (s : Streams toy_spark toy_delta) × Reach toy_spark toy_delta 1 at_start s
restarted = (
  _,
  next
      (next
        (next
          (next here (
            bronze_step (
              plans first_plan refl (record {
                forward = λ p lt. omega arith;
                arrived = λ p lt. omega arith;
                capped = omega arith;
              }))))
          (bronze_step (adds first_plan _ refl refl refl)))
        (bronze_step restarts))
      (bronze_step (adds first_plan _ refl refl refl)),
)

abbrev stopped : (s : Streams toy_spark toy_delta) × Reach toy_spark toy_delta 1 at_start s
unfolding run parse_and_validate
stopped = (
  _,
  next
      (next
        (next restarted.1 (
          letters_step (
            plans first_plan refl (record {
              forward = λ p lt. omega arith;
              arrived = λ p lt. omega arith;
              capped = omega arith;
            }))))
        (letters_step
          (breaks_off first_plan _ refl refl ((run toy_spark 9 batch).1, (λ a m. m), refl))))
      (letters_step (adds first_plan _ refl refl ((run toy_spark 9 batch).1, Perm.rfl, refl))),
)

Reach-Holds_example :
    (to : Offsets) × ((to ≡ stopped.0.bronze.committed)
      ⊎ ((p : Plan ℕ) × (stopped.0.bronze.planned ≡ some p) × (to ≡ p.to)))
    × Arrived 1 stopped.0.log to
    × Holds toy_spark toy_delta 1 stopped.0.log stopped.0.bronze.sink to
    × (length (below 1 stopped.0.log stopped.0.bronze.committed)
        ≤ 10000 * stopped.0.bronze.batch_id)
Reach-Holds_example = Reach-Holds toy_spark toy_delta 1 log stopped.0 stopped.1

Reach-letters_example :
    Subset
      (rejected toy_spark (below 1 stopped.0.log stopped.0.letters.committed))
      stopped.0.letters.sink
    × Subset stopped.0.letters.sink (
        rejected toy_spark
          (below 1 stopped.0.log (ends stopped.0.letters.planned stopped.0.letters.committed)))
Reach-letters_example = Reach-letters toy_spark toy_delta 1 log stopped.0 stopped.1

twice_in_letters : length stopped.0.letters.sink ≡ 2
unfolding run parse_and_validate keep select required dead_letter
twice_in_letters = refl

once_in_table : length (toy_delta.rows stopped.0.bronze.sink) ≡ 1
unfolding run parse_and_validate keep select required mask_pii mask_row add_partition_columns
    partitioned
once_in_table = refl

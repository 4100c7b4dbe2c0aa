-- ===== src/Bronze/Masking.antt =====
-- What masking hides, and what it leaves readable.
use realtime_fraud_feature_s.Prelude.{◌≡◌, refl, List, [], ◌∷◌, map, All, Bool-cases, inl, inr}
use realtime_fraud_feature_s.Bronze.{
  KafkaRecord, Spark, on_null, keep, select, required, mask_row, mask_pii, BronzeRow, partitioned,
  add_partition_columns, run,
}

module _ (spark : Spark) where
  open spark use {Time, from_json, sha2}

  -- A row of the table beside the columns that its record was parsed to: the device and the
  -- address are hashed, all other columns are as parsed.
  pub record IsMasked (now : Time) (b : BronzeRow spark) : Type 0 where
    pub device_id : b.row.parsed.device_id ≡ on_null sha2 (from_json b.row.raw_json).device_id
    pub ip_address : b.row.parsed.ip_address ≡ on_null sha2 (from_json b.row.raw_json).ip_address
    pub rest :
        record b.row.parsed {
          device_id = (from_json b.row.raw_json).device_id;
          ip_address = (from_json b.row.raw_json).ip_address;
        }
        ≡ from_json b.row.raw_json
    pub arrival : b.row.processing_timestamp ≡ now

  IsMasked-selected :
      (now : Time) (raw : List (KafkaRecord Time))
      → All (IsMasked now) (
          add_partition_columns spark
            (mask_pii spark (keep (required spark) (map (select spark now) raw))))
  unfolding add_partition_columns mask_pii mask_row partitioned keep select
  IsMasked-selected now [] = tt
  IsMasked-selected now (k ∷ raw) = elim (Bool-cases (required spark (select spark now k))) [
    | inl valid ↦ rw valid (
      record { device_id = refl; ip_address = refl; rest = refl; arrival = refl },
      IsMasked-selected now raw,
    )
    | inr invalid ↦ rw invalid (IsMasked-selected now raw)
  ]

  -- In every row of the table the device and the address are hashed. But the row keeps the payload
  -- itself, from which both can be parsed as they were sent.
  pub run-IsMasked :
      (now : Time) (raw : List (KafkaRecord Time)) → All (IsMasked now) (run spark now raw).0
  unfolding run
  run-IsMasked now raw = IsMasked-selected now raw

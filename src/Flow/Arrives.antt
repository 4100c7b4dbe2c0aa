-- ===== src/Flow/Arrives.antt =====
-- Every event that is sent has its row in the bronze table.
use realtime_fraud_feature_s.Prelude.{
  ◌≡◌, refl, sym, ap, ◌∙◌, true, Option, none, some, List, [], map, Text, text_eq, get, returned,
  returned-injective,
}
use realtime_fraud_feature_s.Python.{Runtime}
use realtime_fraud_feature_s.Schemas.{TransactionEvent}
use realtime_fraud_feature_s.Bronze.{
  KafkaRecord, Spark, Parsed, BronzeRow, Row, keep, select, required, parse_and_validate, mask_row,
  mask_pii, partitioned, add_partition_columns, run,
}
use realtime_fraud_feature_s.Producer.Payload.{
  value_serializer, optional_json, object_of, value_serializer-returned, object_of-IsDict,
}
use realtime_fraud_feature_s.Flow.{
  schema_columns, Wire, columns_of, bronze_columns_of, Carries, nothing, carries,
}

module _ (rt : Runtime) (spark : Spark) (wire : Wire rt spark) where
  as_string-optional : (o : Option Text) → wire.as_string (optional_json rt wire.str_decimal o) ≡ o
  as_string-optional none = wire.as_string-null
  as_string-optional (some s) = wire.as_string-str s

  schema_columns-object_of :
      (e : TransactionEvent)
      → schema_columns wire.as_string (object_of rt wire.str_decimal e) ≡ columns_of rt spark wire e
  unfolding schema_columns get text_eq
  schema_columns-object_of e = simp (wire.as_string-str, as_string-optional) refl

  from_json-event :
      (e : TransactionEvent) (payload : Text)
      → value_serializer rt wire.str_decimal e ≡ returned payload
      → spark.from_json (some payload) ≡ columns_of rt spark wire e
  from_json-event e payload h =
      let same = returned-injective (sym h ∙ value_serializer-returned rt wire.str_decimal e) in
      ap (λ p. spark.from_json (some p)) same
      ∙ wire.from_json-dumps _ (object_of-IsDict rt wire.str_decimal e)
      ∙ schema_columns-object_of e

  pub select-parsed :
      (now : spark.Time) (k : KafkaRecord spark.Time) (e : TransactionEvent) (payload : Text)
      → k.value ≡ some payload
      → value_serializer rt wire.str_decimal e ≡ returned payload
      → (select spark now k).parsed ≡ columns_of rt spark wire e
  unfolding select
  select-parsed now k e payload carried sent =
      ap spark.from_json carried ∙ from_json-event e payload sent

  pub required-select :
      (now : spark.Time) (k : KafkaRecord spark.Time) (e : TransactionEvent)
      → (select spark now k).parsed ≡ columns_of rt spark wire e
      → required spark (select spark now k) ≡ true
  unfolding required
  required-select now k e parsed = rw (parsed) refl

  abbrev bronze_columns : Row spark → Parsed × Option spark.Time
  bronze_columns r =
      let b = partitioned spark (mask_row spark r) in (b.row.parsed, b.event_ts_parsed)

  -- A row of the table, by its columns and the time that they are partitioned by.
  abbrev pub shown : BronzeRow spark → Parsed × Option spark.Time
  shown b = (b.row.parsed, b.event_ts_parsed)

  abbrev pub expected : TransactionEvent → Parsed × Option spark.Time
  expected e =
      (bronze_columns_of rt spark wire e, spark.to_timestamp (rt.isoformat e.event_timestamp))

  pub shown-row :
      (r : Row spark) (e : TransactionEvent)
      → r.parsed ≡ columns_of rt spark wire e
      → shown (partitioned spark (mask_row spark r)) ≡ expected e
  unfolding partitioned mask_row
  shown-row r e parsed = rw (parsed) refl

  -- Whatever events the producer encodes, a micro-batch of their messages has no dead letter, and
  -- its rows in the bronze table have, in order, the events' fields as texts, those of the device and
  -- the address hashed, and the time that Spark reads in the event's time.
  pub run-Carries :
      (now : spark.Time) {raw : List (KafkaRecord spark.Time)} {es : List TransactionEvent}
      → Carries rt spark wire raw es
      → (map shown (run spark now raw).0 ≡ map expected es) × ((run spark now raw).1 ≡ [])
  unfolding run parse_and_validate mask_pii add_partition_columns keep
  run-Carries now nothing = (refl, refl)
  run-Carries now (carries {k} {e} payload carried sent rest) =
      let parsed = select-parsed now k e payload carried sent in
      let valid = required-select now k e parsed in
      let (rows, letters) = run-Carries now rest in
      rw (valid) (rw (shown-row (select spark now k) e parsed, rows) refl, letters)

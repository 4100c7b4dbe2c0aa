-- ===== src/Flow.antt =====
-- From the producer's messages to the bronze table: what Spark reads in the JSON that the producer
-- writes. `Wire` says what `from_json` with TRANSACTION_SCHEMA does on an object of texts and nulls.
pub mod Arrives
pub mod Lake
pub mod Rows
pub mod Warehouse
pub mod Delivered
use realtime_fraud_feature_s.Prelude.{
  ◌≡◌, Option, none, some, List, [], ◌∷◌, Text, codes, Dict, get, IsDict, returned,
}
use realtime_fraud_feature_s.Python.{Decimal, Json, Runtime}
use realtime_fraud_feature_s.Schemas.{TransactionEvent}
use realtime_fraud_feature_s.Bronze.{KafkaRecord, Spark, Parsed, on_null}
use realtime_fraud_feature_s.Producer.Payload.{
  type_text, status_text, method_text, value_serializer,
}

-- The column of a name: null where the object has no such name.
abbrev pub column : {F : Type 0} → (Json F → Option Text) → Text → Dict (Json F) → Option Text
column as_string name object = elim (get name object) [ none ↦ none | some v ↦ as_string v ]

-- TRANSACTION_SCHEMA on an object: its names.
unfoldable pub schema_columns : {F : Type 0} → (Json F → Option Text) → Dict (Json F) → Parsed
schema_columns as_string o = record {
  transaction_id = column as_string (codes "transaction_id") o;
  user_id = column as_string (codes "user_id") o;
  merchant_id = column as_string (codes "merchant_id") o;
  amount = column as_string (codes "amount") o;
  currency = column as_string (codes "currency") o;
  transaction_type = column as_string (codes "transaction_type") o;
  status = column as_string (codes "status") o;
  payment_method = column as_string (codes "payment_method") o;
  event_timestamp = column as_string (codes "event_timestamp") o;
  ingestion_timestamp = column as_string (codes "ingestion_timestamp") o;
  device_id = column as_string (codes "device_id") o;
  ip_address = column as_string (codes "ip_address") o;
  city = column as_string (codes "city") o;
  country = column as_string (codes "country") o;
}

-- `str` of a Decimal, the value of a StringType column, which a JSON text gives as it is, and
-- `from_json` on what `json.dumps` writes.
pub record Wire (rt : Runtime) (spark : Spark) : Type 0 where
  pub str_decimal : Decimal → Text
  pub as_string : Json rt.Float → Option Text
  pub as_string-str : (s : Text) → as_string (Json.str s) ≡ some s
  pub as_string-null : as_string Json.null ≡ none
  pub from_json-dumps :
      (o : Dict (Json rt.Float))
      → IsDict o
      → spark.from_json (some (rt.dumps o)) ≡ schema_columns as_string o

module _ (rt : Runtime) (spark : Spark) (wire : Wire rt spark) where
  -- The columns of an event.
  abbrev pub columns_of : TransactionEvent → Parsed
  columns_of e = record {
    transaction_id = some e.transaction_id;
    user_id = some e.user_id;
    merchant_id = some e.merchant_id;
    amount = some (wire.str_decimal e.amount);
    currency = some e.currency;
    transaction_type = some (type_text e.transaction_type);
    status = some (status_text e.status);
    payment_method = some (method_text e.payment_method);
    event_timestamp = some (rt.isoformat e.event_timestamp);
    ingestion_timestamp = some (rt.isoformat e.ingestion_timestamp);
    device_id = e.device_id;
    ip_address = e.ip_address;
    city = e.city;
    country = e.country;
  }

  -- The columns of its row in the bronze table.
  abbrev pub bronze_columns_of : TransactionEvent → Parsed
  bronze_columns_of e = record (columns_of e) {
    device_id = on_null spark.sha2 e.device_id;
    ip_address = on_null spark.sha2 e.ip_address;
  }

  -- The messages of the topic are those of the events, in order.
  pub data Carries : List (KafkaRecord spark.Time) → List TransactionEvent → Type 0 where
    nothing : Carries [] []
    carries :
        {k : KafkaRecord spark.Time} {e : TransactionEvent} {ks : List (KafkaRecord spark.Time)}
        {es : List TransactionEvent} (payload : Text)
        → k.value ≡ some payload
        → value_serializer rt wire.str_decimal e ≡ returned payload
        → Carries ks es
        → Carries (k ∷ ks) (e ∷ es)

-- ===== src/Flow/Warehouse.antt =====
-- The bronze table as load_bronze_to_postgres.py reads it, and what it writes of it.

use realtime_fraud_feature_s.Prelude.{
  ℕ, ◌<◌, ◌≡◌, refl, ap, ◌∙◌, false, Option, none, some, List, [], ◌∷◌, map, Text, codes, text_eq,
  get, All, All-weaken,
}
use realtime_fraud_feature_s.Python.{Runtime, PgValue}
use realtime_fraud_feature_s.Schemas.{TransactionEvent}
use realtime_fraud_feature_s.Bronze.{KafkaRecord, Spark, Parsed, BronzeRow}
use realtime_fraud_feature_s.Bronze.Stream.{Delta, Streams, first_start, Reach}
use realtime_fraud_feature_s.BronzeLoad.{raw_json, drop_raw, Frame, text_value, text_rows}
use realtime_fraud_feature_s.BronzeLoad.Columns.{named, named_row}
use realtime_fraud_feature_s.Flow.{Wire, bronze_columns_of}
use realtime_fraud_feature_s.Flow.Lake.{IsSent}
use realtime_fraud_feature_s.Flow.Rows.{IsEvent, Reach-IsEvent}

-- A cell of the table.
pub data Cell (Time : Type 0) : Type 0 where
  string : Option Text → Cell Time
  timestamp : Option Time → Cell Time
  date : Option Text → Cell Time
  integer : Option ℕ → Cell Time

-- The columns that a micro-batch of `run` has, in the order of the frame, by name and cell.
abbrev table_columns : List Text
table_columns =
    codes "transaction_id"
    ∷ codes "user_id"
    ∷ codes "merchant_id"
    ∷ codes "amount"
    ∷ codes "currency"
    ∷ codes "transaction_type"
    ∷ codes "status"
    ∷ codes "payment_method"
    ∷ codes "event_timestamp"
    ∷ codes "ingestion_timestamp"
    ∷ codes "device_id"
    ∷ codes "ip_address"
    ∷ codes "city"
    ∷ codes "country"
    ∷ codes "_kafka_topic"
    ∷ codes "_kafka_partition"
    ∷ codes "_kafka_offset"
    ∷ codes "_kafka_timestamp"
    ∷ codes "_processing_timestamp"
    ∷ codes "_raw_json"
    ∷ codes "event_ts_parsed"
    ∷ codes "event_date"
    ∷ codes "event_hour"
    ∷ []

-- The columns of an event by their names.
abbrev pub event_columns : List (Text × (Parsed → Option Text))
event_columns =
    (codes "transaction_id", λ (c : Parsed). c.transaction_id)
    ∷ (codes "user_id", λ (c : Parsed). c.user_id)
    ∷ (codes "merchant_id", λ (c : Parsed). c.merchant_id)
    ∷ (codes "amount", λ (c : Parsed). c.amount)
    ∷ (codes "currency", λ (c : Parsed). c.currency)
    ∷ (codes "transaction_type", λ (c : Parsed). c.transaction_type)
    ∷ (codes "status", λ (c : Parsed). c.status)
    ∷ (codes "payment_method", λ (c : Parsed). c.payment_method)
    ∷ (codes "event_timestamp", λ (c : Parsed). c.event_timestamp)
    ∷ (codes "ingestion_timestamp", λ (c : Parsed). c.ingestion_timestamp)
    ∷ (codes "device_id", λ (c : Parsed). c.device_id)
    ∷ (codes "ip_address", λ (c : Parsed). c.ip_address)
    ∷ (codes "city", λ (c : Parsed). c.city)
    ∷ (codes "country", λ (c : Parsed). c.country)
    ∷ []

module _ (spark : Spark) where
  unfoldable pub cells : BronzeRow spark → List (Cell spark.Time)
  cells b =
      string b.row.parsed.transaction_id
      ∷ string b.row.parsed.user_id
      ∷ string b.row.parsed.merchant_id
      ∷ string b.row.parsed.amount
      ∷ string b.row.parsed.currency
      ∷ string b.row.parsed.transaction_type
      ∷ string b.row.parsed.status
      ∷ string b.row.parsed.payment_method
      ∷ string b.row.parsed.event_timestamp
      ∷ string b.row.parsed.ingestion_timestamp
      ∷ string b.row.parsed.device_id
      ∷ string b.row.parsed.ip_address
      ∷ string b.row.parsed.city
      ∷ string b.row.parsed.country
      ∷ string (some b.row.kafka_topic)
      ∷ integer (some b.row.kafka_partition)
      ∷ integer (some b.row.kafka_offset)
      ∷ timestamp (some b.row.kafka_timestamp)
      ∷ timestamp (some b.row.processing_timestamp)
      ∷ string b.row.raw_json
      ∷ timestamp b.event_ts_parsed
      ∷ date b.event_date
      ∷ integer b.event_hour
      ∷ []

  -- spark.read.format("delta").load(...)
  unfoldable pub frame_of : List (BronzeRow spark) → Frame (Cell spark.Time)
  unfolding cells
  frame_of rows = record { columns = table_columns; rows = map cells rows }

  -- A column of the event's names is there under its name, and is not the payload's.
  IsNamed : Text × (Parsed → Option Text) → Type 0
  IsNamed (k, field) =
      ((b : BronzeRow spark)
        → get k (named table_columns (cells b)) ≡ some (string (field b.row.parsed)))
      × (text_eq raw_json k ≡ false)

  event_columns-IsNamed : All IsNamed event_columns
  unfolding get text_eq cells IsNamed
  event_columns-IsNamed = (
    (λ b. refl, refl),
    (
      (λ b. refl, refl),
      (
        (λ b. refl, refl),
        (
          (λ b. refl, refl),
          (
            (λ b. refl, refl),
            (
              (λ b. refl, refl),
              (
                (λ b. refl, refl),
                (
                  (λ b. refl, refl),
                  (
                    (λ b. refl, refl),
                    (
                      (λ b. refl, refl),
                      (
                        (λ b. refl, refl),
                        ((λ b. refl, refl), ((λ b. refl, refl), ((λ b. refl, refl), tt))),
                      ),
                    ),
                  ),
                ),
              ),
            ),
          ),
        ),
      ),
    ),
  )

  -- A row of bronze.transactions has the columns of an event under their names, and no payload.
  module _ (rt : Runtime) (wire : Wire rt spark) where
    pub record ShowsEvent (row : List PgValue) : Type 0 where
      pub event : TransactionEvent
      pub columns :
          All
            (λ (c : Text × (Parsed → Option Text)).
              get c.0 (named (drop_raw table_columns table_columns) row)
              ≡ some (text_value (c.1 (bronze_columns_of rt spark wire event))))
            event_columns
      pub no_payload : get raw_json (named (drop_raw table_columns table_columns) row) ≡ none

    module _ (to_string : Cell spark.Time → Option Text)
        (same_string : (o : Option Text) → to_string (string o) ≡ o) where
      loaded_row : BronzeRow spark → List PgValue
      loaded_row b = map (λ x. text_value (to_string x)) (drop_raw table_columns (cells b))

      column-loaded_row :
          (b : BronzeRow spark) (e : TransactionEvent)
          → b.row.parsed ≡ bronze_columns_of rt spark wire e
          → (c : Text × (Parsed → Option Text)) → IsNamed c
          → get c.0 (named (drop_raw table_columns table_columns) (loaded_row b))
            ≡ some (text_value (c.1 (bronze_columns_of rt spark wire e)))
      unfolding IsNamed loaded_row
      column-loaded_row b e same (k, field) (there, other) =
          named_row to_string table_columns k (cells b)
          ∙ rw (other, there b, same_string, same) refl

      loaded_row-ShowsEvent :
          (b : BronzeRow spark) → IsEvent rt spark wire b → ShowsEvent (loaded_row b)
      unfolding loaded_row text_eq
      loaded_row-ShowsEvent b (e, shown_same) = record {
        event = e;
        columns =
            All-weaken IsNamed _ event_columns (column-loaded_row b e (ap (λ p. p.0) shown_same))
              event_columns-IsNamed;
        no_payload = named_row to_string table_columns raw_json (cells b);
      }

      text_rows-ShowsEvent :
          (rows : List (BronzeRow spark))
          → All (IsEvent rt spark wire) rows
          → All ShowsEvent (text_rows to_string (frame_of rows))
      unfolding text_rows frame_of loaded_row
      text_rows-ShowsEvent [] h = tt
      text_rows-ShowsEvent (b ∷ rows) (h, hs) =
          (loaded_row-ShowsEvent b h, text_rows-ShowsEvent rows hs)

      -- Let all messages of the topic be those of events that the producer has encoded. Whatever
      -- restarts the ingestion has been through, each row that load_bronze_to_postgres.py writes of
      -- the bronze table has under their names the columns of an event, as texts or null, its device
      -- and address hashed, and it has no payload.
      pub text_rows-sent :
          (delta : Delta (BronzeRow spark)) (n : ℕ) (log : ℕ → List (KafkaRecord spark.Time))
          (s : Streams spark delta)
          → Reach spark delta n (first_start spark delta log) s
          → ((p : ℕ) → p < n → All (IsSent rt spark wire) (s.log p))
          → All ShowsEvent (text_rows to_string (frame_of (delta.rows s.bronze.sink)))
      text_rows-sent delta n log s path sent =
          text_rows-ShowsEvent (delta.rows s.bronze.sink)
            (Reach-IsEvent rt spark wire delta n log path sent)

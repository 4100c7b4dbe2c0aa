-- ===== src/Bronze.antt =====
-- streaming/spark/src/bronze_ingest.py: the transformations of a micro-batch, a data frame being
-- the list of its rows. Spark's column functions are the parameter `Spark`.
pub mod Split
pub mod Masking
pub mod Stream
pub mod Script
use realtime_fraud_feature_s.Prelude.{
  ℕ, ◌≡◌, Bool, true, false, not, ◌&&◌, Option, none, some, List, [], ◌∷◌, map, Text, if◌then◌else◌,
}

-- A message of the topic; `value` is null on a tombstone.
pub record KafkaRecord (Time : Type 0) : Type 0 where
  pub value : Option Text
  pub topic : Text
  pub partition : ℕ
  pub offset : ℕ
  pub timestamp : Time

-- TRANSACTION_SCHEMA: every column is a text that may be null after `from_json`
pub record Parsed : Type 0 where
  pub transaction_id : Option Text
  pub user_id : Option Text
  pub merchant_id : Option Text
  pub amount : Option Text
  pub currency : Option Text
  pub transaction_type : Option Text
  pub status : Option Text
  pub payment_method : Option Text
  pub event_timestamp : Option Text
  pub ingestion_timestamp : Option Text
  pub device_id : Option Text
  pub ip_address : Option Text
  pub city : Option Text
  pub country : Option Text

-- `from_json` with the schema, `sha2(_, 256)`, the cast to a timestamp, and a timestamp's date and
-- hour. Each gives null on null.
pub record Spark : Type 1 where
  pub Time : Type 0
  pub from_json : Option Text → Parsed
  pub sha2 : Text → Text
  pub to_timestamp : Text → Option Time
  pub to_date : Time → Text
  pub hour : Time → ℕ

abbrev pub on_null {ℓ κ} : {A : Type ℓ} {B : Type κ} → (A → B) → Option A → Option B
on_null f none = none
on_null f (some a) = some (f a)

abbrev pub is_not_null {ℓ} : {A : Type ℓ} → Option A → Bool
is_not_null none = false
is_not_null (some a) = true

-- df.filter(test)
unfoldable pub keep {ℓ} : {A : Type ℓ} → (A → Bool) → List A → List A
keep test [] = []
keep test (x ∷ xs) = if test x then x ∷ keep test xs else keep test xs

module _ (spark : Spark) where
  open spark use {Time, from_json, sha2, to_timestamp, to_date, hour}

  -- The columns that `parse_and_validate` selects.
  pub record Row : Type 0 where
    pub parsed : Parsed
    pub kafka_topic : Text
    pub kafka_partition : ℕ
    pub kafka_offset : ℕ
    pub kafka_timestamp : Time
    pub processing_timestamp : Time
    pub raw_json : Option Text

  unfoldable pub select : Time → KafkaRecord Time → Row
  select now k = record {
    parsed = from_json k.value;
    kafka_topic = k.topic;
    kafka_partition = k.partition;
    kafka_offset = k.offset;
    kafka_timestamp = k.timestamp;
    processing_timestamp = now;
    raw_json = k.value;
  }

  unfoldable pub required : Row → Bool
  required r =
      is_not_null r.parsed.transaction_id
      && is_not_null r.parsed.user_id
      && is_not_null r.parsed.amount

  unfoldable pub parse_and_validate : Time → List (KafkaRecord Time) → List Row × List Row
  unfolding select required keep
  parse_and_validate now raw =
      let parsed = map (select now) raw in
      (keep required parsed, keep (λ r. not (required r)) parsed)

  unfoldable pub mask_row : Row → Row
  mask_row r = record r {
    parsed = record r.parsed {
      device_id = on_null sha2 r.parsed.device_id;
      ip_address = on_null sha2 r.parsed.ip_address;
    };
  }

  unfoldable pub mask_pii : List Row → List Row
  mask_pii = map mask_row

  -- A row of the bronze table, with its partition columns.
  pub record BronzeRow : Type 0 where
    pub row : Row
    pub event_ts_parsed : Option Time
    pub event_date : Option Text
    pub event_hour : Option ℕ

  abbrev cast : Option Text → Option Time
  cast none = none
  cast (some s) = to_timestamp s

  unfoldable pub partitioned : Row → BronzeRow
  partitioned r =
      let t = cast r.parsed.event_timestamp in
      record {
        row = r;
        event_ts_parsed = t;
        event_date = on_null to_date t;
        event_hour = on_null hour t;
      }

  unfoldable pub add_partition_columns : List Row → List BronzeRow
  add_partition_columns = map partitioned

  -- What `write_dead_letters` sends: the offset, which it casts to a text, and the payload.
  pub record DeadLetter : Type 0 where
    pub key : ℕ
    pub value : Option Text

  unfoldable pub dead_letter : Row → DeadLetter
  dead_letter r = record { key = r.kafka_offset; value = r.raw_json }

  -- One micro-batch of `run`: what is appended to the table, and what is sent to the topic
  -- transactions.dead_letter.
  unfoldable pub run : Time → List (KafkaRecord Time) → List BronzeRow × List DeadLetter
  unfolding parse_and_validate mask_pii add_partition_columns
  run now raw =
      let (valid, invalid) = parse_and_validate now raw in
      (add_partition_columns (mask_pii valid), map dead_letter invalid)

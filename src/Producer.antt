-- ===== src/Producer.antt =====
-- ingestion/transaction_generator/src/kafka_producer.py: the producer's counters and what becomes
-- of the messages. kafka-python accepts or refuses a send, and calls one of the two callbacks of
-- each accepted message later, at any time.
pub mod Counts
pub mod Delivery
pub mod Payload
use realtime_fraud_feature_s.Prelude.{
  ℕ, zero, suc, ◌+◌, ◌≡◌, Bool, true, false, Option, none, some, List, [], ◌∷◌, Text, Outcome,
  returned, raised, ℤ, if◌then◌else◌,
}
use realtime_fraud_feature_s.Schemas.{TransactionEvent}
use realtime_fraud_feature_s.Python.{Decimal, DateTime, Json}

-- The values that `json.dumps` hands to `_EventEncoder.default`.
pub data Unencodable (Other : Type 0) : Type 0 where
  decimal : Decimal → Unencodable Other
  datetime : DateTime → Unencodable Other
  uuid : Text → Unencodable Other
  other : Other → Unencodable Other

pub data EncodeError : Type 0 where
  type_error : EncodeError

-- `_EventEncoder.default`; `str_decimal` and `isoformat` are the library's.
unfoldable pub default :
    {Other : Type 0}
    → (Decimal → Text)
    → (DateTime → Text)
    → Unencodable Other
    → Outcome EncodeError Text
default str_decimal isoformat (decimal d) = returned (str_decimal d)
default str_decimal isoformat (datetime t) = returned (isoformat t)
default str_decimal isoformat (uuid u) = returned u
default str_decimal isoformat (other x) = raised type_error

pub record TransactionKafkaProducer : Type 0 where
  pub topic : Text
  pub sent_count : ℕ
  pub error_count : ℕ

-- What `send` hands to the client.
pub record Message : Type 0 where
  pub topic : Text
  pub key : Text
  pub value : TransactionEvent
  pub timestamp_ms : ℤ

-- `millis t` is `int(t.timestamp() * 1000)`, of floats.
unfoldable pub message_of : (DateTime → ℤ) → TransactionKafkaProducer → TransactionEvent → Message
message_of millis p event = record {
  topic = p.topic;
  key = event.user_id;
  value = event;
  timestamp_ms = millis event.event_timestamp;
}

unfoldable pub init : Text → TransactionKafkaProducer
init topic = record { topic = topic; sent_count = 0; error_count = 0 }

-- `send`: the client accepts the message, or raises a `KafkaError`
unfoldable pub send : Bool → TransactionKafkaProducer → TransactionKafkaProducer
send accepted p =
    if accepted
    then record p { sent_count = p.sent_count + 1 }
    else record p { error_count = p.error_count + 1 }

unfoldable pub on_success : TransactionKafkaProducer → TransactionKafkaProducer
on_success p = p

unfoldable pub on_error : TransactionKafkaProducer → TransactionKafkaProducer
on_error p = record p { error_count = p.error_count + 1 }

pub record Stats : Type 0 where
  pub sent : ℕ
  pub errors : ℕ
  pub topic : Text

unfoldable pub stats : TransactionKafkaProducer → Stats
stats p = record { sent = p.sent_count; errors = p.error_count; topic = p.topic }

-- The producer and its messages: those under way, and how many came to each end. A `send` with its
-- count is one step.
pub record World : Type 0 where
  pub producer : TransactionKafkaProducer
  pub in_flight : ℕ
  pub delivered : ℕ
  pub failed : ℕ
  pub refused : ℕ

abbrev pub start : Text → World
start topic = record {
  producer = init topic;
  in_flight = 0;
  delivered = 0;
  failed = 0;
  refused = 0;
}

pub data Step (w : World) : World → Type 0 where
  accept : Step w (record w { producer = send true w.producer; in_flight = w.in_flight + 1 })
  refuse : Step w (record w { producer = send false w.producer; refused = w.refused + 1 })
  deliver :
      {n : ℕ}
      → w.in_flight ≡ suc n
      → Step w (record w {
        producer = on_success w.producer;
        in_flight = n;
        delivered = w.delivered + 1;
      })
  fail :
      {n : ℕ}
      → w.in_flight ≡ suc n
      → Step w (record w { producer = on_error w.producer; in_flight = n; failed = w.failed + 1 })

pub data Reach (w : World) : World → Type 0 where
  here : Reach w w
  next : {v u : World} → Reach w v → Step v u → Reach w u

-- ===== src/Producer/Delivery.antt =====
-- The way of the messages that `send` hands to kafka-python, with the options of `__init__`, as a
-- step relation of what the client and the brokers may do, which reads its options. The client
-- has at most `max_in_flight_requests_per_connection` batches of a partition under way, and sends
-- a batch `retries` times more at most. With `acks="all"` a batch that leaves is in the log or has
-- failed; otherwise it may also be lost with no word of it. Each batch that is under way may be
-- answered, lost or sent again before those in front of it. A message is told by its number among
-- the accepted ones.
pub mod Batches
pub mod Fits
pub mod Order
use realtime_fraud_feature_s.Prelude.{
  ℕ, suc, ◌+◌, ◌≡◌, ◌<◌, Bool, false, Option, none, some, List, [], ◌∷◌, ◌++◌, Text, codes, ◌==◌,
  if◌then◌else◌, ℤ, length, text_eq,
}
use realtime_fraud_feature_s.Python.{DateTime}
use realtime_fraud_feature_s.Schemas.{TransactionEvent}
use realtime_fraud_feature_s.Producer.{TransactionKafkaProducer, Message, message_of}

-- The options that `TransactionKafkaProducer` gives to `KafkaProducer`.
pub record KafkaOptions : Type 0 where
  pub bootstrap_servers : Text
  pub acks : Text
  pub retries : ℕ
  pub max_in_flight_requests_per_connection : ℕ
  pub linger_ms : ℕ
  pub batch_size : ℕ

abbrev pub kafka_options : Text → KafkaOptions
kafka_options bootstrap_servers = record {
  bootstrap_servers = bootstrap_servers;
  acks = codes "all";
  retries = 3;
  max_in_flight_requests_per_connection = 1;
  linger_ms = 10;
  batch_size = 32768;
}

-- `k.encode("utf-8") if k else None`, on the text
unfoldable pub key_serializer : Text → Option Text
key_serializer [] = none
key_serializer (c ∷ cs) = some (c ∷ cs)

-- f[n] = a
abbrev pub at {ℓ} : {A : Type ℓ} → ℕ → A → (ℕ → A) → ℕ → A
at n a f m = if m == n then a else f m

-- A batch of a partition that is under way, and how often it was sent before.
pub record Sent : Type 0 where
  pub batch : List ℕ
  pub attempts : ℕ

-- The messages of the batches that are under way.
abbrev pub flat : List Sent → List ℕ
flat [] = []
flat (s ∷ sent) = s.batch ++ flat sent

-- `message` and `partition_of` tell of the accepted messages, `total` in number. Of each partition
-- there are its log, the batches that are under way, and the messages that wait, the oldest first.
-- `failed` are the messages whose errback was called.
pub record Traffic : Type 0 where
  pub total : ℕ
  pub message : ℕ → Message
  pub partition_of : ℕ → ℕ
  pub log : ℕ → List ℕ
  pub in_flight : ℕ → List Sent
  pub waiting : ℕ → List ℕ
  pub failed : List ℕ

-- Before the first message; those of `message` are none of the topic's.
abbrev pub quiet : (ℕ → Message) → Traffic
quiet message = record {
  total = 0;
  message = message;
  partition_of = λ n. 0;
  log = λ p. [];
  in_flight = λ p. [];
  waiting = λ p. [];
  failed = [];
}

-- `partition` is the client's partitioner. A message with no key goes to any partition.
module _ (options : KafkaOptions) (partition : Text → ℕ) (millis : DateTime → ℤ)
    (producer : TransactionKafkaProducer) where
  pub data Step (t : Traffic) : Traffic → Type 0 where
    accepts :
        (event : TransactionEvent) (p : ℕ)
        → ((k : Text)
            → key_serializer (message_of millis producer event).key ≡ some k
            → p ≡ partition k)
        → Step t (record t {
          total = suc t.total;
          message = at t.total (message_of millis producer event) t.message;
          partition_of = at t.total p t.partition_of;
          waiting = at p (t.waiting p ++ t.total ∷ []) t.waiting;
        })
    drains :
        (p : ℕ) (batch rest : List ℕ)
        → length (t.in_flight p) < options.max_in_flight_requests_per_connection
        → t.waiting p ≡ batch ++ rest
        → Step t (record t {
          in_flight =
              at p (t.in_flight p ++ record { batch = batch; attempts = 0 } ∷ []) t.in_flight;
          waiting = at p rest t.waiting;
        })
    delivers :
        (p : ℕ) (before : List Sent) (s : Sent) (after : List Sent)
        → t.in_flight p ≡ before ++ (s ∷ after)
        → Step t (record t {
          log = at p (t.log p ++ s.batch) t.log;
          in_flight = at p (before ++ after) t.in_flight;
        })
    acknowledgement_lost :
        (p : ℕ) (before : List Sent) (s : Sent) (after : List Sent)
        → t.in_flight p ≡ before ++ (s ∷ after)
        → s.attempts < options.retries
        → Step t (record t {
          log = at p (t.log p ++ s.batch) t.log;
          in_flight = at p (before ++ (record s { attempts = s.attempts + 1 } ∷ after)) t.in_flight;
        })
    request_lost :
        (p : ℕ) (before : List Sent) (s : Sent) (after : List Sent)
        → t.in_flight p ≡ before ++ (s ∷ after)
        → s.attempts < options.retries
        → Step t (record t {
          in_flight = at p (before ++ (record s { attempts = s.attempts + 1 } ∷ after)) t.in_flight;
        })
    fails :
        (p : ℕ) (before : List Sent) (s : Sent) (after : List Sent) (appended : Bool)
        → t.in_flight p ≡ before ++ (s ∷ after)
        → Step t (record t {
          log = at p (t.log p ++ (if appended then s.batch else [])) t.log;
          in_flight = at p (before ++ after) t.in_flight;
          failed = t.failed ++ s.batch;
        })
    disappears :
        (p : ℕ) (before : List Sent) (s : Sent) (after : List Sent)
        → text_eq options.acks (codes "all") ≡ false
        → t.in_flight p ≡ before ++ (s ∷ after)
        → Step t (record t { in_flight = at p (before ++ after) t.in_flight })

  pub data Reach (t : Traffic) : Traffic → Type 0 where
    here : Reach t t
    next : {u v : Traffic} → Reach t u → Step u v → Reach t v

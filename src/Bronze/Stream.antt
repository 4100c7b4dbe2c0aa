-- ===== src/Bronze/Stream.antt =====
-- The two streaming queries that `run` starts: the source and the two writers. What Spark's engine
-- may do with a query is a step relation: it plans a batch in the checkpoint, adds the batch to the
-- sink and commits it, and a restart leaves it with its checkpoint alone. The Delta table is the
-- parameter `Delta`. The topic keeps its messages until both queries have read them.
pub mod Offsets
pub mod Sides
pub mod Table
pub mod Letters
use mathlib.Core.List.{Perm, Subset}
use realtime_fraud_feature_s.Prelude.{
  ℕ, zero, suc, ◌+◌, ◌≤◌, ◌<◌, ◌≡◌, Bool, true, false, Option, none, some, List, [], ◌∷◌, ◌++◌,
  length,
}
use realtime_fraud_feature_s.Python.{take}
use realtime_fraud_feature_s.Bronze.{KafkaRecord, Spark, BronzeRow, DeadLetter, run}

-- The next offset of every partition.
abbrev pub Offsets : Type 0
Offsets = ℕ → ℕ

-- The option startingOffsets of `build_kafka_source`: "earliest".
abbrev pub starting_offsets : Offsets
starting_offsets p = 0

-- The option maxOffsetsPerTrigger.
abbrev pub max_offsets_per_trigger : ℕ
max_offsets_per_trigger = 10000

abbrev pub drop {ℓ} : {A : Type ℓ} → ℕ → List A → List A
drop zero xs = xs
drop (suc n) [] = []
drop (suc n) (x ∷ xs) = drop n xs

module _ {A : Type 0} where
  -- The messages of the first n partitions below some offsets.
  abbrev pub below : ℕ → (ℕ → List A) → Offsets → List A
  below zero log to = []
  below (suc n) log to = below n log to ++ take (to n) (log n)

  -- The messages of the first n partitions from some offsets on, below others.
  abbrev pub between : ℕ → (ℕ → List A) → Offsets → Offsets → List A
  between zero log from to = []
  between (suc n) log from to = between n log from to ++ drop (from n) (take (to n) (log n))

  -- A batch after `from`: it ends where there are messages, and has 10,000 at most.
  pub record IsNext (n : ℕ) (log : ℕ → List A) (from to : Offsets) : Type 0 where
    pub forward : (p : ℕ) → p < n → from p ≤ to p
    pub arrived : (p : ℕ) → p < n → to p ≤ length (log p)
    pub capped : length (between n log from to) ≤ max_offsets_per_trigger

-- What a sink's state is, what a completed addition of a batch does to it, by the batch's number,
-- and what an interrupted one may do.
pub record Sink (Out : Type 0) : Type 1 where
  pub State : Type 0
  pub Adds : ℕ → List Out → State → State → Type 0
  pub Interrupted : List Out → State → State → Type 0

-- A Delta table as the sink of a query: it records the number of the next batch in the transaction
-- that appends one, and skips a batch that it has.
pub record Delta (Out : Type 0) : Type 1 where
  pub Table : Type 0
  pub empty : Table
  pub rows : Table → List Out
  pub next_batch : Table → ℕ
  pub append : ℕ → List Out → Table → Table
  pub rows-empty : rows empty ≡ []
  pub next_batch-empty : next_batch empty ≡ 0
  pub rows-append : (t : Table) (xs : List Out) → rows (append (next_batch t) xs t) ≡ rows t ++ xs
  pub next_batch-append :
      (t : Table) (xs : List Out) → next_batch (append (next_batch t) xs t) ≡ next_batch t + 1
  pub append_again : (n : ℕ) (xs : List Out) (t : Table) → n < next_batch t → append n xs t ≡ t

-- The append is a transaction.
abbrev pub delta_sink : {Out : Type 0} → Delta Out → Sink Out
delta_sink delta = record {
  State = delta.Table;
  Adds = λ n xs t u. u ≡ delta.append n xs t;
  Interrupted = λ xs t u. u ≡ t;
}

-- A Kafka topic: the tasks of a batch send its messages in any order, and an interrupted batch may
-- have sent any of them, even several times.
abbrev pub kafka_sink : {Out : Type 0} → Sink Out
kafka_sink {Out} = record {
  State = List Out;
  Adds = λ n xs t u. (sent : List Out) × Perm sent xs × (u ≡ t ++ sent);
  Interrupted = λ xs t u. (sent : List Out) × Subset sent xs × (u ≡ t ++ sent);
}

-- A writer's sink, and the rows that a batch brings there.
pub record Writer (In Time : Type 0) : Type 1 where
  pub Out : Type 0
  pub sink : Sink Out
  pub batch : Time → List In → List Out

-- A planned batch: its end, and its `current_timestamp()`.
pub record Plan (Time : Type 0) : Type 0 where
  pub to : Offsets
  pub now : Time

module _ {In Time : Type 0} where
  -- A query's checkpoint, whether the running process has added the planned batch, and the sink.
  pub record Query (w : Writer In Time) : Type 0 where
    pub batch_id : ℕ
    pub committed : Offsets
    pub planned : Option (Plan Time)
    pub added : Bool
    pub sink : w.sink.State

  -- A new checkpoint.
  abbrev pub fresh : (w : Writer In Time) → w.sink.State → Query w
  fresh w s = record {
    batch_id = 0;
    committed = starting_offsets;
    planned = none;
    added = false;
    sink = s;
  }

  pub data QueryStep (n : ℕ) (log : ℕ → List In) (w : Writer In Time) (q : Query w)
      : Query w → Type 0 where
    plans :
        (p : Plan Time)
        → q.planned ≡ none
        → IsNext n log q.committed p.to
        → QueryStep n log w q (record q { planned = some p; added = false })
    adds :
        (p : Plan Time) (s : w.sink.State)
        → q.planned ≡ some p
        → q.added ≡ false
        → w.sink.Adds q.batch_id (w.batch p.now (between n log q.committed p.to)) q.sink s
        → QueryStep n log w q (record q { added = true; sink = s })
    commits :
        (p : Plan Time)
        → q.planned ≡ some p
        → q.added ≡ true
        → QueryStep n log w q (record {
          batch_id = q.batch_id + 1;
          committed = p.to;
          planned = none;
          added = false;
          sink = q.sink;
        })
    breaks_off :
        (p : Plan Time) (s : w.sink.State)
        → q.planned ≡ some p
        → q.added ≡ false
        → w.sink.Interrupted (w.batch p.now (between n log q.committed p.to)) q.sink s
        → QueryStep n log w q (record q { sink = s })
    restarts : QueryStep n log w q (record q { added = false })

module _ (spark : Spark) where
  open spark use {Time}

  abbrev pub write_bronze_to_minio : Delta (BronzeRow spark) → Writer (KafkaRecord Time) Time
  write_bronze_to_minio delta = record {
    Out = BronzeRow spark;
    sink = delta_sink delta;
    batch = λ now raw. (run spark now raw).0;
  }

  abbrev pub write_dead_letters : Writer (KafkaRecord Time) Time
  write_dead_letters = record {
    Out = DeadLetter spark;
    sink = kafka_sink;
    batch = λ now raw. (run spark now raw).1;
  }

  module _ (delta : Delta (BronzeRow spark)) where
    -- The topic's partitions, and the two queries, each with a checkpoint of its own.
    pub record Streams : Type 0 where
      pub log : ℕ → List (KafkaRecord Time)
      pub bronze : Query (write_bronze_to_minio delta)
      pub letters : Query write_dead_letters

    abbrev pub first_start : (ℕ → List (KafkaRecord Time)) → Streams
    first_start log = record {
      log = log;
      bronze = fresh (write_bronze_to_minio delta) delta.empty;
      letters = fresh write_dead_letters [];
    }

    pub data Step (n : ℕ) (s : Streams) : Streams → Type 0 where
      arrives :
          (more : ℕ → List (KafkaRecord Time))
          → Step n s (record s { log = λ p. s.log p ++ more p })
      bronze_step :
          {q : Query (write_bronze_to_minio delta)}
          → QueryStep n s.log (write_bronze_to_minio delta) s.bronze q
          → Step n s (record s { bronze = q })
      letters_step :
          {q : Query write_dead_letters}
          → QueryStep n s.log write_dead_letters s.letters q
          → Step n s (record s { letters = q })

    pub data Reach (n : ℕ) (s : Streams) : Streams → Type 0 where
      here : Reach n s s
      next : {t u : Streams} → Reach n s t → Step n t u → Reach n s u

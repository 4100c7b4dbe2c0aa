-- ===== src/Flow/Delivered.antt =====
-- From `send` to the bronze table: the client and the brokers of Kafka, then the ingestion.
use mathlib.Core.List.{
  Mem, mem-map_of_mem, mem-append_left, mem-append_right, mem-cons_self, mem-cons_of_mem,
}
use mathlib.Core.List.{Perm}
use mathlib.Core.List.Perm
use realtime_fraud_feature_s.Prelude.{
  ℕ, zero, suc, ◌<◌, ◌≡◌, ◌⊎◌, inl, inr, refl, ap, ◌∙◌, none, some, List, [], ◌∷◌, ◌++◌, map, Text,
  length, returned, All, arith, ℤ,
}
use realtime_fraud_feature_s.Python.{DateTime, Runtime, take}
use realtime_fraud_feature_s.Schemas.{TransactionEvent}
use realtime_fraud_feature_s.Producer.{TransactionKafkaProducer, Message}
use realtime_fraud_feature_s.Producer.Payload.{value_serializer}
use realtime_fraud_feature_s.Producer.Delivery.{kafka_options, flat, Traffic, quiet}
use realtime_fraud_feature_s.Producer.Delivery
use realtime_fraud_feature_s.Producer.Delivery.Batches.{In}
use realtime_fraud_feature_s.Producer.Delivery.Order.{per_user_order}
use realtime_fraud_feature_s.Bronze.{KafkaRecord, Spark, BronzeRow}
use realtime_fraud_feature_s.Bronze.Split.{origin, origin_of}
use realtime_fraud_feature_s.Bronze.Stream
use realtime_fraud_feature_s.Bronze.Stream.{Offsets, below, Delta, Plan, Streams, first_start}
use realtime_fraud_feature_s.Flow.{Wire, Carries, nothing, carries}
use realtime_fraud_feature_s.Flow.Lake.{IsSent, Reach-sent}

take_all {ℓ} : {A : Type ℓ} (xs : List A) → take (length xs) xs ≡ xs
take_all [] = refl
take_all (x ∷ xs) = ap (◌∷◌ x) (take_all xs)

below-Mem :
    {A : Type 0} (a : A) (n p : ℕ) (log : ℕ → List A) (to : Offsets)
    → p < n
    → Mem a (take (to p) (log p))
    → Mem a (below n log to)
below-Mem a zero p log to lt m = absurd (omega arith)
below-Mem a (suc n) p log to lt m = elim (last_or_before p n lt) [
  | inl same ↦ mem-append_right (below n log to) (rw (same) at m)
  | inr less ↦ mem-append_left (take (to n) (log n)) (below-Mem a n p log to less m)
]
  where
    last_or_before : (p n : ℕ) → p < suc n → (p ≡ n) ⊎ (p < n)
    last_or_before p n lt = ground arith

module _ (rt : Runtime) (spark : Spark) (wire : Wire rt spark) where
  Carries-IsSent :
      {ks : List (KafkaRecord spark.Time)} {es : List TransactionEvent}
      → Carries rt spark wire ks es
      → All (IsSent rt spark wire) ks
  Carries-IsSent nothing = tt
  Carries-IsSent (carries {e = e} payload carried sent rest) =
      ((e, payload, carried, sent), Carries-IsSent rest)

  -- A message of an event in a list.
  record HasMessage (e : TransactionEvent) (ks : List (KafkaRecord spark.Time)) : Type 0 where
    found : KafkaRecord spark.Time
    member : Mem found ks
    payload : Text
    carried : found.value ≡ some payload
    encoded : value_serializer rt wire.str_decimal e ≡ returned payload

  HasMessage-cons :
      (e : TransactionEvent) (k : KafkaRecord spark.Time) (ks : List (KafkaRecord spark.Time))
      → HasMessage e ks
      → HasMessage e (k ∷ ks)
  HasMessage-cons e k ks h = record {
    found = h.found;
    member = mem-cons_of_mem k h.member;
    payload = h.payload;
    carried = h.carried;
    encoded = h.encoded;
  }

  Carries-HasMessage :
      (event_of : ℕ → TransactionEvent) (i : ℕ) (ks : List (KafkaRecord spark.Time)) (ns : List ℕ)
      → Carries rt spark wire ks (map event_of ns)
      → In i ns
      → HasMessage (event_of i) ks
  Carries-HasMessage event_of i ks [] c h = absurd h
  Carries-HasMessage event_of i [] (n ∷ ns) c h = elim c [ ]
  Carries-HasMessage event_of i (k ∷ ks) (n ∷ ns) (carries payload carried sent rest) (inl same) =
      record {
        found = k;
        member = mem-cons_self;
        payload = payload;
        carried = carried;
        encoded = rw (same) sent;
      }
  Carries-HasMessage event_of i (k ∷ ks) (n ∷ ns) (carries payload carried sent rest) (inr later) =
      HasMessage-cons (event_of i) k ks (Carries-HasMessage event_of i ks ns rest later)

  -- A row of the table has the payload of the event.
  pub record HasRow (delta : Delta (BronzeRow spark)) (e : TransactionEvent) (table : delta.Table)
      : Type 0 where
    pub payload : Text
    pub encoded : value_serializer rt wire.str_decimal e ≡ returned payload
    pub offset : ℕ
    pub row :
        Mem
          (record { key = offset; value = some payload })
          (map (origin_of spark) (delta.rows table))

  HasRow-at_end :
      (delta : Delta (BronzeRow spark)) (n p : ℕ) (s : Streams spark delta) (to : Offsets)
      (e : TransactionEvent)
      → p < n
      → to p ≡ length (s.log p)
      → Perm
          (map (origin_of spark) (delta.rows s.bronze.sink))
          (map (origin spark) (below n s.log to))
      → HasMessage e (s.log p)
      → HasRow delta e s.bronze.sink
  HasRow-at_end delta n p s to e lt at_end rows h =
      let read : Mem h.found (take (to p) (s.log p)) = rw (at_end, take_all (s.log p)) h.member in
      let listed = mem-map_of_mem (origin spark) (below-Mem h.found n p s.log to lt read) in
      record {
        payload = h.payload;
        encoded = h.encoded;
        offset = h.found.offset;
        row = Perm.subset (Perm.symm rows) _ (rw (← h.carried) listed);
      }

  -- Let the n partitions of the topic hold what the producer's client has brought there, whatever
  -- was lost, sent again or failed, and let the ingestion, however often it was stopped and started
  -- again, have committed a partition to its end, with no batch planned. Then there is no dead
  -- letter, and every event that was accepted for the partition has a row in the bronze table with
  -- its payload, has failed, or is still on its way.
  pub arrives_or_failed :
      (bootstrap_servers : Text) (partition : Text → ℕ) (millis : DateTime → ℤ)
      (producer : TransactionKafkaProducer) (message : ℕ → Message) (t : Traffic)
      (delta : Delta (BronzeRow spark)) (n : ℕ) (log : ℕ → List (KafkaRecord spark.Time))
      (s : Streams spark delta)
      → Delivery.Reach (kafka_options bootstrap_servers) partition millis producer (quiet message) t
      → Stream.Reach spark delta n (first_start spark delta log) s
      → ((p : ℕ)
          → p < n
          → Carries rt spark wire (s.log p) (map (λ i. (t.message i).value) (t.log p)))
      → s.bronze.planned ≡ none
      → (s.letters.sink ≡ [])
        × ((i : ℕ)
            → i < t.total
            → let p = t.partition_of i in
              p < n
              → s.bronze.committed p ≡ length (s.log p)
              → HasRow delta (t.message i).value s.bronze.sink
                ⊎ (In i t.failed ⊎ In i (flat (t.in_flight p) ++ t.waiting p)))
  arrives_or_failed bootstrap partition millis producer message t delta n log s traffic path topic
        idle =
      let (known, ordered) = per_user_order bootstrap partition millis producer message t traffic in
      let (letters, (to, place, rows)) =
        Reach-sent rt spark wire delta n log s path (λ p lt. Carries-IsSent (topic p lt)) in
      (
        letters,
        λ i lt inside at_end. elim (known i lt) [
          | inr other ↦ inr other
          | inl logged ↦ inl (
              HasRow-at_end delta n (t.partition_of i) s to (t.message i).value inside
                (all_committed to (t.partition_of i) place ∙ at_end) rows
                (Carries-HasMessage (λ j. (t.message j).value) i (s.log (t.partition_of i))
                  (t.log (t.partition_of i)) (topic (t.partition_of i) inside) logged))
        ],
      )
    where
      all_committed :
          (to : Offsets) (p : ℕ)
          → ((to ≡ s.bronze.committed)
              ⊎ ((q : Plan spark.Time) × (s.bronze.planned ≡ some q) × (to ≡ q.to)))
          → to p ≡ s.bronze.committed p
      all_committed to p (inl same) = ap (λ f. f p) same
      all_committed to p (inr (q, planned, same)) = cc

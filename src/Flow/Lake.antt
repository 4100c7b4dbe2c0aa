-- ===== src/Flow/Lake.antt =====
-- The ingestion, under restarts, of a topic whose messages are all the producer's.
use mathlib.Core.List.{Perm, Subset, not-mem-nil, mem-cons_self}
use realtime_fraud_feature_s.Prelude.{
  ℕ, zero, suc, ◌<◌, ◌≡◌, ◌⊎◌, refl, ap, true, some, List, [], ◌∷◌, map, Text, returned, All,
  All-append, arith,
}
use realtime_fraud_feature_s.Python.{Runtime, take}
use realtime_fraud_feature_s.Schemas.{TransactionEvent}
use realtime_fraud_feature_s.Producer.Payload.{value_serializer}
use realtime_fraud_feature_s.Bronze.{KafkaRecord, Spark, BronzeRow, keep}
use realtime_fraud_feature_s.Bronze.Split.{origin, origin_of, is_valid}
use realtime_fraud_feature_s.Bronze.Stream.{
  Offsets, below, Delta, Plan, Streams, first_start, Reach,
}
use realtime_fraud_feature_s.Bronze.Stream.Sides.{accepted, rejected}
use realtime_fraud_feature_s.Bronze.Stream.Letters.{ends, Reach-letters}
use realtime_fraud_feature_s.Bronze.Stream.Table.{Reach-Holds}
use realtime_fraud_feature_s.Flow.{Wire}
use realtime_fraud_feature_s.Flow.Arrives.{select-parsed, required-select}

pub take-All {ℓ} :
    {A : Type ℓ} (P : A → Type 0) (n : ℕ) (xs : List A) → All P xs → All P (take n xs)
take-All P zero xs h = tt
take-All P (suc n) [] h = tt
take-All P (suc n) (x ∷ xs) (h, hs) = (h, take-All P n xs hs)

pub below-All :
    {A : Type 0} (P : A → Type 0) (n : ℕ) (log : ℕ → List A) (to : Offsets)
    → ((p : ℕ) → p < n → All P (log p))
    → All P (below n log to)
below-All P zero log to h = tt
below-All P (suc n) log to h =
    All-append P (below n log to) (take (to n) (log n))
      (below-All P n log to (λ p lt. h p (omega arith)))
      (take-All P (to n) (log n) (h n (omega arith)))

Subset-nil : {A : Type 0} (xs : List A) → Subset xs [] → xs ≡ []
Subset-nil [] h = refl
Subset-nil (x ∷ xs) h = absurd (not-mem-nil (h x mem-cons_self))

module _ (rt : Runtime) (spark : Spark) (wire : Wire rt spark) where
  -- The message of an event.
  abbrev pub IsSent : KafkaRecord spark.Time → Type 0
  IsSent k =
      (e : TransactionEvent) × (payload : Text) × (k.value ≡ some payload)
      × (value_serializer rt wire.str_decimal e ≡ returned payload)

  pub is_valid-sent :
      (now : spark.Time) (k : KafkaRecord spark.Time) → IsSent k → is_valid spark now k ≡ true
  is_valid-sent now k (e, payload, carried, sent) =
      required-select rt spark wire now k e
        (select-parsed rt spark wire now k e payload carried sent)

  accepted-sent :
      (raw : List (KafkaRecord spark.Time))
      → All IsSent raw
      → accepted spark raw ≡ map (origin spark) raw
  unfolding keep
  accepted-sent [] h = refl
  accepted-sent (k ∷ raw) (h, hs) =
      rw (is_valid-sent k.timestamp k h) (ap (◌∷◌ (origin spark k)) (accepted-sent raw hs))

  rejected-sent : (raw : List (KafkaRecord spark.Time)) → All IsSent raw → rejected spark raw ≡ []
  unfolding keep
  rejected-sent [] h = refl
  rejected-sent (k ∷ raw) (h, hs) = rw (is_valid-sent k.timestamp k h) (rejected-sent raw hs)

  -- Let all messages of the topic be those of events that the producer has encoded. However often
  -- the ingestion is stopped and started again, it has sent no dead letter, and the bronze table has
  -- a row for each message below some offsets, each once and with its payload: the offsets are the
  -- committed ones or the planned batch's.
  pub Reach-sent :
      (delta : Delta (BronzeRow spark)) (n : ℕ) (log : ℕ → List (KafkaRecord spark.Time))
      (s : Streams spark delta)
      → Reach spark delta n (first_start spark delta log) s
      → ((p : ℕ) → p < n → All IsSent (s.log p))
      → (s.letters.sink ≡ [])
        × ((to : Offsets) × ((to ≡ s.bronze.committed)
              ⊎ ((p : Plan spark.Time) × (s.bronze.planned ≡ some p) × (to ≡ p.to)))
            × Perm
                (map (origin_of spark) (delta.rows s.bronze.sink))
                (map (origin spark) (below n s.log to)))
  Reach-sent delta n log s path sent =
      let (least, only) = Reach-letters spark delta n log s path in
      let (to, place, arrived, holds, read) = Reach-Holds spark delta n log s path in
      let all_sent = below-All IsSent n s.log to sent in
      let no_letters =
        rejected-sent (below n s.log (ends s.letters.planned s.letters.committed))
          (below-All IsSent n s.log (ends s.letters.planned s.letters.committed) sent) in
      (
        Subset-nil s.letters.sink (rw (no_letters) at only),
        (to, place, rw (accepted-sent (below n s.log to) all_sent) at holds),
      )

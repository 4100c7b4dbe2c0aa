-- ===== src/Flow/Rows.antt =====
-- Every row of the bronze table is an event's, also after restarts.
use realtime_fraud_feature_s.Prelude.{
  ℕ, zero, suc, ◌+◌, ◌<◌, ◌≡◌, inl, inr, List, [], ◌∷◌, ◌++◌, All, All-append, arith,
}
use realtime_fraud_feature_s.Python.{Runtime, take}
use realtime_fraud_feature_s.Schemas.{TransactionEvent}
use realtime_fraud_feature_s.Bronze.{
  KafkaRecord, Spark, BronzeRow, keep, select, parse_and_validate, mask_pii, add_partition_columns,
  run,
}
use realtime_fraud_feature_s.Bronze.Stream.{
  Offsets, between, drop, Delta, QueryStep, plans, adds, commits, breaks_off, restarts,
  write_bronze_to_minio, Streams, first_start, arrives, bronze_step, letters_step, Reach, here,
  next,
}
use realtime_fraud_feature_s.Bronze.Stream.Table.{
  BronzeQuery, IsOnce, Reach-IsOnce, first_start-IsOnce,
}
use realtime_fraud_feature_s.Flow.{Wire}
use realtime_fraud_feature_s.Flow.Arrives.{
  shown, expected, shown-row, select-parsed, required-select,
}
use realtime_fraud_feature_s.Flow.Lake.{IsSent, take-All}

All-left {ℓ} : {A : Type ℓ} (P : A → Type 0) (xs ys : List A) → All P (xs ++ ys) → All P xs
All-left P [] ys h = tt
All-left P (x ∷ xs) ys (h, hs) = (h, All-left P xs ys hs)

drop-All {ℓ} : {A : Type ℓ} (P : A → Type 0) (n : ℕ) (xs : List A) → All P xs → All P (drop n xs)
drop-All P zero xs h = h
drop-All P (suc n) [] h = tt
drop-All P (suc n) (x ∷ xs) (h, hs) = drop-All P n xs hs

between-All :
    {A : Type 0} (P : A → Type 0) (n : ℕ) (log : ℕ → List A) (from to : Offsets)
    → ((p : ℕ) → p < n → All P (log p))
    → All P (between n log from to)
between-All P zero log from to h = tt
between-All P (suc n) log from to h =
    All-append P (between n log from to) (drop (from n) (take (to n) (log n)))
      (between-All P n log from to (λ p lt. h p (omega arith)))
      (drop-All P (from n) (take (to n) (log n)) (take-All P (to n) (log n) (h n (omega arith))))

module _ (rt : Runtime) (spark : Spark) (wire : Wire rt spark) where
  -- The row shows what is expected of an event.
  abbrev pub IsEvent : BronzeRow spark → Type 0
  IsEvent b = (e : TransactionEvent) × (shown rt spark wire b ≡ expected rt spark wire e)

  run-IsEvent :
      (now : spark.Time) (raw : List (KafkaRecord spark.Time))
      → All (IsSent rt spark wire) raw
      → All IsEvent (run spark now raw).0
  unfolding run parse_and_validate mask_pii add_partition_columns keep
  run-IsEvent now [] h = tt
  run-IsEvent now (k ∷ raw) ((e, payload, carried, sent), hs) =
      let parsed = select-parsed rt spark wire now k e payload carried sent in
      rw (required-select rt spark wire now k e parsed)
        ((e, shown-row rt spark wire (select spark now k) e parsed), run-IsEvent now raw hs)

  module _ (delta : Delta (BronzeRow spark)) (n : ℕ) where
    -- A batch is appended once.
    append-IsEvent :
        (log : ℕ → List (KafkaRecord spark.Time)) (q : BronzeQuery spark delta)
        (batch : List (BronzeRow spark))
        → IsOnce spark delta n log q
        → All IsEvent batch
        → All IsEvent (delta.rows q.sink)
        → All IsEvent (delta.rows (delta.append q.batch_id batch q.sink))
    append-IsEvent log q batch once new old = elim once.place [
      | inl b ↦
          rw (← b.version, delta.rows-append q.sink batch)
            (All-append IsEvent (delta.rows q.sink) batch old new)
      | inr a ↦
          let version : delta.next_batch q.sink ≡ q.batch_id + 1 = a.version in
          rw (delta.append_again q.batch_id batch q.sink (omega arith)) old
    ]

    QueryStep-IsEvent :
        {log : ℕ → List (KafkaRecord spark.Time)} {q u : BronzeQuery spark delta}
        → QueryStep n log (write_bronze_to_minio spark delta) q u
        → IsOnce spark delta n log q
        → ((p : ℕ) → p < n → All (IsSent rt spark wire) (log p))
        → All IsEvent (delta.rows q.sink)
        → All IsEvent (delta.rows u.sink)
    QueryStep-IsEvent (plans p idle fits) once sent old = old
    QueryStep-IsEvent {log} {q} (adds p s planned fresh_ added) once sent old = rw (added) (
        append-IsEvent log q (run spark p.now (between n log q.committed p.to)).0 once
          (run-IsEvent p.now (between n log q.committed p.to)
            (between-All (IsSent rt spark wire) n log q.committed p.to sent))
          old)
    QueryStep-IsEvent (commits p planned done) once sent old = old
    QueryStep-IsEvent (breaks_off p s planned fresh_ same) once sent old = rw (same) old
    QueryStep-IsEvent restarts once sent old = old

    pub Reach-IsEvent :
        (log : ℕ → List (KafkaRecord spark.Time)) {s : Streams spark delta}
        → Reach spark delta n (first_start spark delta log) s
        → ((p : ℕ) → p < n → All (IsSent rt spark wire) (s.log p))
        → All IsEvent (delta.rows s.bronze.sink)
    Reach-IsEvent log here sent = rw (delta.rows-empty) tt
    Reach-IsEvent log (next {t} path (arrives more)) sent =
        Reach-IsEvent log path
          (λ p lt. All-left (IsSent rt spark wire) (t.log p) (more p) (sent p lt))
    Reach-IsEvent log (next {t} path (bronze_step step)) sent =
        QueryStep-IsEvent step
          (Reach-IsOnce spark delta n (first_start-IsOnce spark delta n log) path) sent
          (Reach-IsEvent log path sent)
    Reach-IsEvent log (next path (letters_step step)) sent = Reach-IsEvent log path sent

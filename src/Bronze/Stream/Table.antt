-- ===== src/Bronze/Stream/Table.antt =====
-- The bronze table under restarts.
use mathlib.Core.Option.{some-injective}
use mathlib.Core.List.{Perm, map-append}
use mathlib.Core.List.Perm
use realtime_fraud_feature_s.Prelude.{
  ◌*◌, length, ℕ, ◌+◌, ◌≤◌, ◌<◌, ◌≡◌, ◌⊎◌, refl, sym, ap, ◌∙◌, false, some, List, [], ◌++◌, map,
  inl, inr, arith,
}
use realtime_fraud_feature_s.Bronze.{KafkaRecord, Spark, BronzeRow, keep, run}
use realtime_fraud_feature_s.Bronze.Split.{origin_of}
use realtime_fraud_feature_s.Bronze.Stream.{
  Offsets, below, between, Delta, Plan, Query, QueryStep, plans, adds, commits, breaks_off,
  restarts, write_bronze_to_minio, Streams, first_start, Step, arrives, bronze_step, letters_step,
  Reach, here, next,
}
use realtime_fraud_feature_s.Bronze.Stream.Offsets.{Arrived, below-append, below-start}
use realtime_fraud_feature_s.Bronze.Stream.Sides.{
  accepted, accepted-between, run-accepted, IsAhead, IsAhead-append, IsAhead-fresh,
  QueryStep-IsAhead,
}

module _ (spark : Spark) (delta : Delta (BronzeRow spark)) where
  open spark use {Time}

  abbrev pub BronzeQuery : Type 0
  BronzeQuery = Query (write_bronze_to_minio spark delta)

  -- The rows of a table are those of the valid records below some offsets.
  abbrev pub Holds : ℕ → (ℕ → List (KafkaRecord Time)) → delta.Table → Offsets → Type 0
  Holds n log t to = Perm (map (origin_of spark) (delta.rows t)) (accepted spark (below n log to))

  -- The planned batch is not in the table.
  pub record IsBefore (n : ℕ) (log : ℕ → List (KafkaRecord Time)) (q : BronzeQuery) : Type 0 where
    pub version : delta.next_batch q.sink ≡ q.batch_id
    pub rows : Holds n log q.sink q.committed
    pub not_added : q.added ≡ false

  -- It is in the table.
  pub record IsAfter (n : ℕ) (log : ℕ → List (KafkaRecord Time)) (q : BronzeQuery) : Type 0 where
    pub plan : Plan Time
    pub planned : q.planned ≡ some plan
    pub version : delta.next_batch q.sink ≡ q.batch_id + 1
    pub rows : Holds n log q.sink plan.to

  pub record IsOnce (n : ℕ) (log : ℕ → List (KafkaRecord Time)) (q : BronzeQuery) : Type 0 where
    pub ahead : IsAhead (write_bronze_to_minio spark delta) n log q
    pub place : IsBefore n log q ⊎ IsAfter n log q

  Holds-append :
      (n : ℕ) (log : ℕ → List (KafkaRecord Time)) (q : BronzeQuery) (p : Plan Time)
      (forward : (i : ℕ) → i < n → q.committed i ≤ p.to i)
      → delta.next_batch q.sink ≡ q.batch_id
      → Holds n log q.sink q.committed
      → Holds n log
          (delta.append q.batch_id (run spark p.now (between n log q.committed p.to)).0 q.sink)
          p.to
  Holds-append n log q p forward version rows =
      let batch = run spark p.now (between n log q.committed p.to) in
      rw
        (
          ← version,
          delta.rows-append q.sink batch.0,
          map-append (origin_of spark) (delta.rows q.sink) batch.0,
          run-accepted spark p.now (between n log q.committed p.to),
        )
        (Perm.trans (Perm.append_right (accepted spark (between n log q.committed p.to)) rows)
          (accepted-between spark n log q.committed p.to forward))

  place-step :
      {n : ℕ} {log : ℕ → List (KafkaRecord Time)} {q r : BronzeQuery}
      → QueryStep n log (write_bronze_to_minio spark delta) q r
      → IsAhead (write_bronze_to_minio spark delta) n log q
      → IsBefore n log q ⊎ IsAfter n log q
      → IsBefore n log r ⊎ IsAfter n log r
  place-step (plans p free is_next) a (inl b) =
      inl (record { version = b.version; rows = b.rows; not_added = refl })
  place-step (plans p free is_next) a (inr b) = absurd (cc (free, b.planned))
  place-step {n} {log} {q} (adds p s e not_yet did) a (inl b) = inr (record {
    plan = p;
    planned = e;
    version = ap delta.next_batch did ∙ rw (← b.version) (delta.next_batch-append q.sink _);
    rows = rw did (Holds-append n log q p (a.forward p e) b.version b.rows);
  })
  place-step {n} {log} {q} (adds p s e not_yet did) a (inr b) =
      let same = did ∙ delta.append_again q.batch_id _ q.sink (omega (arith, b.version)) in
      inr (record {
        plan = b.plan;
        planned = b.planned;
        version = ap delta.next_batch same ∙ b.version;
        rows = rw same b.rows;
      })
  place-step (commits p e did) a (inl b) = absurd (cc (did, b.not_added))
  place-step {n} {log} {q} (commits p e did) a (inr b) = inl (record {
    version = b.version;
    rows = rw (some-injective _ _ (sym e ∙ b.planned)) b.rows;
    not_added = refl;
  })
  place-step (breaks_off p s e not_yet did) a (inl b) = inl (record {
    version = ap delta.next_batch did ∙ b.version;
    rows = rw did b.rows;
    not_added = b.not_added;
  })
  place-step (breaks_off p s e not_yet did) a (inr b) = inr (record {
    plan = b.plan;
    planned = b.planned;
    version = ap delta.next_batch did ∙ b.version;
    rows = rw did b.rows;
  })
  place-step restarts a (inl b) =
      inl (record { version = b.version; rows = b.rows; not_added = refl })
  place-step restarts a (inr b) =
      inr (record { plan = b.plan; planned = b.planned; version = b.version; rows = b.rows })

  place-append :
      (n : ℕ) (log more : ℕ → List (KafkaRecord Time)) (q : BronzeQuery)
      → IsAhead (write_bronze_to_minio spark delta) n log q
      → IsBefore n log q ⊎ IsAfter n log q
      → IsBefore n (λ p. log p ++ more p) q ⊎ IsAfter n (λ p. log p ++ more p) q
  place-append n log more q a (inl b) = inl (record {
    version = b.version;
    rows = rw (below-append n log more q.committed a.committed) b.rows;
    not_added = b.not_added;
  })
  place-append n log more q a (inr b) = inr (record {
    plan = b.plan;
    planned = b.planned;
    version = b.version;
    rows = rw (below-append n log more b.plan.to (a.planned b.plan b.planned)) b.rows;
  })

  Step-IsOnce :
      (n : ℕ) {s t : Streams spark delta}
      → Step spark delta n s t
      → IsOnce n s.log s.bronze
      → IsOnce n t.log t.bronze
  Step-IsOnce n {s} (arrives more) o = record {
    ahead = IsAhead-append (write_bronze_to_minio spark delta) n s.log more s.bronze o.ahead;
    place = place-append n s.log more s.bronze o.ahead o.place;
  }
  Step-IsOnce n (bronze_step step) o = record {
    ahead = QueryStep-IsAhead (write_bronze_to_minio spark delta) step o.ahead;
    place = place-step step o.ahead o.place;
  }
  Step-IsOnce n (letters_step step) o = o

  pub Reach-IsOnce :
      (n : ℕ) {s t : Streams spark delta}
      → IsOnce n s.log s.bronze
      → Reach spark delta n s t
      → IsOnce n t.log t.bronze
  Reach-IsOnce n o here = o
  Reach-IsOnce n o (next path step) = Step-IsOnce n step (Reach-IsOnce n o path)

  pub first_start-IsOnce :
      (n : ℕ) (log : ℕ → List (KafkaRecord Time))
      → let s = first_start spark delta log in IsOnce n s.log s.bronze
  unfolding keep
  first_start-IsOnce n log = record {
    ahead = IsAhead-fresh (write_bronze_to_minio spark delta) n log delta.empty;
    place = inl (record {
      version = delta.next_batch-empty;
      rows = rw (delta.rows-empty, below-start n log) (Perm.refl []);
      not_added = refl;
    });
  }

  -- However often the job is stopped and started again, the table has the rows of the valid records
  -- below some offsets, each as often as the topic has it: the offsets are the committed ones or the
  -- planned batch's. The committed batches have read, all in all, 10,000 messages for each of them at
  -- most, where Spark keeps to that number in a batch.
  pub Reach-Holds :
      (n : ℕ) (log : ℕ → List (KafkaRecord Time)) (s : Streams spark delta)
      → Reach spark delta n (first_start spark delta log) s
      → (to : Offsets) × ((to ≡ s.bronze.committed)
          ⊎ ((p : Plan Time) × (s.bronze.planned ≡ some p) × (to ≡ p.to)))
        × Arrived n s.log to
        × Holds n s.log s.bronze.sink to
        × (length (below n s.log s.bronze.committed) ≤ 10000 * s.bronze.batch_id)
  Reach-Holds n log s path =
      let o = Reach-IsOnce n (first_start-IsOnce n log) path in
      elim o.place [
        | inl b ↦ (s.bronze.committed, inl refl, o.ahead.committed, b.rows, o.ahead.read)
        | inr b ↦ (
          b.plan.to,
          inr (b.plan, b.planned, refl),
          o.ahead.planned b.plan b.planned,
          b.rows,
          o.ahead.read,
        )
      ]

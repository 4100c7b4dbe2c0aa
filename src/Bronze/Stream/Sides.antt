-- ===== src/Bronze/Stream/Sides.antt =====
-- The two sides of a batch, by the records alone, whatever the time of the batch, and what every
-- step of a query keeps of its checkpoint.
use mathlib.Core.List.{Perm, map-append}
use mathlib.Core.Option.{some-injective}
use realtime_fraud_feature_s.Prelude.{
  ◌*◌, arith, length, ℕ, ◌≤◌, ◌<◌, ◌≡◌, refl, sym, ap, ◌∙◌, Bool, not, some, List, [], ◌∷◌, ◌++◌,
  map, Bool-cases, inl, inr,
}
use realtime_fraud_feature_s.Bronze.{
  KafkaRecord, Spark, keep, select, required, DeadLetter, dead_letter, run,
}
use realtime_fraud_feature_s.Bronze.Split.{
  origin, origin_of, is_valid, origins_of_bronze, letters-eq-keep,
}
use realtime_fraud_feature_s.Bronze.Stream.{
  max_offsets_per_trigger, fresh, Offsets, below, between, Writer, Plan, Query, QueryStep, plans,
  adds, commits, breaks_off, restarts,
}
use realtime_fraud_feature_s.Bronze.Stream.Offsets.{
  below-start, Arrived, Arrived-append, below-between, below-append, between-append, length-below,
}

keep-append {ℓ} :
    {A : Type ℓ} (test : A → Bool) (xs ys : List A)
    → keep test (xs ++ ys) ≡ keep test xs ++ keep test ys
unfolding keep
keep-append test [] ys = refl
keep-append test (x ∷ xs) ys = elim (Bool-cases (test x)) [
  | inl yes_ ↦ rw (yes_, keep-append test xs ys) refl
  | inr no_ ↦ rw (no_) (keep-append test xs ys)
]

module _ (spark : Spark) where
  open spark use {Time}

  -- The records that a test selects, by their offsets and payloads.
  abbrev selected : (KafkaRecord Time → Bool) → List (KafkaRecord Time) → List (DeadLetter spark)
  selected test raw = map (origin spark) (keep test raw)

  -- The records that are parsed to a row with the three columns.
  abbrev pub accepted : List (KafkaRecord Time) → List (DeadLetter spark)
  accepted = selected (λ k. is_valid spark k.timestamp k)

  abbrev pub rejected : List (KafkaRecord Time) → List (DeadLetter spark)
  rejected = selected (λ k. not (is_valid spark k.timestamp k))

  selected-append :
      (test : KafkaRecord Time → Bool) (xs ys : List (KafkaRecord Time))
      → selected test (xs ++ ys) ≡ selected test xs ++ selected test ys
  selected-append test xs ys =
      ap (map (origin spark)) (keep-append test xs ys)
      ∙ map-append (origin spark) (keep test xs) (keep test ys)

  module _ (n : ℕ) (log : ℕ → List (KafkaRecord Time)) (from to : Offsets)
      (forward : (p : ℕ) → p < n → from p ≤ to p) where
    pub accepted-between :
        Perm
          (accepted (below n log from) ++ accepted (between n log from to))
          (accepted (below n log to))
    unfolding keep
    accepted-between =
        below-between accepted refl (selected-append (λ k. is_valid spark k.timestamp k)) n log from
          to forward

    pub rejected-between :
        Perm
          (rejected (below n log from) ++ rejected (between n log from to))
          (rejected (below n log to))
    unfolding keep
    rejected-between =
        below-between rejected refl (selected-append (λ k. not (is_valid spark k.timestamp k))) n
          log from to forward

  rows-eq-accepted :
      (now : Time) (raw : List (KafkaRecord Time))
      → map (dead_letter spark) (keep (required spark) (map (select spark now) raw)) ≡ accepted raw
  unfolding keep select required dead_letter
  rows-eq-accepted now [] = refl
  rows-eq-accepted now (k ∷ raw) = elim (Bool-cases (is_valid spark now k)) [
    | inl valid ↦ rw valid (ap (◌∷◌ (origin spark k)) (rows-eq-accepted now raw))
    | inr invalid ↦ rw invalid (rows-eq-accepted now raw)
  ]

  pub run-accepted :
      (now : Time) (raw : List (KafkaRecord Time))
      → map (origin_of spark) (run spark now raw).0 ≡ accepted raw
  unfolding run
  run-accepted now raw = origins_of_bronze spark _ ∙ rows-eq-accepted now raw

  pub run-rejected :
      (now : Time) (raw : List (KafkaRecord Time)) → (run spark now raw).1 ≡ rejected raw
  unfolding run select required
  run-rejected now raw = letters-eq-keep spark now raw

module _ {In Time : Type 0} (w : Writer In Time) where
  -- What a checkpoint names has arrived, a planned batch starts where the last one ended, and no
  -- batch has more than 10,000 messages.
  pub record IsAhead (n : ℕ) (log : ℕ → List In) (q : Query w) : Type 0 where
    pub committed : Arrived n log q.committed
    pub forward : (p : Plan Time) → q.planned ≡ some p → (i : ℕ) → i < n → q.committed i ≤ p.to i
    pub planned : (p : Plan Time) → q.planned ≡ some p → Arrived n log p.to
    pub capped :
        (p : Plan Time)
        → q.planned ≡ some p
        → length (between n log q.committed p.to) ≤ max_offsets_per_trigger
    pub read : length (below n log q.committed) ≤ max_offsets_per_trigger * q.batch_id

  pub IsAhead-fresh : (n : ℕ) (log : ℕ → List In) (s : w.sink.State) → IsAhead n log (fresh w s)
  IsAhead-fresh n log s = record {
    committed = λ p lt. omega arith;
    forward = λ p e. cc;
    planned = λ p e. cc;
    capped = λ p e. cc;
    read = rw (below-start n log) (omega arith);
  }

  pub IsAhead-append :
      (n : ℕ) (log more : ℕ → List In) (q : Query w)
      → IsAhead n log q
      → IsAhead n (λ p. log p ++ more p) q
  IsAhead-append n log more q a = record {
    committed = Arrived-append n log more q.committed a.committed;
    forward = a.forward;
    planned = λ p e. Arrived-append n log more p.to (a.planned p e);
    capped = λ p e. rw (between-append n log more q.committed p.to (a.planned p e)) (a.capped p e);
    read = rw (below-append n log more q.committed a.committed) a.read;
  }

  pub QueryStep-IsAhead :
      {n : ℕ} {log : ℕ → List In} {q r : Query w}
      → QueryStep n log w q r
      → IsAhead n log q
      → IsAhead n log r
  QueryStep-IsAhead {q} (plans p free next) a = record {
    committed = a.committed;
    forward = λ p' e i lt. rw (some-injective _ _ (sym e)) (next.forward i lt);
    planned = λ p' e. rw (some-injective _ _ (sym e)) next.arrived;
    capped = λ p' e. rw (some-injective _ _ (sym e)) next.capped;
    read = a.read;
  }
  QueryStep-IsAhead (adds p s e fresh_ did) a = record {
    committed = a.committed;
    forward = a.forward;
    planned = a.planned;
    capped = a.capped;
    read = a.read;
  }
  QueryStep-IsAhead {n} {log} {q} (commits p e did) a = record {
    committed = a.planned p e;
    forward = λ p' e'. cc;
    planned = λ p' e'. cc;
    capped = λ p' e'. cc;
    read = omega (arith, length-below n log q.committed p.to (a.forward p e), a.capped p e, a.read);
  }
  QueryStep-IsAhead (breaks_off p s e fresh_ did) a = record {
    committed = a.committed;
    forward = a.forward;
    planned = a.planned;
    capped = a.capped;
    read = a.read;
  }
  QueryStep-IsAhead restarts a = record {
    committed = a.committed;
    forward = a.forward;
    planned = a.planned;
    capped = a.capped;
    read = a.read;
  }

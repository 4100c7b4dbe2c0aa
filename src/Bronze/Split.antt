-- ===== src/Bronze/Split.antt =====
-- No record is lost or doubled between the bronze table and the dead letters.
use mathlib.Core.List.{Perm, perm_middle, map-append}
use mathlib.Core.List.Perm
use realtime_fraud_feature_s.Prelude.{
  ◌≡◌, ◌↔◌, refl, ap, Bool, true, not, List, [], ◌∷◌, ◌++◌, map, Bool-cases, inl, inr, All, arith,
}
use realtime_fraud_feature_s.Bronze.{
  KafkaRecord, Spark, keep, is_not_null, Row, select, required, mask_row, mask_pii, BronzeRow,
  partitioned, add_partition_columns, DeadLetter, dead_letter, run,
}

keep-Perm {ℓ} :
    {A : Type ℓ} (test : A → Bool) (xs : List A)
    → Perm (keep test xs ++ keep (λ x. not (test x)) xs) xs
unfolding keep
keep-Perm test [] = Perm.refl []
keep-Perm test (x ∷ xs) = elim (Bool-cases (test x)) [
  | inl yes_ ↦ rw yes_ (Perm.cons x (keep-Perm test xs))
  | inr no_ ↦ rw no_ (
      Perm.trans (perm_middle (keep test xs) (keep (λ y. not (test y)) xs))
        (Perm.cons x (keep-Perm test xs)))
]

keep-All {ℓ} :
    {A : Type ℓ} (test : A → Bool) (xs : List A) → All (λ x. test x ≡ true) (keep test xs)
unfolding keep
keep-All test [] = tt
keep-All test (x ∷ xs) = elim (Bool-cases (test x)) [
  | inl passed ↦ rw passed (passed, keep-All test xs)
  | inr failed ↦ rw failed (keep-All test xs)
]

module _ (spark : Spark) where
  open spark use {Time}

  -- Where a row and a dead letter come from: the offset and the payload of a record.
  abbrev pub origin : KafkaRecord Time → DeadLetter spark
  origin k = record { key = k.offset; value = k.value }

  abbrev pub origin_of : BronzeRow spark → DeadLetter spark
  origin_of b = record { key = b.row.kafka_offset; value = b.row.raw_json }

  pub origins_of_bronze :
      (rows : List (Row spark))
      → map origin_of (add_partition_columns spark (mask_pii spark rows))
        ≡ map (dead_letter spark) rows
  unfolding add_partition_columns mask_pii mask_row partitioned dead_letter
  origins_of_bronze [] = refl
  origins_of_bronze (r ∷ rows) = ap (◌∷◌ (dead_letter spark r)) (origins_of_bronze rows)

  origins_of_selected :
      (now : Time) (raw : List (KafkaRecord Time))
      → map (dead_letter spark) (map (select spark now) raw) ≡ map origin raw
  unfolding select dead_letter
  origins_of_selected now [] = refl
  origins_of_selected now (k ∷ raw) = ap (◌∷◌ (origin k)) (origins_of_selected now raw)

  -- Every record of a batch goes to exactly one of the two sinks: the rows of the table and the
  -- dead letters have, as often, the offsets and payloads of the records.
  pub run-Perm :
      (now : Time) (raw : List (KafkaRecord Time))
      → let (bronze, letters) = run spark now raw in
        Perm (map origin_of bronze ++ letters) (map origin raw)
  unfolding run
  run-Perm now raw =
      let rows = map (select spark now) raw in
      let test = required spark in
      let valid = keep test rows in
      let invalid = keep (λ r. not (test r)) rows in
      rw
        (
          origins_of_bronze valid,
          ← map-append (dead_letter spark) valid invalid,
          ← origins_of_selected now raw,
        )
        (Perm.map (dead_letter spark) (keep-Perm test rows))

  -- The three columns that `required` asks for.
  abbrev pub HasRequired : Row spark → Type 0
  HasRequired r =
      (is_not_null r.parsed.transaction_id ≡ true)
      × (is_not_null r.parsed.user_id ≡ true)
      × (is_not_null r.parsed.amount ≡ true)

  -- Whether a record is parsed to a row with the three columns.
  abbrev pub is_valid : Time → KafkaRecord Time → Bool
  is_valid now k = required spark (select spark now k)

  required_iff : (r : Row spark) → (required spark r ≡ true) ↔ HasRequired r
  unfolding required
  required_iff r = ground arith

  bronze-HasRequired :
      (rows : List (Row spark))
      → All (λ r. required spark r ≡ true) rows
      → All (λ b. HasRequired b.row) (add_partition_columns spark (mask_pii spark rows))
  unfolding add_partition_columns mask_pii mask_row partitioned
  bronze-HasRequired [] h = tt
  bronze-HasRequired (r ∷ rows) (p, ps) = ((required_iff r).0 p, bronze-HasRequired rows ps)

  pub letters-eq-keep :
      (now : Time) (raw : List (KafkaRecord Time))
      → map (dead_letter spark) (keep (λ r. not (required spark r)) (map (select spark now) raw))
        ≡ map origin (keep (λ k. not (is_valid now k)) raw)
  unfolding keep select dead_letter
  letters-eq-keep now [] = refl
  letters-eq-keep now (k ∷ raw) = elim (Bool-cases (is_valid now k)) [
    | inl valid ↦ rw valid (letters-eq-keep now raw)
    | inr invalid ↦ rw invalid (ap (◌∷◌ (origin k)) (letters-eq-keep now raw))
  ]

  -- The rows of the table have a transaction id, a user id and an amount. The dead letters are the
  -- records that lack one of them, in order, with their offsets and unchanged payloads.
  pub run-HasRequired :
      (now : Time) (raw : List (KafkaRecord Time))
      → let (bronze, letters) = run spark now raw in
        All (λ b. HasRequired b.row) bronze
        × (letters ≡ map origin (keep (λ k. not (is_valid now k)) raw))
  unfolding run
  run-HasRequired now raw = (
    bronze-HasRequired _ (keep-All (required spark) (map (select spark now) raw)),
    letters-eq-keep now raw,
  )

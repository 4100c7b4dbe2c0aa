-- ===== src/Generator/Batch/Seeded.antt =====
-- The generator that run.py and backfill.py make on a factory's users and merchants.
use realtime_fraud_feature_s.Prelude.{ℕ, ◌≤◌, ◌≡◌, List, Text, length, returned, arith}
use realtime_fraud_feature_s.Python.{Random, FakerLibrary, Outside}
use realtime_fraud_feature_s.Schemas.{TransactionEvent, Pydantic}
use realtime_fraud_feature_s.Profiles.{ProfileFactory, make_users, make_merchants}
use realtime_fraud_feature_s.Profiles.Usable.{make_users-IsUsable}
use realtime_fraud_feature_s.Profiles.Merchants.{make_merchants-IsUsable}
use realtime_fraud_feature_s.Generator.{Floats, Draws}
use realtime_fraud_feature_s.Generator.Batch.{TransactionGenerator, init, generate_batch}
use realtime_fraud_feature_s.Generator.Batch.Parts.{init_lem}
use realtime_fraud_feature_s.Generator.Batch.Made.{Strips, InRange, AllGood, generate_batch-AllGood}

-- It is made, and so is each of its batches.
pub seeded-AllGood :
    (floats : Floats) (py : Pydantic) (draws : ℕ → Draws floats) (rnd : Random) (fk : FakerLibrary)
    (sha256 : Text → Text) (outside : Outside rnd fk) (m n : ℕ) (f : ProfileFactory rnd fk sha256)
    → let (users, f1) = make_users rnd fk sha256 outside m f in
      let merchants = (make_merchants rnd fk sha256 outside n f1).0 in
      1 ≤ m
      → 1 ≤ n
      → Strips py
      → ((j : ℕ) → InRange floats py users merchants (draws j))
      → (gen : TransactionGenerator) × (init users merchants ≡ returned gen)
        × ((count : ℕ)
            → (es : List TransactionEvent) × (generate_batch floats py draws gen 0 count
                ≡ returned es)
              × (length es ≡ count)
              × AllGood floats py draws 0 es)
seeded-AllGood floats py draws rnd fk sha256 outside m n f some_users some_merchants strips range =
    let (users, f1) = make_users rnd fk sha256 outside m f in
    let merchants = (make_merchants rnd fk sha256 outside n f1).0 in
    let (count_u, good_u) = make_users-IsUsable rnd fk sha256 outside m f in
    let (count_m, good_m) = make_merchants-IsUsable rnd fk sha256 outside n f1 in
    let (gen, made, same_u, same_m, groups) =
      (init_lem users merchants).1 (omega (arith, count_u)) (omega (arith, count_m)) in
    (
      gen,
      made,
      λ count.
          generate_batch-AllGood floats py draws gen 0 count strips (rw (same_u) good_u)
            (rw (same_m) good_m) (λ j. rw (same_u, same_m) (range j)),
    )

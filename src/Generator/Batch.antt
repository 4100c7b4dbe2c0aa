-- ===== src/Generator/Batch.antt =====
-- The class `TransactionGenerator` of ingestion/transaction_generator/src/generator.py: its
-- construction and `generate_batch`. The draws of the i-th event are `draws i`.
pub mod Made
pub mod Parts
pub mod Seeded
use realtime_fraud_feature_s.Prelude.{
  ℕ, zero, suc, ◌+◌, Option, none, some, List, [], ◌∷◌, ◌++◌, Text, Dict, get, put, Outcome,
  returned, raised, ◌>>=◌,
}
use realtime_fraud_feature_s.Schemas.{TransactionEvent, Pydantic}
use realtime_fraud_feature_s.Profiles.{UserProfile, MerchantProfile}
use realtime_fraud_feature_s.Generator.{GeneratorError, value_error, Floats, Draws, generate_one}

pub record TransactionGenerator : Type 0 where
  pub users : List UserProfile
  pub merchants : List MerchantProfile
  pub merchants_by_category : Dict (List MerchantProfile)

abbrev pub or_empty {ℓ} : {A : Type ℓ} → Option (List A) → List A
or_empty none = []
or_empty (some xs) = xs

-- for m in merchants: groups.setdefault(m.category, []).append(m)
unfoldable pub group_by_category :
    List MerchantProfile → Dict (List MerchantProfile) → Dict (List MerchantProfile)
group_by_category [] groups = groups
group_by_category (m ∷ ms) groups =
    group_by_category ms (put m.category (or_empty (get m.category groups) ++ m ∷ []) groups)

-- TransactionGenerator(users, merchants)
unfoldable pub init :
    List UserProfile → List MerchantProfile → Outcome GeneratorError TransactionGenerator
init [] merchants = raised value_error
init (u ∷ users) [] = raised value_error
init (u ∷ users) (m ∷ merchants) = returned (record {
  users = u ∷ users;
  merchants = m ∷ merchants;
  merchants_by_category = group_by_category (m ∷ merchants) [];
})

module _ (floats : Floats) (py : Pydantic) (draws : ℕ → Draws floats) where
  -- The next n events of a generator that has made i.
  unfoldable pub generate_batch :
      TransactionGenerator → ℕ → ℕ → Outcome GeneratorError (List TransactionEvent)
  generate_batch gen i zero = returned []
  generate_batch gen i (suc n) = do
    e ← generate_one floats py gen.users gen.merchants (draws i)
    es ← generate_batch gen (i + 1) n
    returned (e ∷ es)

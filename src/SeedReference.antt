-- ===== src/SeedReference.antt =====
-- ingestion/transaction_generator/src/seed_reference.py
pub mod Replace
pub mod Resolve
use realtime_fraud_feature_s.Prelude.{ℕ, Bool, Option, some, List, [], ◌∷◌, Text, codes, ℤ, pos}
use realtime_fraud_feature_s.Python.{PgValue, Random, FakerLibrary, Outside}
use realtime_fraud_feature_s.Profiles.{
  UserProfile, MerchantProfile, ProfileFactory, post_init, make_users, make_merchants,
}
use realtime_fraud_feature_s.Postgres.{Rows, Statement, truncate, insert, Postgres}
use realtime_fraud_feature_s.Postgres.Transaction.{Part, session}

abbrev pub num_users : ℕ
num_users = 5000

abbrev pub num_merchants : ℕ
num_merchants = 500

abbrev pub seed : ℤ
seed = pos 42

abbrev pub users_table : Text
users_table = codes "public.users"

abbrev pub merchants_table : Text
merchants_table = codes "public.merchants"

-- user_id, email_hash, phone_hash, city, country, kyc_level, risk_score, is_blocked, created_at,
-- updated_at
unfoldable pub user_row : UserProfile → Bool → List PgValue
user_row u flag =
    PgValue.text u.user_id
    ∷ PgValue.text u.email_hash
    ∷ PgValue.text u.phone_hash
    ∷ PgValue.text u.city
    ∷ PgValue.text u.country
    ∷ PgValue.text u.kyc_status
    ∷ PgValue.numeric u.risk_score
    ∷ PgValue.boolean flag
    ∷ PgValue.timestamp u.account_created_at
    ∷ PgValue.timestamp u.account_created_at
    ∷ []

-- merchant_id, merchant_name, category, risk_tier, avg_ticket_size, is_active, onboarded_at,
-- updated_at
unfoldable pub merchant_row : MerchantProfile → Bool → List PgValue
merchant_row m flag =
    PgValue.text m.merchant_id
    ∷ PgValue.text m.merchant_name
    ∷ PgValue.text m.category
    ∷ PgValue.text m.risk_tier
    ∷ PgValue.numeric m.avg_ticket_size
    ∷ PgValue.boolean flag
    ∷ PgValue.timestamp m.onboarded_at
    ∷ PgValue.timestamp m.onboarded_at
    ∷ []

module _ (rnd : Random) where
  -- [(..., flag_rng.random() < n / 100, ...) for x in xs]
  unfoldable pub flagged :
      {A : Type 0} → (A → Bool → List PgValue) → ℕ → List A → rnd.Rng → Rows × rnd.Rng
  flagged row n [] g = ([], g)
  flagged row n (x ∷ xs) g =
      let (flag, g1) = rnd.below_hundredths n g in
      let (rows, g2) = flagged row n xs g1 in (row x flag ∷ rows, g2)

  module _ (fk : FakerLibrary) (sha256 : Text → Text) (outside : Outside rnd fk) where
    abbrev pub seeded_users : List UserProfile × ProfileFactory rnd fk sha256
    seeded_users =
        make_users rnd fk sha256 outside num_users (post_init rnd fk sha256 outside (some seed))

    unfoldable pub user_rows : Rows × rnd.Rng
    user_rows = flagged user_row 2 seeded_users.0 (rnd.seeded seed)

    unfoldable pub merchant_rows : Rows
    merchant_rows =
        (flagged merchant_row 3
          (make_merchants rnd fk sha256 outside num_merchants seeded_users.1).0 user_rows.1).0

    abbrev pub seed_statements : List Statement
    seed_statements =
        truncate (users_table ∷ merchants_table ∷ [])
        ∷ insert users_table user_rows.0
        ∷ insert merchants_table merchant_rows
        ∷ []

    unfoldable pub main : (pg : Postgres) → pg.Db → Part pg
    unfolding session
    main pg d = session pg seed_statements d

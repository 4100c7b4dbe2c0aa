-- ===== src/Examples/Warehouse.antt =====
-- Seeding, loading the warehouse, and a run of the DAG.
use realtime_fraud_feature_s.Prelude.{
  ℕ, ◌+◌, ◌≡◌, refl, Option, some, List, [], ◌∷◌, Text, codes, text_eq, returned, pos, length, All,
}
use realtime_fraud_feature_s.Fixtures.{
  ToyDb, toy_postgres, toy_jdbc, toy_random, toy_faker, seeding, running, ids_apart,
}
use realtime_fraud_feature_s.Python.{PgValue}
use realtime_fraud_feature_s.Profiles.{ProfileFactory, post_init, make_users}
use realtime_fraud_feature_s.Profiles.Seed.{AllAgree, make_users-AllAgree}
use realtime_fraud_feature_s.Profiles.Usable.{IsUsable, make_users-IsUsable}
use realtime_fraud_feature_s.SeedReference
use realtime_fraud_feature_s.SeedReference.{
  users_table, merchants_table, user_rows, merchant_rows, seeded_users,
}
use realtime_fraud_feature_s.SeedReference.Replace.{Holds, OldOrNew, main-OldOrNew}
use realtime_fraud_feature_s.SeedReference.Resolve.{IsRowOf, user_rows_unresolved}
use realtime_fraud_feature_s.BronzeLoad
use realtime_fraud_feature_s.BronzeLoad.{drop_raw, Frame, text_rows, target_table, raw_json}
use realtime_fraud_feature_s.BronzeLoad.Readers.{IsNew}
use realtime_fraud_feature_s.BronzeLoad.Swap.{Shows, main-Shows}

abbrev factory : ProfileFactory toy_random toy_faker (λ s. s)
factory = post_init toy_random toy_faker (λ s. s) seeding (some (pos 42))

abbrev other_factory : ProfileFactory toy_random toy_faker (λ s. s)
other_factory = post_init toy_random toy_faker (λ s. s) running (some (pos 42))

make_users-AllAgree_example :
    let ours = make_users toy_random toy_faker (λ s. s) seeding 3 factory in
    let theirs = make_users toy_random toy_faker (λ s. s) running 3 other_factory in
    AllAgree seeding running 0 ours.0 theirs.0 × (ours.1 ≡ theirs.1)
make_users-AllAgree_example =
    make_users-AllAgree toy_random toy_faker (λ s. s) seeding running (pos 42) 3

make_users-IsUsable_example :
    let users = (make_users toy_random toy_faker (λ s. s) seeding 3 factory).0 in
    (length users ≡ 3) × All IsUsable users
make_users-IsUsable_example = make_users-IsUsable toy_random toy_faker (λ s. s) seeding 3 factory

-- Both tables hold one old row, and a view reads bronze.transactions.
abbrev old_row : List PgValue
old_row = PgValue.text (codes "old") ∷ []

abbrev warehouse : ToyDb
warehouse = record { tables = λ k. some (old_row ∷ []); views = λ v k. text_eq k target_table }

main-OldOrNew_example :
    let us = (user_rows toy_random toy_faker (λ s. s) seeding).0 in
    let ms = merchant_rows toy_random toy_faker (λ s. s) seeding in
    let p = SeedReference.main toy_random toy_faker (λ s. s) seeding toy_postgres warehouse in
    OldOrNew toy_postgres (old_row ∷ []) (old_row ∷ []) us ms p.db
    × All (OldOrNew toy_postgres (old_row ∷ []) (old_row ∷ []) us ms) p.shown
    × (p.result ≡ returned tt → Holds toy_postgres us ms p.db)
main-OldOrNew_example =
    main-OldOrNew toy_postgres toy_random toy_faker (λ s. s) seeding (old_row ∷ []) (old_row ∷ [])
      warehouse (record { users = refl; merchants = refl })

user_rows_unresolved_example :
    All
      (λ u.
        All (λ row. ¬ IsRowOf u.user_id row) (user_rows toy_random toy_faker (λ s. s) seeding).0)
      (seeded_users toy_random toy_faker (λ s. s) running).0
user_rows_unresolved_example =
    user_rows_unresolved toy_random toy_faker (λ s. s) seeding running ids_apart

abbrev frame : Frame ℕ
frame = record {
  columns = codes "transaction_id" ∷ codes "_raw_json" ∷ codes "amount" ∷ [];
  rows = (1 ∷ 2 ∷ 3 ∷ []) ∷ (4 ∷ 5 ∷ 6 ∷ []) ∷ [];
}

abbrev digit : ℕ → Option Text
digit n = some ((48 + n) ∷ [])

main-Shows_example :
    let rows = text_rows digit frame in
    Shows toy_postgres
      (old_row ∷ [])
      rows
      (BronzeLoad.main toy_postgres toy_jdbc digit frame warehouse)
    × ((BronzeLoad.main toy_postgres toy_jdbc digit frame warehouse).result ≡ returned tt
        → IsNew toy_postgres
            (old_row ∷ [])
            rows
            (BronzeLoad.main toy_postgres toy_jdbc digit frame warehouse).db)
main-Shows_example = main-Shows toy_postgres (old_row ∷ []) toy_jdbc digit frame warehouse refl

-- ===== src/Examples/History.antt =====
-- A backfill of 25 rows in chunks of 10, and one in chunks of none.
use realtime_fraud_feature_s.Prelude.{
  Outcome, raised, false, negsuc, ℕ, ◌≡◌, refl, true, List, [], ◌∷◌, map, codes, length, returned,
  some, pos, arith,
}
use realtime_fraud_feature_s.Python.{Decimal}
use realtime_fraud_feature_s.Fixtures.{toy_pydantic, toy_rupees, toy_random, toy_faker, seeding}
use realtime_fraud_feature_s.Schemas.{TransactionEvent}
use realtime_fraud_feature_s.Profiles.{UserProfile, MerchantProfile, post_init}
use realtime_fraud_feature_s.Profiles.Usable.{make_users-IsUsable}
use realtime_fraud_feature_s.Profiles.Merchants.{make_merchants-IsUsable}
use realtime_fraud_feature_s.Generator.{Draws, generate_amount, quantize, cents}
use realtime_fraud_feature_s.Generator.Batch.{TransactionGenerator, init}
use realtime_fraud_feature_s.Examples.Ingestion.{user, merchant}
use realtime_fraud_feature_s.Generator.Batch.Made.{Strips, InRange, AllGood}
use realtime_fraud_feature_s.SeedReference.{num_users, num_merchants, seed}
use realtime_fraud_feature_s.Backfill.{
  WriteError, key_error, writer, Formats, dumped_record, made_users, made_merchants, main_files,
}
use realtime_fraud_feature_s.Backfill.Dataset.{main_files-AllGood, main_files_empty}

abbrev pub one_rupee : Draws toy_rupees
one_rupee = record {
  user = 17;
  merchant = 3;
  spend = 0;
  type_ticket = 93;
  status_ticket = 99;
  keeps_method = true;
  method = 0;
  now = 1000;
  jitter = 4;
  device = 12345;
  octet = 2;
  second_octet = 7;
  third_octet = 250;
  later = 1005;
  transaction_id = codes "t1";
  ingested = record { wall = 1005; tzinfo = some (pos 0) };
}

abbrev toy_write : {J : Type 0} → List J → Outcome WriteError (Unit {0})
toy_write [] = raised key_error
toy_write (r ∷ rs) = returned tt

abbrev formats : Formats ℕ
formats = record {
  model_dump = λ e. e.amount.coefficient;
  date = λ t. t.wall ∷ [];
  hour = λ t. [];
  write_to_dataset = toy_write;
  write-empty = refl;
}

pub toy_Strips : Strips toy_pydantic
toy_Strips = record { printing = λ c s lo hi. omega arith; currency = refl; country = refl }

amount_one :
    (u : UserProfile) (m : MerchantProfile)
    → (a : Decimal) × (generate_amount toy_rupees 0 u m ≡ returned a)
unfolding generate_amount quantize cents
amount_one u m = (record { negative = false; coefficient = 100; exponent = negsuc 1 }, ground arith)

abbrev pub users : List UserProfile
users = (made_users toy_random toy_faker (λ s. s) seeding).0

abbrev pub merchants : List MerchantProfile
merchants = (made_merchants toy_random toy_faker (λ s. s) seeding).0

pub in_range : InRange toy_rupees toy_pydantic users merchants one_rupee
in_range =
    let (count_u, good_u) =
      make_users-IsUsable toy_random toy_faker (λ s. s) seeding num_users
        (post_init toy_random toy_faker (λ s. s) seeding (some seed)) in
    let (count_m, good_m) =
      make_merchants-IsUsable toy_random toy_faker (λ s. s) seeding num_merchants
        (made_users toy_random toy_faker (λ s. s) seeding).1 in
    record {
      user = omega (arith, count_u);
      merchant = omega (arith, count_m);
      octet = omega arith;
      method = omega arith;
      clock = omega arith;
      amount = λ u m _ _. amount_one u m;
    }

main_files-AllGood_example :
    (es : List TransactionEvent) × (main_files formats toy_rupees toy_pydantic
        (λ i. one_rupee)
        users
        merchants
        26
        (pos 25)
        (pos 10)
      ≡ returned (some (returned tt, map (dumped_record formats) es)))
    × (length es ≡ 25)
    × AllGood toy_rupees toy_pydantic (λ i. one_rupee) 0 es
main_files-AllGood_example =
    main_files-AllGood formats toy_rupees toy_pydantic (λ i. one_rupee) toy_random toy_faker
      (λ s. s) seeding (pos 25) 10 26 toy_Strips (λ j. in_range) (λ r rs. refl) (omega arith)
      (omega arith)

made : (g : TransactionGenerator) × (init (user ∷ []) (merchant ∷ []) ≡ returned g)
unfolding init
made = (_, refl)

main_files_empty_example :
    main_files formats toy_rupees toy_pydantic
      (λ i. one_rupee)
      (user ∷ [])
      (merchant ∷ [])
      7
      (pos 25)
      (pos 0)
    ≡ returned (some (raised (writer key_error), []))
main_files_empty_example =
    main_files_empty formats toy_rupees toy_pydantic (λ i. one_rupee) made.0 (user ∷ [])
      (merchant ∷ []) 25 6 (pos 0) made.1 (omega arith) (omega arith)

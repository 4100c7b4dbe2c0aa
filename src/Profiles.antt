-- ===== src/Profiles.antt =====
-- ingestion/transaction_generator/src/profiles.py. The factory's draws are those of `Random` and
-- `FakerLibrary`; identifiers and the clock come from `Outside`.
pub mod Seed
pub mod Usable
pub mod Merchants
use realtime_fraud_feature_s.Prelude.{
  ℕ, zero, suc, ◌+◌, ◌-◌, ◌*◌, Option, none, some, List, [], ◌∷◌, ◌++◌, Text, codes, text_eq,
  length, if◌then◌else◌, ℤ, pos,
}
use realtime_fraud_feature_s.Python.{
  Decimal, DateTime, choices, total, get_elem?, take, Random, FakerLibrary, Outside,
}

abbrev pub indian_cities : List (Text × ℕ)
indian_cities =
    (codes "Bangalore", 22)
    ∷ (codes "Mumbai", 20)
    ∷ (codes "Delhi", 16)
    ∷ (codes "Hyderabad", 10)
    ∷ (codes "Pune", 8)
    ∷ (codes "Chennai", 7)
    ∷ (codes "Kolkata", 5)
    ∷ (codes "Ahmedabad", 4)
    ∷ (codes "Jaipur", 3)
    ∷ (codes "Lucknow", 2)
    ∷ (codes "Indore", 2)
    ∷ (codes "Chandigarh", 1)
    ∷ []

abbrev pub merchant_categories : List Text
merchant_categories =
    codes "GROCERY"
    ∷ codes "ELECTRONICS"
    ∷ codes "RESTAURANT"
    ∷ codes "FUEL"
    ∷ codes "TRAVEL"
    ∷ codes "ENTERTAINMENT"
    ∷ codes "APPAREL"
    ∷ codes "PHARMACY"
    ∷ codes "EDUCATION"
    ∷ codes "UTILITIES"
    ∷ []

abbrev pub kyc_weights : List (Text × ℕ)
kyc_weights = (codes "VERIFIED", 85) ∷ (codes "PENDING", 12) ∷ (codes "REJECTED", 3) ∷ []

abbrev pub method_weights : List (Text × ℕ)
method_weights =
    (codes "UPI", 80) ∷ (codes "CARD", 12) ∷ (codes "NETBANKING", 5) ∷ (codes "WALLET", 3) ∷ []

abbrev pub tier_weights : List (Text × ℕ)
tier_weights = (codes "LOW", 70) ∷ (codes "MEDIUM", 25) ∷ (codes "HIGH", 5) ∷ []

pub record UserProfile : Type 0 where
  pub user_id : Text
  pub email_hash : Text
  pub phone_hash : Text
  pub city : Text
  pub country : Text
  pub account_created_at : DateTime
  pub kyc_status : Text
  pub risk_score : Decimal
  pub avg_transaction_amount : Decimal
  pub preferred_payment_method : Text

pub record MerchantProfile : Type 0 where
  pub merchant_id : Text
  pub merchant_name : Text
  pub category : Text
  pub city : Text
  pub country : Text
  pub onboarded_at : DateTime
  pub risk_tier : Text
  pub avg_ticket_size : Decimal

-- The dictionary `category_size_floor`.
abbrev pub category_size_floors : List (Text × ℕ)
category_size_floors =
    (codes "GROCERY", 200)
    ∷ (codes "RESTAURANT", 300)
    ∷ (codes "PHARMACY", 250)
    ∷ (codes "FUEL", 800)
    ∷ (codes "APPAREL", 1200)
    ∷ (codes "UTILITIES", 1000)
    ∷ (codes "ELECTRONICS", 5000)
    ∷ (codes "TRAVEL", 3500)
    ∷ (codes "ENTERTAINMENT", 500)
    ∷ (codes "EDUCATION", 8000)
    ∷ []

-- d.get(key, 500)
unfoldable pub floor_of : List (Text × ℕ) → Text → ℕ
floor_of [] category = 500
floor_of ((c, floor) ∷ floors) category =
    if text_eq c category then floor else floor_of floors category

-- now - timedelta(days=days), which lies after the year 1
unfoldable pub days_before : ℕ → ℕ → DateTime
days_before now days = record { wall = now - days * 86_400_000_000; tzinfo = some (pos 0) }

-- The element that `choice` or `choices` gives; the lists here are not empty.
abbrev pub drawn : Option Text → Text
drawn none = []
drawn (some s) = s

module _ (rnd : Random) (fk : FakerLibrary) (sha256 : Text → Text) where
  open rnd use {Rng, ticket, index, randint, betavariate, lognormvariate, uniform, scale, round}
  open fk use {Faker, email, phone_number, company}

  -- `made` counts the profiles that the process has made.
  pub record ProfileFactory : Type 0 where
    pub faker : Faker
    pub rng : Rng
    pub made : ℕ

  abbrev rng_of : Outside rnd fk → Option ℤ → Rng
  rng_of outside none = outside.unseeded
  rng_of outside (some seed) = rnd.seeded seed

  abbrev faker_of : Outside rnd fk → Option ℤ → Faker
  faker_of outside none = outside.unseeded_faker
  faker_of outside (some seed) = fk.seed_instance seed

  -- ProfileFactory(seed)
  unfoldable pub post_init : Outside rnd fk → Option ℤ → ProfileFactory
  post_init outside seed = record {
    faker = faker_of outside seed;
    rng = rng_of outside seed;
    made = 0;
  }

  unfoldable pub weighted_choice : List (Text × ℕ) → Rng → Text × Rng
  weighted_choice weights g =
      let (t, g') = ticket (total weights) g in (drawn (choices weights t), g')

  module _ (outside : Outside rnd fk) where
    unfoldable pub make_user : ProfileFactory → UserProfile × ProfileFactory
    unfolding weighted_choice days_before
    make_user f =
        let (mail, f1) = email f.faker in
        let (phone, f2) = phone_number f1 in
        let (city, g1) = weighted_choice indian_cities f.rng in
        let (kyc, g2) = weighted_choice kyc_weights g1 in
        let (risk, g3) = betavariate 2 8 g2 in
        let (amount, g4) = lognormvariate 70 7 g3 in
        let (days, g5) = randint 1 1500 g4 in
        let (method, g6) = weighted_choice method_weights g5 in
        (
          record {
            user_id = codes "user_" ++ take 10 (outside.uuid4_hex f.made);
            email_hash = sha256 mail;
            phone_hash = sha256 phone;
            city = city;
            country = codes "IN";
            account_created_at = days_before (outside.now f.made) days;
            kyc_status = kyc;
            risk_score = rnd.decimal (round risk);
            avg_transaction_amount = rnd.decimal (round amount);
            preferred_payment_method = method;
          },
          record { faker = f2; rng = g6; made = suc f.made },
        )

    -- [self.make_user() for _ in range(n)]
    unfoldable pub make_users : ℕ → ProfileFactory → List UserProfile × ProfileFactory
    make_users zero f = ([], f)
    make_users (suc n) f =
        let (u, f1) = make_user f in let (us, f2) = make_users n f1 in (u ∷ us, f2)

    unfoldable pub make_merchant : ProfileFactory → MerchantProfile × ProfileFactory
    unfolding weighted_choice days_before floor_of
    make_merchant f =
        let (i, g1) = index (length merchant_categories) f.rng in
        let category = drawn (get_elem? merchant_categories i) in
        let (city, g2) = weighted_choice indian_cities g1 in
        let (tier, g3) = weighted_choice tier_weights g2 in
        let (factor, g4) = uniform 7 25 g3 in
        let (name, f1) = company f.faker in
        let (days, g5) = randint 30 2000 g4 in
        (
          record {
            merchant_id = codes "merch_" ++ take 10 (outside.uuid4_hex f.made);
            merchant_name = name;
            category = category;
            city = city;
            country = codes "IN";
            onboarded_at = days_before (outside.now f.made) days;
            risk_tier = tier;
            avg_ticket_size =
                rnd.decimal (round (scale (floor_of category_size_floors category) factor));
          },
          record { faker = f1; rng = g5; made = suc f.made },
        )

    unfoldable pub make_merchants : ℕ → ProfileFactory → List MerchantProfile × ProfileFactory
    make_merchants zero f = ([], f)
    make_merchants (suc n) f =
        let (m, f1) = make_merchant f in let (ms, f2) = make_merchants n f1 in (m ∷ ms, f2)

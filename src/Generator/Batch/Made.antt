-- ===== src/Generator/Batch/Made.antt =====
-- That a generator over the factory's profiles always makes its events.
use realtime_fraud_feature_s.Prelude.{
  ℕ, zero, suc, ◌+◌, ◌≤◌, ◌<◌, ◌≡◌, refl, ap, true, Bool-cases, inl, inr, some, List, [], ◌∷◌, ◌++◌,
  Text, codes, length, All, returned, arith,
}
use realtime_fraud_feature_s.Python.{Decimal, get_elem?}
use realtime_fraud_feature_s.Schemas.{TransactionEvent, PaymentMethod, Pydantic}
use realtime_fraud_feature_s.Schemas.Accepts.{Conforms}
use realtime_fraud_feature_s.Profiles.{UserProfile, MerchantProfile}
use realtime_fraud_feature_s.Profiles.Usable as User
use realtime_fraud_feature_s.Profiles.Merchants as Merchant
use realtime_fraud_feature_s.Generator.{
  Floats, Draws, payment_methods, pick_payment_method, first_octets, generate_amount, generate_one,
}
use realtime_fraud_feature_s.Generator.Events.{Fits, generate_one_lem}
use realtime_fraud_feature_s.Generator.Batch.{TransactionGenerator, generate_batch}

-- pydantic strips white space alone, and knows capital letters.
pub record Strips (py : Pydantic) : Type 0 where
  pub printing : (c : ℕ) (s : Text) → 32 < c → c < 127 → 1 ≤ length (py.strip (c ∷ s))
  pub currency : py.capitals 3 (py.strip (codes "INR")) ≡ true
  pub country : py.capitals 2 (py.strip (codes "IN")) ≡ true

-- What an index gives, and what holds of it.
get_elem?-some {ℓ κ} :
    {A : Type ℓ} (P : A → Type κ) (xs : List A) (i : ℕ)
    → i < length xs
    → All P xs
    → (x : A) × (get_elem? xs i ≡ some x) × P x
get_elem?-some P [] i h all = absurd (omega arith)
get_elem?-some P (x ∷ xs) zero h (p, ps) = (x, refl, p)
get_elem?-some P (x ∷ xs) (suc i) h (p, ps) = get_elem?-some P xs i (omega arith) ps

All-true {ℓ} : {A : Type ℓ} (xs : List A) → All (λ x. Unit {0}) xs
All-true [] = tt
All-true (x ∷ xs) = (tt, All-true xs)

id_fits :
    (py : Pydantic) (c : ℕ) (tail s : Text)
    → Strips py
    → 32 < c
    → c < 127
    → s ≡ c ∷ tail
    → length tail ≤ 63
    → (1 ≤ length (py.strip s)) × (length (py.strip s) ≤ 64)
id_fits py c tail s strips lo hi e short =
    rw (e) (strips.printing c tail lo hi, omega (arith, py.length-strip (c ∷ tail)))

usable-Fits :
    (py : Pydantic) (user : UserProfile) (merchant : MerchantProfile)
    → Strips py
    → User.IsUsable user
    → Merchant.IsUsable merchant
    → Fits py user merchant
usable-Fits py user merchant strips u m =
    let (s, named_user, ten) = u.user_id in
    let (t, named_merchant, ten_too) = m.merchant_id in
    record {
      user_id =
          id_fits py 117 (codes "ser_" ++ s) user.user_id strips (omega arith) (omega arith)
            named_user (omega arith);
      merchant_id =
          id_fits py 109 (codes "erch_" ++ t) merchant.merchant_id strips (omega arith)
            (omega arith) named_merchant (omega arith);
      city = omega (arith, py.length-strip user.city, u.city_length);
      currency = strips.currency;
      country = strips.country;
    }

module _ (floats : Floats) (py : Pydantic) where
  -- The draws stay in their ranges, the clock does not go back, and the amount has at most 28
  -- digits.
  pub record InRange (users : List UserProfile) (merchants : List MerchantProfile)
      (d : Draws floats) : Type 0 where
    pub user : d.user < length users
    pub merchant : d.merchant < length merchants
    pub octet : d.octet < 7
    pub method : d.method < 4
    pub clock : d.now ≤ d.later
    pub amount :
        (u : UserProfile) (m : MerchantProfile)
        → get_elem? users d.user ≡ some u
        → get_elem? merchants d.merchant ≡ some m
        → (a : Decimal) × (generate_amount floats d.spend u m ≡ returned a)

  -- What the schema and the floor promise of an event.
  abbrev pub IsGood : Draws floats → TransactionEvent → Type 0
  IsGood d e = Conforms py d.later e × (100 ≤ e.amount.coefficient)

  method_found :
      (d : Draws floats) (user : UserProfile)
      → d.method < 4
      → User.IsUsable user
      → (m : PaymentMethod) × (pick_payment_method d.keeps_method d.method user ≡ returned m)
  unfolding pick_payment_method
  method_found d user h u = elim (Bool-cases d.keeps_method) [
    | inl keeps ↦ (u.method, rw (keeps, u.parsed) refl)
    | inr changes ↦
        let (m, found, _) =
          get_elem?-some (λ x. Unit {0}) payment_methods d.method h (All-true payment_methods) in
        (m, rw (changes, found) refl)
  ]

  generate_one-IsGood :
      (gen : TransactionGenerator) (d : Draws floats)
      → Strips py
      → All User.IsUsable gen.users
      → All Merchant.IsUsable gen.merchants
      → InRange gen.users gen.merchants d
      → (e : TransactionEvent) × (generate_one floats py gen.users gen.merchants d ≡ returned e)
        × IsGood d e
  generate_one-IsGood gen d strips users merchants range =
      let (u, found_u, good_u) = get_elem?-some User.IsUsable gen.users d.user range.user users in
      let (m, found_m, good_m) =
        get_elem?-some Merchant.IsUsable gen.merchants d.merchant range.merchant merchants in
      let (o, found_o, _) =
        get_elem?-some (λ x. Unit {0}) (first_octets floats) d.octet range.octet
          (All-true (first_octets floats)) in
      let (a, found_a) = range.amount u m found_u found_m in
      let (method, found_method) = method_found d u range.method good_u in
      let (e, made, conforms, _, _, _, floor, _) =
        generate_one_lem floats py d u m gen.users gen.merchants a method o found_u found_m found_o
          found_a found_method (usable-Fits py u m strips good_u good_m) range.clock in
      (e, made, (conforms, floor))

  module _ (draws : ℕ → Draws floats) where
    -- Each event beside its draws.
    abbrev pub AllGood : ℕ → List TransactionEvent → Type 0
    AllGood i [] = Unit
    AllGood i (e ∷ es) = IsGood (draws i) e × AllGood (i + 1) es

    -- With users and merchants as the factory makes them, and draws in their ranges, a batch of n
    -- events is made: it has n events, each conforms to the schema at the moment it is validated, and
    -- none is of less than one rupee.
    pub generate_batch-AllGood :
        (gen : TransactionGenerator) (i n : ℕ)
        → Strips py
        → All User.IsUsable gen.users
        → All Merchant.IsUsable gen.merchants
        → ((j : ℕ) → InRange gen.users gen.merchants (draws j))
        → (es : List TransactionEvent) × (generate_batch floats py draws gen i n ≡ returned es)
          × (length es ≡ n)
          × AllGood i es
    unfolding generate_batch
    generate_batch-AllGood gen i zero strips users merchants range = ([], refl, refl, tt)
    generate_batch-AllGood gen i (suc n) strips users merchants range =
        let (e, made, good) = generate_one-IsGood gen (draws i) strips users merchants (range i) in
        let (es, rest, count, all) =
          generate_batch-AllGood gen (i + 1) n strips users merchants range in
        (e ∷ es, rw (made, rest) refl, ap suc count, (good, all))

-- ===== src/Generator/Events.antt =====
-- `generate_one` of ingestion/transaction_generator/src/generator.py.
use realtime_fraud_feature_s.Prelude.{
  ℕ, zero, suc, ◌+◌, ◌/◌, ◌%◌, ◌≤◌, ◌≡◌, refl, true, Bool-cases, inl, inr, some, List, [], ◌∷◌,
  ◌++◌, Text, codes, length, ltb, returned, arith, pos,
}
use realtime_fraud_feature_s.Python.{Decimal}
use realtime_fraud_feature_s.Schemas.{
  TransactionEvent, TransactionType, TransactionStatus, PaymentMethod, Pydantic, create, stripped,
}
use realtime_fraud_feature_s.Schemas.Accepts.{Conforms, create_iff}
use realtime_fraud_feature_s.Generator.{
  UserProfile, MerchantProfile, Floats, Draws, get_elem?, pick_payment_method, digits, decimal,
  first_octets, generate_amount, generate_timestamp, generate_ip, event_of, generate_one,
}
use realtime_fraud_feature_s.Generator.Choices.{transaction_type_drawn, status_drawn}
use realtime_fraud_feature_s.Generator.Amount.{generate_amount-ge-one}

length-append : (s t : Text) → length (s ++ t) ≡ length s + length t
length-append [] t = omega arith
length-append (c ∷ s) t = omega (arith, length-append s t)

length-digits : (f n : ℕ) → length (digits f n) ≤ f
unfolding digits
length-digits zero n = omega arith
length-digits (suc f) n = elim (Bool-cases (ltb n 10)) [
  | inl small ↦ rw (small, length) (omega arith)
  | inr large ↦
      rw (large, length)
        (omega
          (arith, length-append (digits f (n / 10)) ((48 + n % 10) ∷ []), length-digits f (n / 10)))
]

length-generate_ip :
    (floats : Floats) (first : ℕ) (d : Draws floats) → length (generate_ip floats first d) ≤ 45
unfolding generate_ip
length-generate_ip floats first d =
    let end = decimal d.third_octet ++ codes ".0" in
    let rest = decimal d.second_octet ++ (46 ∷ end) in
    omega (
      arith,
      length-append (decimal first) (46 ∷ rest),
      length-append (decimal d.second_octet) (46 ∷ end),
      length-append (decimal d.third_octet) (codes ".0"),
      length-digits 5 first,
      length-digits 5 d.second_octet,
      length-digits 5 d.third_octet,
    )

-- What the schema asks of the profiles and the constants, once stripped.
pub record Fits (py : Pydantic) (user : UserProfile) (merchant : MerchantProfile) : Type 0 where
  pub user_id : (1 ≤ length (py.strip user.user_id)) × (length (py.strip user.user_id) ≤ 64)
  pub merchant_id :
      (1 ≤ length (py.strip merchant.merchant_id)) × (length (py.strip merchant.merchant_id) ≤ 64)
  pub city : length (py.strip user.city) ≤ 64
  pub currency : py.capitals 3 (py.strip (codes "INR")) ≡ true
  pub country : py.capitals 2 (py.strip (codes "IN")) ≡ true

module _ (floats : Floats) (py : Pydantic) (d : Draws floats) (user : UserProfile)
    (merchant : MerchantProfile) where
  event_of-Conforms :
      (amount : Decimal) (t : TransactionType) (s : TransactionStatus) (m : PaymentMethod)
      (first : ℕ)
      → Fits py user merchant
      → d.now ≤ d.later
      → generate_amount floats d.spend user merchant ≡ returned amount
      → Conforms py d.later (stripped py (event_of floats d user merchant amount t s m first))
  unfolding stripped event_of generate_timestamp
  event_of-Conforms amount t s m first fits clock a =
      let (sign, (exponent, coefficient)) =
        generate_amount-ge-one floats d.spend user merchant amount a in
      record {
        user_id = fits.user_id;
        merchant_id = fits.merchant_id;
        sign = sign;
        amount = omega arith;
        decimals = rw (exponent) (omega arith);
        currency = fits.currency;
        device_id = omega (
          arith,
          py.length-strip (codes "device_" ++ decimal d.device),
          length-digits 5 d.device,
        );
        ip_address = omega (
          arith,
          py.length-strip (generate_ip floats first d),
          length-generate_ip floats first d,
        );
        city = fits.city;
        country = fits.country;
        zone = pos 0;
        aware = refl;
        not_future = omega arith;
      }

  -- Let the user and the merchant that are drawn fit the schema, the clock not go back between the
  -- event's time and its validation, and the amount and the payment method be found. Then the event
  -- is made: it conforms to the schema, it is the user's and the merchant's, and it is of that amount,
  -- at least one rupee, and that method.
  pub generate_one_lem :
      (users : List UserProfile) (merchants : List MerchantProfile) (amount : Decimal)
      (method : PaymentMethod) (first : ℕ)
      → get_elem? users d.user ≡ some user
      → get_elem? merchants d.merchant ≡ some merchant
      → get_elem? (first_octets floats) d.octet ≡ some first
      → generate_amount floats d.spend user merchant ≡ returned amount
      → pick_payment_method d.keeps_method d.method user ≡ returned method
      → Fits py user merchant
      → d.now ≤ d.later
      → (e : TransactionEvent) × (generate_one floats py users merchants d ≡ returned e)
        × Conforms py d.later e
        × (e.user_id ≡ py.strip user.user_id)
        × (e.merchant_id ≡ py.strip merchant.merchant_id)
        × (e.amount ≡ amount)
        × (100 ≤ e.amount.coefficient)
        × (e.payment_method ≡ method)
  unfolding generate_one stripped event_of
  generate_one_lem users merchants amount method first u m o a p fits clock =
      let (t, kind) = transaction_type_drawn d.type_ticket in
      let (s, end) = status_drawn d.status_ticket in
      let e = event_of floats d user merchant amount t s method first in
      let made : create py d.later e ≡ returned (stripped py e) =
        (create_iff py d.later e (stripped py e)).1
          (refl, event_of-Conforms amount t s method first fits clock a) in
      (
        stripped py e,
        rw (u, m, a, kind, end, p, o, made),
        event_of-Conforms amount t s method first fits clock a,
        refl,
        refl,
        refl,
        (generate_amount-ge-one floats d.spend user merchant amount a).1.1,
        refl,
      )

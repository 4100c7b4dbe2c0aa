-- ===== src/Examples/Ingestion.antt =====
-- One event, and short runs of the producer and of the generator.
use realtime_fraud_feature_s.Prelude.{
  ℕ, ◌+◌, ◌*◌, ◌≤◌, ◌<◌, ◌≡◌, ◌↔◌, refl, true, false, [], ◌∷◌, text_eq, none, some, codes, pos,
  negsuc, returned, raised, arith, ◌<ℤ◌,
}
use realtime_fraud_feature_s.Fixtures.{toy_pydantic, toy_rupees}
use realtime_fraud_feature_s.Profiles.{UserProfile, MerchantProfile}
use realtime_fraud_feature_s.Python.{Decimal, DateTime, instant}
use realtime_fraud_feature_s.Schemas.{
  TransactionEvent, purchase, success, upi, create, stripped, validation_error,
  validate_timestamp_not_future,
}
use realtime_fraud_feature_s.Schemas.Accepts.{Conforms, create_iff}
use realtime_fraud_feature_s.Schemas.Clock.{zone_breaks_limit}
use realtime_fraud_feature_s.Producer.{
  World, start, Reach, here, next, accept, refuse, deliver, fail, stats,
}
use realtime_fraud_feature_s.Producer.Counts.{stats-Reach}
use realtime_fraud_feature_s.Generator.Events.{Fits, generate_one_lem}
use realtime_fraud_feature_s.Generator.{
  Draws, pick_payment_method, payment_method, generate_one, generate_amount, quantize, cents,
}
use realtime_fraud_feature_s.Generator.Amount.{generate_amount-ge-one}

abbrev pub event : TransactionEvent
event = record {
  transaction_id = codes "t1";
  user_id = codes "u1";
  merchant_id = codes "m1";
  amount = record { negative = false; coefficient = 12_550; exponent = negsuc 1 };
  currency = codes "INR";
  transaction_type = purchase;
  status = success;
  payment_method = upi;
  event_timestamp = record { wall = 990; tzinfo = some (pos 0) };
  ingestion_timestamp = record { wall = 1000; tzinfo = some (pos 0) };
  device_id = some (codes "device_12345");
  ip_address = none;
  city = some (codes "Pune");
  country = some (codes "IN");
}

create_iff_example :
    (create toy_pydantic 1000 event ≡ returned event)
    ↔ ((event ≡ stripped toy_pydantic event) × Conforms toy_pydantic 1000 event)
create_iff_example = create_iff toy_pydantic 1000 event event

zone_breaks_limit_example :
    let east : DateTime = record { wall = 1006; tzinfo = some (pos 6) } in
    let west : DateTime = record { wall = 998; tzinfo = some (negsuc 5) } in
    (instant east.wall (pos 6) ≡ pos 1000)
    × (validate_timestamp_not_future 1000 east ≡ raised validation_error)
    × (5 ≤ 1000
        → (pos 1000 <ℤ instant west.wall (negsuc 5))
          × (validate_timestamp_not_future 1000 west ≡ returned west))
zone_breaks_limit_example = zone_breaks_limit 1000 5 3 (omega arith)

abbrev history : (w : World) × Reach (start (codes "transactions.raw")) w
history = (_, next (next (next (next (next here accept) accept) refuse) (deliver refl)) (fail refl))

stats-Reach_example :
    ((stats history.0.producer).sent ≡ history.0.delivered + history.0.failed + history.0.in_flight)
    × ((stats history.0.producer).errors ≡ history.0.refused + history.0.failed)
    × ((stats history.0.producer).topic ≡ codes "transactions.raw")
    × (history.0.in_flight ≡ 0
        → 0 < history.0.failed
        → history.0.delivered < (stats history.0.producer).sent)
stats-Reach_example = stats-Reach (codes "transactions.raw") history.0 history.1

abbrev pub rupees : ℕ → Decimal
rupees n = record { negative = false; coefficient = n * 100; exponent = negsuc 1 }

abbrev pub user : UserProfile
user = record {
  user_id = codes "u1";
  email_hash = [];
  phone_hash = [];
  city = codes "Pune";
  country = codes "IN";
  account_created_at = record { wall = 0; tzinfo = some (pos 0) };
  kyc_status = codes "VERIFIED";
  risk_score = rupees 0;
  avg_transaction_amount = rupees 800;
  preferred_payment_method = codes "UPI";
}

abbrev pub merchant : MerchantProfile
merchant = record {
  merchant_id = codes "m1";
  merchant_name = codes "Kirana";
  category = codes "GROCERY";
  city = codes "Pune";
  country = codes "IN";
  onboarded_at = record { wall = 0; tzinfo = some (pos 0) };
  risk_tier = codes "LOW";
  avg_ticket_size = rupees 100;
}

pub amount_of : generate_amount toy_rupees 1 user merchant ≡ returned (rupees 500)
unfolding generate_amount quantize cents
amount_of = refl

generate_amount-ge-one_example : (false ≡ false) × ((negsuc 1 ≡ negsuc 1) × (100 ≤ 50000))
generate_amount-ge-one_example =
    generate_amount-ge-one toy_rupees 1 user merchant (rupees 500) amount_of

abbrev pub draws : Draws toy_rupees
draws = record {
  user = 0;
  merchant = 0;
  spend = 1;
  type_ticket = 93;
  status_ticket = 99;
  keeps_method = true;
  method = 0;
  now = 1000;
  jitter = 4;
  device = 12345;
  octet = 2;
  second_octet = 7;
  third_octet = 250;
  later = 1005;
  transaction_id = codes "t1";
  ingested = record { wall = 1005; tzinfo = some (pos 0) };
}

pub user-Fits : Fits toy_pydantic user merchant
user-Fits = record {
  user_id = (omega arith, omega arith);
  merchant_id = (omega arith, omega arith);
  city = omega arith;
  currency = refl;
  country = refl;
}

pub preferred : pick_payment_method true 0 user ≡ returned upi
unfolding pick_payment_method payment_method text_eq
preferred = refl

generate_one_lem_example :
    (e : TransactionEvent) × (generate_one toy_rupees toy_pydantic (user ∷ []) (merchant ∷ []) draws
      ≡ returned e)
    × Conforms toy_pydantic 1005 e
    × (e.user_id ≡ codes "u1")
    × (e.merchant_id ≡ codes "m1")
    × (e.amount ≡ rupees 500)
    × (100 ≤ e.amount.coefficient)
    × (e.payment_method ≡ upi)
generate_one_lem_example =
    generate_one_lem toy_rupees toy_pydantic draws user merchant (user ∷ []) (merchant ∷ [])
      (rupees 500) upi 117 refl refl refl amount_of preferred user-Fits (omega arith)

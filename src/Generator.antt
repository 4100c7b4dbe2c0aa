-- ===== src/Generator.antt =====
-- ingestion/transaction_generator/src/generator.py. The random draws of one event are an argument,
-- `Draws`.
pub mod Amount
pub mod Choices
pub mod Events
pub mod Batch
use realtime_fraud_feature_s.Prelude.{
  ℕ, zero, suc, ◌+◌, ◌-◌, ◌*◌, ◌/◌, ◌%◌, ◌^◌, ◌≤◌, ◌<◌, ◌≡◌, Bool, true, false, Option, none, some,
  List, [], ◌∷◌, ◌++◌, Text, codes, text_eq, length, ltb, leb, Outcome, returned, raised, ◌>>=◌,
  if◌then◌else◌, ℤ, pos, negsuc,
}
use realtime_fraud_feature_s.Python.{Decimal, DateTime, choices, get_elem?}
use realtime_fraud_feature_s.Profiles.{UserProfile, MerchantProfile}
use realtime_fraud_feature_s.Schemas.{
  TransactionType, purchase, refund, transfer, withdrawal, TransactionStatus, pending, success,
  failed, PaymentMethod, upi, card, netbanking, wallet, TransactionEvent, Pydantic, SchemaError,
  create,
}

-- A ValueError or IndexError, what the schema raises, or decimal's InvalidOperation.
pub data GeneratorError : Type 0 where
  value_error invalid_operation : GeneratorError
  schema : SchemaError → GeneratorError

abbrev pub tx_type_weights : List (TransactionType × ℕ)
tx_type_weights = (purchase, 92) ∷ (refund, 4) ∷ (transfer, 3) ∷ (withdrawal, 1) ∷ []

abbrev pub status_weights : List (TransactionStatus × ℕ)
status_weights = (success, 95) ∷ (failed, 4) ∷ (pending, 1) ∷ []

abbrev pub payment_methods : List PaymentMethod
payment_methods = upi ∷ card ∷ netbanking ∷ wallet ∷ []

-- `rng.choice(xs)`, by the index drawn, which an empty list refuses
abbrev pub or_raise {ℓ} : {A : Type ℓ} → Option A → Outcome GeneratorError A
or_raise none = raised value_error
or_raise (some a) = returned a

-- PaymentMethod(text)
unfoldable pub payment_method : Text → Option PaymentMethod
payment_method s =
    if text_eq s (codes "UPI")
    then some upi
    else if text_eq s (codes "CARD")
    then some card
    else if text_eq s (codes "NETBANKING")
    then some netbanking
    else if text_eq s (codes "WALLET")
    then some wallet
    else none

-- `self._rng.random() < 0.8` keeps the preferred method.
unfoldable pub pick_payment_method : Bool → ℕ → UserProfile → Outcome GeneratorError PaymentMethod
unfolding payment_method
pick_payment_method keeps index user =
    if keeps
    then or_raise (payment_method user.preferred_payment_method)
    else or_raise (get_elem? payment_methods index)

-- Division by `m`, a half going up.
unfoldable pub half_up : ℕ → ℕ → ℕ
half_up c m = if leb m (2 * (c % m)) then c / m + 1 else c / m

-- The coefficient at exponent -2 of `d.quantize(Decimal("0.01"), rounding=ROUND_HALF_UP)`.
unfoldable pub cents : ℕ → ℤ → ℕ
cents c (pos n) = c * 10 ^ suc (suc n)
cents c (negsuc zero) = c * 10
cents c (negsuc (suc zero)) = c
cents c (negsuc (suc (suc k))) = half_up c (10 ^ suc k)

-- `quantize` refuses a result of more than 28 digits.
unfoldable pub quantize : Decimal → Outcome GeneratorError Decimal
unfolding cents half_up
quantize d =
    let c = cents d.coefficient d.exponent in
    if ltb c (10 ^ 28)
    then returned (record { negative = d.negative; coefficient = c; exponent = negsuc 1 })
    else raised invalid_operation

-- |d| >= 1
abbrev pub AtLeastOne : ℕ → ℤ → Type 0
AtLeastOne c (pos n) = 1 ≤ c
AtLeastOne c (negsuc k) = 10 ^ suc k ≤ c

-- Finite floats as `_generate_amount` uses them; `repr` is `Decimal(str(x))`, the shortest decimal
-- that reads as `x`.
pub record Floats : Type 1 where
  pub F : Type 0
  pub to_float : Decimal → F
  pub mul : F → F → F
  pub one : F
  pub five : F
  pub lt : F → F → Bool
  pub repr : F → Decimal
  pub repr-one :
      (x : F)
      → lt x one ≡ false
      → ((repr x).negative ≡ false) × AtLeastOne (repr x).coefficient (repr x).exponent
  pub lt_irrefl : lt one one ≡ false

-- str(n) of a number below 100000
unfoldable pub digits : ℕ → ℕ → Text
digits zero n = []
digits (suc f) n = elim (ltb n 10) [
  | true ↦ (48 + n) ∷ []
  | false ↦ digits f (n / 10) ++ (48 + n % 10) ∷ []
]

abbrev pub decimal : ℕ → Text
decimal n = digits 5 n

module _ (floats : Floats) where
  open floats use {F, to_float, mul, one, five, lt, repr}

  -- min(a, b) and max(a, b) of Python
  abbrev pub min_float : F → F → F
  min_float a b = if lt b a then b else a

  abbrev pub max_float : F → F → F
  max_float a b = if lt a b then b else a

  -- `draw` is `lognormvariate(0, 0.5)`.
  unfoldable pub generate_amount :
      F → UserProfile → MerchantProfile → Outcome GeneratorError Decimal
  generate_amount draw user merchant =
      let raw = mul draw (to_float user.avg_transaction_amount) in
      let cap = mul (to_float merchant.avg_ticket_size) five in
      quantize (repr (max_float (min_float raw cap) one))

  -- What the random generator and the clock give for one event. `now` is the clock, in
  -- microseconds, when the time is generated, `jitter` at most five seconds, and `later` the clock
  -- when the schema validates.
  pub record Draws : Type 0 where
    pub user : ℕ
    pub merchant : ℕ
    pub spend : F
    pub type_ticket : ℕ
    pub status_ticket : ℕ
    pub keeps_method : Bool
    pub method : ℕ
    pub now : ℕ
    pub jitter : ℕ
    pub device : ℕ
    pub octet : ℕ
    pub second_octet : ℕ
    pub third_octet : ℕ
    pub later : ℕ
    pub transaction_id : Text
    pub ingested : DateTime

  abbrev pub first_octets : List ℕ
  first_octets = 103 ∷ 106 ∷ 117 ∷ 122 ∷ 157 ∷ 182 ∷ 203 ∷ []

  unfoldable pub generate_timestamp : Draws → DateTime
  generate_timestamp d = record { wall = d.now - d.jitter; tzinfo = some (pos 0) }

  unfoldable pub generate_ip : ℕ → Draws → Text
  generate_ip first d =
      decimal first
      ++ (46 ∷ (decimal d.second_octet ++ (46 ∷ (decimal d.third_octet ++ codes ".0"))))

  -- The arguments of `TransactionEvent(...)`.
  unfoldable pub event_of :
      Draws
      → UserProfile
      → MerchantProfile
      → Decimal
      → TransactionType
      → TransactionStatus
      → PaymentMethod
      → ℕ
      → TransactionEvent
  unfolding generate_timestamp generate_ip
  event_of d user merchant amount transaction_type status method first = record {
    transaction_id = d.transaction_id;
    user_id = user.user_id;
    merchant_id = merchant.merchant_id;
    amount = amount;
    currency = codes "INR";
    transaction_type = transaction_type;
    status = status;
    payment_method = method;
    event_timestamp = generate_timestamp d;
    ingestion_timestamp = d.ingested;
    device_id = some (codes "device_" ++ decimal d.device);
    ip_address = some (generate_ip first d);
    city = some user.city;
    country = some (codes "IN");
  }

  abbrev pub lifted : Outcome SchemaError TransactionEvent → Outcome GeneratorError TransactionEvent
  lifted (returned e) = returned e
  lifted (raised x) = raised (schema x)

  unfoldable pub generate_one :
      Pydantic
      → List UserProfile
      → List MerchantProfile
      → Draws
      → Outcome GeneratorError TransactionEvent
  unfolding event_of
  generate_one py users merchants d = do
    user ← or_raise (get_elem? users d.user)
    merchant ← or_raise (get_elem? merchants d.merchant)
    amount ← generate_amount d.spend user merchant
    transaction_type ← or_raise (choices tx_type_weights d.type_ticket)
    status ← or_raise (choices status_weights d.status_ticket)
    method ← pick_payment_method d.keeps_method d.method user
    first ← or_raise (get_elem? first_octets d.octet)
    lifted
        (create py d.later (event_of d user merchant amount transaction_type status method first))

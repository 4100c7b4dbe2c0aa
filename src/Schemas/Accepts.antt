-- ===== src/Schemas/Accepts.antt =====
-- Which events the schema accepts.
use realtime_fraud_feature_s.Prelude.{
  Option-cases, inl, inr, sym, ℕ, ◌≤◌, ◌<◌, ◌≡◌, ◌↔◌, refl, true, false, Option, none, some, Text,
  length, Outcome, returned, raised, ℤ, negsuc, ◌≤ℤ◌, arith,
}
use mathlib.Core.Path.{subst}
use realtime_fraud_feature_s.Python.{Decimal, DateTime}
use realtime_fraud_feature_s.Schemas.{
  TransactionEvent, Pydantic, SchemaError, type_error, validation_error, validate_amount_precision,
  validate_timestamp_not_future, optional, has_length, is_positive, stripped, constraints,
  validated, create,
}

-- A text of an optional field, where there is one, is at most this long.
abbrev pub AtMost : ℕ → Option Text → Type 0
AtMost n none = Unit
AtMost n (some s) = length s ≤ n

-- What the schema promises of an event: identifiers of 1 to 64 characters, a positive amount with
-- at most two decimals, a currency of three and a country of two letters, and a time with a zone
-- whose clock reading is not past that of `now`.
pub record Conforms (py : Pydantic) (now : ℕ) (e : TransactionEvent) : Type 0 where
  pub user_id : (1 ≤ length e.user_id) × (length e.user_id ≤ 64)
  pub merchant_id : (1 ≤ length e.merchant_id) × (length e.merchant_id ≤ 64)
  pub sign : e.amount.negative ≡ false
  pub amount : 0 < e.amount.coefficient
  pub decimals : negsuc 1 ≤ℤ e.amount.exponent
  pub currency : py.capitals 3 e.currency ≡ true
  pub device_id : AtMost 64 e.device_id
  pub ip_address : AtMost 45 e.ip_address
  pub city : AtMost 64 e.city
  pub country : optional (py.capitals 2) e.country ≡ true
  pub zone : ℤ
  pub aware : e.event_timestamp.tzinfo ≡ some zone
  pub not_future : e.event_timestamp.wall ≤ now

optional-AtMost : (n : ℕ) (o : Option Text) → (optional (has_length 0 n) o ≡ true) ↔ AtMost n o
optional-AtMost n none = (λ _. tt, λ _. refl)
optional-AtMost n (some s) = ground arith

validate_amount_iff :
    (d : Decimal) → (validate_amount_precision d ≡ returned d) ↔ (negsuc 1 ≤ℤ d.exponent)
unfolding validate_amount_precision
validate_amount_iff d = ground arith

validate_amount-returned :
    (d d' : Decimal) → validate_amount_precision d ≡ returned d' → negsuc 1 ≤ℤ d.exponent
unfolding validate_amount_precision
validate_amount-returned d d' h = ground arith

timestamp-returned :
    (now : ℕ) (v v' : DateTime)
    → validate_timestamp_not_future now v ≡ returned v'
    → (zone : ℤ) × (v.tzinfo ≡ some zone) × (v.wall ≤ now)
unfolding validate_timestamp_not_future
timestamp-returned now v v' h = elim (Option-cases v.tzinfo) [
  | inl naive ↦ cc (rw (naive, validate_timestamp_not_future) at h)
  | inr (zone, aware) ↦ (zone, aware, ground arith)
]

timestamp-accepted :
    (now : ℕ) (v : DateTime) (zone : ℤ)
    → v.tzinfo ≡ some zone
    → v.wall ≤ now
    → validate_timestamp_not_future now v ≡ returned v
unfolding validate_timestamp_not_future
timestamp-accepted now v zone aware le = ground arith

module _ (py : Pydantic) where
  validated-returned :
      (e : TransactionEvent) (p : Outcome SchemaError Decimal) (t : Outcome SchemaError DateTime)
      (e' : TransactionEvent)
      → validated py e p t ≡ returned e'
      → (d : Decimal) × (v : DateTime) × (p ≡ returned d)
        × (t ≡ returned v)
        × (constraints py e ≡ true)
        × (e ≡ e')
  unfolding validated
  validated-returned e p (raised type_error) e' h = cc
  validated-returned e p (raised validation_error) e' h = cc
  validated-returned e (raised x) (returned t) e' h = cc
  validated-returned e (returned d) (returned t) e' h =
      (d, t, refl, refl, ground arith, ground arith)

  constraints_iff :
      (e : TransactionEvent)
      → (constraints py e ≡ true) ↔ (
          (has_length 1 64 e.user_id ≡ true)
          × (has_length 1 64 e.merchant_id ≡ true)
          × (is_positive e.amount ≡ true)
          × (py.capitals 3 e.currency ≡ true)
          × (optional (has_length 0 64) e.device_id ≡ true)
          × (optional (has_length 0 45) e.ip_address ≡ true)
          × (optional (has_length 0 64) e.city ≡ true)
          × (optional (py.capitals 2) e.country ≡ true))
  unfolding constraints
  constraints_iff e = ground arith

  constraints-Conforms :
      (e : TransactionEvent) (now : ℕ) (d : Decimal) (v : DateTime)
      → validate_amount_precision e.amount ≡ returned d
      → validate_timestamp_not_future now e.event_timestamp ≡ returned v
      → constraints py e ≡ true
      → Conforms py now e
  constraints-Conforms e now d v p t c =
      let (user, merchant, positive, currency, device, ip, city, country) =
        (constraints_iff e).0 c in
      let (zone, aware, le) = timestamp-returned now e.event_timestamp v t in
      record {
        user_id = ground arith;
        merchant_id = ground arith;
        sign = ground arith;
        amount = ground arith;
        decimals = validate_amount-returned e.amount d p;
        currency = currency;
        device_id = (optional-AtMost 64 e.device_id).0 device;
        ip_address = (optional-AtMost 45 e.ip_address).0 ip;
        city = (optional-AtMost 64 e.city).0 city;
        country = country;
        zone = zone;
        aware = aware;
        not_future = le;
      }

  accepted_of :
      (e : TransactionEvent) (now : ℕ)
      → Conforms py now e
      → validated py e
          (validate_amount_precision e.amount)
          (validate_timestamp_not_future now e.event_timestamp)
        ≡ returned e
  unfolding validated
  accepted_of e now c = rw (
    timestamp-accepted now e.event_timestamp c.zone c.aware c.not_future,
    (validate_amount_iff e.amount).1 c.decimals,
    (constraints_iff e).1 (
      ground arith,
      ground arith,
      ground arith,
      c.currency,
      (optional-AtMost 64 e.device_id).1 c.device_id,
      (optional-AtMost 45 e.ip_address).1 c.ip_address,
      (optional-AtMost 64 e.city).1 c.city,
      c.country,
    ),
  )

  -- Construction succeeds exactly on arguments that conform once they are stripped, and gives the
  -- stripped arguments back.
  pub create_iff :
      (now : ℕ) (arguments e : TransactionEvent)
      → (create py now arguments ≡ returned e) ↔ ((e ≡ stripped py arguments) × Conforms py now e)
  unfolding create
  create_iff now arguments e = (forth, back)
    where
      forth :
          validated py
              (stripped py arguments)
              (validate_amount_precision (stripped py arguments).amount)
              (validate_timestamp_not_future now (stripped py arguments).event_timestamp)
            ≡ returned e
          → (e ≡ stripped py arguments) × Conforms py now e
      forth h =
          let (d, v, p, t, c, same) = validated-returned _ _ _ e h in
          (
            sym same,
            subst (Conforms py now) same
                (constraints-Conforms (stripped py arguments) now d v p t c),
          )

      back :
          (e ≡ stripped py arguments) × Conforms py now e
          → validated py
              (stripped py arguments)
              (validate_amount_precision (stripped py arguments).amount)
              (validate_timestamp_not_future now (stripped py arguments).event_timestamp)
            ≡ returned e
      back (same, c) = rw (← same) (accepted_of e now c)

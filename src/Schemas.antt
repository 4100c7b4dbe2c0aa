-- ===== src/Schemas.antt =====
-- ingestion/transaction_generator/src/schemas.py: the event model, its declared constraints and
-- its two validators. pydantic's own checks are the parameter `Pydantic`.
pub mod Accepts
pub mod Clock
use realtime_fraud_feature_s.Prelude.{
  ℕ, ◌≤◌, ◌≡◌, ◌↔◌, Bool, true, false, not, ◌&&◌, Option, none, some, Text, length, leb, ltb,
  Outcome, returned, raised, ◌>>=◌, if◌then◌else◌, ℤ, pos, negsuc, ltb_ℤ,
}
use realtime_fraud_feature_s.Python.{Decimal, DateTime}

pub data TransactionType : Type 0 where
  purchase refund transfer withdrawal : TransactionType

pub data TransactionStatus : Type 0 where
  pending success failed : TransactionStatus

pub data PaymentMethod : Type 0 where
  upi card netbanking wallet : PaymentMethod

pub record TransactionEvent : Type 0 where
  pub transaction_id : Text
  pub user_id : Text
  pub merchant_id : Text
  pub amount : Decimal
  pub currency : Text
  pub transaction_type : TransactionType
  pub status : TransactionStatus
  pub payment_method : PaymentMethod
  pub event_timestamp : DateTime
  pub ingestion_timestamp : DateTime
  pub device_id : Option Text
  pub ip_address : Option Text
  pub city : Option Text
  pub country : Option Text

-- `str_strip_whitespace` and the pattern `^[A-Z]{n}$`, as pydantic carries them out.
pub record Pydantic : Type 0 where
  pub strip : Text → Text
  pub capitals : ℕ → Text → Bool
  pub length-strip : (s : Text) → length (strip s) ≤ length s
  pub capitals-length : (n : ℕ) (s : Text) → capitals n s ≡ true → length s ≡ n

-- A ValidationError, which collects the fields' ValueErrors, or an exception that pydantic lets
-- through, as it does with a validator's TypeError.
pub data SchemaError : Type 0 where
  validation_error type_error : SchemaError

-- v.as_tuple().exponent < -2
unfoldable pub validate_amount_precision : Decimal → Outcome SchemaError Decimal
validate_amount_precision v =
    if ltb_ℤ v.exponent (negsuc 1) then raised validation_error else returned v

-- `now` is `datetime.now(UTC)`. `now.replace(tzinfo=v.tzinfo)` keeps the digits of its clock, and
-- two times of one zone compare by their digits; a naive `v` does not compare with an aware one.
unfoldable pub validate_timestamp_not_future : ℕ → DateTime → Outcome SchemaError DateTime
validate_timestamp_not_future now v = elim v.tzinfo [
  | none ↦ raised type_error
  | some zone ↦ if ltb now v.wall then raised validation_error else returned v
]

-- gt=0
abbrev pub is_positive : Decimal → Bool
is_positive d = not d.negative && ltb 0 d.coefficient

-- min_length=lo, max_length=hi
abbrev pub has_length : ℕ → ℕ → Text → Bool
has_length lo hi s = leb lo (length s) && leb (length s) hi

-- A constraint on a field that may be None.
abbrev pub optional : (Text → Bool) → Option Text → Bool
optional test none = true
optional test (some s) = test s

abbrev pub strip_option : (Text → Text) → Option Text → Option Text
strip_option strip none = none
strip_option strip (some s) = some (strip s)

module _ (py : Pydantic) where
  -- The arguments with their white space stripped.
  unfoldable pub stripped : TransactionEvent → TransactionEvent
  stripped e = record e {
    user_id = py.strip e.user_id;
    merchant_id = py.strip e.merchant_id;
    currency = py.strip e.currency;
    device_id = strip_option py.strip e.device_id;
    ip_address = strip_option py.strip e.ip_address;
    city = strip_option py.strip e.city;
    country = strip_option py.strip e.country;
  }

  -- The constraints that the `Field` declarations state.
  unfoldable pub constraints : TransactionEvent → Bool
  constraints e =
      has_length 1 64 e.user_id
      && has_length 1 64 e.merchant_id
      && is_positive e.amount
      && py.capitals 3 e.currency
      && optional (has_length 0 64) e.device_id
      && optional (has_length 0 45) e.ip_address
      && optional (has_length 0 64) e.city
      && optional (py.capitals 2) e.country

  -- A TypeError of the timestamp's validator ends the validation of the whole event, and any
  -- ValueError is reported at the end.
  unfoldable pub validated :
      TransactionEvent
      → Outcome SchemaError Decimal
      → Outcome SchemaError DateTime
      → Outcome SchemaError TransactionEvent
  validated e precision (raised type_error) = raised type_error
  validated e precision (raised validation_error) = raised validation_error
  validated e (raised x) (returned t) = raised validation_error
  validated e (returned d) (returned t) =
      if constraints e then returned e else raised validation_error

  -- TransactionEvent(...), with the two defaults filled in by the caller.
  unfoldable pub create : ℕ → TransactionEvent → Outcome SchemaError TransactionEvent
  create now arguments =
      let e = stripped arguments in
      validated e (validate_amount_precision e.amount)
        (validate_timestamp_not_future now e.event_timestamp)

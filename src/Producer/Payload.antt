-- ===== src/Producer/Payload.antt =====
-- The value of a message: `event.model_dump(mode="python")`, which gives the fields as they are, and
-- the `value_serializer` of `TransactionKafkaProducer`, `json.dumps` with `_EventEncoder`. A member
-- of a `StrEnum` is its text.
use realtime_fraud_feature_s.Prelude.{
  ◌≡◌, refl, Option, none, some, [], ◌∷◌, Text, codes, text_eq, get, Dict, IsDict, Outcome,
  returned, ◌>>=◌,
}
use realtime_fraud_feature_s.Python.{Decimal, Json, Runtime}
use realtime_fraud_feature_s.Schemas.{
  TransactionType, purchase, refund, transfer, withdrawal, TransactionStatus, pending, success,
  failed, PaymentMethod, upi, card, netbanking, wallet, TransactionEvent,
}
use realtime_fraud_feature_s.Producer.{Unencodable, decimal, datetime, uuid, EncodeError, default}

abbrev pub type_text : TransactionType → Text
type_text purchase = codes "PURCHASE"
type_text refund = codes "REFUND"
type_text transfer = codes "TRANSFER"
type_text withdrawal = codes "WITHDRAWAL"

abbrev pub status_text : TransactionStatus → Text
status_text pending = codes "PENDING"
status_text success = codes "SUCCESS"
status_text failed = codes "FAILED"

abbrev pub method_text : PaymentMethod → Text
method_text upi = codes "UPI"
method_text card = codes "CARD"
method_text netbanking = codes "NETBANKING"
method_text wallet = codes "WALLET"

-- A field's value: a text or `None`, which json encodes itself, or what it hands to `default`.
pub data Value : Type 0 where
  text : Text → Value
  absent : Value
  special : Unencodable (Unit {0}) → Value

abbrev pub optional_text : Option Text → Value
optional_text none = absent
optional_text (some s) = text s

unfoldable pub fields : TransactionEvent → Dict Value
fields e =
    (codes "transaction_id", special (uuid e.transaction_id))
    ∷ (codes "user_id", text e.user_id)
    ∷ (codes "merchant_id", text e.merchant_id)
    ∷ (codes "amount", special (decimal e.amount))
    ∷ (codes "currency", text e.currency)
    ∷ (codes "transaction_type", text (type_text e.transaction_type))
    ∷ (codes "status", text (status_text e.status))
    ∷ (codes "payment_method", text (method_text e.payment_method))
    ∷ (codes "event_timestamp", special (datetime e.event_timestamp))
    ∷ (codes "ingestion_timestamp", special (datetime e.ingestion_timestamp))
    ∷ (codes "device_id", optional_text e.device_id)
    ∷ (codes "ip_address", optional_text e.ip_address)
    ∷ (codes "city", optional_text e.city)
    ∷ (codes "country", optional_text e.country)
    ∷ []

module _ (rt : Runtime) (str_decimal : Decimal → Text) where
  unfoldable pub encode_value : Value → Outcome EncodeError (Json rt.Float)
  encode_value (text s) = returned (Json.str s)
  encode_value absent = returned Json.null
  encode_value (special v) = do s ← default str_decimal rt.isoformat v; returned (Json.str s)

  unfoldable pub encode_all : Dict Value → Outcome EncodeError (Dict (Json rt.Float))
  encode_all [] = returned []
  encode_all ((name, v) ∷ values) = do
    json ← encode_value v
    rest ← encode_all values
    returned ((name, json) ∷ rest)

  unfoldable pub value_serializer : TransactionEvent → Outcome EncodeError Text
  value_serializer e = do object ← encode_all (fields e); returned (rt.dumps object)

  abbrev pub optional_json : Option Text → Json rt.Float
  optional_json none = Json.null
  optional_json (some s) = Json.str s

  -- The JSON object of an event.
  abbrev pub object_of : TransactionEvent → Dict (Json rt.Float)
  object_of e =
      (codes "transaction_id", Json.str e.transaction_id)
      ∷ (codes "user_id", Json.str e.user_id)
      ∷ (codes "merchant_id", Json.str e.merchant_id)
      ∷ (codes "amount", Json.str (str_decimal e.amount))
      ∷ (codes "currency", Json.str e.currency)
      ∷ (codes "transaction_type", Json.str (type_text e.transaction_type))
      ∷ (codes "status", Json.str (status_text e.status))
      ∷ (codes "payment_method", Json.str (method_text e.payment_method))
      ∷ (codes "event_timestamp", Json.str (rt.isoformat e.event_timestamp))
      ∷ (codes "ingestion_timestamp", Json.str (rt.isoformat e.ingestion_timestamp))
      ∷ (codes "device_id", optional_json e.device_id)
      ∷ (codes "ip_address", optional_json e.ip_address)
      ∷ (codes "city", optional_json e.city)
      ∷ (codes "country", optional_json e.country)
      ∷ []

  encode_value-optional_text :
      (o : Option Text) → encode_value (optional_text o) ≡ returned (optional_json o)
  unfolding encode_value
  encode_value-optional_text none = refl
  encode_value-optional_text (some s) = refl

  -- Every event can be encoded.
  pub value_serializer-returned :
      (e : TransactionEvent) → value_serializer e ≡ returned (rt.dumps (object_of e))
  unfolding value_serializer encode_all fields encode_value default
  value_serializer-returned e =
      rw
        (
          encode_value-optional_text e.device_id,
          encode_value-optional_text e.ip_address,
          encode_value-optional_text e.city,
          encode_value-optional_text e.country,
        )
        refl

  pub object_of-IsDict : (e : TransactionEvent) → IsDict (object_of e)
  unfolding get text_eq
  object_of-IsDict e = (
    refl,
    (
      refl,
      (
        refl,
        (refl, (refl, (refl, (refl, (refl, (refl, (refl, (refl, (refl, (refl, (refl, tt))))))))))),
      ),
    ),
  )

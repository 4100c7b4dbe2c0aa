-- ===== src/Python/Values.antt =====
-- `Decimal`, the values of a result row, and JSON objects with flat values.
use realtime_fraud_feature_s.Prelude.{ℕ, Bool, Text, ℤ}
use realtime_fraud_feature_s.Python.Calendar.{Date, DateTime}

-- A finite `Decimal`: (-1)^negative * coefficient * 10^exponent
pub record Decimal : Type 0 where
  pub negative : Bool
  pub coefficient : ℕ
  pub exponent : ℤ

-- What psycopg2 hands over for a column.
pub data PgValue : Type 0 where
  null : PgValue
  boolean : Bool → PgValue
  integer : ℤ → PgValue
  numeric : Decimal → PgValue
  text : Text → PgValue
  date : Date → PgValue
  timestamp : DateTime → PgValue

pub data Json (F : Type 0) : Type 0 where
  null : Json F
  bool : Bool → Json F
  int : ℤ → Json F
  float : F → Json F
  str : Text → Json F
  compound : Text → Json F

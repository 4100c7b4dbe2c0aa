-- ===== src/Fixtures/Wire.antt =====
-- A Spark that reads the objects that the stand-in of json writes.
use realtime_fraud_feature_s.Prelude.{
  ◌≡◌, refl, ◌/◌, ℕ, Option, none, some, [], ◌∷◌, Text, length, Dict, IsDict,
}
use realtime_fraud_feature_s.Python.{Decimal, Json}
use realtime_fraud_feature_s.Bronze.{Spark, Parsed}
use realtime_fraud_feature_s.Flow.{Wire, schema_columns}
use realtime_fraud_feature_s.Fixtures.Codec.{toy_runtime}
use realtime_fraud_feature_s.Fixtures.Ingestion.{toy_from_json}

abbrev pub toy_as_string : Json ℕ → Option Text
toy_as_string (Json.str s) = some s
toy_as_string _ = none

abbrev pub toy_read : Option (Dict (Json ℕ)) → Parsed
toy_read none = toy_from_json none
toy_read (some object) = schema_columns toy_as_string object

abbrev pub toy_from_object : Option Text → Parsed
toy_from_object none = toy_from_json none
toy_from_object (some payload) = toy_read (toy_runtime.loads payload)

abbrev pub toy_json_spark : Spark
toy_json_spark = record {
  Time = ℕ;
  from_json = toy_from_object;
  sha2 = λ s. length s ∷ [];
  to_timestamp = λ s. some (length s);
  to_date = λ t. t ∷ [];
  hour = λ t. t / 3600;
}

pub toy_from_json-dumps :
    (o : Dict (Json ℕ))
    → IsDict o
    → toy_from_object (some (toy_runtime.dumps o)) ≡ schema_columns toy_as_string o
toy_from_json-dumps o h = rw (toy_runtime.loads-dumps o h) refl

abbrev pub toy_str_decimal : Decimal → Text
toy_str_decimal d = d.coefficient ∷ []

abbrev pub toy_wire : Wire toy_runtime toy_json_spark
toy_wire = record {
  str_decimal = toy_str_decimal;
  as_string = toy_as_string;
  as_string-str = λ s. refl;
  as_string-null = refl;
  from_json-dumps = toy_from_json-dumps;
}

-- ===== src/Fixtures/Ingestion.antt =====
-- Stand-ins for pydantic, Spark and the floats of the generator.
use realtime_fraud_feature_s.Prelude.{
  ap, ℕ, ◌*◌, ◌/◌, ◌≤◌, ◌≡◌, refl, true, false, Option, some, List, [], ◌∷◌, ◌+◌, ◌<◌, ◌++◌,
  if◌then◌else◌, Text, length, ◌==◌, ltb, pos, arith,
}
use native.Mathlib.Nat.{le_refl}
use realtime_fraud_feature_s.Schemas.{Pydantic}
use realtime_fraud_feature_s.Bronze.Stream.{Delta}
use realtime_fraud_feature_s.Bronze.{Spark, Parsed}
use realtime_fraud_feature_s.Generator.{Floats}

pub toy_capitals-length : (n : ℕ) (s : Text) → (length s == n) ≡ true → length s ≡ n
toy_capitals-length n s h = ground arith

-- Texts have no white space here, and all letters count as capitals.
abbrev pub toy_pydantic : Pydantic
toy_pydantic = record {
  strip = λ s. s;
  capitals = λ n s. length s == n;
  length-strip = λ s. le_refl (length s);
  capitals-length = toy_capitals-length;
}

-- Every column is the payload.
abbrev pub toy_from_json : Option Text → Parsed
toy_from_json o = record {
  transaction_id = o;
  user_id = o;
  merchant_id = o;
  amount = o;
  currency = o;
  transaction_type = o;
  status = o;
  payment_method = o;
  event_timestamp = o;
  ingestion_timestamp = o;
  device_id = o;
  ip_address = o;
  city = o;
  country = o;
}

abbrev pub toy_spark : Spark
toy_spark = record {
  Time = ℕ;
  from_json = toy_from_json;
  sha2 = λ s. length s ∷ [];
  to_timestamp = λ s. some (length s);
  to_date = λ t. t ∷ [];
  hour = λ t. t / 3600;
}

pub toy_repr-one : (x : ℕ) → ltb x 1 ≡ false → (false ≡ false) × (1 ≤ x)
toy_repr-one x h = (refl, ground arith)

-- Whole rupees.
abbrev pub toy_rupees : Floats
toy_rupees = record {
  F = ℕ;
  to_float = λ d. d.coefficient / 100;
  mul = λ a b. a * b;
  one = 1;
  five = 5;
  lt = ltb;
  repr = λ x. record { negative = false; coefficient = x; exponent = pos 0 };
  repr-one = toy_repr-one;
  lt_irrefl = refl;
}

abbrev pub toy_append : {Out : Type 0} → ℕ → List Out → List Out × ℕ → List Out × ℕ
toy_append n xs t = if n == t.1 then (t.0 ++ xs, t.1 + 1) else t

pub toy_append_new :
    {Out : Type 0} (t : List Out × ℕ) (xs : List Out) → toy_append t.1 xs t ≡ (t.0 ++ xs, t.1 + 1)
toy_append_new t xs = ground arith

pub toy_append_old :
    {Out : Type 0} (n : ℕ) (xs : List Out) (t : List Out × ℕ) → n < t.1 → toy_append n xs t ≡ t
toy_append_old n xs t h = ground arith

-- A Delta table is its rows and the number of the next batch.
abbrev pub toy_delta : {Out : Type 0} → Delta Out
toy_delta {Out} = record {
  Table = List Out × ℕ;
  empty = ([], 0);
  rows = λ t. t.0;
  next_batch = λ t. t.1;
  append = toy_append;
  rows-empty = refl;
  next_batch-empty = refl;
  rows-append = λ t xs. ap (λ (u : List Out × ℕ). u.0) (toy_append_new t xs);
  next_batch-append = λ t xs. ap (λ (u : List Out × ℕ). u.1) (toy_append_new t xs);
  append_again = toy_append_old;
}

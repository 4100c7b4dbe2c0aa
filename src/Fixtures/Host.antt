-- ===== src/Fixtures/Host.antt =====
-- A host whose `int` reads decimal digits, with a given `.env` file.
use realtime_fraud_feature_s.Prelude.{
  ℕ, zero, suc, ◌+◌, ◌-◌, ◌*◌, ◌/◌, ◌%◌, ◌^◌, ◌<◌, ◌≡◌, refl, ap, ◌∙◌, ◌&&◌, Option, none, some, [],
  ◌∷◌, ◌++◌, Text, leb, ltb, ℤ, pos, arith, if◌then◌else◌, Bool-cases, inl, inr,
}
use realtime_fraud_feature_s.Generator.{digits, decimal}
use realtime_fraud_feature_s.Settings.{Env, Host}

unfoldable pub value : ℕ → Text → Option ℕ
value acc [] = some acc
value acc (c ∷ cs) =
    let rest = value (acc * 10 + (c - 48)) cs in if leb 48 c && leb c 57 then rest else none

abbrev then_value : Option ℕ → Text → Option ℕ
then_value none cs = none
then_value (some acc) cs = value acc cs

value-append : (acc : ℕ) (xs ys : Text) → value acc (xs ++ ys) ≡ then_value (value acc xs) ys
unfolding value
value-append acc [] ys = refl
value-append acc (c ∷ cs) ys = elim (Bool-cases (leb 48 c && leb c 57)) [
  | inl digit ↦ rw (digit) (value-append (acc * 10 + (c - 48)) cs ys)
  | inr other ↦ rw (other) refl
]

value-digits : (f n : ℕ) → n < 10 ^ f → value 0 (digits f n) ≡ some n
unfolding digits value
value-digits zero n h = ap some (omega arith)
value-digits (suc f) n h = elim (Bool-cases (ltb n 10)) [
  | inl low ↦ rw (digits, low) (ground arith)
  | inr high ↦
      let prior : value 0 (digits f (n / 10)) ≡ some (n / 10) =
        value-digits f (n / 10) (omega arith) in
      rw (digits, high)
        (value-append 0 (digits f (n / 10)) ((48 + n % 10) ∷ []) ∙ rw (prior) (ground arith))
]

abbrev integer_of : Option ℕ → Option ℤ
integer_of none = none
integer_of (some n) = some (pos n)

abbrev with_file : Env → Env → Env
with_file file env name = elim (env name) [ none ↦ file name | some v ↦ some v ]

pub with_file_keeps :
    (file env : Env) (name v : Text) → env name ≡ some v → with_file file env name ≡ some v
with_file_keeps file env name v h = ground arith

pub int-of_decimal : (n : ℕ) → n < 10 ^ 5 → integer_of (value 0 (decimal n)) ≡ some (pos n)
int-of_decimal n h = ap integer_of (value-digits 5 n h)

abbrev pub toy_host : Env → Host
toy_host file = record {
  int = λ t. integer_of (value 0 t);
  load_dotenv = with_file file;
  int-decimal = int-of_decimal;
  load_dotenv_keeps = with_file_keeps file;
}

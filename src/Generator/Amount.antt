-- ===== src/Generator/Amount.antt =====
-- `_generate_amount` of ingestion/transaction_generator/src/generator.py.
use native.Mathlib.Nat.{pow-suc, le-div_iff_mul-le, one-le-mul}
use realtime_fraud_feature_s.Prelude.{
  ℕ, zero, suc, ◌*◌, ◌/◌, ◌^◌, ◌≤◌, ◌<◌, ◌≡◌, false, returned, ℤ, pos, negsuc, arith,
}
use realtime_fraud_feature_s.Python.{Decimal}
use realtime_fraud_feature_s.Generator.{
  UserProfile, MerchantProfile, half_up, cents, quantize, AtLeastOne, Floats, max_float, min_float,
  generate_amount,
}

power_pos : (k : ℕ) → 0 < 10 ^ k
power_pos zero = omega arith
power_pos (suc k) = rw (pow-suc 10 k) (let h = power_pos k in omega arith)

half_up-ge : (c m : ℕ) → 0 < m → 100 * m ≤ c → 100 ≤ half_up c m
unfolding half_up
half_up-ge c m p h = let q : 100 ≤ c / m = (le-div_iff_mul-le p).1 h in ground arith

scaled : (c p : ℕ) → 1 ≤ c → 0 < p → 100 ≤ c * (p * 10 * 10)
scaled c p h q = let m : 1 ≤ c * p = one-le-mul h q in grind arith

shifted : (c k : ℕ) → 10 ^ suc (suc (suc k)) ≤ c → 100 * 10 ^ suc k ≤ c
shifted c k h = let a = pow-suc 10 (suc (suc k)) in let b = pow-suc 10 (suc k) in omega arith

cents-ge : (c : ℕ) (e : ℤ) → AtLeastOne c e → 100 ≤ cents c e
unfolding cents
cents-ge c (pos n) h =
    rw (pow-suc 10 (suc n)) (rw (pow-suc 10 n) (scaled c (10 ^ n) h (power_pos n)))
cents-ge c (negsuc zero) h = omega arith
cents-ge c (negsuc (suc zero)) h = omega arith
cents-ge c (negsuc (suc (suc k))) h = half_up-ge c (10 ^ suc k) (power_pos (suc k)) (shifted c k h)

max_float-ge :
    (floats : Floats) (x : floats.F) → floats.lt (max_float floats x floats.one) floats.one ≡ false
max_float-ge floats x = ground arith

quantize-ge :
    (p d : Decimal)
    → p.negative ≡ false
    → AtLeastOne p.coefficient p.exponent
    → quantize p ≡ returned d
    → (d.negative ≡ false) × ((d.exponent ≡ negsuc 1) × (100 ≤ d.coefficient))
unfolding quantize
quantize-ge p d n a e =
    let c : 100 ≤ cents p.coefficient p.exponent = cents-ge p.coefficient p.exponent a in
    ground arith

-- Whatever is drawn, an amount that `_generate_amount` returns is of at least one rupee, not
-- negative and with two decimals, as the schema wants it.
pub generate_amount-ge-one :
    (floats : Floats) (draw : floats.F) (user : UserProfile) (merchant : MerchantProfile)
    (d : Decimal)
    → generate_amount floats draw user merchant ≡ returned d
    → (d.negative ≡ false) × ((d.exponent ≡ negsuc 1) × (100 ≤ d.coefficient))
unfolding generate_amount
generate_amount-ge-one floats draw user merchant d e =
    let raw = floats.mul draw (floats.to_float user.avg_transaction_amount) in
    let cap = floats.mul (floats.to_float merchant.avg_ticket_size) floats.five in
    let m = max_float floats (min_float floats raw cap) floats.one in
    let r = floats.repr-one m (max_float-ge floats (min_float floats raw cap)) in
    quantize-ge (floats.repr m) d r.0 r.1 e

-- ===== src/Python/Chance.antt =====
-- `random.Random` as the profiles and the generator use it, `uuid4`, the clock and the hashes.
use realtime_fraud_feature_s.Prelude.{
  ℕ, zero, suc, ◌+◌, ◌-◌, ◌≤◌, ◌<◌, ◌≡◌, refl, false, lt→ltb, Bool, Option, none, some, List, [],
  ◌∷◌, Text, length, ltb, if◌then◌else◌, ℤ,
}
use realtime_fraud_feature_s.Python.Values.{Decimal}

-- `rng.choices(values, weights)`: the ticket is the whole part of `random()` times the sum of the
-- weights. The last entry takes whatever the others leave.
unfoldable pub choices {ℓ} : {A : Type ℓ} → List (A × ℕ) → ℕ → Option A
choices [] ticket = none
choices ((v, w) ∷ []) ticket = some v
choices ((v, w) ∷ x ∷ xs) ticket = if ltb ticket w then some v else choices (x ∷ xs) (ticket - w)

pub choices_first {ℓ} :
    {A : Type ℓ} (v : A) (w : ℕ) (xs : List (A × ℕ)) (ticket : ℕ)
    → ticket < w
    → choices ((v, w) ∷ xs) ticket ≡ some v
unfolding choices
choices_first v w [] ticket h = refl
choices_first v w (x ∷ xs) ticket h = rw (lt→ltb ticket w h)

pub choices_later {ℓ} :
    {A : Type ℓ} (v : A) (w : ℕ) (x : A × ℕ) (xs : List (A × ℕ)) (ticket : ℕ)
    → ltb ticket w ≡ false
    → choices ((v, w) ∷ x ∷ xs) ticket ≡ choices (x ∷ xs) (ticket - w)
unfolding choices
choices_later v w x xs ticket h = rw (h)

-- The sum of the weights.
abbrev pub total {ℓ} : {A : Type ℓ} → List (A × ℕ) → ℕ
total [] = 0
total ((v, w) ∷ xs) = w + total xs

abbrev pub get_elem? {ℓ} : {A : Type ℓ} → List A → ℕ → Option A
get_elem? [] i = none
get_elem? (x ∷ xs) zero = some x
get_elem? (x ∷ xs) (suc i) = get_elem? xs i

-- s[:n]
abbrev pub take {ℓ} : {A : Type ℓ} → ℕ → List A → List A
take zero xs = []
take (suc n) [] = []
take (suc n) (x ∷ xs) = x ∷ take n xs

-- A generator's state gives each draw and the state after it. Floats are drawn from distributions
-- whose parameters are whole numbers or tenths.
pub record Random : Type 1 where
  pub Rng : Type 0
  pub F : Type 0
  -- random.Random(seed)
  pub seeded : ℤ → Rng
  -- the whole part of n * random(), and the index that `choice` draws among n
  pub ticket : ℕ → Rng → ℕ × Rng
  pub index : ℕ → Rng → ℕ × Rng
  pub randint : ℕ → ℕ → Rng → ℕ × Rng
  -- random() < n / 100
  pub below_hundredths : ℕ → Rng → Bool × Rng
  -- betavariate of whole numbers, lognormvariate and uniform of tenths
  pub betavariate : ℕ → ℕ → Rng → F × Rng
  pub lognormvariate : ℕ → ℕ → Rng → F × Rng
  pub uniform : ℕ → ℕ → Rng → F × Rng
  -- n * x, round(x, 2) and Decimal(str(x))
  pub scale : ℕ → F → F
  pub round : F → F
  pub decimal : F → Decimal
  pub index-lt : (n : ℕ) (g : Rng) → 0 < n → (index n g).0 < n
  pub randint-le :
      (lo hi : ℕ) (g : Rng) → lo ≤ hi → (lo ≤ (randint lo hi g).0) × ((randint lo hi g).0 ≤ hi)

-- A `Faker("en_IN")` with `seed_instance`.
pub record FakerLibrary : Type 1 where
  pub Faker : Type 0
  pub seed_instance : ℤ → Faker
  pub email : Faker → Text × Faker
  pub phone_number : Faker → Text × Faker
  pub company : Faker → Text × Faker

-- What a process is given from outside: `random.Random()` and a `Faker` with the entropy of the
-- system, and at its n-th profile `uuid4().hex`, and `datetime.now(UTC)` in microseconds since the
-- year 1.
pub record Outside (rnd : Random) (fk : FakerLibrary) : Type 0 where
  pub unseeded : rnd.Rng
  pub unseeded_faker : fk.Faker
  pub uuid4_hex : ℕ → Text
  pub now : ℕ → ℕ
  pub length-uuid4_hex : (n : ℕ) → length (uuid4_hex n) ≡ 32

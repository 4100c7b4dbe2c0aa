-- ===== src/Fixtures/Chance.antt =====
-- Draws that count, and two processes with identifiers of their own.
use native.Mathlib.Nat.{mod-lt, le_refl}
use realtime_fraud_feature_s.Prelude.{
  ℕ, suc, ◌*◌, ◌%◌, ◌≢◌, refl, false, [], ◌∷◌, codes, pos, ltb, text_eq, text_eq_iff,
}
use realtime_fraud_feature_s.Python.{Random, FakerLibrary, Outside, take}

abbrev pub toy_random : Random
toy_random = record {
  Rng = ℕ;
  F = ℕ;
  seeded = λ s. 0;
  ticket = λ n g. (g % n, suc g);
  index = λ n g. (g % n, suc g);
  randint = λ lo hi g. (lo, suc g);
  below_hundredths = λ n g. (ltb g n, suc g);
  betavariate = λ a b g. (g, suc g);
  lognormvariate = λ a b g. (g, suc g);
  uniform = λ a b g. (g, suc g);
  scale = λ n x. n * x;
  round = λ x. x;
  decimal = λ x. record { negative = false; coefficient = x; exponent = pos 0 };
  index-lt = λ n g h. mod-lt g h;
  randint-le = λ lo hi g h. (le_refl lo, h);
}

abbrev pub toy_faker : FakerLibrary
toy_faker = record {
  Faker = ℕ;
  seed_instance = λ seed. 0;
  email = λ n. (n ∷ [], suc n);
  phone_number = λ n. (n ∷ [], suc n);
  company = λ n. (n ∷ [], suc n);
}

abbrev pub seeding : Outside toy_random toy_faker
seeding = record {
  unseeded = 5;
  unseeded_faker = 6;
  uuid4_hex = λ n. codes "0123456789abcdef0123456789abcdef";
  now = λ n. 63_800_000_000_000_000;
  length-uuid4_hex = λ n. refl;
}

abbrev pub running : Outside toy_random toy_faker
running = record {
  unseeded = 7;
  unseeded_faker = 8;
  uuid4_hex = λ n. codes "fedcba9876543210fedcba9876543210";
  now = λ n. 63_800_000_000_000_001;
  length-uuid4_hex = λ n. refl;
}

pub ids_apart : (i j : ℕ) → take 10 (seeding.uuid4_hex i) ≢ take 10 (running.uuid4_hex j)
unfolding text_eq
ids_apart i j h =
    cc ((text_eq_iff (take 10 (seeding.uuid4_hex i)) (take 10 (running.uuid4_hex j))).1 h)

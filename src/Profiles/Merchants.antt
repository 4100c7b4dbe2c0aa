-- ===== src/Profiles/Merchants.antt =====
-- What holds of every merchant that the factory makes.

use realtime_fraud_feature_s.Prelude.{
  ◌++◌, ℕ, zero, suc, ◌<◌, ◌≤◌, ◌≡◌, refl, ap, some, List, [], ◌∷◌, Text, codes, length, text_eq,
  All, arith, get,
}
use realtime_fraud_feature_s.Python.{Random, FakerLibrary, Outside, take, get_elem?}
use realtime_fraud_feature_s.Profiles.{
  MerchantProfile, ProfileFactory, drawn, indian_cities, tier_weights, merchant_categories,
  category_size_floors, floor_of, weighted_choice, make_merchant, make_merchants,
}
use realtime_fraud_feature_s.Profiles.Usable.{IsOneOf, choices-IsOneOf, length-take}

-- The category has a floor of its own in the dictionary.
abbrev pub HasFloor : Text → Type 0
HasFloor c =
    (floor : ℕ) × (get c category_size_floors ≡ some floor)
    × (floor_of category_size_floors c ≡ floor)

-- A merchant that the generator can use, of a category with a floor of its own.
pub record IsUsable (m : MerchantProfile) : Type 0 where
  pub merchant_id : (s : Text) × (m.merchant_id ≡ codes "merch_" ++ s) × (length s ≡ 10)
  pub category : HasFloor m.category
  pub city : IsOneOf m.city indian_cities
  pub risk_tier : IsOneOf m.risk_tier tier_weights

get_elem?-All :
    (P : Text → Type 0) (xs : List Text) (i : ℕ)
    → i < length xs
    → All P xs
    → P (drawn (get_elem? xs i))
get_elem?-All P [] i h all = absurd (omega arith)
get_elem?-All P (x ∷ xs) zero h (p, ps) = p
get_elem?-All P (x ∷ xs) (suc i) h (p, ps) = get_elem?-All P xs i (omega arith) ps

categories-HasFloor : All HasFloor merchant_categories
unfolding floor_of text_eq get
categories-HasFloor = (
  (200, refl, refl),
  (
    (5000, refl, refl),
    (
      (300, refl, refl),
      (
        (800, refl, refl),
        (
          (3500, refl, refl),
          (
            (500, refl, refl),
            (
              (1200, refl, refl),
              ((250, refl, refl), ((8000, refl, refl), ((1000, refl, refl), tt))),
            ),
          ),
        ),
      ),
    ),
  ),
)

module _ (rnd : Random) (fk : FakerLibrary) (sha256 : Text → Text) (outside : Outside rnd fk) where
  make_merchant-IsUsable :
      (f : ProfileFactory rnd fk sha256) → IsUsable (make_merchant rnd fk sha256 outside f).0
  unfolding make_merchant weighted_choice
  make_merchant-IsUsable f =
      let enough : 10 ≤ length (outside.uuid4_hex f.made) =
        omega (arith, outside.length-uuid4_hex f.made) in
      record {
        merchant_id = (
          take 10 (outside.uuid4_hex f.made),
          refl,
          length-take 10 (outside.uuid4_hex f.made) enough,
        );
        category =
            get_elem?-All HasFloor merchant_categories _
              (rnd.index-lt (length merchant_categories) f.rng (omega arith)) categories-HasFloor;
        city = choices-IsOneOf _ _ _ _;
        risk_tier = choices-IsOneOf _ _ _ _;
      }

  -- Every merchant that a factory makes has an identifier of `merch_` and ten more characters, a
  -- category whose floor stands in the dictionary, one of the twelve cities and one of the three
  -- tiers.
  pub make_merchants-IsUsable :
      (n : ℕ) (f : ProfileFactory rnd fk sha256)
      → let merchants = (make_merchants rnd fk sha256 outside n f).0 in
        (length merchants ≡ n) × All IsUsable merchants
  unfolding make_merchants
  make_merchants-IsUsable zero f = (refl, tt)
  make_merchants-IsUsable (suc n) f =
      let (count, rest) = make_merchants-IsUsable n (make_merchant rnd fk sha256 outside f).1 in
      (ap suc count, (make_merchant-IsUsable f, rest))

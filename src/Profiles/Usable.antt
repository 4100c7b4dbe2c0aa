-- ===== src/Profiles/Usable.antt =====
-- What holds of every profile that the factory makes.
use realtime_fraud_feature_s.Prelude.{
  codes, ◌++◌, ℕ, zero, suc, ◌-◌, ◌≤◌, ◌≡◌, refl, ap, ◌⊎◌, inl, inr, some, List, [], ◌∷◌, Text,
  length, text_eq, All, arith, Bool-cases, ltb, ltb→lt,
}
use realtime_fraud_feature_s.Python.{
  Random, FakerLibrary, Outside, take, choices, choices_first, choices_later,
}
use mathlib.Core.Path.{subst, sym}
use realtime_fraud_feature_s.Schemas.{PaymentMethod, upi, card, netbanking, wallet}
use realtime_fraud_feature_s.Generator.{payment_method}
use realtime_fraud_feature_s.Profiles.{
  UserProfile, ProfileFactory, drawn, indian_cities, kyc_weights, method_weights, make_user,
  make_users,
}

-- `s` is one of the values.
abbrev pub IsOneOf : Text → List (Text × ℕ) → Type 0
IsOneOf s [] = ⊥
IsOneOf s ((v, w) ∷ xs) = (s ≡ v) ⊎ IsOneOf s xs

pub choices-IsOneOf :
    (v : Text) (w : ℕ) (xs : List (Text × ℕ)) (t : ℕ)
    → IsOneOf (drawn (choices ((v, w) ∷ xs) t)) ((v, w) ∷ xs)
unfolding choices
choices-IsOneOf v w [] t = inl refl
choices-IsOneOf v w ((v', w') ∷ xs) t = elim (Bool-cases (ltb t w)) [
  | inl here ↦ inl (ap drawn (choices_first v w ((v', w') ∷ xs) t (ltb→lt t w here)))
  | inr later ↦ inr (
      subst (λ o. IsOneOf (drawn o) ((v', w') ∷ xs)) (sym (choices_later v w (v', w') xs t later))
        (choices-IsOneOf v' w' xs (t - w)))
]

pub IsOneOf-All :
    (P : Text → Type 0) (s : Text) (xs : List (Text × ℕ))
    → All (λ (x : Text × ℕ). P x.0) xs
    → IsOneOf s xs
    → P s
IsOneOf-All P s [] all one = absurd one
IsOneOf-All P s ((v, w) ∷ xs) (p, ps) (inl e) = subst P (sym e) p
IsOneOf-All P s ((v, w) ∷ xs) (p, ps) (inr one) = IsOneOf-All P s xs ps one

pub length-take {ℓ} : {A : Type ℓ} (n : ℕ) (xs : List A) → n ≤ length xs → length (take n xs) ≡ n
length-take zero xs h = refl
length-take (suc n) [] h = absurd (omega arith)
length-take (suc n) (x ∷ xs) h = ap suc (length-take n xs (omega arith))

-- A profile that the database's columns and the generator can use.
pub record IsUsable (u : UserProfile) : Type 0 where
  pub user_id : (s : Text) × (u.user_id ≡ codes "user_" ++ s) × (length s ≡ 10)
  pub city : IsOneOf u.city indian_cities
  pub city_length : length u.city ≤ 64
  pub kyc_status : IsOneOf u.kyc_status kyc_weights
  pub method : PaymentMethod
  pub parsed : payment_method u.preferred_payment_method ≡ some method

method-parsed :
    (s : Text) → IsOneOf s method_weights → (m : PaymentMethod) × (payment_method s ≡ some m)
unfolding payment_method text_eq
method-parsed s one =
    IsOneOf-All (λ s. (m : PaymentMethod) × (payment_method s ≡ some m)) s method_weights
      ((upi, refl), ((card, refl), ((netbanking, refl), ((wallet, refl), tt)))) one

module _ (rnd : Random) (fk : FakerLibrary) (sha256 : Text → Text) (outside : Outside rnd fk) where
  make_user-IsUsable :
      (f : ProfileFactory rnd fk sha256) → IsUsable (make_user rnd fk sha256 outside f).0
  unfolding make_user
  make_user-IsUsable f =
      let u = (make_user rnd fk sha256 outside f).0 in
      let city : IsOneOf u.city indian_cities = choices-IsOneOf _ _ _ _ in
      let method : IsOneOf u.preferred_payment_method method_weights = choices-IsOneOf _ _ _ _ in
      let enough : 10 ≤ length (outside.uuid4_hex f.made) =
        omega (arith, outside.length-uuid4_hex f.made) in
      let hex = length-take 10 (outside.uuid4_hex f.made) enough in
      let (m, parsed) = method-parsed _ method in
      record {
        user_id = (take 10 (outside.uuid4_hex f.made), refl, hex);
        city = city;
        city_length = IsOneOf-All (λ s. length s ≤ 64) u.city indian_cities (omega arith) city;
        kyc_status = choices-IsOneOf _ _ _ _;
        method = m;
        parsed = parsed;
      }

  -- Every user that a factory makes has an identifier of `user_` and ten more characters, one of the twelve cities,
  -- one of the three statuses, and a payment method that the generator can parse.
  pub make_users-IsUsable :
      (n : ℕ) (f : ProfileFactory rnd fk sha256)
      → let users = (make_users rnd fk sha256 outside n f).0 in
        (length users ≡ n) × All IsUsable users
  unfolding make_users
  make_users-IsUsable zero f = (refl, tt)
  make_users-IsUsable (suc n) f =
      let (count, rest) = make_users-IsUsable n (make_user rnd fk sha256 outside f).1 in
      (ap suc count, (make_user-IsUsable f, rest))

-- ===== src/Profiles/Seed.antt =====
-- What the seed of a `ProfileFactory` decides, and what it does not.
use realtime_fraud_feature_s.Prelude.{
  some, ℤ, ℕ, zero, suc, ◌≡◌, refl, List, [], ◌∷◌, ◌++◌, Text, codes,
}
use realtime_fraud_feature_s.Python.{Random, FakerLibrary, Outside, take}
use realtime_fraud_feature_s.Profiles.{
  UserProfile, ProfileFactory, days_before, make_user, make_users, post_init,
}

module _ {rnd : Random} {fk : FakerLibrary} (here there : Outside rnd fk) where
  -- The k-th users of two processes: each has its own identifier, and its age counts from its own
  -- clock; all else is the same.
  pub record Agree (k : ℕ) (u v : UserProfile) : Type 0 where
    pub user_id : u.user_id ≡ codes "user_" ++ take 10 (here.uuid4_hex k)
    pub other_id : v.user_id ≡ codes "user_" ++ take 10 (there.uuid4_hex k)
    pub days : ℕ
    pub created : u.account_created_at ≡ days_before (here.now k) days
    pub other_created : v.account_created_at ≡ days_before (there.now k) days
    pub rest :
        record u { user_id = []; account_created_at = v.account_created_at }
        ≡ record v { user_id = [] }

  abbrev pub AllAgree : ℕ → List UserProfile → List UserProfile → Type 0
  AllAgree k [] [] = Unit
  AllAgree k [] (v ∷ vs) = ⊥
  AllAgree k (u ∷ us) [] = ⊥
  AllAgree k (u ∷ us) (v ∷ vs) = Agree k u v × AllAgree (suc k) us vs

module _ (rnd : Random) (fk : FakerLibrary) (sha256 : Text → Text)
    (here there : Outside rnd fk) where
  make_user-Agree :
      (f : ProfileFactory rnd fk sha256)
      → Agree here there f.made
          (make_user rnd fk sha256 here f).0
          (make_user rnd fk sha256 there f).0
        × ((make_user rnd fk sha256 here f).1 ≡ (make_user rnd fk sha256 there f).1)
        × ((make_user rnd fk sha256 here f).1.made ≡ suc f.made)
  unfolding make_user
  make_user-Agree f = (
    record {
      user_id = refl;
      other_id = refl;
      days = _;
      created = refl;
      other_created = refl;
      rest = refl;
    },
    refl,
    refl,
  )

  -- In the same state.
  same_state-AllAgree :
      (n : ℕ) (f : ProfileFactory rnd fk sha256)
      → AllAgree here there f.made
          (make_users rnd fk sha256 here n f).0
          (make_users rnd fk sha256 there n f).0
        × ((make_users rnd fk sha256 here n f).1 ≡ (make_users rnd fk sha256 there n f).1)
  unfolding make_users
  same_state-AllAgree zero f = (tt, refl)
  same_state-AllAgree (suc n) f =
      let (agree, same, count) = make_user-Agree f in
      let (rest, end) = same_state-AllAgree n (make_user rnd fk sha256 here f).1 in
      rw (← same) ((agree, rw (count) at rest), end)

  -- In two processes, whatever entropy each is given, two factories with one seed make the same
  -- users, but for the identifiers, which are each process's own, and the dates of creation, which
  -- are as many days before each process's own clock; and they are left in the same state.
  pub make_users-AllAgree :
      (seed : ℤ) (n : ℕ)
      → let ours = make_users rnd fk sha256 here n (post_init rnd fk sha256 here (some seed)) in
        let theirs = make_users rnd fk sha256 there n (post_init rnd fk sha256 there (some seed)) in
        AllAgree here there 0 ours.0 theirs.0 × (ours.1 ≡ theirs.1)
  unfolding post_init
  make_users-AllAgree seed n = same_state-AllAgree n (post_init rnd fk sha256 here (some seed))

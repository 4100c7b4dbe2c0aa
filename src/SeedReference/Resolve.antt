-- ===== src/SeedReference/Resolve.antt =====
-- Whether the identifiers of run.py's events stand in the seeded tables.
use realtime_fraud_feature_s.Prelude.{
  ℕ, zero, suc, ◌≡◌, ◌≢◌, refl, Bool, some, List, [], ◌∷◌, ◌++◌, Text, codes, All, All-weaken,
}
use realtime_fraud_feature_s.Python.{PgValue, Random, FakerLibrary, Outside, take}
use realtime_fraud_feature_s.Profiles.{
  UserProfile, ProfileFactory, post_init, make_user, make_users,
}
use realtime_fraud_feature_s.SeedReference.{
  num_users, seed, user_row, flagged, seeded_users, user_rows,
}

-- Some process has given the user its identifier.
abbrev HasId : {rnd : Random} {fk : FakerLibrary} → Outside rnd fk → Text → Type 0
HasId outside id = (k : ℕ) × (id ≡ codes "user_" ++ take 10 (outside.uuid4_hex k))

module _ (rnd : Random) (fk : FakerLibrary) (sha256 : Text → Text) where
  make_users-HasId :
      (outside : Outside rnd fk) (n : ℕ) (f : ProfileFactory rnd fk sha256)
      → All (λ u. HasId outside u.user_id) (make_users rnd fk sha256 outside n f).0
  unfolding make_users make_user
  make_users-HasId outside zero f = tt
  make_users-HasId outside (suc n) f =
      ((f.made, refl), make_users-HasId outside n (make_user rnd fk sha256 outside f).1)

  flagged-All :
      {A : Type 0} (P : A → Type 0) (Q : List PgValue → Type 0) (row : A → Bool → List PgValue)
      (n : ℕ) (xs : List A) (g : rnd.Rng)
      → ((a : A) (b : Bool) → P a → Q (row a b))
      → All P xs
      → All Q (flagged rnd row n xs g).0
  unfolding flagged
  flagged-All P Q row n [] g f h = tt
  flagged-All P Q row n (x ∷ xs) g f (h, hs) = (f x _ h, flagged-All P Q row n xs _ f hs)

-- The row's first column holds this identifier.
abbrev pub IsRowOf : Text → List PgValue → Type 0
IsRowOf id (PgValue.text s ∷ row) = s ≡ id
IsRowOf id _ = ⊥

different_ids :
    {rnd : Random} {fk : FakerLibrary} (here there : Outside rnd fk) (a b : Text)
    → ((i j : ℕ) → take 10 (here.uuid4_hex i) ≢ take 10 (there.uuid4_hex j))
    → HasId here a
    → HasId there b
    → a ≢ b
different_ids here there a b apart (i, e) (j, f) same = apart i j (cc)

-- Both seed_reference.py and run.py make their users by `make_users(NUM_USERS)` on a factory with
-- `SEED`. Where no identifier that `uuid4` gives the one process starts like one that it gives the
-- other, none of the users whose events run.py sends has a row among the seeded users.
pub user_rows_unresolved :
    (rnd : Random) (fk : FakerLibrary) (sha256 : Text → Text) (here there : Outside rnd fk)
    → ((i j : ℕ) → take 10 (here.uuid4_hex i) ≢ take 10 (there.uuid4_hex j))
    → All
        (λ u. All (λ row. ¬ IsRowOf u.user_id row) (user_rows rnd fk sha256 here).0)
        (seeded_users rnd fk sha256 there).0
unfolding user_rows user_row
user_rows_unresolved rnd fk sha256 here there apart =
    All-weaken _ _ (seeded_users rnd fk sha256 there).0
      (λ u theirs.
        flagged-All rnd fk sha256 (λ (v : UserProfile). HasId here v.user_id)
          (λ row. ¬ IsRowOf u.user_id row) user_row 2 _ (rnd.seeded seed)
          (λ v flag ours. different_ids here there v.user_id u.user_id apart ours theirs)
          (make_users-HasId rnd fk sha256 here num_users
            (post_init rnd fk sha256 here (some seed))))
      (make_users-HasId rnd fk sha256 there num_users (post_init rnd fk sha256 there (some seed)))

-- ===== src/SeedReference/Replace.antt =====
-- Seeding replaces both tables at once or neither.
use realtime_fraud_feature_s.Prelude.{
  ◌≡◌, sym, ◌⊎◌, inl, inr, some, [], ◌∷◌, Text, text_eq, returned, All,
}
use mathlib.Core.Path.{subst}
use realtime_fraud_feature_s.Python.{Random, FakerLibrary, Outside}
use realtime_fraud_feature_s.Postgres.{Rows, truncate, insert, Postgres}
use realtime_fraud_feature_s.Postgres.Transaction.{
  execute_all, Ends, execute_all-nil-Ends, execute_all-cons-Ends, session-Ends,
}
use realtime_fraud_feature_s.SeedReference.{
  users_table, merchants_table, seed_statements, user_rows, merchant_rows, main,
}

module _ (pg : Postgres) where
  open pg use {Db, Connection, table, pending, committed, execute}

  -- The two tables hold these rows.
  pub record Holds (us ms : Rows) (d : Db) : Type 0 where
    pub users : table d users_table ≡ some us
    pub merchants : table d merchants_table ≡ some ms

  module _ (u0 m0 us ms : Rows) where
    -- A reader finds the rows of before in both tables, or the new ones in both.
    abbrev pub OldOrNew : Db → Type 0
    OldOrNew d = Holds u0 m0 d ⊎ Holds us ms d

    inserted :
        (c0 : Connection)
        → Holds u0 m0 (pending c0)
        → let c1 = (execute (truncate (users_table ∷ merchants_table ∷ [])) c0).1 in
          let c2 = (execute (insert users_table us) c1).1 in
          let c3 = (execute (insert merchants_table ms) c2).1 in
          (execute (truncate (users_table ∷ merchants_table ∷ [])) c0).0 ≡ returned tt
          → (execute (insert users_table us) c1).0 ≡ returned tt
          → (execute (insert merchants_table ms) c2).0 ≡ returned tt
          → Holds us ms (pending c3)
    unfolding text_eq
    inserted c0 before o1 o2 o3 =
        let ts = users_table ∷ merchants_table ∷ [] in
        let c1 = (execute (truncate ts) c0).1 in
        let c2 = (execute (insert users_table us) c1).1 in
        record {
          users = rw (
            pg.table-insert merchants_table ms c2 users_table o3,
            pg.table-insert users_table us c1 users_table o2,
            pg.table-truncate ts c0 users_table o1,
            before.users,
          );
          merchants = rw (
            pg.table-insert merchants_table ms c2 merchants_table o3,
            pg.table-insert users_table us c1 merchants_table o2,
            pg.table-truncate ts c0 merchants_table o1,
            before.merchants,
          );
        }

    seed_statements-Ends :
        (c : Connection)
        → OldOrNew (committed c)
        → Holds u0 m0 (pending c)
        → Ends pg OldOrNew (Holds us ms) (
            execute_all pg
              (truncate (users_table ∷ merchants_table ∷ [])
                ∷ insert users_table us
                ∷ insert merchants_table ms
                ∷ [])
              c)
    seed_statements-Ends c shown before =
        let c1 = (execute (truncate (users_table ∷ merchants_table ∷ [])) c).1 in
        let c2 = (execute (insert users_table us) c1).1 in
        let c3 = (execute (insert merchants_table ms) c2).1 in
        let hidden1 =
          subst OldOrNew
            (sym (pg.execute-hidden (truncate (users_table ∷ merchants_table ∷ [])) c (λ h. cc)))
            shown in
        let hidden2 =
          subst OldOrNew (sym (pg.execute-hidden (insert users_table us) c1 (λ h. cc))) hidden1 in
        let hidden3 =
          subst OldOrNew (sym (pg.execute-hidden (insert merchants_table ms) c2 (λ h. cc)))
            hidden2 in
        execute_all-cons-Ends pg OldOrNew (Holds us ms) _ _ c hidden1 λ o1.
          execute_all-cons-Ends pg OldOrNew (Holds us ms) _ _ c1 hidden2 λ o2.
            execute_all-cons-Ends pg OldOrNew (Holds us ms) _ _ c2 hidden3 λ o3.
              execute_all-nil-Ends pg OldOrNew (Holds us ms) c3 hidden3 (inserted c before o1 o2 o3)

  module _ (rnd : Random) (fk : FakerLibrary) (sha256 : Text → Text)
      (outside : Outside rnd fk) where
    -- Let both tables stand. At every moment a reader finds the old rows in both tables or the
    -- factory's rows in both, whatever raises an exception; if nothing does, the factory's, and only
    -- these, so that seeding again starts over.
    pub main-OldOrNew :
        (u0 m0 : Rows) (d : Db)
        → Holds u0 m0 d
        → let us = (user_rows rnd fk sha256 outside).0 in
          let ms = merchant_rows rnd fk sha256 outside in
          let p = main rnd fk sha256 outside pg d in
          OldOrNew u0 m0 us ms p.db
          × All (OldOrNew u0 m0 us ms) p.shown
          × (p.result ≡ returned tt → Holds us ms p.db)
    unfolding main
    main-OldOrNew u0 m0 d before =
        let us = (user_rows rnd fk sha256 outside).0 in
        let ms = merchant_rows rnd fk sha256 outside in
        session-Ends pg (OldOrNew u0 m0 us ms) (Holds us ms) (seed_statements rnd fk sha256 outside)
          d (λ e new. inr new) (inl before)
          (λ c p k.
            seed_statements-Ends u0 m0 us ms c (subst (OldOrNew u0 m0 us ms) (sym k) (inl before))
              (subst (Holds u0 m0) (sym p) before))

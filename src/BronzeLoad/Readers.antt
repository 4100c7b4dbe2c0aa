-- ===== src/BronzeLoad/Readers.antt =====
-- The statements of the swap, and what readers of bronze.transactions see of them.
use realtime_fraud_feature_s.Prelude.{
  ◌≡◌, refl, sym, ◌⊎◌, inl, inr, Bool, true, false, none, some, [], ◌∷◌, Text, text_eq, returned,
  Outcome-cases,
}
use mathlib.Core.Path.{subst}
use realtime_fraud_feature_s.Postgres.{Rows, begin, commit, drop_cascade, rename, Postgres}
use realtime_fraud_feature_s.Postgres.Transaction.{
  execute_all, Ends, execute_all-nil-Ends, execute_all-cons-Ends,
}
use realtime_fraud_feature_s.BronzeLoad.{staging_table, target_table, swap_statements}

module _ (pg : Postgres) (old rows : Rows) where
  open pg use {Db, Connection, table, has_view, pending, committed, connect, execute}

  -- A reader finds the old table or the new one.
  abbrev pub IsOldOrNew : Db → Type 0
  IsOldOrNew d = (table d target_table ≡ some old) ⊎ (table d target_table ≡ some rows)

  -- The new table has taken the place of the old one, and no view reads it.
  pub record IsNew (d : Db) : Type 0 where
    pub target : table d target_table ≡ some rows
    pub staging : table d staging_table ≡ none
    pub views : (v : Text) → has_view d v target_table ≡ false

  -- Both tables stand, and no view reads the staging table.
  pub record IsStaged (d : Db) : Type 0 where
    pub target : table d target_table ≡ some old
    pub staging : table d staging_table ≡ some rows
    pub views : (v : Text) → has_view d v staging_table ≡ false

  pub IsNew-weaken : (d : Db) → IsNew d → IsOldOrNew d
  IsNew-weaken d new = inr new.target

  gone : (a b : Bool) → (a ≡ true → b ≡ true) → b ≡ false → a ≡ false
  gone true b f h = cc (f refl)
  gone false b f h = refl

  renamed :
      (c0 c1 c2 c3 : Connection)
      → IsStaged (pending c0)
      → c1 ≡ (execute begin c0).1
      → (execute begin c0).0 ≡ returned tt
      → c2 ≡ (execute (drop_cascade target_table) c1).1
      → (execute (drop_cascade target_table) c1).0 ≡ returned tt
      → c3 ≡ (execute (rename staging_table target_table) c2).1
      → (execute (rename staging_table target_table) c2).0 ≡ returned tt
      → IsNew (pending c3)
  unfolding text_eq
  renamed c0 c1 c2 c3 staged e1 o1 e2 o2 e3 o3 = record {
    target =
        rw
          (
            e3,
            pg.table-rename staging_table target_table c2 target_table o3,
            e2,
            pg.table-drop_cascade target_table c1 staging_table o2,
            e1,
            pg.table-begin c0 staging_table o1,
          )
          staged.staging;
    staging = rw (e3) (pg.table-rename staging_table target_table c2 staging_table o3);
    views = λ v.
        gone _ (has_view (pending c1) v staging_table)
          (λ h.
            pg.view-drop_cascade target_table c1 v staging_table o2
              (rw (e3, pg.view-rename staging_table target_table c2 v o3, e2) at h))
          (rw (e1, pg.view-begin c0 v staging_table o1) (staged.views v));
  }

  -- The COMMIT shows the new table, or fails and shows nothing new.
  committing :
      (c : Connection)
      → IsOldOrNew (committed c)
      → IsNew (pending c)
      → Ends pg IsOldOrNew IsNew (execute_all pg (commit ∷ []) c)
  committing c shown new = elim (Outcome-cases (execute commit c).0) [
    | inr (e, lost) ↦
        execute_all-cons-Ends pg IsOldOrNew IsNew commit [] c
          (subst IsOldOrNew (sym (pg.commit-raised c e lost)) shown) (λ h. cc)
    | inl (u, sent) ↦
        let (now, next) = pg.commit-returned c sent in
        let q = subst IsOldOrNew (sym now) (IsNew-weaken _ new) in
        execute_all-cons-Ends pg IsOldOrNew IsNew commit [] c q
          (λ h. execute_all-nil-Ends pg IsOldOrNew IsNew _ q (subst IsNew (sym next) new))
  ]

  pub swap_statements-Ends :
      (c : Connection)
      → IsOldOrNew (committed c)
      → IsStaged (pending c)
      → Ends pg IsOldOrNew IsNew (execute_all pg swap_statements c)
  swap_statements-Ends c shown staged =
      let c1 = (execute begin c).1 in
      let c2 = (execute (drop_cascade target_table) c1).1 in
      let c3 = (execute (rename staging_table target_table) c2).1 in
      let hidden1 = subst IsOldOrNew (sym (pg.execute-hidden begin c (λ h. cc))) shown in
      let hidden2 =
        subst IsOldOrNew (sym (pg.execute-hidden (drop_cascade target_table) c1 (λ h. cc)))
          hidden1 in
      let hidden3 =
        subst IsOldOrNew (sym (pg.execute-hidden (rename staging_table target_table) c2 (λ h. cc)))
          hidden2 in
      execute_all-cons-Ends pg IsOldOrNew IsNew _ _ c hidden1 λ o1.
        execute_all-cons-Ends pg IsOldOrNew IsNew _ _ c1 hidden2 λ o2.
          execute_all-cons-Ends pg IsOldOrNew IsNew _ _ c2 hidden3 λ o3.
            let new = renamed c c1 c2 c3 staged refl o1 refl o2 refl o3 in committing c3 hidden3 new

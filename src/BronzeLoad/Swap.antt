-- ===== src/BronzeLoad/Swap.antt =====
-- What readers of bronze.transactions see while the table is loaded.
use realtime_fraud_feature_s.Prelude.{
  ◌≡◌, refl, ◌∙◌, sym, inl, inr, some, [], ◌∷◌, Option, Text, codes, text_eq, returned,
  Outcome-cases, All, All-append, All-weaken,
}
use mathlib.Core.Path.{subst}
use realtime_fraud_feature_s.Postgres.{Rows, create_schema, Postgres}
use realtime_fraud_feature_s.Postgres.Transaction.{
  Stretch, execute_all, leave, Ends, execute_all-nil-Ends, execute_all-cons-Ends, leave-Ends, Part,
  session-Ends,
}
use realtime_fraud_feature_s.BronzeLoad.{
  staging_table, target_table, Frame, text_rows, Jdbc, and_then, ensure_schema, swap_statements,
  rolled_back, swap, write_staging, main,
}
use realtime_fraud_feature_s.BronzeLoad.Readers.{
  IsOldOrNew, IsNew, IsStaged, IsNew-weaken, swap_statements-Ends,
}

module _ (pg : Postgres) (old rows : Rows) where
  open pg use {Db, committed, connect}

  -- A part of the script that shows only the old table or the new one.
  pub record Shows (p : Part pg) : Type 0 where
    pub last : IsOldOrNew pg old rows p.db
    pub all : All (IsOldOrNew pg old rows) p.shown

  rolled_back-Shows :
      (s : Stretch pg)
      → IsOldOrNew pg old rows (committed s.conn)
      → (s.result ≡ returned tt → IsNew pg old rows (committed s.conn))
      → IsOldOrNew pg old rows (committed (rolled_back pg s).conn)
        × ((rolled_back pg s).result ≡ returned tt
            → IsNew pg old rows (committed (rolled_back pg s).conn))
        × ((rolled_back pg s).shown ≡ s.shown)
  unfolding rolled_back
  rolled_back-Shows s q new = elim (Outcome-cases s.result) [
    | inr (e, stop) ↦
        rw (stop, rolled_back)
          (subst (IsOldOrNew pg old rows) (sym (pg.committed-rollback s.conn)) q, (λ h. cc), refl)
    | inl (u, goes) ↦ rw (goes, rolled_back) (q, (λ h. new goes), refl)
  ]

  swap-Shows :
      (d : Db)
      → IsStaged pg old rows d
      → Shows (swap pg d) × ((swap pg d).result ≡ returned tt → IsNew pg old rows (swap pg d).db)
  unfolding swap
  swap-Shows d staged = elim (Outcome-cases (connect d)) [
    | inr (e, refused) ↦ rw (refused, swap) (record { last = inl staged.target; all = tt }, λ h. cc)
    | inl (c, open_) ↦
        let (p, k) = pg.connect-fresh d c open_ in
        let ends =
          swap_statements-Ends pg old rows c
            (subst (IsOldOrNew pg old rows) (sym k) (inl staged.target))
            (subst (IsStaged pg old rows) (sym p) staged) in
        let s = execute_all pg swap_statements c in
        let (q, all, new) =
          leave-Ends pg (IsOldOrNew pg old rows) (IsNew pg old rows) s (IsNew-weaken pg old rows)
            ends in
        let (q', new', same) = rolled_back-Shows (leave pg s) q new in
        rw (open_, swap) (record { last = q'; all = rw (same) all }, new')
  ]

module _ (pg : Postgres) (old : Rows) where
  open pg use {Db, committed, pending, connect, execute}

  abbrev IsOld : Db → Type 0
  IsOld d = pg.table d target_table ≡ some old

  schema-Ends :
      (c : pg.Connection)
      → IsOld (committed c)
      → IsOld (pending c)
      → Ends pg IsOld IsOld (execute_all pg (create_schema (codes "bronze") ∷ []) c)
  schema-Ends c shown p =
      let hidden =
        subst IsOld (sym (pg.execute-hidden (create_schema (codes "bronze")) c (λ h. cc))) shown in
      execute_all-cons-Ends pg IsOld IsOld _ [] c hidden (λ o.
        execute_all-nil-Ends pg IsOld IsOld _ hidden
          (pg.table-create_schema (codes "bronze") c target_table o ∙ p))

  ensure_schema-IsOld :
      (d : Db) → IsOld d → IsOld (ensure_schema pg d).db × All IsOld (ensure_schema pg d).shown
  unfolding ensure_schema
  ensure_schema-IsOld d h =
      let (q, all, last) =
        session-Ends pg IsOld IsOld (create_schema (codes "bronze") ∷ []) d (λ e o. o) h
          (λ c p k. schema-Ends c (subst IsOld (sym k) h) (subst IsOld (sym p) h)) in
      (q, all)

  module _ (rows : Rows) where
    and_then-Shows :
        (p : Part pg) (next : Db → Part pg) (R : Db → Type 0)
        → Shows pg old rows p
        → (p.result ≡ returned tt
            → Shows pg old rows (next p.db) × ((next p.db).result ≡ returned tt → R (next p.db).db))
        → Shows pg old rows (and_then pg p next)
          × ((and_then pg p next).result ≡ returned tt → R (and_then pg p next).db)
    unfolding and_then
    and_then-Shows p next R shows rest = elim (Outcome-cases p.result) [
      | inr (e, stop) ↦ rw (stop, and_then) (shows, λ h. cc (rw (stop) at h))
      | inl (u, goes) ↦
          let (more, end) = rest goes in
          rw (goes, and_then)
            (
              record {
                last = more.last;
                all = All-append (IsOldOrNew pg old rows) p.shown _ shows.all more.all;
              },
              end,
            )
    ]

    write_staging-Shows :
        (jdbc : Jdbc pg) (d : Db)
        → IsOld d
        → Shows pg old rows (write_staging pg jdbc rows d)
          × ((write_staging pg jdbc rows d).result ≡ returned tt
              → IsStaged pg old rows (write_staging pg jdbc rows d).db)
    unfolding write_staging text_eq
    write_staging-Shows jdbc d h =
        let same = jdbc.table-write_ne staging_table rows d target_table refl ∙ h in
        (
          record { last = inl same; all = (inl same, tt) },
          λ o. record {
            target = same;
            staging = jdbc.table-write staging_table rows d o;
            views = λ v. jdbc.view-write staging_table rows d v o;
          },
        )

  -- Let bronze.transactions stand. At every moment of the load, and after it, whether it ends or an
  -- exception stops it anywhere, a reader finds the table, with all of the old rows or all of the
  -- frame's; if nothing is raised the frame's. The staging table is gone then, and so is every view
  -- of bronze.transactions.
  pub main-Shows :
      (jdbc : Jdbc pg) {Cell : Type 0} (to_string : Cell → Option Text) (df : Frame Cell) (d : Db)
      → pg.table d target_table ≡ some old
      → let rows = text_rows to_string df in
        Shows pg old rows (main pg jdbc to_string df d)
        × ((main pg jdbc to_string df d).result ≡ returned tt
            → IsNew pg old rows (main pg jdbc to_string df d).db)
  unfolding main
  main-Shows jdbc to_string df d h =
      let rows = text_rows to_string df in
      let (q, all) = ensure_schema-IsOld d h in
      let first : Shows pg old rows (ensure_schema pg d) = record {
        last = inl q;
        all = All-weaken IsOld (IsOldOrNew pg old rows) _ (λ d' o. inl o) all;
      } in
      let staged =
        and_then-Shows rows (ensure_schema pg d) (write_staging pg jdbc rows) (IsStaged pg old rows)
          first (λ o. write_staging-Shows rows jdbc (ensure_schema pg d).db q) in
      and_then-Shows rows _ (swap pg) (IsNew pg old rows) staged.0
        (λ o. swap-Shows pg old rows _ (staged.1 o))

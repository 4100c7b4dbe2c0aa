-- ===== src/BronzeLoad.antt =====
-- load_bronze_to_postgres.py: the frame's columns, the staging table and the swap. Spark's cells,
-- their cast to a string and its JDBC writer are parameters.
pub mod Columns
pub mod Readers
pub mod Swap
use realtime_fraud_feature_s.Prelude.{
  ℕ, ◌≡◌, ◌≢◌, Bool, true, false, Option, none, some, List, [], ◌∷◌, ◌++◌, map, Text, codes,
  text_eq, Outcome, returned, raised, if◌then◌else◌,
}
use realtime_fraud_feature_s.Python.{PgValue}
use realtime_fraud_feature_s.Postgres.{
  Rows, PgError, Statement, begin, commit, create_schema, drop_cascade, rename, Postgres,
}
use realtime_fraud_feature_s.Postgres.Transaction.{
  Stretch, execute_all, leave, Part, part_of, no_connection, session,
}

abbrev pub raw_json : Text
raw_json = codes "_raw_json"

abbrev pub staging_table : Text
staging_table = codes "bronze.transactions_staging"

abbrev pub target_table : Text
target_table = codes "bronze.transactions"

-- df.drop("_raw_json"), on the columns' names or on a row
unfoldable pub drop_raw {ℓ} : {A : Type ℓ} → List Text → List A → List A
drop_raw [] xs = []
drop_raw (c ∷ columns) [] = []
drop_raw (c ∷ columns) (x ∷ xs) =
    if text_eq c raw_json then drop_raw columns xs else x ∷ drop_raw columns xs

pub record Frame (Cell : Type 0) : Type 0 where
  pub columns : List Text
  pub rows : List (List Cell)

abbrev pub text_value : Option Text → PgValue
text_value none = PgValue.null
text_value (some s) = PgValue.text s

module _ {Cell : Type 0} (to_string : Cell → Option Text) where
  -- The frame without the payload, with every column cast to a string.
  unfoldable pub text_rows : Frame Cell → Rows
  unfolding drop_raw
  text_rows df = map (λ row. map (λ x. text_value (to_string x)) (drop_raw df.columns row)) df.rows

-- `df.write.jdbc(mode="overwrite")` on connections of its own: it drops and creates the table, and
-- touches no other, whether it ends or fails.
pub record Jdbc (pg : Postgres) : Type 0 where
  pub write : Text → Rows → pg.Db → Outcome PgError (Unit {0}) × pg.Db
  pub table-write :
      (t : Text) (rows : Rows) (d : pg.Db)
      → (write t rows d).0 ≡ returned tt
      → pg.table (write t rows d).1 t ≡ some rows
  pub table-write_ne :
      (t : Text) (rows : Rows) (d : pg.Db) (k : Text)
      → text_eq t k ≡ false
      → pg.table (write t rows d).1 k ≡ pg.table d k
  pub view-write :
      (t : Text) (rows : Rows) (d : pg.Db) (v : Text)
      → (write t rows d).0 ≡ returned tt
      → pg.has_view (write t rows d).1 v t ≡ false

abbrev pub swap_statements : List Statement
swap_statements =
    begin ∷ drop_cascade target_table ∷ rename staging_table target_table ∷ commit ∷ []

module _ (pg : Postgres) where
  open pg use {Db, committed, connect, rollback}

  -- The next statement of the script, which an exception skips.
  unfoldable pub and_then : Part pg → (Db → Part pg) → Part pg
  and_then p next = elim p.result [
    | raised e ↦ p
    | returned _ ↦
        let q = next p.db in record { result = q.result; db = q.db; shown = p.shown ++ q.shown }
  ]

  unfoldable pub ensure_schema : Db → Part pg
  unfolding session
  ensure_schema d = session pg (create_schema (codes "bronze") ∷ []) d

  -- except Exception as e: conn.rollback(); raise e
  unfoldable pub rolled_back : Stretch pg → Stretch pg
  rolled_back s = elim s.result [
    | raised e ↦ record s { conn = rollback s.conn; result = raised e }
    | returned u ↦ s
  ]

  unfoldable pub swap : Db → Part pg
  unfolding rolled_back
  swap d = elim (connect d) [
    | raised e ↦ no_connection pg e d
    | returned c ↦ part_of pg (rolled_back (leave pg (execute_all pg swap_statements c)))
  ]

  module _ (jdbc : Jdbc pg) where
    unfoldable pub write_staging : Rows → Db → Part pg
    write_staging rows d =
        let (o, d') = jdbc.write staging_table rows d in
        record { result = o; db = d'; shown = d' ∷ [] }

    unfoldable pub main : {Cell : Type 0} → (Cell → Option Text) → Frame Cell → Db → Part pg
    unfolding ensure_schema write_staging swap and_then text_rows
    main to_string df d =
        and_then (and_then (ensure_schema d) (write_staging (text_rows to_string df))) swap

-- ===== src/Postgres/Transaction.antt =====
-- Statements in a row, as other connections see them, and psycopg2's `with conn`.
use realtime_fraud_feature_s.Prelude.{
  ◌≡◌, sym, inl, inr, List, [], ◌∷◌, ◌++◌, Outcome, returned, raised, Outcome-cases, All,
  All-append,
}
use mathlib.Core.Path.{subst}
use realtime_fraud_feature_s.Postgres.{PgError, Statement, commit, Postgres}

module _ (pg : Postgres) where
  open pg use {Db, Connection, connect, committed, execute, rollback, commit_now}

  -- What a stretch of a script came to: its result, the connection, and what the database showed
  -- to others after each statement.
  pub record Stretch : Type 0 where
    pub result : Outcome PgError (Unit {0})
    pub conn : Connection
    pub shown : List Db

  unfoldable pub after : Db → Stretch → Stretch
  after d s = record s { shown = d ∷ s.shown }

  -- cur.execute(...) for each statement, up to the first exception
  unfoldable pub execute_all : List Statement → Connection → Stretch
  unfolding after
  execute_all [] c = record { result = returned tt; conn = c; shown = [] }
  execute_all (s ∷ ss) c =
      let c' = (execute s c).1 in
      elim (execute s c).0 [
        | raised e ↦ record { result = raised e; conn = c'; shown = committed c' ∷ [] }
        | returned _ ↦ after (committed c') (execute_all ss c')
      ]

  -- What leaving `with conn:` does: a commit, or on an exception a rollback.
  unfoldable pub leave : Stretch → Stretch
  leave s = elim s.result [
    | raised e ↦ record s { conn = rollback s.conn; shown = s.shown }
    | returned _ ↦
        let (o, c) = commit_now s.conn in
        record { result = o; conn = c; shown = s.shown ++ (committed c ∷ []) }
  ]

  -- A part of a script: its result, the database after it, and what it showed on the way.
  pub record Part : Type 0 where
    pub result : Outcome PgError (Unit {0})
    pub db : Db
    pub shown : List Db

  abbrev pub part_of : Stretch → Part
  part_of s = record { result = s.result; db = committed s.conn; shown = s.shown }

  abbrev pub no_connection : PgError → Db → Part
  no_connection e d = record { result = raised e; db = d; shown = [] }

  -- A connection, `with conn:` with these statements, and `finally: conn.close()`.
  unfoldable pub session : List Statement → Db → Part
  unfolding execute_all leave
  session ss d = elim (connect d) [
    | raised e ↦ no_connection e d
    | returned c ↦ part_of (leave (execute_all ss c))
  ]

  -- What a script needs to know of a stretch: `Q` holds of all that shows, and `R` of what is
  -- pending once all statements have succeeded.
  pub record Ends (Q R : Db → Type 0) (s : Stretch) : Type 0 where
    pub last : Q (committed s.conn)
    pub all : All Q s.shown
    pub pending : s.result ≡ returned tt → R (pg.pending s.conn)

  module _ (Q R : Db → Type 0) where
    pub execute_all-nil-Ends :
        (c : Connection) → Q (committed c) → R (pg.pending c) → Ends Q R (execute_all [] c)
    unfolding execute_all
    execute_all-nil-Ends c q p = record { last = q; all = tt; pending = λ _. p }

    pub execute_all-cons-Ends :
        (s : Statement) (ss : List Statement) (c : Connection)
        → Q (committed (execute s c).1)
        → ((execute s c).0 ≡ returned tt → Ends Q R (execute_all ss (execute s c).1))
        → Ends Q R (execute_all (s ∷ ss) c)
    unfolding execute_all after
    execute_all-cons-Ends s ss c q rest = elim (Outcome-cases (execute s c).0) [
      | inr (e, stop) ↦
          rw (stop, execute_all) (record { last = q; all = (q, tt); pending = λ h. cc })
      | inl (u, goes) ↦
          let r = rest goes in
          rw (goes, execute_all) (record { last = r.last; all = (q, r.all); pending = r.pending })
    ]

    -- Leaving `with conn:` shows at most what was pending, and that for certain if nothing is raised.
    pub leave-Ends :
        (s : Stretch)
        → ((d : Db) → R d → Q d)
        → Ends Q R s
        → Q (committed (leave s).conn)
          × All Q (leave s).shown
          × ((leave s).result ≡ returned tt → R (committed (leave s).conn))
    unfolding leave
    leave-Ends s weaken ends = elim (Outcome-cases s.result) [
      | inr (e, stop) ↦
          rw (stop, leave)
            (subst Q (sym (pg.committed-rollback s.conn)) ends.last, ends.all, λ h. cc)
      | inl (u, goes) ↦ elim (Outcome-cases (execute commit s.conn).0) [
        | inr (x, lost) ↦
            let same = subst Q (sym (pg.commit-raised s.conn x lost)) ends.last in
            rw (goes, leave, pg.commit_now-execute s.conn, lost)
              (same, All-append Q _ _ ends.all (same, tt), λ h. cc)
        | inl (v, sent) ↦
            let r = subst R (sym (pg.commit-returned s.conn sent).0) (ends.pending goes) in
            let q = weaken _ r in
            rw (goes, leave, pg.commit_now-execute s.conn, sent)
              (q, All-append Q _ _ ends.all (q, tt), λ h. r)
      ]
    ]

    -- The same for a whole session.
    pub session-Ends :
        (ss : List Statement) (d : Db)
        → ((e : Db) → R e → Q e)
        → Q d
        → ((c : Connection) → pg.pending c ≡ d → committed c ≡ d → Ends Q R (execute_all ss c))
        → Q (session ss d).db
          × All Q (session ss d).shown
          × ((session ss d).result ≡ returned tt → R (session ss d).db)
    unfolding session
    session-Ends ss d weaken q ends = elim (Outcome-cases (connect d)) [
      | inr (e, refused) ↦ rw (refused, session) (q, tt, λ h. cc)
      | inl (c, opened) ↦
          let (p, k) = pg.connect-fresh d c opened in
          rw (opened, session) (leave-Ends (execute_all ss c) weaken (ends c p k))
    ]

-- ===== src/Redis/Session.antt =====
-- A pipeline in use: what the loader's loops do with it, and what a flush of it would leave.

use realtime_fraud_feature_s.Prelude.{
  ℕ, suc, ◌+◌, ◌≤◌, ◌≡◌, refl, ◌∙◌, Option, none, some, List, [], ◌∷◌, ◌++◌, Text, text_eq,
  text_eq_iff, text_eq_self, if◌then◌else◌, arith, Bool-cases, inl, inr,
}
use realtime_fraud_feature_s.Redis.Server.{Redis, Command, set, expire, Entry, run_all}

-- One `pipe.set(key, value)` with its `pipe.expire(key, ttl)`.
pub record Write : Type 0 where
  pub key : Text
  pub value : Text
  pub ttl : ℕ

abbrev pub or_else : Option Write → Option Write → Option Write
or_else none o = o
or_else (some w) o = some w

-- The last write at a key.
unfoldable pub last_write : Text → List Write → Option Write
last_write k [] = none
last_write k (w ∷ ws) = or_else (last_write k ws) (if text_eq w.key k then some w else none)

-- What stands at a key after writes that began at second `start`: what stood there before if none
-- of them was at the key, and else the last one's value, for at least its time to live.
abbrev pub Written : ℕ → Option Entry → Option Write → Option Entry → Type 0
Written start old none new = new ≡ old
Written start old (some w) new =
    (gone : ℕ) × (new ≡ some (w.value, some gone)) × (start + w.ttl ≤ gone)

-- `clock n` is the second at which the pipeline's execute number n runs.
module _ (r : Redis) (clock : ℕ → ℕ) where
  pub record Session : Type 0 where
    pub pipe : r.Pipe
    pub store : r.Store
    pub executed : ℕ

  -- pipe.set(key, value); pipe.expire(key, ttl)
  unfoldable pub write : Write → Session → Session
  write w t = record t { pipe = r.add (expire w.key w.ttl) (r.add (set w.key w.value) t.pipe) }

  -- pipe.execute()
  unfoldable pub flush : Session → Session
  flush t =
      let (p, s) = r.execute (clock t.executed) t.pipe t.store in
      record { pipe = p; store = s; executed = suc t.executed }

  -- What a flush at this moment would leave in the store.
  unfoldable pub view : Session → r.Store
  view t = run_all (r.run (clock t.executed)) (r.queued t.pipe) t.store

  pub view-flush : (t : Session) → view (flush t) ≡ view t
  unfolding view flush
  view-flush t = rw (r.queued-execute, r.store-execute)

  pub store-flush : (t : Session) → (flush t).store ≡ view t
  unfolding view flush
  store-flush t = r.store-execute (clock t.executed) t.pipe t.store

  run_all-append :
      (now : ℕ) (cs ds : List Command) (s : r.Store)
      → run_all (r.run now) (cs ++ ds) s ≡ run_all (r.run now) ds (run_all (r.run now) cs s)
  run_all-append now [] ds s = refl
  run_all-append now (c ∷ cs) ds s = run_all-append now cs ds (r.run now c s)

  view-write :
      (w : Write) (t : Session)
      → view (write w t)
        ≡ r.run
            (clock t.executed)
            (expire w.key w.ttl)
            (r.run (clock t.executed) (set w.key w.value) (view t))
  unfolding view write
  view-write w t = simp (r.queued-add, run_all-append)

  -- One write, seen at any key.
  pub write-Written :
      (w : Write) (t : Session) (k : Text)
      → Written
          (clock t.executed)
          (r.entry (view t) k)
          (if text_eq w.key k then some w else none)
          (r.entry (view (write w t)) k)
  write-Written w t k = elim (Bool-cases (text_eq w.key k)) [
    | inl same ↦
        rw (same, ← (text_eq_iff w.key k).0 same, view-write w t)
          (
            clock t.executed + w.ttl,
            r.entry-expire_self _ _ _ _ _ (rw (r.entry-set, text_eq_self)),
            omega arith,
          )
    | inr other ↦
        rw (other, view-write w t) (rw (r.entry-expire_ne _ _ _ _ _ other, r.entry-set, other))
  ]

module _ (start : ℕ) (old mid new : Option Entry) where
  pub Written-trans :
      (a b : Option Write)
      → Written start old a mid
      → Written start mid b new
      → Written start old (or_else b a) new
  Written-trans none none p q = q ∙ p
  Written-trans (some w) none (gone, e, h) q = (gone, q ∙ e, h)
  Written-trans none (some w) p q = q
  Written-trans (some v) (some w) p q = q

pub Written-earlier :
    (early late : ℕ) (old new : Option Entry) (o : Option Write)
    → early ≤ late
    → Written late old o new
    → Written early old o new
Written-earlier early late old new none h p = p
Written-earlier early late old new (some w) h (gone, e, l) = (gone, e, omega arith)

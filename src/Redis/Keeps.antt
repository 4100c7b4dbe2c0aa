-- ===== src/Redis/Keeps.antt =====
-- Keys that a pipeline does not write.
use realtime_fraud_feature_s.Prelude.{
  ℕ, ◌≡◌, refl, ◌∙◌, false, Option, List, [], ◌∷◌, Text, text_eq, All, All-append,
}
use realtime_fraud_feature_s.Redis.Server.{Redis, Command, set, expire, Entry, run_all}
use realtime_fraud_feature_s.Redis.Session.{Session, Write, write, flush}

abbrev key_of : Command → Text
key_of (set k v) = k
key_of (expire k ttl) = k

-- No command is about `k`.
abbrev pub Avoids : Text → List Command → Type 0
Avoids k cs = All (λ c. text_eq (key_of c) k ≡ false) cs

module _ (r : Redis) where
  entry-run :
      (now : ℕ) (c : Command) (s : r.Store) (k : Text)
      → text_eq (key_of c) k ≡ false
      → r.entry (r.run now c s) k ≡ r.entry s k
  entry-run now (set j v) s k h = rw (r.entry-set, h)
  entry-run now (expire j ttl) s k h = r.entry-expire_ne now j ttl s k h

  entry-run_all :
      (now : ℕ) (cs : List Command) (s : r.Store) (k : Text)
      → Avoids k cs
      → r.entry (run_all (r.run now) cs s) k ≡ r.entry s k
  entry-run_all now [] s k h = refl
  entry-run_all now (c ∷ cs) s k (h, hs) =
      entry-run_all now cs (r.run now c s) k hs ∙ entry-run now c s k h

  module _ (clock : ℕ → ℕ) (k : Text) (old : Option Entry) where
    -- `k` holds what it held, and no command that is queued is about it.
    pub record Keeps (t : Session r clock) : Type 0 where
      pub entry : r.entry t.store k ≡ old
      pub queue : Avoids k (r.queued t.pipe)

    pub pipeline-Keeps :
        (t : Session r clock) → r.entry t.store k ≡ old → Keeps (record t { pipe = r.pipeline })
    pipeline-Keeps t h = record { entry = h; queue = rw r.queued-pipeline tt }

    pub write-Keeps :
        (w : Write) (t : Session r clock)
        → text_eq w.key k ≡ false
        → Keeps t
        → Keeps (write r clock w t)
    unfolding write
    write-Keeps w t h keeps = record {
      entry = keeps.entry;
      queue =
          rw (r.queued-add, r.queued-add)
            (All-append (λ c. text_eq (key_of c) k ≡ false) _ _
              (All-append (λ c. text_eq (key_of c) k ≡ false) _ _ keeps.queue (h, tt)) (h, tt));
    }

    pub flush-Keeps : (t : Session r clock) → Keeps t → Keeps (flush r clock t)
    unfolding flush
    flush-Keeps t keeps = record {
      entry =
          rw (r.store-execute) (
            entry-run_all (clock t.executed) (r.queued t.pipe) t.store k keeps.queue ∙ keeps.entry);
      queue = rw r.queued-execute tt;
    }

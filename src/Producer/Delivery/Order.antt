-- ===== src/Producer/Delivery/Order.antt =====
-- Per-user order: what `send` promises of the events of one user.
use realtime_fraud_feature_s.Prelude.{
  ℕ, ◌<◌, ◌≡◌, ◌≢◌, ◌⊎◌, inl, inr, refl, sym, ◌∙◌, ap, some, codes, length, ◌≤◌, text_eq,
  text_eq_iff, List, [], ◌∷◌, ◌++◌, Text, ℤ, arith, ◌==◌, if◌then◌else◌, false, true, Bool,
  Bool-cases,
}
use mathlib.Core.List.{append_assoc, append-nil}
use realtime_fraud_feature_s.Python.{DateTime}
use realtime_fraud_feature_s.Producer.{TransactionKafkaProducer, Message, message_of}
use realtime_fraud_feature_s.Producer.Delivery.{
  kafka_options, key_serializer, Sent, flat, Traffic, quiet, Step, accepts, drains, delivers,
  acknowledgement_lost, request_lost, fails, disappears, Reach, here, next,
}
use realtime_fraud_feature_s.Producer.Delivery.Batches.{In, In-append_right, Causal-split}
use realtime_fraud_feature_s.Producer.Delivery.Fits.{
  Fits, Fits-log, Fits-fail, Fits-settled, Fits-accept, Fits-other,
}

-- What one partition of the traffic shows, with the batches of `sent` under way.
abbrev OrderedWith : Traffic → ℕ → List Sent → Type 0
OrderedWith t p sent =
    (length sent ≤ 1) × Fits p t.total t.partition_of (t.log p) (flat sent ++ t.waiting p) t.failed

abbrev Ordered : Traffic → ℕ → Type 0
Ordered t p = OrderedWith t p (t.in_flight p)

-- A batch that is under way is the only one.
alone :
    (sent before after : List Sent) (s : Sent)
    → sent ≡ before ++ (s ∷ after)
    → length sent ≤ 1
    → (sent ≡ s ∷ []) × (before ≡ []) × (after ≡ [])
alone sent [] [] s parts one = (parts, refl, refl)
alone sent [] (b ∷ after) s parts one = absurd (omega (arith, rw (parts) at one))
alone sent (b ∷ []) after s parts one = absurd (omega (arith, rw (parts) at one))
alone sent (b ∷ (c ∷ before)) after s parts one = absurd (omega (arith, rw (parts) at one))

-- What the partition of a batch under way shows, without the others that there are not.
Ordered-alone :
    (t : Traffic) (p : ℕ) (before after : List Sent) (s : Sent)
    → t.in_flight p ≡ before ++ (s ∷ after)
    → Ordered t p
    → (before ≡ [])
      × (after ≡ [])
      × Fits p t.total t.partition_of (t.log p) (s.batch ++ t.waiting p) t.failed
Ordered-alone t p before after s parts (one, f) =
    let (it, b, a) = alone (t.in_flight p) before after s parts one in
    (b, a, rw (append-nil s.batch) at (rw (it) at f))

waits_for_all : text_eq (codes "all") (codes "all") ≢ false
waits_for_all other =
    let same : text_eq (codes "all") (codes "all") ≡ true =
      (text_eq_iff (codes "all") (codes "all")).1 refl in
    cc

none_under_way : (sent : List Sent) → length sent < 1 → sent ≡ []
none_under_way [] lt = refl
none_under_way (s ∷ sent) lt = absurd (omega arith)

fails-Fits :
    (p total : ℕ) (of : ℕ → ℕ) (log batch rest failed : List ℕ) (appended : Bool)
    → Fits p total of log (batch ++ rest) failed
    → Fits p total of (log ++ (if appended then batch else [])) rest (failed ++ batch)
fails-Fits p total of log batch rest failed true f =
    Fits-settled p total of (log ++ batch) batch rest (failed ++ batch)
      (λ n h. inl (In-append_right n log batch h))
      (Fits-fail p total of (log ++ batch) (batch ++ rest) failed batch
        (Fits-log p total of log batch rest failed f))
fails-Fits p total of log batch rest failed false f = rw (append-nil log) (
    Fits-settled p total of log batch rest (failed ++ batch)
      (λ n h. inr (In-append_right n failed batch h))
      (Fits-fail p total of log (batch ++ rest) failed batch f))

eq_of : (p q : ℕ) → (p == q) ≡ true → q ≡ p
eq_of p q h = ground arith

serialized : (k : Text) → k ≢ [] → key_serializer k ≡ some k
unfolding key_serializer
serialized [] h = absurd (h refl)
serialized (c ∷ cs) h = refl

module _ (bootstrap_servers : Text) (partition : Text → ℕ) (millis : DateTime → ℤ)
    (producer : TransactionKafkaProducer) where
  record IsOrdered (t : Traffic) : Type 0 where
    ordered : (p : ℕ) → Ordered t p
    keyed :
        (n : ℕ)
        → n < t.total
        → (t.message n).key ≢ []
        → t.partition_of n ≡ partition (t.message n).key
    sender : (n : ℕ) → n < t.total → (t.message n).key ≡ (t.message n).value.user_id

  Step-Ordered :
      {s t : Traffic}
      → Step (kafka_options bootstrap_servers) partition millis producer s t
      → ((p : ℕ) → Ordered s p)
      → (p : ℕ) → Ordered t p
  Step-Ordered {s} (accepts event q to) o p = elim (Bool-cases (p == q)) [
    | inl e ↦
        rw (e, eq_of p q e, ← append_assoc (flat (s.in_flight p)) (s.waiting p) (s.total ∷ []))
          ((o p).0, Fits-accept p s.total s.partition_of _ _ _ (o p).1)
    | inr apart ↦ rw (apart) ((o p).0, Fits-other p s.total s.partition_of q _ _ _ apart (o p).1)
  ]
  Step-Ordered {s} (drains q batch rest few waits) o p = elim (Bool-cases (p == q)) [
    | inl e ↦
        let idle : s.in_flight p ≡ [] = none_under_way _ (rw (eq_of p q e) at few) in
        let waits_p : s.waiting p ≡ batch ++ rest = rw (eq_of p q e) at waits in
        rw (e, eq_of p q e, idle, append-nil batch) (omega arith, rw (idle, waits_p) at (o p).1)
    | inr apart ↦ rw (apart) (o p)
  ]
  Step-Ordered {s} (delivers q before b after parts) o p = elim (Bool-cases (p == q)) [
    | inl e ↦
        let (none_before, none_after, f) =
          Ordered-alone s p before after b (rw (eq_of p q e) at parts) (o p) in
        rw (e, eq_of p q e, none_before, none_after)
          (
            omega arith,
            Fits-settled p s.total s.partition_of _ b.batch (s.waiting p) s.failed
                (λ n h. inl (In-append_right n (s.log p) b.batch h))
                (Fits-log p s.total s.partition_of (s.log p) b.batch (s.waiting p) s.failed f),
          )
    | inr apart ↦ rw (apart) (o p)
  ]
  Step-Ordered {s} (acknowledgement_lost q before b after parts few) o p =
      elim (Bool-cases (p == q)) [
        | inl e ↦
            let (none_before, none_after, f) =
              Ordered-alone s p before after b (rw (eq_of p q e) at parts) (o p) in
            rw (e, eq_of p q e, none_before, none_after, append-nil b.batch)
              (
                omega arith,
                Fits-log p s.total s.partition_of (s.log p) b.batch (s.waiting p) s.failed f,
              )
        | inr apart ↦ rw (apart) (o p)
      ]
  Step-Ordered {s} (request_lost q before b after parts few) o p = elim (Bool-cases (p == q)) [
    | inl e ↦
        let (none_before, none_after, f) =
          Ordered-alone s p before after b (rw (eq_of p q e) at parts) (o p) in
        rw (e, none_before, none_after, append-nil b.batch) (omega arith, f)
    | inr apart ↦ rw (apart) (o p)
  ]
  Step-Ordered {s} (fails q before b after appended parts) o p = elim (Bool-cases (p == q)) [
    | inl e ↦
        let (none_before, none_after, f) =
          Ordered-alone s p before after b (rw (eq_of p q e) at parts) (o p) in
        rw (e, eq_of p q e, none_before, none_after)
          (
            omega arith,
            fails-Fits p s.total s.partition_of (s.log p) b.batch (s.waiting p) s.failed appended f,
          )
    | inr apart ↦
        rw (apart) ((o p).0, Fits-fail p s.total s.partition_of _ _ s.failed b.batch (o p).1)
  ]
  Step-Ordered (disappears q before b after other parts) o p = absurd (waits_for_all other)

  Step-keyed :
      {s t : Traffic}
      → Step (kafka_options bootstrap_servers) partition millis producer s t
      → ((n : ℕ)
          → n < s.total
          → (s.message n).key ≢ []
          → s.partition_of n ≡ partition (s.message n).key)
      → (n : ℕ) → n < t.total
      → (t.message n).key ≢ []
      → t.partition_of n ≡ partition (t.message n).key
  Step-keyed {s} (accepts event q to) k n lt named = elim (Bool-cases (n == s.total)) [
    | inl new ↦ rw (new) (to _ (serialized _ (rw (new) at named)))
    | inr old ↦ rw (old) (k n (ground arith) (rw (old) at named))
  ]
  Step-keyed (drains q batch rest few waits) k n lt named = k n lt named
  Step-keyed (delivers q before b after parts) k n lt named = k n lt named
  Step-keyed (acknowledgement_lost q before b after parts few) k n lt named = k n lt named
  Step-keyed (request_lost q before b after parts few) k n lt named = k n lt named
  Step-keyed (fails q before b after appended parts) k n lt named = k n lt named
  Step-keyed (disappears q before b after other parts) k n lt named = k n lt named

  Step-sender :
      {s t : Traffic}
      → Step (kafka_options bootstrap_servers) partition millis producer s t
      → ((n : ℕ) → n < s.total → (s.message n).key ≡ (s.message n).value.user_id)
      → (n : ℕ) → n < t.total
      → (t.message n).key ≡ (t.message n).value.user_id
  unfolding message_of
  Step-sender {s} (accepts event q to) k n lt = elim (Bool-cases (n == s.total)) [
    | inl new ↦ rw (new) refl
    | inr old ↦ rw (old) (k n (ground arith))
  ]
  Step-sender (drains q batch rest few waits) k n lt = k n lt
  Step-sender (delivers q before b after parts) k n lt = k n lt
  Step-sender (acknowledgement_lost q before b after parts few) k n lt = k n lt
  Step-sender (request_lost q before b after parts few) k n lt = k n lt
  Step-sender (fails q before b after appended parts) k n lt = k n lt
  Step-sender (disappears q before b after other parts) k n lt = k n lt

  Reach-IsOrdered :
      {s t : Traffic}
      → IsOrdered s
      → Reach (kafka_options bootstrap_servers) partition millis producer s t
      → IsOrdered t
  Reach-IsOrdered o here = o
  Reach-IsOrdered o (next path step) =
      let before = Reach-IsOrdered o path in
      record {
        ordered = Step-Ordered step before.ordered;
        keyed = Step-keyed step before.keyed;
        sender = Step-sender step before.sender;
      }

  quiet-IsOrdered : (message : ℕ → Message) → IsOrdered (quiet message)
  quiet-IsOrdered message = record {
    ordered = λ p. (
      omega arith,
      record {
        known = λ n lt e. absurd (omega arith);
        rising = tt;
        causal = tt;
        logged = λ n h. absurd h;
        queued = λ n h. absurd h;
      },
    );
    keyed = λ n lt named. absurd (omega arith);
    sender = λ n lt. absurd (omega arith);
  }

  -- With the options of the code, whatever is lost, sent again or fails, every accepted event stands in its partition's log, has
  -- failed or is still on its way. And no event of a user, of a user id that is not empty, stands in
  -- the topic before an earlier one of the same user, unless that one has failed.
  pub per_user_order :
      (message : ℕ → Message) (t : Traffic)
      → Reach (kafka_options bootstrap_servers) partition millis producer (quiet message) t
      → ((n : ℕ)
          → n < t.total
          → let p = t.partition_of n in
            In n (t.log p) ⊎ (In n t.failed ⊎ In n (flat (t.in_flight p) ++ t.waiting p)))
        × ((p m n : ℕ) (before after : List ℕ)
            → t.log p ≡ before ++ (m ∷ after)
            → n < m
            → (t.message n).value.user_id ≡ (t.message m).value.user_id
            → (t.message m).value.user_id ≢ []
            → In n before ⊎ In n t.failed)
  per_user_order message t path =
      let o = Reach-IsOrdered (quiet-IsOrdered message) path in
      (
        λ n lt. (o.ordered (t.partition_of n)).1.known n lt refl,
        λ p m n before after parts earlier user named.
            let f = (o.ordered p).1 in
            let (lt, here_) =
              f.logged m (rw (parts) (In-append_right m before (m ∷ after) (inl refl))) in
            let less : n < t.total = omega arith in
            let key_m = o.sender m lt in
            let key_n = o.sender n less in
            let to_m = o.keyed m lt (rw (key_m) named) in
            let to_n = o.keyed n less (rw (key_n, user) named) in
            let together : t.partition_of n ≡ p =
              to_n ∙ ap partition (key_n ∙ user ∙ sym key_m) ∙ sym to_m ∙ here_ in
            Causal-split (λ k. t.partition_of k ≡ p) t.failed [] before m after n
              (rw (parts) at f.causal) earlier together,
      )

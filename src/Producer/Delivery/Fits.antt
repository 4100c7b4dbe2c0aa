-- ===== src/Producer/Delivery/Fits.antt =====
-- One partition: its log, the messages that are on their way to it, and those that failed.
use realtime_fraud_feature_s.Prelude.{
  ℕ, suc, ◌<◌, ◌≡◌, ◌⊎◌, inl, inr, sym, ◌∙◌, List, [], ◌∷◌, ◌++◌, arith, ◌==◌, false, Bool-cases,
}
use mathlib.Core.List.{append-nil}
use realtime_fraud_feature_s.Producer.Delivery.{at}
use realtime_fraud_feature_s.Producer.Delivery.Batches.{
  In, Rising, In-append, In-append_left, In-append_right, Rising-In, Rising-snoc, Rising-weaken,
  Rising-append_right, Causal, Causal-append, Causal-batch, Causal-weaken,
}

-- `of` gives the partition of each accepted message, and `queue` those of p that are not settled.
pub record Fits (p total : ℕ) (of : ℕ → ℕ) (log queue failed : List ℕ) : Type 0 where
  pub known : (n : ℕ) → n < total → of n ≡ p → In n log ⊎ (In n failed ⊎ In n queue)
  pub rising : Rising 0 total queue
  pub causal : Causal (λ n. of n ≡ p) failed [] log
  pub logged : (n : ℕ) → In n log → (n < total) × (of n ≡ p)
  pub queued : (n : ℕ) → In n queue → of n ≡ p

module _ (p total : ℕ) (of : ℕ → ℕ) where
  -- The oldest messages are appended; they may stay in the queue for another try.
  pub Fits-log :
      (log batch rest failed : List ℕ)
      → Fits p total of log (batch ++ rest) failed
      → Fits p total of (log ++ batch) (batch ++ rest) failed
  Fits-log log batch rest failed f = record {
    known = λ n lt e. elim (f.known n lt e) [
      | inl a ↦ inl (In-append_left n log batch a)
      | inr b ↦ inr b
    ];
    rising = f.rising;
    causal =
        Causal-append (λ n. of n ≡ p) failed [] log batch f.causal
          (Causal-batch (λ n. of n ≡ p) failed total log batch rest f.rising f.known);
    logged = λ n h. elim (In-append n log batch h) [
      | inl a ↦ f.logged n a
      | inr b ↦
          let q = In-append_left n batch rest b in
          ((Rising-In 0 total n (batch ++ rest) f.rising q).1, f.queued n q)
    ];
    queued = f.queued;
  }

  pub Fits-fail :
      (log queue failed more : List ℕ)
      → Fits p total of log queue failed
      → Fits p total of log queue (failed ++ more)
  Fits-fail log queue failed more f = record {
    known = λ n lt e. elim (f.known n lt e) [
      | inl a ↦ inl a
      | inr (inl b) ↦ inr (inl (In-append_left n failed more b))
      | inr (inr c) ↦ inr (inr c)
    ];
    rising = f.rising;
    causal =
        Causal-weaken (λ n. of n ≡ p) (λ n. of n ≡ p) failed more total [] log
          (λ x h. (f.logged x h).0) (λ n lt e. e) f.causal;
    logged = f.logged;
    queued = f.queued;
  }

  -- The oldest messages leave the queue once they are settled.
  pub Fits-settled :
      (log batch rest failed : List ℕ)
      → ((n : ℕ) → In n batch → In n log ⊎ In n failed)
      → Fits p total of log (batch ++ rest) failed
      → Fits p total of log rest failed
  Fits-settled log batch rest failed settled f = record {
    known = λ n lt e. elim (f.known n lt e) [
      | inl a ↦ inl a
      | inr (inl b) ↦ inr (inl b)
      | inr (inr c) ↦ elim (In-append n batch rest c) [
        | inr r ↦ inr (inr r)
        | inl s ↦ elim (settled n s) [ inl a ↦ inl a | inr b ↦ inr (inl b) ]
      ]
    ];
    rising = Rising-append_right 0 total batch rest f.rising;
    causal = f.causal;
    logged = f.logged;
    queued = λ n h. f.queued n (In-append_right n batch rest h);
  }

  at_old : (q n : ℕ) → n < total → at total q of n ≡ of n
  at_old q n lt = ground arith

  at_new : (q : ℕ) → at total q of total ≡ q
  at_new q = ground arith

  accepted-Causal :
      (q : ℕ) (log failed : List ℕ)
      → ((x : ℕ) → In x log → x < total)
      → Causal (λ n. of n ≡ p) failed [] log
      → Causal (λ n. at total q of n ≡ p) failed [] log
  accepted-Causal q log failed small c = rw (append-nil failed) at (
      Causal-weaken (λ n. of n ≡ p) (λ n. at total q of n ≡ p) failed [] total [] log small
        (λ n lt e. ground (arith, at_old q n lt)) c)

  -- A new message of this partition joins the end of the queue.
  pub Fits-accept :
      (log queue failed : List ℕ)
      → Fits p total of log queue failed
      → Fits p (suc total) (at total p of) log (queue ++ total ∷ []) failed
  Fits-accept log queue failed f = record {
    known = λ n lt e. elim (Bool-cases (n == total)) [
      | inl new ↦ inr (inr (In-append_right n queue (total ∷ []) (inl (ground arith))))
      | inr old ↦
          let less : n < total = ground arith in
          elim (f.known n less (sym (at_old p n less) ∙ e)) [
            | inl a ↦ inl a
            | inr (inl b) ↦ inr (inl b)
            | inr (inr c) ↦ inr (inr (In-append_left n queue (total ∷ []) c))
          ]
    ];
    rising = Rising-snoc 0 total queue (omega arith) f.rising;
    causal = accepted-Causal p log failed (λ x h. (f.logged x h).0) f.causal;
    logged = λ n h. let (lt, e) = f.logged n h in (omega arith, at_old p n lt ∙ e);
    queued = λ n h. elim (In-append n queue (total ∷ []) h) [
      | inl a ↦ at_old p n (Rising-In 0 total n queue f.rising a).1 ∙ f.queued n a
      | inr (inl e) ↦ rw (e) (at_new p)
      | inr (inr x) ↦ absurd x
    ];
  }

  -- A new message of another partition.
  pub Fits-other :
      (q : ℕ) (log queue failed : List ℕ)
      → (p == q) ≡ false
      → Fits p total of log queue failed
      → Fits p (suc total) (at total q of) log queue failed
  Fits-other q log queue failed apart f = record {
    known = λ n lt e. elim (Bool-cases (n == total)) [
      | inl new ↦ absurd (ground arith)
      | inr old ↦ let less : n < total = ground arith in f.known n less (sym (at_old q n less) ∙ e)
    ];
    rising = Rising-weaken 0 total queue f.rising;
    causal = accepted-Causal q log failed (λ x h. (f.logged x h).0) f.causal;
    logged = λ n h. let (lt, e) = f.logged n h in (omega arith, at_old q n lt ∙ e);
    queued = λ n h. at_old q n (Rising-In 0 total n queue f.rising h).1 ∙ f.queued n h;
  }

-- ===== src/Producer/Delivery/Batches.antt =====
-- Rising lists of numbers, and logs in which nothing overtakes.
use realtime_fraud_feature_s.Prelude.{
  ℕ, suc, ◌≤◌, ◌<◌, ◌≡◌, ◌⊎◌, inl, inr, refl, List, [], ◌∷◌, ◌++◌, arith,
}
use mathlib.Core.List.{append_assoc, append-nil}

abbrev pub In : ℕ → List ℕ → Type 0
In n [] = ⊥
In n (x ∷ xs) = (n ≡ x) ⊎ In n xs

-- At least `lo`, below `hi`, and each greater than the one before.
abbrev pub Rising : ℕ → ℕ → List ℕ → Type 0
Rising lo hi [] = Unit
Rising lo hi (x ∷ xs) = (lo ≤ x) × (x < hi) × Rising (suc x) hi xs

pub In-append : (n : ℕ) (xs ys : List ℕ) → In n (xs ++ ys) → In n xs ⊎ In n ys
In-append n [] ys h = inr h
In-append n (x ∷ xs) ys (inl e) = inl (inl e)
In-append n (x ∷ xs) ys (inr h) = elim (In-append n xs ys h) [ inl a ↦ inl (inr a) | inr b ↦ inr b ]

pub In-append_left : (n : ℕ) (xs ys : List ℕ) → In n xs → In n (xs ++ ys)
In-append_left n [] ys h = absurd h
In-append_left n (x ∷ xs) ys (inl e) = inl e
In-append_left n (x ∷ xs) ys (inr h) = inr (In-append_left n xs ys h)

pub In-append_right : (n : ℕ) (xs ys : List ℕ) → In n ys → In n (xs ++ ys)
In-append_right n [] ys h = h
In-append_right n (x ∷ xs) ys h = inr (In-append_right n xs ys h)

pub Rising-In : (lo hi n : ℕ) (xs : List ℕ) → Rising lo hi xs → In n xs → (lo ≤ n) × (n < hi)
Rising-In lo hi n [] r h = absurd h
Rising-In lo hi n (x ∷ xs) (le, lt, r) (inl e) = (omega arith, omega arith)
Rising-In lo hi n (x ∷ xs) (le, lt, r) (inr h) =
    let (a, b) = Rising-In (suc x) hi n xs r h in (omega arith, b)

pub Rising-snoc :
    (lo hi : ℕ) (xs : List ℕ) → lo ≤ hi → Rising lo hi xs → Rising lo (suc hi) (xs ++ hi ∷ [])
Rising-snoc lo hi [] le r = (le, omega arith, tt)
Rising-snoc lo hi (x ∷ xs) le (a, b, r) =
    (a, omega arith, Rising-snoc (suc x) hi xs (omega arith) r)

pub Rising-weaken : (lo hi : ℕ) (xs : List ℕ) → Rising lo hi xs → Rising lo (suc hi) xs
Rising-weaken lo hi [] r = tt
Rising-weaken lo hi (x ∷ xs) (a, b, r) = (a, omega arith, Rising-weaken (suc x) hi xs r)

pub Rising-append_right : (lo hi : ℕ) (xs ys : List ℕ) → Rising lo hi (xs ++ ys) → Rising 0 hi ys
Rising-append_right lo hi [] [] r = tt
Rising-append_right lo hi [] (y ∷ ys) (a, b, r) = (omega arith, b, r)
Rising-append_right lo hi (x ∷ xs) ys (a, b, r) = Rising-append_right (suc x) hi xs ys r

-- `Due n` says that n belongs to this log. Nothing stands in it behind `before` unless all smaller
-- ones that are due stand earlier or have failed.
abbrev pub Causal : (ℕ → Type 0) → List ℕ → List ℕ → List ℕ → Type 0
Causal Due failed before [] = Unit
Causal Due failed before (x ∷ xs) =
    ((n : ℕ) → n < x → Due n → In n before ⊎ In n failed) × Causal Due failed (before ++ x ∷ []) xs

module _ (Due : ℕ → Type 0) (failed : List ℕ) where
  pub Causal-append :
      (before xs ys : List ℕ)
      → Causal Due failed before xs
      → Causal Due failed (before ++ xs) ys
      → Causal Due failed before (xs ++ ys)
  Causal-append before [] ys c d = rw (append-nil before) at d
  Causal-append before (x ∷ xs) ys (o, c) d =
      (o, Causal-append (before ++ x ∷ []) xs ys c (rw (← append_assoc before (x ∷ []) xs) at d))

  -- A batch of the oldest messages that are neither in the log nor failed.
  pub Causal-batch :
      (hi : ℕ) (before batch rest : List ℕ)
      → Rising 0 hi (batch ++ rest)
      → ((n : ℕ) → n < hi → Due n → In n before ⊎ (In n failed ⊎ In n (batch ++ rest)))
      → Causal Due failed before batch
  Causal-batch hi before [] rest r known = tt
  Causal-batch hi before (x ∷ batch) rest (lo, lt, r) known = (
    λ n less due. elim (known n (omega arith) due) [
      | inl a ↦ inl a
      | inr (inl b) ↦ inr b
      | inr (inr (inl e)) ↦ absurd (omega arith)
      | inr (inr (inr c)) ↦
          let (above, _) = Rising-In (suc x) hi n (batch ++ rest) r c in absurd (omega arith)
    ],
    Causal-batch hi (before ++ x ∷ []) batch rest
        (Rising-append_right 0 hi (x ∷ []) (batch ++ rest) (lo, lt, r))
        (λ n less due. elim (known n less due) [
          | inl a ↦ inl (In-append_left n before (x ∷ []) a)
          | inr (inl b) ↦ inr (inl b)
          | inr (inr (inl e)) ↦ inl (In-append_right n before (x ∷ []) (inl e))
          | inr (inr (inr c)) ↦ inr (inr c)
        ]),
  )

  pub Causal-split :
      (start before : List ℕ) (x : ℕ) (after : List ℕ) (n : ℕ)
      → Causal Due failed start (before ++ (x ∷ after))
      → n < x
      → Due n
      → In n (start ++ before) ⊎ In n failed
  Causal-split start [] x after n (o, c) lt due = rw (append-nil start) (o n lt due)
  Causal-split start (y ∷ before) x after n (o, c) lt due =
      rw (← append_assoc start (y ∷ []) before)
        (Causal-split (start ++ y ∷ []) before x after n c lt due)

-- More failures, and nothing more that is due below the numbers of the log.
pub Causal-weaken :
    (Due Still : ℕ → Type 0) (failed more : List ℕ) (hi : ℕ) (before xs : List ℕ)
    → ((x : ℕ) → In x xs → x < hi)
    → ((n : ℕ) → n < hi → Still n → Due n)
    → Causal Due failed before xs
    → Causal Still (failed ++ more) before xs
Causal-weaken Due Still failed more hi before [] small same c = tt
Causal-weaken Due Still failed more hi before (x ∷ xs) small same (o, c) = (
  λ n lt due.
      let below : x < hi = small x (inl refl) in
      elim (o n lt (same n (omega arith) due)) [
        | inl a ↦ inl a
        | inr b ↦ inr (In-append_left n failed more b)
      ],
  Causal-weaken Due Still failed more hi (before ++ x ∷ []) xs (λ y h. small y (inr h)) same c,
)

-- ===== src/Bronze/Stream/Offsets.antt =====
-- The messages below offsets, batch by batch and as the topic grows.
use mathlib.Core.List.{Perm, append_assoc, perm_middle}
use mathlib.Core.List.Perm
use realtime_fraud_feature_s.Prelude.{
  ◌+◌, ℕ, zero, suc, ◌≤◌, ◌<◌, ◌≡◌, refl, sym, ap, ◌∙◌, List, [], ◌∷◌, ◌++◌, length, length-append,
  arith,
}
use realtime_fraud_feature_s.Python.{take}
use realtime_fraud_feature_s.Bronze.Stream.{Offsets, drop, below, between, starting_offsets}

pub append-swap {ℓ} :
    {A : Type ℓ} (xs ys zs ws : List A) → Perm ((xs ++ ys) ++ (zs ++ ws)) ((xs ++ zs) ++ (ys ++ ws))
append-swap {A = A} xs ys zs ws =
    rw (append_assoc xs ys (zs ++ ws), append_assoc xs zs (ys ++ ws))
      (Perm.append_left xs (swapped ys zs ws))
  where
    swapped : (ys zs ws : List A) → Perm (ys ++ (zs ++ ws)) (zs ++ (ys ++ ws))
    swapped ys [] ws = Perm.refl (ys ++ ws)
    swapped ys (z ∷ zs) ws = Perm.trans (perm_middle ys (zs ++ ws)) (Perm.cons z (swapped ys zs ws))

take-drop {ℓ} :
    {A : Type ℓ} (a b : ℕ) (xs : List A) → a ≤ b → take a xs ++ drop a (take b xs) ≡ take b xs
take-drop zero b xs h = refl
take-drop (suc a) zero xs h = absurd (omega arith)
take-drop (suc a) (suc b) [] h = refl
take-drop (suc a) (suc b) (x ∷ xs) h = ap (◌∷◌ x) (take-drop a b xs (omega arith))

take-append {ℓ} :
    {A : Type ℓ} (a : ℕ) (xs ys : List A) → a ≤ length xs → take a (xs ++ ys) ≡ take a xs
take-append zero xs ys h = refl
take-append (suc a) [] ys h = absurd (omega arith)
take-append (suc a) (x ∷ xs) ys h = ap (◌∷◌ x) (take-append a xs ys (omega arith))

module _ {A : Type 0} where
  -- The offsets have been reached by the topic.
  abbrev pub Arrived : ℕ → (ℕ → List A) → Offsets → Type 0
  Arrived n log to = (p : ℕ) → p < n → to p ≤ length (log p)

  pub Arrived-append :
      (n : ℕ) (log more : ℕ → List A) (to : Offsets)
      → Arrived n log to
      → Arrived n (λ p. log p ++ more p) to
  Arrived-append n log more to h = λ p lt. omega (arith, h p lt, length-append (log p) (more p))

  -- What has arrived does not change.
  pub below-append :
      (n : ℕ) (log more : ℕ → List A) (to : Offsets)
      → Arrived n log to
      → below n (λ p. log p ++ more p) to ≡ below n log to
  below-append zero log more to h = refl
  below-append (suc n) log more to h =
      rw
        (
          below-append n log more to (λ p lt. h p (omega arith)),
          take-append (to n) (log n) (more n) (h n (omega arith)),
        )
        refl

  pub between-append :
      (n : ℕ) (log more : ℕ → List A) (from to : Offsets)
      → Arrived n log to
      → between n (λ p. log p ++ more p) from to ≡ between n log from to
  between-append zero log more from to h = refl
  between-append (suc n) log more from to h =
      rw
        (
          between-append n log more from to (λ p lt. h p (omega arith)),
          take-append (to n) (log n) (more n) (h n (omega arith)),
        )
        refl

  pub length-below :
      (n : ℕ) (log : ℕ → List A) (from to : Offsets)
      → ((p : ℕ) → p < n → from p ≤ to p)
      → length (below n log to) ≡ length (below n log from) + length (between n log from to)
  length-below zero log from to h = omega arith
  length-below (suc n) log from to h =
      let xs = take (from n) (log n) in
      let ys = drop (from n) (take (to n) (log n)) in
      let whole = ap length (sym (take-drop (from n) (to n) (log n) (h n (omega arith)))) in
      omega (
        arith,
        whole,
        length-append xs ys,
        length-append (below n log from) xs,
        length-append (between n log from to) ys,
        length-append (below n log to) (take (to n) (log n)),
        length-below n log from to (λ p lt. h p (omega arith)),
      )

  pub below-start : (n : ℕ) (log : ℕ → List A) → below n log starting_offsets ≡ []
  below-start zero log = refl
  below-start (suc n) log = rw (below-start n log) refl

  module _ {B : Type 0} (f : List A → List B) (nil : f [] ≡ [])
      (homo : (xs ys : List A) → f (xs ++ ys) ≡ f xs ++ f ys) where
    -- A batch is what the query had not read.
    pub below-between :
        (n : ℕ) (log : ℕ → List A) (from to : Offsets)
        → ((p : ℕ) → p < n → from p ≤ to p)
        → Perm (f (below n log from) ++ f (between n log from to)) (f (below n log to))
    below-between zero log from to h = rw (nil) (Perm.refl [])
    below-between (suc n) log from to h =
        let xs = take (from n) (log n) in
        let ys = drop (from n) (take (to n) (log n)) in
        let whole =
          ap f (sym (take-drop (from n) (to n) (log n) (h n (omega arith)))) ∙ homo xs ys in
        rw
          (
            homo (below n log from) xs,
            homo (between n log from to) ys,
            homo (below n log to) (take (to n) (log n)),
            whole,
          )
          (Perm.trans (append-swap (f (below n log from)) (f xs) (f (between n log from to)) (f ys))
            (Perm.append_right (f xs ++ f ys)
              (below-between n log from to (λ p lt. h p (omega arith)))))

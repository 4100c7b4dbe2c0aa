-- ===== src/Generator/Choices.antt =====
-- `rng.choices` as _pick_transaction_type and _pick_status of
-- ingestion/transaction_generator/src/generator.py use it.
use realtime_fraud_feature_s.Prelude.{
  ℕ, ◌+◌, ◌-◌, ◌≤◌, ◌<◌, ◌≡◌, refl, ◌∙◌, Bool-cases, inl, inr, some, List, [], ◌∷◌, ◌++◌, ltb,
  arith,
}
use realtime_fraud_feature_s.Schemas.{TransactionType, TransactionStatus}
use realtime_fraud_feature_s.Python.{choices, total, choices_first, choices_later}
use realtime_fraud_feature_s.Generator.{tx_type_weights, status_weights}

choices-some {ℓ} :
    {A : Type ℓ} (v : A) (w : ℕ) (xs : List (A × ℕ)) (ticket : ℕ)
    → (a : A) × (choices ((v, w) ∷ xs) ticket ≡ some a)
unfolding choices
choices-some v w [] ticket = (v, refl)
choices-some v w ((v', w') ∷ xs) ticket = elim (Bool-cases (ltb ticket w)) [
  | inl mine ↦ (v, rw (mine))
  | inr others ↦
      let (a, e) = choices-some v' w' xs (ticket - w) in
      (a, choices_later v w (v', w') xs ticket others ∙ e)
]

pub transaction_type_drawn :
    (ticket : ℕ) → (t : TransactionType) × (choices tx_type_weights ticket ≡ some t)
transaction_type_drawn ticket = choices-some _ _ _ ticket

pub status_drawn : (ticket : ℕ) → (s : TransactionStatus) × (choices status_weights ticket ≡ some s)
status_drawn ticket = choices-some _ _ _ ticket

choices_skip {ℓ} :
    {A : Type ℓ} (v : A) (w : ℕ) (xs : List (A × ℕ)) (u : A) (k : ℕ) (ys : List (A × ℕ))
    (ticket : ℕ)
    → w ≤ ticket
    → choices ((v, w) ∷ (xs ++ ((u, k) ∷ ys))) ticket ≡ choices (xs ++ ((u, k) ∷ ys)) (ticket - w)
choices_skip v w [] u k ys ticket h = choices_later v w (u, k) ys ticket (ground arith)
choices_skip v w (x ∷ xs) u k ys ticket h =
    choices_later v w x (xs ++ ((u, k) ∷ ys)) ticket (ground arith)

-- Of as many tickets as the weights have in sum, each value gets just as many as its weight: those
-- from the sum of the weights before it on.
pub choices-append {ℓ} :
    {A : Type ℓ} (before : List (A × ℕ)) (v : A) (w : ℕ) (after : List (A × ℕ)) (ticket : ℕ)
    → total before ≤ ticket
    → ticket < total before + w
    → choices (before ++ ((v, w) ∷ after)) ticket ≡ some v
choices-append [] v w after ticket lo hi = choices_first v w after ticket (omega arith)
choices-append ((v', w') ∷ before) v w after ticket lo hi =
    choices_skip v' w' before v w after ticket (omega arith)
    ∙ choices-append before v w after (ticket - w') (omega arith) (omega arith)

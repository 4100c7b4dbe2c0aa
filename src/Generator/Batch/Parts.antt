-- ===== src/Generator/Batch/Parts.antt =====
-- A batch in two parts, and the merchants by category.
use realtime_fraud_feature_s.Prelude.{
  returned-injective, ℕ, zero, suc, ◌+◌, ◌≡◌, refl, ap, ◌∙◌, sym, List, [], ◌∷◌, ◌++◌, Text,
  text_eq, text_eq_iff, length, ◌≤◌, ◌⊎◌, Dict, get, put, get-put, returned, raised, Bool-cases,
  inl, inr, >>=-returned, if◌then◌else◌, arith,
}
use mathlib.Core.List.{append_assoc, append-nil}
use realtime_fraud_feature_s.Schemas.{TransactionEvent, Pydantic}
use realtime_fraud_feature_s.Profiles.{UserProfile, MerchantProfile}
use realtime_fraud_feature_s.Generator.{value_error, Floats, Draws, generate_one}
use realtime_fraud_feature_s.Generator.Batch.{
  TransactionGenerator, or_empty, group_by_category, init, generate_batch,
}

module _ (floats : Floats) (py : Pydantic) (draws : ℕ → Draws floats) where
  -- A batch that is made whole is made part by part.
  pub generate_batch-add :
      (gen : TransactionGenerator) (i m n : ℕ) (es : List TransactionEvent)
      → generate_batch floats py draws gen i (m + n) ≡ returned es
      → (xs : List TransactionEvent) × (ys : List TransactionEvent) × (generate_batch floats py
            draws gen i m
          ≡ returned xs)
        × (generate_batch floats py draws gen (i + m) n ≡ returned ys)
        × (es ≡ xs ++ ys)
  unfolding generate_batch
  generate_batch-add gen i zero n es h =
      let none_more : i + 0 ≡ i = omega arith in
      let all_left : 0 + n ≡ n = omega arith in
      ([], es, refl, rw (none_more) (rw (all_left) at h), refl)
  generate_batch-add gen i (suc m) n es h =
      let one_more : suc m + n ≡ suc (m + n) = omega arith in
      let turn : generate_batch floats py draws gen i (suc (m + n)) ≡ returned es =
        rw (one_more) at h in
      let (e, first, h1) =
        >>=-returned (generate_one floats py gen.users gen.merchants (draws i)) _ turn in
      let (rest, made, h2) =
        >>=-returned (generate_batch floats py draws gen (i + 1) (m + n)) _ h1 in
      let (xs, ys, front, back, parts) = generate_batch-add gen (i + 1) m n rest made in
      let moved : i + suc m ≡ (i + 1) + m = omega arith in
      let cons : e ∷ rest ≡ es = returned-injective h2 in
      (e ∷ xs, ys, rw (first, front) refl, rw (moved) back, sym cons ∙ ap (◌∷◌ e) parts)

-- The merchants of a category, in their order.
abbrev pub of_category : Text → List MerchantProfile → List MerchantProfile
of_category c [] = []
of_category c (m ∷ ms) = if text_eq m.category c then m ∷ of_category c ms else of_category c ms

group_by_category_lem :
    (ms : List MerchantProfile) (groups : Dict (List MerchantProfile)) (c : Text)
    → or_empty (get c (group_by_category ms groups)) ≡ or_empty (get c groups) ++ of_category c ms
unfolding group_by_category
group_by_category_lem [] groups c = sym (append-nil _)
group_by_category_lem (m ∷ ms) groups c =
    let grown = or_empty (get m.category groups) ++ m ∷ [] in
    elim (Bool-cases (text_eq m.category c)) [
      | inl same ↦
          let e : m.category ≡ c = (text_eq_iff m.category c).0 same in
          rw
            (
              group_by_category_lem ms (put m.category grown groups) c,
              get-put m.category c grown groups,
              same,
            )
            (ap (λ k. or_empty (get k groups) ++ m ∷ [] ++ of_category c ms) e
              ∙ append_assoc (or_empty (get c groups)) (m ∷ []) (of_category c ms))
      | inr other ↦
          rw
            (
              group_by_category_lem ms (put m.category grown groups) c,
              get-put m.category c grown groups,
              other,
            )
            refl
    ]

-- Without users or without merchants no generator is made. Otherwise it keeps both lists, and its
-- groups hold under every category the merchants of that category, in their order.
pub init_lem :
    (users : List UserProfile) (merchants : List MerchantProfile)
    → (((users ≡ []) ⊎ (merchants ≡ [])) → init users merchants ≡ raised value_error)
      × (1 ≤ length users
          → 1 ≤ length merchants
          → (gen : TransactionGenerator) × (init users merchants ≡ returned gen)
            × (gen.users ≡ users)
            × (gen.merchants ≡ merchants)
            × ((c : Text) → or_empty (get c gen.merchants_by_category) ≡ of_category c merchants))
unfolding init get
init_lem [] merchants = (λ h. refl, λ h. absurd (omega arith))
init_lem (u ∷ users) [] = (λ h. refl, λ h k. absurd (omega arith))
init_lem (u ∷ users) (m ∷ merchants) = (
  λ h. elim h [ inl e ↦ cc | inr e ↦ cc ],
  λ h k. (_, refl, refl, refl, λ c. group_by_category_lem (m ∷ merchants) [] c),
)

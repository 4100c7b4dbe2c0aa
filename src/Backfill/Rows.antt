-- ===== src/Backfill/Rows.antt =====
-- How many rows a backfill writes.
use native.Mathlib.Decide.{dec_lt}
use mathlib.Core.Path.{subst, sym}
use realtime_fraud_feature_s.Prelude.{
  ℕ, zero, suc, ◌+◌, ◌-◌, ◌≤◌, ◌<◌, ◌≡◌, refl, ap, Option, none, some, List, [], ◌∷◌, All, ℤ, pos,
  negsuc, ◌+ℤ◌, ◌-ℤ◌, ◌≤ℤ◌, ◌<ℤ◌, ltb_ℤ, if◌then◌else◌, ◌==◌, -ℤ_parts, min, arith,
}
use realtime_fraud_feature_s.Backfill.{batch_size, resume, min_ℤ, loop, main}

abbrev pub sum : List ℕ → ℕ
sum [] = 0
sum (n ∷ ns) = n + sum ns

-- The run returns, and its chunks have these rows in all, at least one and at most `size` each.
abbrev pub Writes : ℕ → ℕ → Option (List ℕ) → Type 0
Writes rows size none = ⊥
Writes rows size (some chunks) = (sum chunks ≡ rows) × All (λ n. (0 < n) × (n ≤ size)) chunks

min_ℤ-nonpos :
    (rows chunk_size generated : ℤ)
    → generated <ℤ rows
    → chunk_size ≤ℤ pos 0
    → min_ℤ chunk_size (rows -ℤ generated) ≡ chunk_size
unfolding min_ℤ
min_ℤ-nonpos rows chunk_size generated h c = ground (arith, -ℤ_parts rows generated)

loop_done :
    (fuel rows size done : ℕ)
    → rows ≤ done
    → loop (suc fuel) (pos rows) (pos size) (pos done) ≡ some []
unfolding loop
loop_done fuel rows size done h = ground arith

abbrev chunk_of : ℕ → ℕ → ℕ → ℕ
chunk_of rows size done = min size (rows - done)

min_ℤ_lem :
    (rows size done : ℕ)
    → done < rows
    → min_ℤ (pos size) (pos rows -ℤ pos done) ≡ pos (chunk_of rows size done)
unfolding min_ℤ ◌-ℤ◌
min_ℤ_lem rows size done h = ground arith

pos_add : (m n : ℕ) → pos m +ℤ pos n ≡ pos (m + n)
unfolding ◌+ℤ◌
pos_add m n = ground arith

loop_turn :
    (fuel rows size done : ℕ)
    → 0 < size
    → done < rows
    → loop (suc fuel) (pos rows) (pos size) (pos done)
      ≡ resume
          (pos (chunk_of rows size done))
          (loop fuel (pos rows) (pos size) (pos (done + chunk_of rows size done)))
unfolding loop
loop_turn fuel rows size done p h =
    let c = chunk_of rows size done in
    let least = min_ℤ_lem rows size done h in
    rw (least, pos_add done c)
      (goes_on c (resume (pos c) (loop fuel (pos rows) (pos size) (pos (done + c)))) (omega arith))
  where
    goes_on :
        (c : ℕ) (rest : Option (List ℕ))
        → 0 < c
        → (if ltb_ℤ (pos done) (pos rows) then if c == 0 then some (0 ∷ []) else rest else some [])
          ≡ rest
    goes_on c rest q = ground arith

Writes-resume :
    (rest size chunk : ℕ) (o : Option (List ℕ))
    → (0 < chunk) × (chunk ≤ size)
    → Writes rest size o
    → Writes (chunk + rest) size (resume (pos chunk) o)
unfolding resume
Writes-resume rest size chunk none le h = h
Writes-resume rest size chunk (some chunks) le (total, small) =
    (ap (λ n. chunk + n) total, (le, small))

loop-Writes :
    (fuel rows size done : ℕ)
    → 0 < size
    → rows - done < fuel
    → Writes (rows - done) size (loop fuel (pos rows) (pos size) (pos done))
loop-Writes zero rows size done p f = absurd (omega arith)
loop-Writes (suc fuel) rows size done p f = elim (dec_lt done rows) [
  | no past ↦
      let nothing : rows - done ≡ 0 = omega arith in
      rw (loop_done fuel rows size done (omega arith), nothing) (refl, tt)
  | yes more ↦
      let c = chunk_of rows size done in
      let parts : rows - done ≡ c + (rows - (done + c)) = omega arith in
      rw (loop_turn fuel rows size done p more) (
        subst
          (λ n. Writes n size (resume (pos c) (loop fuel (pos rows) (pos size) (pos (done + c)))))
          (sym parts)
          (Writes-resume (rows - (done + c)) size c _ (omega arith, omega arith)
            (loop-Writes fuel rows size (done + c) p (omega arith))))
]

negative_rows_done :
    (fuel rows size : ℕ) → loop (suc fuel) (negsuc rows) (pos size) (pos 0) ≡ some []
unfolding loop
negative_rows_done fuel rows size = ground arith

negative_rows :
    (rows size fuel : ℕ) → 0 < fuel → Writes 0 size (loop fuel (negsuc rows) (pos size) (pos 0))
negative_rows rows size zero f = absurd (omega arith)
negative_rows rows size (suc fuel) f = rw (negative_rows_done fuel rows size) (refl, tt)

-- With a positive `--chunk-size`, fuel for one turn more than the rows suffices, and the chunks
-- hold exactly `--rows` rows (none if that is negative), each at least one and at most the chunk
-- size.
pub main-Writes :
    (rows : ℤ) (size fuel : ℕ)
    → 0 < size
    → batch_size rows < fuel
    → Writes (batch_size rows) size (main fuel rows (pos size))
unfolding main
main-Writes (pos rows) size fuel p f =
    let all_left : rows - 0 ≡ rows = omega arith in
    subst (λ n. Writes n size (loop fuel (pos rows) (pos size) (pos 0))) all_left
      (loop-Writes fuel rows size 0 p (omega arith))
main-Writes (negsuc rows) size fuel p f = negative_rows rows size fuel f

-- With a `--chunk-size` of zero or less and rows to write, the first turn is the last.
pub main_empty :
    (rows fuel : ℕ) (chunk_size : ℤ)
    → 0 < rows
    → chunk_size ≤ℤ pos 0
    → main (suc fuel) (pos rows) chunk_size ≡ some (0 ∷ [])
unfolding main loop
main_empty rows fuel chunk_size p c =
    let least = min_ℤ-nonpos (pos rows) chunk_size (pos 0) (omega arith) c in
    rw (least) (empty_turn chunk_size c)
  where
    empty_turn :
        (chunk_size : ℤ)
        → chunk_size ≤ℤ pos 0
        → (let rest = resume chunk_size (loop fuel (pos rows) chunk_size (pos 0 +ℤ chunk_size)) in
            if ltb_ℤ (pos 0) (pos rows)
            then if batch_size chunk_size == 0 then some (0 ∷ []) else rest
            else some [])
          ≡ some (0 ∷ [])
    empty_turn (pos n) c = ground arith
    empty_turn (negsuc n) c = ground arith

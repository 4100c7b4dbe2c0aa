-- ===== src/Backfill/Dataset.antt =====
-- What a backfill writes.
use realtime_fraud_feature_s.Prelude.{
  zero, suc, ◌≤◌, ◌≤ℤ◌, All, raised, >>=-returned, returned-injective, ℕ, ◌+◌, ◌<◌, ◌≡◌, refl, ap,
  Option, none, some, List, [], ◌∷◌, map, Text, length, returned, ℤ, pos, arith,
}
use mathlib.Core.List.{map-append}
use realtime_fraud_feature_s.Python.{Random, FakerLibrary, Outside}
use realtime_fraud_feature_s.Schemas.{TransactionEvent, Pydantic}
use realtime_fraud_feature_s.Profiles.{UserProfile, MerchantProfile, post_init}
use realtime_fraud_feature_s.Generator.{Floats, Draws, generate_one}
use realtime_fraud_feature_s.Generator.Batch.{TransactionGenerator, init, generate_batch}
use realtime_fraud_feature_s.Generator.Batch.Parts.{generate_batch-add}
use realtime_fraud_feature_s.Generator.Batch.Seeded.{seeded-AllGood}
use realtime_fraud_feature_s.Generator.Batch.Made.{Strips, InRange, AllGood}
use realtime_fraud_feature_s.SeedReference.{num_users, num_merchants, seed}
use realtime_fraud_feature_s.Backfill.{
  batch_size, main, Formats, IsWriting, writer, key_error, dumped_record, generate_and_write_chunk,
  write_chunks, written_by, made_users, made_merchants, main_files,
}
use realtime_fraud_feature_s.Backfill.Rows.{sum, Writes, main-Writes, main_empty}

module _ {J : Type 0} (formats : Formats J) (floats : Floats) (py : Pydantic)
    (draws : ℕ → Draws floats) where
  chunk-returned :
      IsWriting formats
      → (gen : TransactionGenerator) (i n : ℕ) (es : List TransactionEvent) → 0 < n
      → generate_batch floats py draws gen i n ≡ returned es
      → generate_and_write_chunk formats floats py draws gen i n
        ≡ returned (map (dumped_record formats) es)
  unfolding generate_and_write_chunk generate_batch
  chunk-returned writing gen i zero es p h = absurd (omega arith)
  chunk-returned writing gen i (suc n) [] p h =
      let (e, first, h1) =
        >>=-returned (generate_one floats py gen.users gen.merchants (draws i)) _ h in
      let (rest, made, h2) = >>=-returned (generate_batch floats py draws gen (i + 1) n) _ h1 in
      absurd (cc)
  chunk-returned writing gen i (suc n) (e ∷ es) p h =
      rw (generate_and_write_chunk, h, writing (dumped_record formats e) _) refl

  -- Chunk by chunk, the records are those of the whole batch.
  write_chunks-sum :
      IsWriting formats
      → (gen : TransactionGenerator) (i : ℕ) (chunks : List ℕ) (es : List TransactionEvent)
        (size : ℕ)
      → All (λ n. (0 < n) × (n ≤ size)) chunks
      → generate_batch floats py draws gen i (sum chunks) ≡ returned es
      → write_chunks formats floats py draws gen i chunks
        ≡ (returned tt, map (dumped_record formats) es)
  unfolding write_chunks generate_and_write_chunk generate_batch
  write_chunks-sum writing gen i [] es size small h =
      ap (λ xs. (returned tt, map (dumped_record formats) xs)) (returned-injective h)
  write_chunks-sum writing gen i (n ∷ ns) es size ((some_event, le), small) h =
      let (xs, ys, front, back, parts) = generate_batch-add floats py draws gen i n (sum ns) es h in
      let chunk = chunk-returned writing gen i n xs some_event front in
      rw
        (
          chunk,
          write_chunks-sum writing gen (i + n) ns ys size small back,
          parts,
          map-append (dumped_record formats) xs ys,
        )
        refl

  written_by-Writes :
      IsWriting formats
      → (gen : TransactionGenerator) (rows size : ℕ) (chunks : Option (List ℕ))
        (es : List TransactionEvent)
      → generate_batch floats py draws gen 0 rows ≡ returned es
      → Writes rows size chunks
      → written_by formats floats py draws gen chunks
        ≡ some (returned tt, map (dumped_record formats) es)
  unfolding written_by
  written_by-Writes writing gen rows size none es h w = absurd w
  written_by-Writes writing gen rows size (some chunks) es h (total, small) =
      ap some (write_chunks-sum writing gen 0 chunks es size small (rw (← total) at h))

  main_files-init :
      IsWriting formats
      → (gen : TransactionGenerator) (users : List UserProfile) (merchants : List MerchantProfile)
        (rows : ℤ) (size fuel : ℕ) (es : List TransactionEvent)
      → init users merchants ≡ returned gen
      → generate_batch floats py draws gen 0 (batch_size rows) ≡ returned es
      → 0 < size
      → batch_size rows < fuel
      → main_files formats floats py draws users merchants fuel rows (pos size)
        ≡ returned (some (returned tt, map (dumped_record formats) es))
  unfolding main_files
  main_files-init writing gen users merchants rows size fuel es made batch p f =
      rw
        (
          made,
          written_by-Writes writing gen (batch_size rows) size (main fuel rows (pos size)) es batch
              (main-Writes rows size fuel p f),
        )
        refl

  -- With rows to write and a `--chunk-size` of zero or less, the first turn makes a chunk without
  -- events, and the KeyError of its write ends the backfill, which has written nothing.
  pub main_files_empty :
      (gen : TransactionGenerator) (users : List UserProfile) (merchants : List MerchantProfile)
      (rows fuel : ℕ) (chunk_size : ℤ)
      → init users merchants ≡ returned gen
      → 0 < rows
      → chunk_size ≤ℤ pos 0
      → main_files formats floats py draws users merchants (suc fuel) (pos rows) chunk_size
        ≡ returned (some (raised (writer key_error), []))
  unfolding main_files written_by write_chunks generate_and_write_chunk generate_batch
  main_files_empty gen users merchants rows fuel chunk_size made p c =
      rw (made, main_empty rows fuel chunk_size p c, formats.write-empty) refl

  module _ (rnd : Random) (fk : FakerLibrary) (sha256 : Text → Text)
      (outside : Outside rnd fk) where
    -- On the profiles that `main` makes, with draws in their ranges, a clock that does not go back
    -- while an event is made, an amount for every spend (one of at most 28 digits), a writer that
    -- raises no exception on a chunk with events, and a positive `--chunk-size`, fuel for one turn
    -- more than the rows suffices for the backfill to end without an exception. It has written `--rows` records, whatever the chunk size: those of one batch of as many events, all
    -- of which conform to the schema and are of one rupee or more.
    pub main_files-AllGood :
        let users = (made_users rnd fk sha256 outside).0 in
        let merchants = (made_merchants rnd fk sha256 outside).0 in
        (rows : ℤ) (size fuel : ℕ)
        → Strips py
        → ((j : ℕ) → InRange floats py users merchants (draws j))
        → IsWriting formats
        → 0 < size
        → batch_size rows < fuel
        → (es : List TransactionEvent) × (main_files formats floats py draws users merchants fuel
              rows
              (pos size)
            ≡ returned (some (returned tt, map (dumped_record formats) es)))
          × (length es ≡ batch_size rows)
          × AllGood floats py draws 0 es
    main_files-AllGood rows size fuel strips range writing p f =
        let (gen, made, batches) =
          seeded-AllGood floats py draws rnd fk sha256 outside num_users num_merchants
            (post_init rnd fk sha256 outside (some seed)) (omega arith) (omega arith) strips
            range in
        let (es, batch, count, good) = batches (batch_size rows) in
        (
          es,
          main_files-init writing gen (made_users rnd fk sha256 outside).0
              (made_merchants rnd fk sha256 outside).0 rows size fuel es made batch p f,
          count,
          good,
        )

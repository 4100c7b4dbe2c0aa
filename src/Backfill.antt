-- ===== src/Backfill.antt =====
-- ingestion/transaction_generator/src/backfill.py: `generate_and_write_chunk` and the loop of
-- `main`, first by the numbers of events of its chunks alone. pydantic's `model_dump`, `strftime`
-- and the writer of the Parquet files are parameters.
pub mod Rows
pub mod Dataset
use realtime_fraud_feature_s.Prelude.{
  map, ◌++◌, Text, Outcome, returned, raised, ◌>>=◌, ℕ, zero, suc, ◌+◌, ◌≡◌, Bool, true, false,
  Option, none, some, List, [], ◌∷◌, if◌then◌else◌, ℤ, pos, negsuc, ◌+ℤ◌, ◌-ℤ◌, ltb_ℤ, ◌==◌,
}
use realtime_fraud_feature_s.Python.{DateTime, Random, FakerLibrary, Outside}
use realtime_fraud_feature_s.Schemas.{TransactionEvent, Pydantic}
use realtime_fraud_feature_s.Profiles.{
  UserProfile, MerchantProfile, ProfileFactory, post_init, make_users, make_merchants,
}
use realtime_fraud_feature_s.Generator.{GeneratorError, Floats, Draws}
use realtime_fraud_feature_s.Generator.Batch.{TransactionGenerator, init, generate_batch}
use realtime_fraud_feature_s.SeedReference.{num_users, num_merchants, seed}

-- `for _ in range(n)` of `generate_batch`: none for a negative number
abbrev pub batch_size : ℤ → ℕ
batch_size (pos n) = n
batch_size (negsuc n) = 0

-- min(args.chunk_size, args.rows - rows_generated)
unfoldable pub min_ℤ : ℤ → ℤ → ℤ
min_ℤ a b = if ltb_ℤ b a then b else a

-- A chunk that is written before the rest.
unfoldable pub resume : ℤ → Option (List ℕ) → Option (List ℕ)
resume chunk none = none
resume chunk (some chunks) = some (batch_size chunk ∷ chunks)

-- The loop on fuel, `none` when it runs out, with the number of events of each chunk whose write is
-- begun. It goes on as long as the writes succeed, and the write of a chunk without events raises
-- (`write-empty` below), so such a chunk is the last.
unfoldable pub loop : ℕ → ℤ → ℤ → ℤ → Option (List ℕ)
loop zero rows chunk_size rows_generated = none
loop (suc fuel) rows chunk_size rows_generated =
    let chunk = min_ℤ chunk_size (rows -ℤ rows_generated) in
    let rest = resume chunk (loop fuel rows chunk_size (rows_generated +ℤ chunk)) in
    if ltb_ℤ rows_generated rows
    then if batch_size chunk == 0 then some (0 ∷ []) else rest
    else some []

unfoldable pub main : ℕ → ℤ → ℤ → Option (List ℕ)
unfolding loop
main fuel rows chunk_size = loop fuel rows chunk_size (pos 0)

-- A row of the Parquet files: an event as `model_dump(mode="json")` gives it, with the date and the
-- hour of its time.
pub record Record (J : Type 0) : Type 0 where
  pub dumped : J
  pub event_date : Text
  pub event_hour : Text

pub data WriteError : Type 0 where
  key_error other_error : WriteError

-- `write_to_dataset` is `pd.DataFrame`, `from_pandas` and `pq.write_to_dataset` on the records of a
-- chunk. Without a record the frame has no column, so that the partition columns are not found.
pub record Formats (J : Type 0) : Type 0 where
  pub model_dump : TransactionEvent → J
  pub date : DateTime → Text
  pub hour : DateTime → Text
  pub write_to_dataset : List (Record J) → Outcome WriteError (Unit {0})
  pub write-empty : write_to_dataset [] ≡ raised key_error

pub data BackfillError : Type 0 where
  generator : GeneratorError → BackfillError
  writer : WriteError → BackfillError

-- The writer raises no exception on a chunk with events.
abbrev pub IsWriting : {J : Type 0} → Formats J → Type 0
IsWriting {J} formats =
    (r : Record J) (rs : List (Record J)) → formats.write_to_dataset (r ∷ rs) ≡ returned tt

-- What a run has written in whole chunks, and whether an exception ended it.
abbrev pub Written : Type 0 → Type 0
Written J = Outcome BackfillError (Unit {0}) × List (Record J)

module _ (rnd : Random) (fk : FakerLibrary) (sha256 : Text → Text) (outside : Outside rnd fk) where
  -- The profiles of `main`.
  abbrev pub made_users : List UserProfile × ProfileFactory rnd fk sha256
  made_users =
      make_users rnd fk sha256 outside num_users (post_init rnd fk sha256 outside (some seed))

  abbrev pub made_merchants : List MerchantProfile × ProfileFactory rnd fk sha256
  made_merchants = make_merchants rnd fk sha256 outside num_merchants made_users.1

-- A chunk before the rest of the run, which an exception of the chunk skips.
abbrev pub then_write :
    {J : Type 0} → Outcome BackfillError (List (Record J)) → Written J → Written J
then_write (raised e) rest = (raised e, [])
then_write (returned rows) (o, more) = (o, rows ++ more)

module _ {J : Type 0} (formats : Formats J) where
  unfoldable pub dumped_record : TransactionEvent → Record J
  dumped_record e = record {
    dumped = formats.model_dump e;
    event_date = formats.date e.event_timestamp;
    event_hour = formats.hour e.event_timestamp;
  }

  module _ (floats : Floats) (py : Pydantic) (draws : ℕ → Draws floats) where
    -- The chunk after the first i events, with the records that it has written.
    unfoldable pub generate_and_write_chunk :
        TransactionGenerator → ℕ → ℕ → Outcome BackfillError (List (Record J))
    generate_and_write_chunk gen i n = elim (generate_batch floats py draws gen i n) [
      | raised e ↦ raised (generator e)
      | returned events ↦
          let records = map dumped_record events in
          elim (formats.write_to_dataset records) [
            | raised e ↦ raised (writer e)
            | returned done ↦ returned records
          ]
    ]

    -- The turns of the loop, by the sizes of their chunks. An exception keeps what is written.
    unfoldable pub write_chunks : TransactionGenerator → ℕ → List ℕ → Written J
    unfolding generate_and_write_chunk
    write_chunks gen i [] = (returned tt, [])
    write_chunks gen i (n ∷ ns) =
        then_write (generate_and_write_chunk gen i n) (write_chunks gen (i + n) ns)

    unfoldable pub written_by : TransactionGenerator → Option (List ℕ) → Option (Written J)
    written_by gen none = none
    written_by gen (some chunks) = some (write_chunks gen 0 chunks)

    -- `main` with its files, on the profiles, `none` when the fuel of the loop runs out.
    unfoldable pub main_files :
        List UserProfile
        → List MerchantProfile
        → ℕ
        → ℤ
        → ℤ
        → Outcome GeneratorError (Option (Written J))
    unfolding written_by
    main_files users merchants fuel rows chunk_size = do
      gen ← init users merchants
      returned (written_by gen (main fuel rows chunk_size))

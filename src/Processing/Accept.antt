-- ===== src/Processing/Accept.antt =====
-- Creating, reopening and validating a receipt.
use assistant_memory.Prelude.{
  ℕ, ◌+◌, Bool, true, false, not, ◌&&◌, ◌==◌, Option, none, some, List, [], ◌∷◌, if◌then◌else◌,
  is_some,
}
use assistant_memory.Partition.Tables.{
  Tables, Source, SourceStatus, pending, Error, partition_access_error, plain_error,
  source_version_conflict, source_tombstoned, partition_unauthorized, Result, ok, err, ◌>>=◌, ◌>>◌,
  ensure, same_key, find_source, update_source_status, AccessScope, partition,
}
use assistant_memory.Partition.Access.{error, expects, assert_partition_read_allowed}
use assistant_memory.Partition.Fence.{with_source_write_fence}
use assistant_memory.Processing.Receipts.{
  Status, queued, processing, failed, content, ReceiptError, superseded_operation, Operation, Store,
  SourceProcessing, to_source_processing, same_processing_snapshot, is_receipt, find_where,
  is_superseded, put_operation, operation_by_id,
}

-- The source's row, locked, if it is not deleted.
abbrev pub live_or : Error → Option Source → Result Source
live_or e none = err e
live_or e (some s) = if is_some s.deleted_at then err e else ok s

abbrev pub or_fail {ℓ} : {A : Type ℓ} → Error → Option A → Result A
or_fail e none = err e
or_fail e (some a) = ok a

-- `update(sources).set({ status }).returning({ version })`.
unfoldable pub set_source_status : ℕ → ℕ → SourceStatus → Store → Result (Store × ℕ)
unfolding find_source update_source_status
set_source_status user_id source_id status s = do
  let sources = update_source_status user_id source_id status s.tables.sources
  row ← or_fail plain_error (find_source user_id source_id sources)
  ok (record s { tables = record (s.tables) { sources = sources } }, row.version)

pub record CreateInput : Type 0 where
  pub user_id : ℕ
  pub partition_key : Option ℕ
  pub source_id : ℕ
  pub external_id : ℕ
  pub content_hash : ℕ
  pub expected_source_version : Option ℕ

abbrev pub revision_matches : Option ℕ → ℕ → Bool
revision_matches none hash = true
revision_matches (some r) hash = r == hash

-- The receipt that is inserted; `fresh` is the random id.
abbrev pub new_operation : ℕ → ℕ → CreateInput → Option ℕ → ℕ → Operation
new_operation fresh now input key version = record {
  operation_id = fresh;
  user_id = input.user_id;
  source_id = input.source_id;
  partition_key = key;
  external_id = some input.external_id;
  content_hash = some input.content_hash;
  source_version = version;
  status = queued;
  stage = content;
  attempt = 0;
  error_code = none;
  created_at = now;
  updated_at = now;
  completed_at = none;
}

abbrev pub has_content : CreateInput → Operation → Bool
has_content input o =
    o.user_id == input.user_id
    && o.source_id == input.source_id
    && same_key o.content_hash (some input.content_hash)

abbrev pub insert_operation :
    ℕ → ℕ → CreateInput → Source → Store → Result (Store × SourceProcessing)
insert_operation fresh now input source s = do
  ensure (expects input.expected_source_version source.version)
      (partition_access_error source_version_conflict (some source.version))
  (s', version) ← set_source_status input.user_id input.source_id pending s
  let o = new_operation fresh now input source.partition_key version
  ok (record s' { operations = o ∷ s'.operations }, to_source_processing o)

abbrev pub reuse_or_insert :
    ℕ → ℕ → CreateInput → Source → Store → Option Operation → Result (Store × SourceProcessing)
reuse_or_insert fresh now input source s (some existing) = ok (s, to_source_processing existing)
reuse_or_insert fresh now input source s none = insert_operation fresh now input source s

-- `createSourceIngestionOperation`.
unfoldable pub create_source_ingestion_operation :
    ℕ → ℕ → CreateInput → Store → Result (Store × SourceProcessing)
unfolding assert_partition_read_allowed
create_source_ingestion_operation fresh now input s = do
  assert_partition_read_allowed s.tables input.user_id input.partition_key partition
  source ←
      live_or (error source_tombstoned) (find_source input.user_id input.source_id s.tables.sources)
  ensure (same_key source.partition_key input.partition_key) (error partition_unauthorized)
  ensure (revision_matches source.ingestion_revision_hash input.content_hash)
      (partition_access_error source_version_conflict (some source.version))
  reuse_or_insert fresh now input source s (find_where (has_content input) s.operations)

abbrev pub is_open : Status → Bool
is_open queued = true
is_open processing = true
is_open _ = false

abbrev pub is_superseded_error : Option ReceiptError → Bool
is_superseded_error (some superseded_operation) = true
is_superseded_error _ = false

abbrev pub is_failed : Status → Bool
is_failed failed = true
is_failed _ = false

-- The receipt that a retry writes.
abbrev pub reopened : ℕ → ℕ → Operation → Operation
reopened now version o = record o {
  status = queued;
  stage = content;
  source_version = version;
  attempt = o.attempt + 1;
  error_code = none;
  completed_at = none;
  updated_at = now;
}

-- The rest of the retry, for a receipt that is neither queued nor processing.
abbrev pub reopen : ℕ → ℕ → Option ℕ → Operation → Store → Result (Store × SourceProcessing)
reopen now user_id key o s = do
  ensure
      (is_failed o.status
        && not (is_superseded_error o.error_code)
        && not (is_superseded s.operations o))
      (error source_version_conflict)
  source ← live_or (error source_tombstoned) (find_source user_id o.source_id s.tables.sources)
  ensure (same_key source.partition_key key) (error partition_unauthorized)
  (s', version) ← set_source_status user_id o.source_id pending s
  let retried = reopened now version o
  ok (record s' { operations = put_operation retried s'.operations }, to_source_processing retried)

-- `retrySourceIngestionOperation`.
unfoldable pub retry_source_ingestion_operation :
    ℕ → ℕ → Option ℕ → AccessScope → ℕ → Store → Result (Store × SourceProcessing)
unfolding assert_partition_read_allowed
retry_source_ingestion_operation now user_id key scope operation_id s = do
  assert_partition_read_allowed s.tables user_id key scope
  o ← or_fail (error partition_unauthorized) (operation_by_id s user_id key scope operation_id)
  let kept : Result (Store × SourceProcessing) = ok (s, to_source_processing o)
  let retried = reopen now user_id key o s
  if is_open o.status then kept else retried

-- The write section of `validateSourceProcessingRetry`, on the current receipt.
abbrev pub validate_current :
    SourceProcessing → Option ℕ → List Operation → Operation → Result SourceProcessing
validate_current seen key os current = do
  ensure
      (same_key current.partition_key key
        && same_processing_snapshot seen (to_source_processing current)
        && not (is_superseded os current))
      (error source_version_conflict)
  ensure (is_open current.status) (error source_version_conflict)
  ok (to_source_processing current)

-- `validateSourceProcessingRetry`; it writes nothing.
unfoldable pub validate_source_processing_retry :
    Tables → ℕ → SourceProcessing → Option ℕ → Store → Result SourceProcessing
unfolding with_source_write_fence
validate_source_processing_retry before user_id seen key s = do
  assert_partition_read_allowed s.tables user_id key partition
  with_source_write_fence before s.tables (λ _. ok tt)
      (record {
        user_id = user_id;
        sources =
            record {
              source_id = seen.source_id;
              expected_source_version = some seen.source_version;
            }
            ∷ [];
        partition_key = some key;
        source_identities = [];
      })
      (λ t versions.
        or_fail (error partition_unauthorized)
          (find_where (is_receipt user_id seen.source_id seen.operation_id) s.operations)
        >>= validate_current seen key s.operations)

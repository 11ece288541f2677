-- ===== src/Processing/Work.antt =====
-- The worker's handlers: starting, extracting, finishing and purging.
--
-- Each takes `before`, the tables as the write fence reads them before it locks the source, and the
-- store under the lock. The update of a row that was read under a lock finds that row, so the errors
-- for a row that disappeared do not arise.
use assistant_memory.Prelude.{
  ℕ, ◌+◌, Bool, true, false, not, ◌&&◌, ◌==◌, Option, none, some, List, [], ◌∷◌, map, contains,
  if◌then◌else◌, is_some,
}
use assistant_memory.Partition.Tables.{
  Tables, Source, SourceStatus, partition_access_error, plain_error, source_version_conflict,
  Result, ok, err, ◌>>=◌, ◌>>◌, ensure, find_source, is_status,
}
use assistant_memory.Partition.Fence.{FenceInput, Version, version_of, with_source_write_fence}
use assistant_memory.Processing.Receipts.{
  Status, processing, completed, failed, purged, Stage, content, extraction, ReceiptError,
  superseded_operation, source_purged, Operation, Store, SourceProcessing, to_source_processing,
  is_receipt, find_where, is_superseded, put_operation,
}
use assistant_memory.Processing.Accept.{or_fail, set_source_status, is_open}

-- What every handler is told.
pub record Work : Type 0 where
  pub user_id : ℕ
  pub partition_key : Option ℕ
  pub source_id : ℕ
  pub operation_id : ℕ

abbrev pub requested : Option ℕ → Option (Option ℕ)
requested none = none
requested (some key) = some (some key)

abbrev pub one_source : ℕ → Option (Option ℕ) → ℕ → FenceInput
one_source user_id key source_id = record {
  user_id = user_id;
  sources = record { source_id = source_id; expected_source_version = none } ∷ [];
  partition_key = key;
  source_identities = [];
}

abbrev pub Outcome : Type 0
Outcome = Result (Store × SourceProcessing)

-- The receipt of work that a newer version or a newer receipt has overtaken.
abbrev pub overtaken : ℕ → Operation → Operation
overtaken now o = record o {
  status = failed;
  error_code = some superseded_operation;
  updated_at = now;
  completed_at = some now;
}

abbrev pub write_operation : Operation → Store → Outcome
write_operation o s =
    ok (record s { operations = put_operation o s.operations }, to_source_processing o)

abbrev pub unchanged : Operation → Store → Outcome
unchanged o s = ok (s, to_source_processing o)

abbrev pub is_current : Option ℕ → ℕ → Bool
is_current none version = false
is_current (some current) version = current == version

-- The test before each step: the source is at the receipt's version, and no receipt is newer.
abbrev pub may_go_on : List Version → Store → Operation → Bool
may_go_on versions s o =
    is_current (version_of o.source_id versions) o.source_version
    && not (is_superseded s.operations o)

abbrev pub begun : ℕ → ℕ → Operation → Operation
begun now version o = record o {
  status = processing;
  stage = content;
  attempt = o.attempt + 1;
  source_version = version;
  updated_at = now;
}

-- The source is marked unless it is marked already.
abbrev pub mark_source : ℕ → ℕ → Store → Source → Result (Store × ℕ)
mark_source user_id source_id s row =
    if is_status row.status SourceStatus.processing
    then ok (s, row.version)
    else set_source_status user_id source_id SourceStatus.processing s

abbrev pub begin : ℕ → Work → Operation → Store → Outcome
begin now w o s = do
  row ← or_fail plain_error (find_source w.user_id w.source_id s.tables.sources)
  (s', version) ← mark_source w.user_id w.source_id s row
  write_operation (begun now version o) s'

-- The write section of `markSourceIngestionProcessing`, on the receipt that it finds.
unfoldable pub begin_found : ℕ → Work → List Version → Store → Operation → Outcome
begin_found now w versions s o =
    let started = begin now w o s in
    if not (is_open o.status)
    then unchanged o s
    else if not (is_some (version_of o.source_id versions))
    then err plain_error
    else if may_go_on versions s o
    then started
    else write_operation (overtaken now o) s

unfoldable pub find_receipt : Work → Store → Result Operation
unfolding find_where
find_receipt w s =
    or_fail plain_error (find_where (is_receipt w.user_id w.source_id w.operation_id) s.operations)

-- `markSourceIngestionProcessing`.
unfoldable pub mark_source_ingestion_processing : Tables → ℕ → Work → Store → Outcome
mark_source_ingestion_processing before now w s =
    with_source_write_fence before s.tables (λ _. ok tt)
      (one_source w.user_id (requested w.partition_key) w.source_id)
      (λ t versions. find_receipt w s >>= begin_found now w versions s)

abbrev pub is_processing : Status → Bool
is_processing processing = true
is_processing _ = false

-- The write section of `markSourceIngestionExtractionStarted`.
unfoldable pub extract_found : ℕ → List Version → Store → Operation → Outcome
extract_found now versions s o =
    if not (is_open o.status)
    then unchanged o s
    else if not (may_go_on versions s o)
    then write_operation (overtaken now o) s
    else if is_processing o.status
    then write_operation (record o { stage = extraction; updated_at = now }) s
    else unchanged o s

-- `markSourceIngestionExtractionStarted`.
unfoldable pub mark_source_ingestion_extraction_started : Tables → ℕ → Work → Store → Outcome
mark_source_ingestion_extraction_started before now w s =
    with_source_write_fence before s.tables (λ _. ok tt)
      (one_source w.user_id (requested w.partition_key) w.source_id)
      (λ t versions. find_receipt w s >>= extract_found now versions s)

-- `advanceSourceIngestionOperationVersion`.
unfoldable pub advance_source_ingestion_operation_version : ℕ → Work → ℕ → Store → Store
advance_source_ingestion_operation_version now w version s = record s {
  operations =
      map
        (λ (o : Operation).
          if is_receipt w.user_id w.source_id w.operation_id o && is_processing o.status
          then record o { source_version = version; updated_at = now }
          else o)
        s.operations;
}

pub data Finish : Type 0 where
  complete : Finish
  fail : ReceiptError → Finish

abbrev pub finish_status : Finish → Status
finish_status complete = completed
finish_status (fail code) = failed

abbrev pub source_finish_status : Finish → SourceStatus
source_finish_status complete = SourceStatus.completed
source_finish_status (fail code) = SourceStatus.failed

-- An update with an undefined value leaves the column as it is.
abbrev pub finish_error : Finish → Option ReceiptError → Option ReceiptError
finish_error complete old = old
finish_error (fail code) old = some code

abbrev pub or_stage : Option Stage → Stage → Stage
or_stage none old = old
or_stage (some stage) old = stage

-- A success has to prove that it used the current version of the source.
abbrev pub result_is_current : Finish → Option ℕ → Option ℕ → Bool
result_is_current complete (some expected) current = is_current current expected
result_is_current complete none current = true
result_is_current (fail code) expected current = true

abbrev pub finished : ℕ → Finish → Option Stage → ℕ → Operation → Operation
finished now f stage version o = record o {
  status = finish_status f;
  stage = or_stage stage o.stage;
  source_version = version;
  error_code = finish_error f o.error_code;
  updated_at = now;
  completed_at = some now;
}

abbrev pub close :
    ℕ → Finish → Option Stage → Option ℕ → Work → List Version → Operation → Store → Outcome
close now f stage expected w versions o s = do
  let current = version_of o.source_id versions
  ensure (result_is_current f expected current)
      (partition_access_error source_version_conflict current)
  (s', version) ← set_source_status w.user_id w.source_id (source_finish_status f) s
  write_operation (finished now f stage version o) s'

-- The write section of `finishSourceIngestionOperation`.
unfoldable pub finish_found :
    ℕ → Finish → Option Stage → Option ℕ → Work → List Version → Store → Operation → Outcome
finish_found now f stage expected w versions s o =
    let closed = close now f stage expected w versions o s in
    if not (is_open o.status)
    then unchanged o s
    else if may_go_on versions s o
    then closed
    else write_operation (overtaken now o) s

-- `finishSourceIngestionOperation`, which `completeSourceIngestionOperation` and
-- `failSourceIngestionOperation` call; it does not ask for the partition.
unfoldable pub finish_source_ingestion_operation :
    Tables → ℕ → Finish → Option Stage → Option ℕ → Work → Store → Outcome
finish_source_ingestion_operation before now f stage expected w s =
    with_source_write_fence before s.tables (λ _. ok tt) (one_source w.user_id none w.source_id)
      (λ t versions. find_receipt w s >>= finish_found now f stage expected w versions s)

-- `completeSourceIngestionOperation`.
unfoldable pub complete_source_ingestion_operation :
    Tables → ℕ → Option Stage → Option ℕ → Work → Store → Outcome
complete_source_ingestion_operation before now stage expected w s =
    finish_source_ingestion_operation before now complete stage expected w s

-- `failSourceIngestionOperation`.
unfoldable pub fail_source_ingestion_operation :
    Tables → ℕ → ReceiptError → Option Stage → Option ℕ → Work → Store → Outcome
fail_source_ingestion_operation before now code stage expected w s =
    finish_source_ingestion_operation before now (fail code) stage expected w s

-- The external id becomes the empty text, which stands as `none`.
abbrev pub purged_operation : ℕ → Operation → Operation
purged_operation now o = record o {
  status = purged;
  external_id = none;
  content_hash = none;
  error_code = some source_purged;
  updated_at = now;
  completed_at = some now;
}

-- `purgeSourceIngestionOperations`; with no id the update finds no row.
unfoldable pub purge_source_ingestion_operations : ℕ → ℕ → List ℕ → List Operation → List Operation
purge_source_ingestion_operations now user_id source_ids os =
    map
      (λ (o : Operation).
        if o.user_id == user_id && contains source_ids o.source_id
        then purged_operation now o
        else o)
      os

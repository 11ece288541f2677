-- ===== src/Sources/Uploads/Put.antt =====
-- `putSourceBlobWithFence`: the bytes are sent while the source and its reservation are locked.
--
-- `more` stands for the columns that no code here reads. Left out are the claims that a revision
-- removes, the signing of the address and the hook before the bytes are sent.
use assistant_memory.Prelude.{
  ℕ, ◌+◌, Bool, true, false, not, ◌&&◌, ◌==◌, Option, none, some, List, [], ◌∷◌, ◌++◌, map, any,
  length, distinct, is_some, if◌then◌else◌,
}
use assistant_memory.Partition.Tables.{
  Source, SourceStatus, SourceIdentity, partition_access_error, plain_error,
  source_version_conflict, source_tombstoned, Result, ok, err, ◌>>◌, ensure, same_key, is_status,
  find_source, update_source_status,
}
use assistant_memory.Partition.Access.{error}
use assistant_memory.Partition.Fence.{
  SourceWriteFence, SourceParentAttachment, rows_of, is_tombstone_in,
  assert_source_identities_active, assert_live_source_parents,
}
use assistant_memory.Processing.Receipts.{Operation, queued, content}
use assistant_memory.Processing.Elsewhere.{invalidate_source_extraction_revision}
use assistant_memory.Sources.Rows.{Upload, uploading, upload_unknown, uploaded, find_first}
use assistant_memory.Sources.Uploads.{
  Blob, RootFence, Blobs, same_upload_state, is_upload, update_uploads, fences_of,
}

-- `revision`: the status, the hash in its metadata, the parent, whether it replaces what was extracted
-- from the source, and the external id and the content hash of its receipt.
pub record Revision : Type 0 where
  pub status : SourceStatus
  pub ingestion_revision_hash : Option ℕ
  pub parent_source : Option ℕ
  pub replace_derived_links : Bool
  pub operation : Option (ℕ × ℕ)

-- The end of the PUT: a response of status 200, another complete response, or none that is known.
pub data PutEnd : Type 0 where
  acknowledged put_rejected unsettled : PutEnd

pub record Put : Type 0 where
  pub blob : Blob
  pub root : Option RootFence
  pub revision : Option Revision
  pub more : ℕ
  pub reserved_at : Option ℕ
  pub operation_id : ℕ

-- The update of a locked source; the trigger adds one to the version if a column changes.
abbrev pub write_source : SourceStatus → Option ℕ → ℕ → Source → Source
write_source status hash more k =
    if is_status k.status status && same_key k.ingestion_revision_hash hash && k.more == more
    then k
    else record k {
      status = status;
      ingestion_revision_hash = hash;
      more = more;
      version = k.version + 1;
    }

abbrev pub put_source : Put → Source → Source
put_source p k = elim p.revision [
  | none ↦ write_source SourceStatus.completed k.ingestion_revision_hash p.more k
  | some v ↦ write_source v.status v.ingestion_revision_hash p.more k
]

abbrev pub parent_attachments : Blob → Option Revision → List SourceParentAttachment
parent_attachments b none = []
parent_attachments b (some v) = elim v.parent_source [
  | none ↦ []
  | some parent ↦
      record { user_id = b.user_id; source_id = parent; partition_key = b.partition_key } ∷ []
]

abbrev pub identity : Blob → SourceIdentity
identity b = record { user_id = b.user_id; source_type = b.type; external_id = b.external_id }

abbrev pub fence_ids : Put → List ℕ
fence_ids p =
    distinct
      (map (λ (f : SourceWriteFence). f.source_id) (fences_of p.root) ++ p.blob.source_id ∷ [])

abbrev pub is_own : Blob → Option Source → Bool
is_own b none = false
is_own b (some k) =
    same_key k.partition_key b.partition_key && k.type == b.type && k.external_id == b.external_id

abbrev pub version_if_any : Option Source → Option ℕ
version_if_any none = none
version_if_any (some k) = some k.version

abbrev pub root_is_of : ℕ → Option RootFence → Bool
root_is_of user_id none = true
root_is_of user_id (some root) = root.user_id == user_id

abbrev pub meets_version : Option ℕ → Option Source → Bool
meets_version none found = true
meets_version (some v) none = false
meets_version (some v) (some k) = k.version == v

abbrev pub with_id : ℕ → List Source → Option Source
with_id id rows = find_first (λ k. k.id == id) rows

abbrev pub assert_root : Option RootFence → List Source → Result (Unit {0})
assert_root none locked = ok tt
assert_root (some root) locked =
    ensure
      (meets_version root.source.expected_source_version (with_id root.source.source_id locked))
      (partition_access_error source_version_conflict
        (version_if_any (with_id root.source.source_id locked)))

abbrev pub may_put : Option ℕ → Option Upload → Bool
may_put reserved_at none = false
may_put reserved_at (some u) =
    same_upload_state u.state uploading
    && elim reserved_at [ none ↦ true | some at ↦ u.updated_at == at ]

-- The checks before bytes are sent, on the locked rows.
unfoldable pub check_put : Put → Blobs → Result (Unit {0})
check_put p s = do
  let ids = fence_ids p
  let locked = rows_of p.blob.user_id ids s.tables.sources
  ensure (length locked == length ids && not (any (λ k. is_some k.deleted_at) locked))
      (error source_tombstoned)
  ensure (is_own p.blob (with_id p.blob.source_id locked)) (
      partition_access_error source_version_conflict
        (version_if_any (with_id p.blob.source_id locked)))
  assert_source_identities_active s.tables (identity p.blob ∷ [])
  assert_live_source_parents s.tables (parent_attachments p.blob p.revision)
  ensure (not (any (is_tombstone_in p.blob.user_id ids) s.tables.source_tombstones))
      (error source_tombstoned)
  ensure (root_is_of p.blob.user_id p.root) (error source_tombstoned)
  assert_root p.root locked
  ensure (may_put p.reserved_at (find_first (is_upload p.blob.user_id p.blob.source_id) s.uploads))
      (error source_tombstoned)

abbrev pub update_source : ℕ → ℕ → (Source → Source) → List Source → List Source
update_source user_id id f rows =
    map (λ k. if k.user_id == user_id && k.id == id then f k else k) rows

abbrev pub accepted_operation : ℕ → Put → ℕ → ℕ × ℕ → Operation
accepted_operation now p version (external_id, content_hash) = record {
  operation_id = p.operation_id;
  user_id = p.blob.user_id;
  source_id = p.blob.source_id;
  partition_key = p.blob.partition_key;
  external_id = some external_id;
  content_hash = some content_hash;
  source_version = version;
  status = queued;
  stage = content;
  attempt = 0;
  error_code = none;
  created_at = now;
  updated_at = now;
  completed_at = none;
}

abbrev pub accept_operation : ℕ → Put → ℕ → List Operation → List Operation
accept_operation now p version os = elim p.revision [
  | none ↦ os
  | some v ↦ elim v.operation [ none ↦ os | some o ↦ accepted_operation now p version o ∷ os ]
]

abbrev pub replace_revision : Put → List Operation → List Operation
replace_revision p os = elim p.revision [
  | none ↦ os
  | some v ↦
      if v.replace_derived_links
      then invalidate_source_extraction_revision p.blob.user_id p.blob.source_id os
      else os
]

-- The writes after the bytes are acknowledged.
abbrev pub put_done : ℕ → Put → Blobs → Option Source → Result (Blobs × Bool)
put_done now p s none = err (error source_tombstoned)
put_done now p s (some updated) = ok (
  record {
    tables = record (s.tables) {
      sources = update_source p.blob.user_id p.blob.source_id (put_source p) s.tables.sources;
    };
    uploads =
        update_uploads
          (λ u. is_upload p.blob.user_id p.blob.source_id u && same_upload_state u.state uploading)
          (λ u. record u { state = uploaded; uploaded_at = some now; updated_at = now }) s.uploads;
    operations = accept_operation now p updated.version (replace_revision p s.operations);
  },
  true,
)

-- The writes when nobody knows whether the bytes arrive: the transaction commits, and the call throws.
abbrev pub put_unsettled : ℕ → Put → Blobs → Blobs
put_unsettled now p s = record s {
  tables = record (s.tables) {
    sources =
        update_source_status p.blob.user_id p.blob.source_id SourceStatus.failed s.tables.sources;
  };
  uploads =
      update_uploads (is_upload p.blob.user_id p.blob.source_id)
        (λ u. record u { state = upload_unknown; updated_at = now }) s.uploads;
}

abbrev pub put_ended : ℕ → Put → PutEnd → Blobs → Result (Blobs × Bool)
put_ended now p put_rejected s = err plain_error
put_ended now p unsettled s = ok (put_unsettled now p s, false)
put_ended now p acknowledged s = put_done now p s (
    find_source p.blob.user_id p.blob.source_id
      (update_source p.blob.user_id p.blob.source_id (put_source p) s.tables.sources))

-- `putSourceBlobWithFence`: what it leaves, and whether it returns without an error.
unfoldable pub put_source_blob_with_fence : ℕ → Put → PutEnd → Blobs → Result (Blobs × Bool)
put_source_blob_with_fence now p end s = do check_put p s; put_ended now p end s

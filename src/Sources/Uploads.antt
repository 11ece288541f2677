-- ===== src/Sources/Uploads.antt =====
-- src/lib/sources.ts: how bytes are put into the object store under a reservation.
--
-- One run is one transaction: `before` is what its fence reads before the locks.
pub mod Put
pub mod Accepted
pub mod Release
use assistant_memory.Prelude.{
  ℕ, ◌+◌, Bool, true, false, not, ◌&&◌, ◌||◌, ◌==◌, Option, none, some, List, [], ◌∷◌, ◌++◌, map,
  filter, any, length, contains, distinct, is_some, if◌then◌else◌,
}
use assistant_memory.Partition.Tables.{
  Tables, Source, SourceStatus, SourceIdentity, partition_access_error, plain_error,
  source_version_conflict, source_tombstoned, Result, ok, err, ◌>>=◌, ◌>>◌, ensure, same_key,
  is_status, find_source, update_source_status,
}
use assistant_memory.Partition.Access.{error, expects}
use assistant_memory.Partition.Fence.{
  SourceWriteFence, SourceParentAttachment, FenceInput, Version, rows_of, is_tombstone_in,
  assert_source_identities_active, assert_live_source_parents, with_source_write_fence,
}
use assistant_memory.Processing.Receipts.{Operation, queued, content}
use assistant_memory.Sources.Rows.{
  Upload, UploadState, reserved, uploading, upload_unknown, uploaded, cleanup_pending,
  cleanup_completed, find_first,
}

-- `SourcesInsert` with its id.
pub record Blob : Type 0 where
  pub user_id : ℕ
  pub source_id : ℕ
  pub partition_key : Option ℕ
  pub type : ℕ
  pub external_id : ℕ

-- `rootWriteFence`.
pub record RootFence : Type 0 where
  pub user_id : ℕ
  pub source : SourceWriteFence

-- `BlobUploadReservation`.
pub record Reservation : Type 0 where
  pub previous : Option Upload
  pub updated_at : ℕ

-- What the transactions read and write.
pub record Blobs : Type 0 where
  pub tables : Tables
  pub uploads : List Upload
  pub operations : List Operation

abbrev pub same_upload_state : UploadState → UploadState → Bool
same_upload_state reserved reserved = true
same_upload_state uploading uploading = true
same_upload_state upload_unknown upload_unknown = true
same_upload_state uploaded uploaded = true
same_upload_state cleanup_pending cleanup_pending = true
same_upload_state cleanup_completed cleanup_completed = true
same_upload_state _ _ = false

abbrev pub is_upload : ℕ → ℕ → Upload → Bool
is_upload user_id source_id u = u.user_id == user_id && u.source_id == source_id

-- `update … where` on uploads.
abbrev pub update_uploads : (Upload → Bool) → (Upload → Upload) → List Upload → List Upload
update_uploads p f us = map (λ u. if p u then f u else u) us

abbrev pub fences_of : Option RootFence → List SourceWriteFence
fences_of none = []
fences_of (some root) = root.source ∷ []

unfoldable pub source_blob_upload_fences : Blob → Option RootFence → FenceInput
source_blob_upload_fences b root = record {
  user_id = b.user_id;
  sources =
      fences_of root ++ record { source_id = b.source_id; expected_source_version = none } ∷ [];
  partition_key = some b.partition_key;
  source_identities = [];
}

-- `["uploaded", "cleanup_pending", "cleanup_completed"].includes`.
abbrev pub is_replaceable : UploadState → Bool
is_replaceable uploaded = true
is_replaceable cleanup_pending = true
is_replaceable cleanup_completed = true
is_replaceable _ = false

abbrev pub may_reserve : Bool → Option Upload → Bool
may_reserve allow_replacement none = true
may_reserve allow_replacement (some u) = allow_replacement && is_replaceable u.state

abbrev pub is_accepted : Blob → Option ℕ → List Operation → Bool
is_accepted b none operations = false
is_accepted b (some hash) operations =
    any
      (λ o.
        o.user_id == b.user_id && o.source_id == b.source_id && same_key o.content_hash (some hash))
      operations

abbrev pub new_upload : ℕ → Blob → Upload
new_upload now b = record {
  user_id = b.user_id;
  source_id = b.source_id;
  object_key = (b.user_id, b.source_id);
  state = reserved;
  updated_at = now;
  uploaded_at = none;
  cleanup_completed_at = none;
}

abbrev pub reserve_again : ℕ → Upload → Upload
reserve_again now u = record u {
  state = reserved;
  updated_at = now;
  uploaded_at = none;
  cleanup_completed_at = none;
}

abbrev pub write_reservation : ℕ → Blob → Option Upload → List Upload → List Upload
write_reservation now b none us = new_upload now b ∷ us
write_reservation now b (some e) us =
    update_uploads (λ u. is_upload b.user_id b.source_id u && same_upload_state u.state e.state)
      (reserve_again now) us

abbrev pub reserve_found :
    ℕ → Blob → Bool → Option ℕ → Blobs → Option Upload → Result (List Upload × Reservation)
reserve_found now b allow_replacement content_hash s existing = do
  ensure (may_reserve allow_replacement existing) plain_error
  ensure (not (is_accepted b content_hash s.operations)) (error source_version_conflict)
  ok (write_reservation now b existing s.uploads, record { previous = existing; updated_at = now })

-- `reserveSourceBlobUpload`.
unfoldable pub reserve_source_blob_upload :
    Tables
    → ℕ
    → Blob
    → Option RootFence
    → Bool
    → Option ℕ
    → Blobs
    → Result (List Upload × Reservation)
reserve_source_blob_upload before now b root allow_replacement content_hash s =
    with_source_write_fence before s.tables (λ t. ok tt) (source_blob_upload_fences b root)
      (λ t versions.
        reserve_found now b allow_replacement content_hash s
          (find_first (is_upload b.user_id b.source_id) s.uploads))

abbrev pub is_reserved : Option Upload → Bool
is_reserved none = false
is_reserved (some u) = same_upload_state u.state reserved

abbrev pub begin_found : ℕ → Blob → Blobs → Option Upload → Result (List Upload × ℕ)
begin_found now b s found = do
  ensure (is_reserved found) (error source_tombstoned)
  ok (
    update_uploads (λ u. is_upload b.user_id b.source_id u && same_upload_state u.state reserved)
        (λ u. record u { state = uploading; updated_at = now }) s.uploads,
    now,
  )

-- `beginSourceBlobUpload`.
unfoldable pub begin_source_blob_upload :
    Tables → ℕ → Blob → Option RootFence → Blobs → Result (List Upload × ℕ)
begin_source_blob_upload before now b root s =
    with_source_write_fence before s.tables (λ t. ok tt) (source_blob_upload_fences b root)
      (λ t versions. begin_found now b s (find_first (is_upload b.user_id b.source_id) s.uploads))

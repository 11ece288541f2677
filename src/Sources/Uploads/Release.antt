-- ===== src/Sources/Uploads/Release.antt =====
-- `cancelSourceBlobUploadBeforePut` and `recordFailedSourceBlobUpload`: the ends of a failed upload.
use assistant_memory.Prelude.{
  ℕ, Bool, true, false, not, ◌&&◌, ◌||◌, ◌==◌, Option, none, some, List, filter, is_some,
  if◌then◌else◌,
}
use assistant_memory.Partition.Tables.{Source, SourceStatus, find_source, update_source_status}
use assistant_memory.Sources.Rows.{
  Upload, UploadState, reserved, uploading, upload_unknown, cleanup_completed, find_first,
}
use assistant_memory.Sources.Uploads.{
  Blob, Reservation, Blobs, same_upload_state, is_upload, update_uploads,
}

abbrev pub is_live : Option Source → Bool
is_live none = false
is_live (some k) = not (is_some k.deleted_at)

abbrev pub is_owned : Blob → Reservation → Upload → Bool
is_owned b r u =
    is_upload b.user_id b.source_id u
    && u.updated_at == r.updated_at
    && (same_upload_state u.state reserved || same_upload_state u.state uploading)

abbrev pub undo_reservation : Blob → Reservation → Option Upload → List Upload → List Upload
undo_reservation b r none us = filter (λ u. not (is_owned b r u)) us
undo_reservation b r (some e) us =
    update_uploads (is_owned b r)
      (λ u. record u {
        state = e.state;
        updated_at = e.updated_at;
        uploaded_at = e.uploaded_at;
        cleanup_completed_at = e.cleanup_completed_at;
      })
      us

-- `cancelSourceBlobUploadBeforePut`.
unfoldable pub cancel_source_blob_upload_before_put : Blob → Reservation → Blobs → List Upload
cancel_source_blob_upload_before_put b r s =
    if is_live (find_source b.user_id b.source_id s.tables.sources)
    then undo_reservation b r r.previous s.uploads
    else s.uploads

abbrev pub is_settled : Option Upload → Bool
is_settled none = true
is_settled (some u) =
    same_upload_state u.state cleanup_completed || same_upload_state u.state upload_unknown

-- `recordFailedSourceBlobUpload`.
unfoldable pub record_failed_source_blob_upload : ℕ → Blob → UploadState → Blobs → Blobs
record_failed_source_blob_upload now b state s = record s {
  uploads =
      if is_settled (find_first (is_upload b.user_id b.source_id) s.uploads)
      then s.uploads
      else update_uploads (is_upload b.user_id b.source_id)
          (λ u. record u { state = state; updated_at = now }) s.uploads;
  tables = record (s.tables) {
    sources =
        if is_live (find_source b.user_id b.source_id s.tables.sources)
        then update_source_status b.user_id b.source_id SourceStatus.failed s.tables.sources
        else s.tables.sources;
  };
}

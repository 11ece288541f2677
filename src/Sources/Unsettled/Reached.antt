-- ===== src/Sources/Unsettled/Reached.antt =====
-- Runs of uploaders, lifecycle commands and sweeps.
--
-- An uploader's transaction runs on the uploads of the store, under whatever sources and receipts it
-- finds, so these are free in each step.
use assistant_memory.Prelude.{◌≡◌, ℕ, Bool, Option, List}
use assistant_memory.Partition.Tables.{Tables, ok}
use assistant_memory.Processing.Receipts.{Operation}
use assistant_memory.Sources.Rows.{Upload, UploadState, Request, Response, Command, Store, answered}
use assistant_memory.Sources.Commands.{apply_source_lifecycle_command}
use assistant_memory.Sources.Uploads.{
  Blob, RootFence, Reservation, Blobs, reserve_source_blob_upload, begin_source_blob_upload,
}
use assistant_memory.Sources.Uploads.Put.{Put, PutEnd, put_source_blob_with_fence}
use assistant_memory.Sources.Uploads.Release.{
  cancel_source_blob_upload_before_put, record_failed_source_blob_upload,
}
use assistant_memory.Sources.Cleanup.{
  mark_source_storage_cleanup_completed, mark_source_tree_storage_cleanup_completed,
}
use assistant_memory.Sources.Cleanup.Sweep.{retry_pending_source_tombstone_storage_cleanup}
use assistant_memory.Sources.Cleanup.Legacy.{retry_pending_legacy_source_read_model_retraction}
use assistant_memory.Sources.Unsettled.{IsUnsettled}
use assistant_memory.Sources.Unsettled.Uploading.{HasUnsettled, reserve-keeps, begin-keeps}
use assistant_memory.Sources.Unsettled.Putting.{put-keeps, cancel-keeps, record_failed-keeps}
use assistant_memory.Sources.Unsettled.Sweeping.{
  mark-IsUnsettled, mark_tree-IsUnsettled, retry-IsUnsettled,
}
use assistant_memory.Sources.Unsettled.Commanded.{command-IsUnsettled, retraction-IsUnsettled}

abbrev pub blobs : Tables → List Operation → Store → Blobs
blobs t operations s = record { tables = t; uploads = s.uploads; operations = operations }

pub data Step (O : Type 0) (delete_object_key : ℕ × ℕ → O → O × Bool) : Store → Store → Type 0 where
  reserve :
      (before t : Tables) (operations : List Operation) (now : ℕ) (b : Blob)
      (root : Option RootFence) (allow : Bool) (hash : Option ℕ) (us : List Upload)
      (r : Reservation) {s : Store}
      → reserve_source_blob_upload before now b root allow hash (blobs t operations s) ≡ ok (us, r)
      → Step O delete_object_key s (record s { uploads = us })
  begin :
      (before t : Tables) (operations : List Operation) (now : ℕ) (b : Blob)
      (root : Option RootFence) (us : List Upload) (at : ℕ) {s : Store}
      → begin_source_blob_upload before now b root (blobs t operations s) ≡ ok (us, at)
      → Step O delete_object_key s (record s { uploads = us })
  put :
      (t : Tables) (operations : List Operation) (now : ℕ) (p : Put) (end : PutEnd) (after : Blobs)
      (done : Bool) {s : Store}
      → put_source_blob_with_fence now p end (blobs t operations s) ≡ ok (after, done)
      → Step O delete_object_key s (record s { uploads = after.uploads })
  cancel :
      (t : Tables) (operations : List Operation) (b : Blob) (r : Reservation) {s : Store}
      → Step O delete_object_key s
          (record s { uploads = cancel_source_blob_upload_before_put b r (blobs t operations s) })
  fail :
      (t : Tables) (operations : List Operation) (now : ℕ) (b : Blob) (state : UploadState)
      {s : Store}
      → Step O delete_object_key s (record s {
        uploads = (record_failed_source_blob_upload now b state (blobs t operations s)).uploads;
      })
  command :
      (before : List Command) (now : ℕ) (r : Request) (p : Response) {s t : Store}
      → apply_source_lifecycle_command before now r s ≡ answered (t, p)
      → Step O delete_object_key s t
  sweep :
      (now limit : ℕ) (objects : O) {s : Store}
      → Step O delete_object_key s
          (retry_pending_source_tombstone_storage_cleanup delete_object_key now limit s
            objects).store
  mark :
      (now user_id source_id : ℕ) {s : Store}
      → Step O delete_object_key s (mark_source_storage_cleanup_completed now user_id source_id s)
  mark_tree :
      (now user_id source_id : ℕ) {s : Store}
      → Step O delete_object_key s
          (mark_source_tree_storage_cleanup_completed now user_id source_id s)
  retract :
      (now limit : ℕ) {s : Store}
      → Step O delete_object_key s
          (retry_pending_legacy_source_read_model_retraction now limit s).store

pub data Reach (O : Type 0) (delete_object_key : ℕ × ℕ → O → O × Bool) (s : Store)
    : Store → Type 0 where
  here : Reach O delete_object_key s s
  next :
      {t u : Store}
      → Reach O delete_object_key s t
      → Step O delete_object_key t u
      → Reach O delete_object_key s u

module _ (O : Type 0) (delete_object_key : ℕ × ℕ → O → O × Bool) (user_id id : ℕ) where
  with_uploads :
      (s : Store) (us : List Upload)
      → IsUnsettled user_id id s
      → (HasUnsettled user_id id s.uploads → HasUnsettled user_id id us)
      → IsUnsettled user_id id (record s { uploads = us })
  with_uploads s us h f =
      let k = f (h.there, h.unsettled) in
      record { there = k.0; unsettled = k.1; waiting = h.waiting }

  Step-IsUnsettled :
      {s t : Store}
      → Step O delete_object_key s t
      → IsUnsettled user_id id s
      → IsUnsettled user_id id t
  Step-IsUnsettled {s} (reserve before t operations now b root allow hash us r e) h =
      with_uploads s us h
        (reserve-keeps user_id id before now b root allow hash (blobs t operations s) e)
  Step-IsUnsettled {s} (begin before t operations now b root us at e) h =
      with_uploads s us h (begin-keeps user_id id before now b root (blobs t operations s) e)
  Step-IsUnsettled {s} (put t operations now p end after done e) h =
      with_uploads s after.uploads h (put-keeps user_id id now p end (blobs t operations s) e)
  Step-IsUnsettled {s} (cancel t operations b r) h =
      with_uploads s _ h (cancel-keeps user_id id b r (blobs t operations s))
  Step-IsUnsettled {s} (fail t operations now b state) h =
      with_uploads s _ h (record_failed-keeps user_id id now b state (blobs t operations s))
  Step-IsUnsettled {s} {t} (command before now r p e) h =
      command-IsUnsettled user_id id before now r s t p e h
  Step-IsUnsettled {s} (sweep now limit objects) h =
      retry-IsUnsettled delete_object_key user_id id now limit s objects h
  Step-IsUnsettled {s} (mark now owner source) h = mark-IsUnsettled user_id id now owner source s h
  Step-IsUnsettled {s} (mark_tree now owner source) h =
      mark_tree-IsUnsettled user_id id now owner source s h
  Step-IsUnsettled {s} (retract now limit) h = retraction-IsUnsettled user_id id now limit s h

  -- While nobody knows how an upload ended, and it was not acknowledged, no sequence of uploaders,
  -- lifecycle commands and sweeps settles it or lets its tombstone count as cleaned up.
  pub Reach-IsUnsettled :
      {s t : Store}
      → Reach O delete_object_key s t
      → IsUnsettled user_id id s
      → IsUnsettled user_id id t
  Reach-IsUnsettled here h = h
  Reach-IsUnsettled (next r step) h = Step-IsUnsettled step (Reach-IsUnsettled r h)

-- ===== src/Sources/Cleanup/Sweep.antt =====
-- `retryPendingSourceTombstoneStorageCleanup` and what it calls.
use assistant_memory.Prelude.{
  ℕ, ◌+◌, Bool, true, false, not, ◌&&◌, ◌||◌, ltb, Option, none, some, List, [], ◌∷◌, map, filter,
  any, length, if◌then◌else◌,
}
use assistant_memory.Partition.Tables.{SourceStatus, is_status}
use assistant_memory.Sources.Rows.{
  UploadState, reserved, uploading, uploaded, cleanup_pending, cleanup_completed, SourceRow,
  Tombstone, Upload, Store, is_present, is_tombstone, find_first,
}
use assistant_memory.Sources.Uploads.{same_upload_state, is_upload, update_uploads}
use assistant_memory.Sources.Cleanup.{
  is_due, complete_tombstones, complete_source_lifecycle_commands_with_completed_storage,
}
use assistant_memory.Sources.Cleanup.Pending.{
  Pending, list_pending_source_tombstone_storage_cleanup,
}

-- One hour.
abbrev pub abandoned_ms : ℕ
abandoned_ms = 3600000

abbrev pub is_started : UploadState → Bool
is_started reserved = true
is_started uploading = true
is_started _ = false

abbrev pub is_abandoned : ℕ → Store → Upload → Bool
is_abandoned now s u =
    is_started u.state
    && ltb (u.updated_at + abandoned_ms) now
    && not (any (is_tombstone u.user_id u.source_id) s.tombstones)

-- An update of the status; the trigger adds one to the version if it changes.
abbrev pub fail_source : SourceRow → SourceRow
fail_source k =
    if is_status k.status SourceStatus.failed
    then k
    else record k { status = SourceStatus.failed; version = k.version + 1 }

abbrev pub to_cleanup : ℕ → Upload → Upload
to_cleanup now u = record u { state = cleanup_pending; updated_at = now }

-- `recoverAbandonedSourceBlobUploadReservations`.
unfoldable pub recover_abandoned_source_blob_upload_reservations : ℕ → Store → Store
recover_abandoned_source_blob_upload_reservations now s =
    let abandoned = filter (is_abandoned now s) s.uploads in
    record s {
      uploads = update_uploads (is_abandoned now s) (to_cleanup now) s.uploads;
      sources =
          map
            (λ k.
              if not (is_present k.deleted_at) && any (is_upload k.user_id k.id) abandoned
              then fail_source k
              else k)
            s.sources;
    }

abbrev pub holds_bytes : UploadState → Bool
holds_bytes reserved = true
holds_bytes uploading = true
holds_bytes uploaded = true
holds_bytes _ = false

-- `recoverTombstonedSourceBlobUploadReservations`.
unfoldable pub recover_tombstoned_source_blob_upload_reservations : ℕ → Store → Store
recover_tombstoned_source_blob_upload_reservations now s = record s {
  uploads =
      update_uploads
        (λ u.
          holds_bytes u.state
          && any (λ t. is_tombstone u.user_id u.source_id t && is_due t.storage_cleanup_state)
              s.tombstones)
        (to_cleanup now) s.uploads;
}

abbrev pub allows_cleanup : Option Upload → Bool
allows_cleanup none = true
allows_cleanup (some u) =
    same_upload_state u.state cleanup_pending || same_upload_state u.state cleanup_completed

abbrev pub is_cleanup : Option Upload → Bool
is_cleanup none = false
is_cleanup (some u) = same_upload_state u.state cleanup_pending

abbrev pub is_tombstone_due : Option Tombstone → Bool
is_tombstone_due none = false
is_tombstone_due (some t) = is_due t.storage_cleanup_state

abbrev pub is_cleanup_of : Pending → Upload → Bool
is_cleanup_of e u = is_upload e.user_id e.source_id u && same_upload_state u.state cleanup_pending

abbrev pub cleaned : ℕ → Upload → Upload
cleaned now u = record u {
  state = cleanup_completed;
  cleanup_completed_at = some now;
  updated_at = now;
}

-- Both updates, after the object is deleted.
abbrev pub complete_entry : ℕ → Pending → Store → Store
complete_entry now e s = record s {
  uploads = update_uploads (is_cleanup_of e) (cleaned now) s.uploads;
  tombstones =
      complete_tombstones now
        (λ t. is_tombstone e.user_id e.source_id t && is_due t.storage_cleanup_state) s.tombstones;
}

-- Rotates an entry whose upload is unknown to the back of the queue.
abbrev pub rotate : ℕ → Pending → Store → Store
rotate now e s = record s {
  uploads =
      update_uploads
        (λ u.
          is_upload e.user_id e.source_id u && same_upload_state u.state UploadState.upload_unknown)
        (λ u. record u { updated_at = now }) s.uploads;
}

-- What one entry, or the entries so far, did: the completed ones, and whether one threw.
pub record Swept (O : Type 0) : Type 0 where
  pub store : Store
  pub objects : O
  pub completed : ℕ
  pub thrown : Bool

module _ {O : Type 0} (delete_object_key : ℕ × ℕ → O → O × Bool) where
  abbrev pub deleted : ℕ → Pending → Store → O × Bool → Swept O
  deleted now e s (objects, true) = record {
    store = complete_entry now e s;
    objects = objects;
    completed = 1;
    thrown = false;
  }
  deleted now e s (objects, false) = record {
    store = s;
    objects = objects;
    completed = 0;
    thrown = true;
  }

  -- `completePendingSourceTombstoneStorageCleanup`.
  unfoldable pub complete_pending_source_tombstone_storage_cleanup :
      ℕ → Pending → Store → O → Swept O
  complete_pending_source_tombstone_storage_cleanup now e s objects =
      let upload = find_first (is_upload e.user_id e.source_id) s.uploads in
      let tombstone = find_first (is_tombstone e.user_id e.source_id) s.tombstones in
      if allows_cleanup upload && (is_cleanup upload || is_tombstone_due tombstone)
      then deleted now e s (delete_object_key e.storage_object_key objects)
      else record { store = s; objects = objects; completed = 0; thrown = false }

  abbrev pub sweep_entry : ℕ → Pending → Store → O → Swept O
  sweep_entry now e s objects =
      if e.upload_unknown
      then record { store = rotate now e s; objects = objects; completed = 0; thrown = false }
      else complete_pending_source_tombstone_storage_cleanup now e s objects

  unfoldable pub sweep_entries : ℕ → List Pending → Store → O → Swept O
  unfolding complete_pending_source_tombstone_storage_cleanup
  sweep_entries now [] s objects = record {
    store = s;
    objects = objects;
    completed = 0;
    thrown = false;
  }
  sweep_entries now (e ∷ es) s objects =
      let first = sweep_entry now e s objects in
      let rest = sweep_entries now es first.store first.objects in
      record rest {
        completed = first.completed + rest.completed;
        thrown = first.thrown || rest.thrown;
      }

  -- What the sweep leaves, and what it answers: the attempted and the completed entries.
  pub record SweepResult : Type 0 where
    pub store : Store
    pub objects : O
    pub answer : Option (ℕ × ℕ)

  abbrev pub answer_of : ℕ → Swept O → SweepResult
  answer_of attempted r = record {
    store = complete_source_lifecycle_commands_with_completed_storage none r.store;
    objects = r.objects;
    answer = if r.thrown then none else some (attempted, r.completed);
  }

  unfoldable pub retry_pending_source_tombstone_storage_cleanup : ℕ → ℕ → Store → O → SweepResult
  unfolding sweep_entries list_pending_source_tombstone_storage_cleanup
      recover_abandoned_source_blob_upload_reservations
      recover_tombstoned_source_blob_upload_reservations
  retry_pending_source_tombstone_storage_cleanup now limit s objects =
      let recovered =
        recover_tombstoned_source_blob_upload_reservations now
          (recover_abandoned_source_blob_upload_reservations now s) in
      let pending = list_pending_source_tombstone_storage_cleanup limit recovered in
      answer_of (length pending) (sweep_entries now pending recovered objects)

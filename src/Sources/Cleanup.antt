-- ===== src/Sources/Cleanup.antt =====
-- The sweeps of src/lib/source-lifecycle.ts that delete the objects of erased sources.
--
-- The object store is the parameter `delete_object_key`: what it leaves of the objects, and whether it
-- returns without an error. One sweep runs at a time, and the entries of a sweep one after another.
pub mod Pending
pub mod Sweep
pub mod Legacy
pub mod Answers
use assistant_memory.Prelude.{
  ℕ, zero, suc, ◌+◌, Bool, true, false, not, ◌&&◌, ◌||◌, ◌==◌, ltb, Option, none, some, List, [],
  ◌∷◌, ◌++◌, map, filter, any, take, length, contains, if◌then◌else◌,
}
use assistant_memory.Partition.Tables.{SourceStatus, is_status}
use assistant_memory.Sources.Rows.{
  CleanupState, not_required, cleanup_due, cleanup_done, UploadState, reserved, uploading,
  upload_unknown, uploaded, cleanup_pending, cleanup_completed, SourceRow, Tombstone, Upload,
  Command, Store, is_present, is_source, is_tombstone, find_first,
}
use assistant_memory.Sources.Tree.{find_source_tree_ids}
use assistant_memory.Sources.Uploads.{same_upload_state, is_upload, update_uploads}
use assistant_memory.Sources.Commands.{load_command}

abbrev pub is_due : CleanupState → Bool
is_due cleanup_due = true
is_due _ = false

abbrev pub is_done : CleanupState → Bool
is_done cleanup_done = true
is_done _ = false

abbrev pub is_same_key : ℕ × ℕ → ℕ × ℕ → Bool
is_same_key (a, b) (c, d) = a == c && b == d

abbrev pub has_key : List (ℕ × ℕ) → ℕ × ℕ → Bool
has_key keys key = any (is_same_key key) keys

-- `COALESCE(storage_object_key, user_id || '/' || source_id)`.
abbrev pub key_of : Tombstone → ℕ × ℕ
key_of t = elim t.storage_object_key [ none ↦ (t.user_id, t.source_id) | some key ↦ key ]

-- `update … where` on tombstones, to the completed cleanup.
abbrev pub complete_tombstones : ℕ → (Tombstone → Bool) → List Tombstone → List Tombstone
complete_tombstones now p ts =
    map
      (λ t. if p t then record t { storage_cleanup_state = cleanup_done; updated_at = now } else t)
      ts

-- An upload of the tombstone's source that was neither acknowledged nor cleaned up.
abbrev pub is_unacknowledged : Tombstone → Upload → Bool
is_unacknowledged t u =
    is_upload t.user_id t.source_id u
    && not (is_present u.uploaded_at)
    && not (same_upload_state u.state cleanup_completed)

abbrev pub is_unknown_upload : Tombstone → Upload → Bool
is_unknown_upload t u =
    is_upload t.user_id t.source_id u && same_upload_state u.state upload_unknown

-- `markSourceStorageCleanupCompleted`.
unfoldable pub mark_source_storage_cleanup_completed : ℕ → ℕ → ℕ → Store → Store
mark_source_storage_cleanup_completed now user_id source_id s = record s {
  tombstones =
      complete_tombstones now
        (λ t.
          is_tombstone user_id source_id t
          && is_due t.storage_cleanup_state
          && not (any (is_unacknowledged t) s.uploads))
        s.tombstones;
}

-- `completeSourceLifecycleCommandsWithCompletedStorage`: the keys of the command all have a tombstone
-- that is cleaned up.
abbrev pub is_key_done : ℕ → List Tombstone → ℕ × ℕ → Bool
is_key_done user_id ts key =
    any (λ t. t.user_id == user_id && is_same_key (key_of t) key && is_done t.storage_cleanup_state)
      ts

abbrev pub is_any : List (ℕ × ℕ) → Bool
is_any [] = false
is_any (key ∷ keys) = true

abbrev pub is_of_user : Option ℕ → ℕ → Bool
is_of_user none user_id = true
is_of_user (some u) user_id = user_id == u

abbrev pub is_covered : Option ℕ → List Tombstone → Command → Bool
is_covered user ts c =
    is_due c.storage_cleanup_state
    && is_of_user user c.user_id
    && is_any c.storage_object_keys
    && not (any (λ key. not (is_key_done c.user_id ts key)) c.storage_object_keys)

unfoldable pub complete_source_lifecycle_commands_with_completed_storage : Option ℕ → Store → Store
complete_source_lifecycle_commands_with_completed_storage user s = record s {
  commands =
      map
        (λ c.
          if is_covered user s.tombstones c
          then record c { storage_cleanup_state = cleanup_done }
          else c)
        s.commands;
}

-- `listSourceLifecycleStorageCleanupKeys`.
abbrev pub keys_to_delete : ℕ → Option Command → List Upload → List (ℕ × ℕ)
keys_to_delete user_id none us = []
keys_to_delete user_id (some c) us =
    if is_due c.storage_cleanup_state
    then filter
        (λ key. not (
          any
            (λ u.
              u.user_id == user_id
              && same_upload_state u.state upload_unknown
              && is_same_key u.object_key key)
            us))
        c.storage_object_keys
    else []

unfoldable pub list_source_lifecycle_storage_cleanup_keys : ℕ → ℕ → Store → List (ℕ × ℕ)
list_source_lifecycle_storage_cleanup_keys user_id command_id s =
    keys_to_delete user_id (load_command user_id command_id s.commands) s.uploads

-- `listSourceTreeStorageCleanupIds`.
unfoldable pub list_source_tree_storage_cleanup_ids : ℕ → ℕ → Store → List ℕ
list_source_tree_storage_cleanup_ids user_id source_id s =
    let tree = find_source_tree_ids user_id source_id s.sources in
    map (λ (t : Tombstone). t.source_id)
      (filter
        (λ t.
          t.user_id == user_id
          && contains tree t.source_id
          && is_due t.storage_cleanup_state
          && not (any (is_unknown_upload t) s.uploads))
        s.tombstones)

-- The key is in the receipt of a pending command for the source.
abbrev pub is_received : ℕ → ℕ → List Command → Option (ℕ × ℕ) → Bool
is_received user_id source_id commands none = false
is_received user_id source_id commands (some key) =
    any
      (λ c.
        c.user_id == user_id
        && c.source_id == source_id
        && is_due c.storage_cleanup_state
        && has_key c.storage_object_keys key)
      commands

-- The two updates of `markSourceTreeStorageCleanupCompleted`.
abbrev pub mark_tree : ℕ → ℕ → List ℕ → Store → List Tombstone
mark_tree now user_id ids s =
    complete_tombstones now
      (λ t.
        t.user_id == user_id
        && contains ids t.source_id
        && not (any (is_unacknowledged t) s.uploads))
      s.tombstones

abbrev pub mark_received : ℕ → ℕ → ℕ → Store → List Tombstone → List Tombstone
mark_received now user_id source_id s ts =
    complete_tombstones now
      (λ t.
        t.user_id == user_id
        && is_due t.storage_cleanup_state
        && not (any (is_unacknowledged t) s.uploads)
        && is_received user_id source_id s.commands t.storage_object_key)
      ts

unfoldable pub mark_source_tree_storage_cleanup_completed : ℕ → ℕ → ℕ → Store → Store
mark_source_tree_storage_cleanup_completed now user_id source_id s =
    let ids = list_source_tree_storage_cleanup_ids user_id source_id s in
    complete_source_lifecycle_commands_with_completed_storage (some user_id)
      record s { tombstones = mark_received now user_id source_id s (mark_tree now user_id ids s) }

-- ===== src/Sources/Cleanup/Pending.antt =====
-- `listPendingSourceTombstoneStorageCleanup`: the entries of a sweep, oldest first.
use assistant_memory.Prelude.{
  ℕ, Bool, true, false, not, ◌&&◌, ◌||◌, ◌==◌, ltb, List, [], ◌∷◌, ◌++◌, map, filter, any, take,
  if◌then◌else◌,
}
use assistant_memory.Sources.Rows.{
  UploadState, upload_unknown, cleanup_pending, Tombstone, Upload, Store,
}
use assistant_memory.Sources.Uploads.{same_upload_state}
use assistant_memory.Sources.Cleanup.{is_due, is_same_key, key_of, is_unknown_upload}

-- `PendingSourceTombstoneStorageCleanup`, with the time by which the entries are ordered.
pub record Pending : Type 0 where
  pub user_id : ℕ
  pub source_id : ℕ
  pub storage_object_key : ℕ × ℕ
  pub retry_at : ℕ
  pub upload_unknown : Bool

abbrev pub pending_tombstone : Tombstone → Pending
pending_tombstone t = record {
  user_id = t.user_id;
  source_id = t.source_id;
  storage_object_key = key_of t;
  retry_at = t.updated_at;
  upload_unknown = false;
}

abbrev pub pending_upload : Upload → Pending
pending_upload u = record {
  user_id = u.user_id;
  source_id = u.source_id;
  storage_object_key = u.object_key;
  retry_at = u.updated_at;
  upload_unknown = same_upload_state u.state UploadState.upload_unknown;
}

abbrev pub is_waiting : UploadState → Bool
is_waiting cleanup_pending = true
is_waiting upload_unknown = true
is_waiting _ = false

abbrev pub is_group : Pending → Pending → Bool
is_group a b =
    a.user_id == b.user_id
    && a.source_id == b.source_id
    && is_same_key a.storage_object_key b.storage_object_key

abbrev pub earlier : ℕ → ℕ → ℕ
earlier a b = if ltb a b then a else b

-- `GROUP BY`, with `bool_or` and `min`.
unfoldable pub add_group : Pending → List Pending → List Pending
add_group e [] = e ∷ []
add_group e (g ∷ gs) =
    let rest = add_group e gs in
    if is_group e g
    then record g {
      retry_at = earlier e.retry_at g.retry_at;
      upload_unknown = e.upload_unknown || g.upload_unknown;
    }
      ∷ gs
    else g ∷ rest

unfoldable pub group : List Pending → List Pending
unfolding add_group
group [] = []
group (e ∷ es) = add_group e (group es)

abbrev pub before_pending : Pending → Pending → Bool
before_pending a b =
    ltb a.retry_at b.retry_at
    || a.retry_at == b.retry_at
      && (ltb a.user_id b.user_id || a.user_id == b.user_id && ltb a.source_id b.source_id)

unfoldable pub insert_pending : Pending → List Pending → List Pending
insert_pending e [] = e ∷ []
insert_pending e (g ∷ gs) =
    let rest = insert_pending e gs in if before_pending g e then g ∷ rest else e ∷ g ∷ gs

unfoldable pub sort_pending : List Pending → List Pending
unfolding insert_pending
sort_pending [] = []
sort_pending (e ∷ es) = insert_pending e (sort_pending es)

-- The rows of the `UNION ALL`.
unfoldable pub waiting_entries : Store → List Pending
waiting_entries s =
    let due =
      filter (λ t. is_due t.storage_cleanup_state && not (any (is_unknown_upload t) s.uploads))
        s.tombstones in
    let waiting = filter (λ (u : Upload). is_waiting u.state) s.uploads in
    map pending_tombstone due ++ map pending_upload waiting

-- `listPendingSourceTombstoneStorageCleanup`.
unfoldable pub list_pending_source_tombstone_storage_cleanup : ℕ → Store → List Pending
unfolding group sort_pending waiting_entries
list_pending_source_tombstone_storage_cleanup limit s =
    take limit (sort_pending (group (waiting_entries s)))

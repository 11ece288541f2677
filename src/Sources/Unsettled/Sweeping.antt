-- ===== src/Sources/Unsettled/Sweeping.antt =====
-- What the sweeps do leaves an unsettled upload as it is, and its tombstone waiting.
use assistant_memory.Prelude.{
  ◌≡◌, refl, ==→eq, ℕ, Bool, true, false, ◌&&◌, ◌||◌, ◌==◌, List, [], ◌∷◌, arith, Bool-cases, inl,
  inr,
}
use assistant_memory.Sources.Rows.{Upload, Store, is_tombstone, find_first}
use assistant_memory.Sources.Uploads.{is_upload, update_uploads}
use assistant_memory.Sources.Cleanup.{
  mark_tree, mark_source_storage_cleanup_completed, mark_source_tree_storage_cleanup_completed,
  complete_source_lifecycle_commands_with_completed_storage, list_source_tree_storage_cleanup_ids,
}
use assistant_memory.Sources.Cleanup.Pending.{
  Pending, list_pending_source_tombstone_storage_cleanup,
}
use assistant_memory.Sources.Cleanup.Sweep.{
  is_abandoned, to_cleanup, rotate, is_cleanup_of, cleaned, complete_entry, deleted, sweep_entry,
  sweep_entries, recover_abandoned_source_blob_upload_reservations,
  recover_tombstoned_source_blob_upload_reservations,
  complete_pending_source_tombstone_storage_cleanup, retry_pending_source_tombstone_storage_cleanup,
  allows_cleanup, is_cleanup, is_tombstone_due,
}
use assistant_memory.Sources.Unsettled.{
  IsUnsettled, is_unsettled, update-unsettled, update-there, found-unsettled, seen-unsettled,
  complete-waiting,
}

module _ (user_id id : ℕ) where
  -- A write of uploads that keeps the unsettled one.
  pub update-IsUnsettled :
      (p : Upload → Bool) (f : Upload → Upload) (s : Store)
      → ((u : Upload) → is_upload user_id id (f u) ≡ is_upload user_id id u)
      → ((u : Upload)
          → is_unsettled user_id id u ≡ true
          → p u ≡ true
          → is_unsettled user_id id (f u) ≡ true)
      → IsUnsettled user_id id s
      → IsUnsettled user_id id (record s { uploads = update_uploads p f s.uploads })
  update-IsUnsettled p f s same keep h = record {
    there = update-there user_id id p f s.uploads same h.there;
    unsettled = update-unsettled user_id id p f s.uploads keep h.unsettled;
    waiting = h.waiting;
  }

  pub mark-IsUnsettled :
      (now source_user source : ℕ) (s : Store)
      → IsUnsettled user_id id s
      → IsUnsettled user_id id (mark_source_storage_cleanup_completed now source_user source s)
  unfolding mark_source_storage_cleanup_completed
  mark-IsUnsettled now source_user source s h = record {
    there = h.there;
    unsettled = h.unsettled;
    waiting =
        complete-waiting user_id id now _ s.tombstones
          (λ t mine. ground (arith, seen-unsettled user_id id t s.uploads mine h.there h.unsettled))
          h.waiting;
  }

  pub mark_tree-IsUnsettled :
      (now source_user source : ℕ) (s : Store)
      → IsUnsettled user_id id s
      → IsUnsettled user_id id (mark_source_tree_storage_cleanup_completed now source_user source s)
  unfolding mark_source_tree_storage_cleanup_completed
      complete_source_lifecycle_commands_with_completed_storage
  mark_tree-IsUnsettled now source_user source s h =
      let ids = list_source_tree_storage_cleanup_ids source_user source s in
      record {
        there = h.there;
        unsettled = h.unsettled;
        waiting =
            complete-waiting user_id id now _ (mark_tree now source_user ids s)
              (λ t mine.
                ground (arith, seen-unsettled user_id id t s.uploads mine h.there h.unsettled))
              (complete-waiting user_id id now _ s.tombstones
                (λ t mine.
                  ground (arith, seen-unsettled user_id id t s.uploads mine h.there h.unsettled))
                h.waiting);
      }

  recover_abandoned-IsUnsettled :
      (now : ℕ) (s : Store)
      → IsUnsettled user_id id s
      → IsUnsettled user_id id (recover_abandoned_source_blob_upload_reservations now s)
  unfolding recover_abandoned_source_blob_upload_reservations
  recover_abandoned-IsUnsettled now s h = record {
    there =
        update-there user_id id (is_abandoned now s) (to_cleanup now) s.uploads (λ u. refl) h.there;
    unsettled =
        update-unsettled user_id id (is_abandoned now s) (to_cleanup now) s.uploads
          (λ u q hit. ground arith) h.unsettled;
    waiting = h.waiting;
  }

  recover_tombstoned-IsUnsettled :
      (now : ℕ) (s : Store)
      → IsUnsettled user_id id s
      → IsUnsettled user_id id (recover_tombstoned_source_blob_upload_reservations now s)
  unfolding recover_tombstoned_source_blob_upload_reservations
  recover_tombstoned-IsUnsettled now s h =
      update-IsUnsettled _ (to_cleanup now) s (λ u. refl) (λ u q hit. ground arith) h

  rotate-IsUnsettled :
      (now : ℕ) (e : Pending) (s : Store)
      → IsUnsettled user_id id s
      → IsUnsettled user_id id (rotate now e s)
  rotate-IsUnsettled now e s h =
      update-IsUnsettled _ (λ u. record u { updated_at = now }) s (λ u. refl) (λ u q hit. q) h

  -- The entry of another source.
  complete_entry-IsUnsettled :
      (now : ℕ) (e : Pending) (s : Store)
      → (e.user_id == user_id && e.source_id == id) ≡ false
      → IsUnsettled user_id id s
      → IsUnsettled user_id id (complete_entry now e s)
  complete_entry-IsUnsettled now e s other h = record {
    there = update-there user_id id _ _ s.uploads (λ u. refl) h.there;
    unsettled =
        update-unsettled user_id id (is_cleanup_of e) (cleaned now) s.uploads
          (λ u q hit. ground (arith, ==→eq u.user_id e.user_id, ==→eq u.source_id e.source_id))
          h.unsettled;
    waiting =
        complete-waiting user_id id now _ s.tombstones
          (λ t mine. ground (
            arith,
            ==→eq t.user_id user_id,
            ==→eq t.source_id id,
            ==→eq t.user_id e.user_id,
            ==→eq t.source_id e.source_id,
          ))
          h.waiting;
  }

  own-refused :
      (e : Pending) (s : Store)
      → (e.user_id == user_id && e.source_id == id) ≡ true
      → IsUnsettled user_id id s
      → allows_cleanup (find_first (is_upload e.user_id e.source_id) s.uploads) ≡ false
  own-refused e s own h =
      let (u, f, g) = found-unsettled user_id id s.uploads h.there h.unsettled in
      let a : e.user_id ≡ user_id = ==→eq e.user_id user_id (ground arith) in
      let b : e.source_id ≡ id = ==→eq e.source_id id (ground arith) in rw (a, b, f) (ground arith)

module _ {O : Type 0} (delete_object_key : ℕ × ℕ → O → O × Bool) (user_id id : ℕ) where
  deleted-IsUnsettled :
      (now : ℕ) (e : Pending) (s : Store) (end : O × Bool)
      → (e.user_id == user_id && e.source_id == id) ≡ false
      → IsUnsettled user_id id s
      → IsUnsettled user_id id (deleted delete_object_key now e s end).store
  deleted-IsUnsettled now e s (objects, true) other h =
      complete_entry-IsUnsettled user_id id now e s other h
  deleted-IsUnsettled now e s (objects, false) other h = h

  complete_pending-IsUnsettled :
      (now : ℕ) (e : Pending) (s : Store) (objects : O)
      → IsUnsettled user_id id s
      → IsUnsettled user_id id
          (complete_pending_source_tombstone_storage_cleanup delete_object_key now e s
            objects).store
  unfolding complete_pending_source_tombstone_storage_cleanup
  complete_pending-IsUnsettled now e s objects h =
      let upload = find_first (is_upload e.user_id e.source_id) s.uploads in
      let tombstone = find_first (is_tombstone e.user_id e.source_id) s.tombstones in
      elim (Bool-cases (e.user_id == user_id && e.source_id == id)) [
        | inl own ↦ rw (own-refused user_id id e s own h) h
        | inr other ↦
            elim (Bool-cases
              (allows_cleanup upload && (is_cleanup upload || is_tombstone_due tombstone))) [
                | inl pass ↦ rw pass (
                    deleted-IsUnsettled now e s (delete_object_key e.storage_object_key objects)
                      other h)
                | inr stop ↦ rw stop h
              ]
      ]

  sweep_entry-IsUnsettled :
      (now : ℕ) (e : Pending) (s : Store) (objects : O)
      → IsUnsettled user_id id s
      → IsUnsettled user_id id (sweep_entry delete_object_key now e s objects).store
  unfolding complete_pending_source_tombstone_storage_cleanup
  sweep_entry-IsUnsettled now e s objects h = elim (Bool-cases e.upload_unknown) [
    | inl unknown ↦ rw unknown (rotate-IsUnsettled user_id id now e s h)
    | inr known ↦ rw known (complete_pending-IsUnsettled now e s objects h)
  ]

  sweep_entries-IsUnsettled :
      (now : ℕ) (es : List Pending) (s : Store) (objects : O)
      → IsUnsettled user_id id s
      → IsUnsettled user_id id (sweep_entries delete_object_key now es s objects).store
  unfolding sweep_entries
  sweep_entries-IsUnsettled now [] s objects h = h
  sweep_entries-IsUnsettled now (e ∷ es) s objects h =
      let first = sweep_entry delete_object_key now e s objects in
      sweep_entries-IsUnsettled now es first.store first.objects
        (sweep_entry-IsUnsettled now e s objects h)

  pub retry-IsUnsettled :
      (now limit : ℕ) (s : Store) (objects : O)
      → IsUnsettled user_id id s
      → IsUnsettled user_id id
          (retry_pending_source_tombstone_storage_cleanup delete_object_key now limit s
            objects).store
  unfolding retry_pending_source_tombstone_storage_cleanup
      complete_source_lifecycle_commands_with_completed_storage
  retry-IsUnsettled now limit s objects h =
      let recovered =
        recover_tombstoned_source_blob_upload_reservations now
          (recover_abandoned_source_blob_upload_reservations now s) in
      let pending = list_pending_source_tombstone_storage_cleanup limit recovered in
      let k = sweep_entries-IsUnsettled now pending recovered objects (
        recover_tombstoned-IsUnsettled user_id id now _
          (recover_abandoned-IsUnsettled user_id id now s h)) in
      record { there = k.there; unsettled = k.unsettled; waiting = k.waiting }

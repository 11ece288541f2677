-- ===== src/Sources/Cleanup/Answers.antt =====
-- What a sweep did for one entry.
use assistant_memory.Prelude.{map, ◌≡◌, ℕ, Bool, true, false, ◌&&◌, All}
use assistant_memory.Sources.Rows.{Upload, Store, is_tombstone}
use assistant_memory.Sources.Cleanup.{is_due}
use assistant_memory.Sources.Cleanup.Pending.{Pending}
use assistant_memory.Sources.Cleanup.Sweep.{
  Swept, is_cleanup_of, sweep_entry, complete_pending_source_tombstone_storage_cleanup,
}

-- The source of the entry has nothing left to clean up.
pub record IsClean (e : Pending) (s : Store) : Type 0 where
  pub uploads : All (λ u. is_cleanup_of e u ≡ false) s.uploads
  pub tombstones :
      All
        (λ t. (is_tombstone e.user_id e.source_id t && is_due t.storage_cleanup_state) ≡ false)
        s.tombstones

abbrev untimed : Upload → Upload
untimed u = record u { updated_at = 0 }

abbrev retimed : ℕ → Upload → Upload
retimed now u = record u { updated_at = now }

-- The stores differ in nothing but the time of update of uploads.
pub record IsTouched (s t : Store) : Type 0 where
  pub other_tables : record t { uploads = s.uploads } ≡ s
  pub same_uploads : map untimed t.uploads ≡ map untimed s.uploads

module _ {O : Type 0} (delete_object_key : ℕ × ℕ → O → O × Bool) where
  abbrev pub entry_end : ℕ → Pending → Store → O → Swept O
  entry_end now e s objects =
      complete_pending_source_tombstone_storage_cleanup delete_object_key now e s objects

  abbrev pub swept : ℕ → Pending → Store → O → Swept O
  swept now e s objects = sweep_entry delete_object_key now e s objects

  abbrev IsAnswer : ℕ → Pending → Store → O → Swept O → Type 0
  IsAnswer now e s objects r =
      (r.completed ≡ 1
        → (e.upload_unknown ≡ false)
          × (delete_object_key e.storage_object_key objects ≡ (r.objects, true))
          × IsClean e r.store)
      × (r.completed ≡ 0 → IsTouched s r.store × (e.upload_unknown ≡ false → r.store ≡ s))

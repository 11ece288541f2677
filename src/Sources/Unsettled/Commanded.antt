-- ===== src/Sources/Unsettled/Commanded.antt =====
-- What lifecycle commands and the retraction of old sources do leaves an unsettled upload as it is.
use assistant_memory.Prelude.{
  ◌≡◌, refl, ℕ, zero, suc, Bool, true, false, ◌&&◌, ◌==◌, List, [], ◌∷◌, map, any, contains, All,
  All-map, All-impl, arith, Bool-cases, Option-cases, inl, inr, if◌then◌else◌,
}
use assistant_memory.Processing.Work.{purge_source_ingestion_operations}
use assistant_memory.Sources.Rows.{
  cleanup_pending, SourceRow, Tombstone, Request, Response, Command, Store, Answer, answered,
  refused, returned, Returns, cleanup_done, is_tombstone,
}
use assistant_memory.Sources.Tree.{load_and_lock_source_tree}
use assistant_memory.Sources.Actions.{
  ids_of, needs_cleanup, request_source_blob_upload_cleanup, new_tombstone, insert_tombstones,
  finalize, close_restored, close_purged, tombstone_store,
}
use assistant_memory.Sources.Commands.{apply_source_lifecycle_command}
use assistant_memory.Sources.Commands.Cases.{apply-Returns}
use assistant_memory.Sources.Cleanup.Legacy.{
  legacy_tombstone, upsert_tombstones, retract_loaded, retract_legacy_source_read_models,
  first_pending, Retraction, after_round, retract_rounds,
  retry_pending_legacy_source_read_model_retraction,
}
use assistant_memory.Sources.Unsettled.{
  IsUnsettled, is_open_tombstone, update-unsettled, update-there,
}

module _ (user_id id : ℕ) where
  abbrev AllOpen : List Tombstone → Type 0
  AllOpen ts = All (λ t. is_open_tombstone user_id id t ≡ true) ts

  insert_tombstones-AllOpen :
      (now owner : ℕ) (tree : List SourceRow) (ts : List Tombstone)
      → AllOpen ts
      → AllOpen (insert_tombstones now owner tree ts)
  unfolding insert_tombstones
  insert_tombstones-AllOpen now owner [] ts h = h
  insert_tombstones-AllOpen now owner (k ∷ ks) ts h =
      elim (Bool-cases (any (is_tombstone owner k.id) ts)) [
        | inl there ↦ rw there (insert_tombstones-AllOpen now owner ks ts h)
        | inr new ↦ rw new (
            insert_tombstones-AllOpen now owner ks (new_tombstone now owner k ∷ ts)
              (ground arith, h))
      ]

  finalize-IsUnsettled :
      (close : Tombstone → Tombstone)
      → ((t : Tombstone)
          → is_open_tombstone user_id id t ≡ true
          → is_open_tombstone user_id id (close t) ≡ true)
      → (owner : ℕ) (ids : List ℕ) (s : Store) → IsUnsettled user_id id s
      → IsUnsettled user_id id (finalize close owner ids s)
  finalize-IsUnsettled close keep owner ids s h = record {
    there = h.there;
    unsettled = h.unsettled;
    waiting =
        All-map _ (λ t. if t.user_id == owner && contains ids t.source_id then close t else t)
          s.tombstones
          (All-impl
            (λ t q. elim (Bool-cases (t.user_id == owner && contains ids t.source_id)) [
              | inl hit ↦ rw hit (keep t q)
              | inr miss ↦ rw miss q
            ])
            s.tombstones h.waiting);
  }

  tombstone-IsUnsettled :
      (now : ℕ) (r : Request) (tree : List SourceRow) (s : Store)
      → IsUnsettled user_id id s
      → IsUnsettled user_id id (tombstone_store now r tree s)
  unfolding request_source_blob_upload_cleanup
  tombstone-IsUnsettled now r tree s h = record {
    there =
        update-there user_id id
          (λ u.
            u.user_id == r.user_id && contains (ids_of tree) u.source_id && needs_cleanup u.state)
          (λ u. record u { state = cleanup_pending; updated_at = now }) s.uploads (λ u. refl)
          h.there;
    unsettled =
        update-unsettled user_id id
          (λ u.
            u.user_id == r.user_id && contains (ids_of tree) u.source_id && needs_cleanup u.state)
          (λ u. record u { state = cleanup_pending; updated_at = now }) s.uploads
          (λ u q hit. ground arith) h.unsettled;
    waiting = insert_tombstones-AllOpen now r.user_id tree s.tombstones h.waiting;
  }

  pub command-IsUnsettled :
      (before : List Command) (now : ℕ) (r : Request) (s s' : Store) (p : Response)
      → apply_source_lifecycle_command before now r s ≡ answered (s', p)
      → IsUnsettled user_id id s
      → IsUnsettled user_id id s'
  command-IsUnsettled before now r s s' p e h =
      let same : (t : Store)
          → IsUnsettled user_id id t
          → (commands : List Command) → IsUnsettled user_id id (record t { commands = commands }) =
        λ t k commands. record { there = k.there; unsettled = k.unsettled; waiting = k.waiting } in
      returned (λ d. IsUnsettled user_id id d.0) (apply_source_lifecycle_command before now r s)
        (s', p)
        (apply-Returns (λ d. IsUnsettled user_id id d.0) now r s before (λ c seen like. h)
          (λ c seen like. h)
          (λ tree source d root unseen key version. record {
            on_tombstone = λ a live fresh updated f.
                same (tombstone_store now r tree s) (tombstone-IsUnsettled now r tree s h) _;
            on_restore = λ t a f k l m.
                same (finalize (close_restored now) r.user_id (ids_of tree) s)
                  (finalize-IsUnsettled (close_restored now) (λ t q. q) r.user_id (ids_of tree) s h)
                  _;
            on_purge = λ t a f k.
                same _
                  (finalize-IsUnsettled (close_purged now) (λ t q. q) r.user_id (ids_of tree)
                    (record s {
                      operations =
                          purge_source_ingestion_operations now r.user_id (ids_of tree)
                            s.operations;
                    })
                    record { there = h.there; unsettled = h.unsettled; waiting = h.waiting })
                  _;
          }))
        e

  upsert_tombstones-AllOpen :
      (now owner : ℕ) (tree : List SourceRow) (ts : List Tombstone)
      → AllOpen ts
      → AllOpen (upsert_tombstones now owner tree ts)
  unfolding upsert_tombstones
  upsert_tombstones-AllOpen now owner [] ts h = h
  upsert_tombstones-AllOpen now owner (k ∷ ks) ts h =
      let mark : Tombstone → Tombstone = λ t.
        if is_tombstone owner k.id t
        then record t { read_model_cleanup_state = cleanup_done; updated_at = now }
        else t in
      elim (Bool-cases (any (is_tombstone owner k.id) ts)) [
        | inl there ↦ rw there (
            upsert_tombstones-AllOpen now owner ks (map mark ts)
              (All-map _ mark ts (All-impl (λ t q. ground arith) ts h)))
        | inr new ↦ rw new (
            upsert_tombstones-AllOpen now owner ks (legacy_tombstone now owner k ∷ ts)
              (ground arith, h))
      ]

  retract_loaded-IsUnsettled :
      (now owner : ℕ) (m : Answer (List SourceRow)) (s : Store)
      → IsUnsettled user_id id s
      → Returns (λ d. IsUnsettled user_id id d.0) (retract_loaded now owner m s)
  retract_loaded-IsUnsettled now owner (refused error) s h = tt
  retract_loaded-IsUnsettled now owner (answered []) s h = h
  retract_loaded-IsUnsettled now owner (answered (k ∷ ks)) s h = record {
    there = h.there;
    unsettled = h.unsettled;
    waiting = upsert_tombstones-AllOpen now owner (k ∷ ks) s.tombstones h.waiting;
  }

  after_round-IsUnsettled :
      (s : Store) (counted : ℕ) (m : Answer (Store × Bool)) (next : Store → Retraction)
      → IsUnsettled user_id id s
      → Returns (λ d. IsUnsettled user_id id d.0) m
      → ((t : Store) → IsUnsettled user_id id t → IsUnsettled user_id id (next t).store)
      → IsUnsettled user_id id (after_round s counted m next).store
  after_round-IsUnsettled s counted (refused error) next h k f = h
  after_round-IsUnsettled s counted (answered (t, false)) next h k f = k
  after_round-IsUnsettled s counted (answered (t, true)) next h k f = f t k

  retract_rounds-IsUnsettled :
      (now limit counted : ℕ) (s : Store)
      → IsUnsettled user_id id s
      → IsUnsettled user_id id (retract_rounds now limit counted s).store
  unfolding retract_rounds retract_legacy_source_read_models
  retract_rounds-IsUnsettled now zero counted s h = h
  retract_rounds-IsUnsettled now (suc limit) counted s h =
      elim (Option-cases (first_pending s s.tombstones)) [
        | inl none_left ↦ rw (none_left, retract_rounds) h
        | inr found ↦
            let (t, e) = found in
            rw (e, retract_rounds)
              (after_round-IsUnsettled s counted
                (retract_legacy_source_read_models now t.user_id t.source_id s)
                (λ s'. retract_rounds now limit (suc counted) s') h
                (retract_loaded-IsUnsettled now t.user_id
                  (load_and_lock_source_tree t.user_id t.source_id s.sources) s h)
                (λ s' k. retract_rounds-IsUnsettled now limit (suc counted) s' k))
      ]

  pub retraction-IsUnsettled :
      (now limit : ℕ) (s : Store)
      → IsUnsettled user_id id s
      → IsUnsettled user_id id (retry_pending_legacy_source_read_model_retraction now limit s).store
  unfolding retry_pending_legacy_source_read_model_retraction
  retraction-IsUnsettled now limit s h = retract_rounds-IsUnsettled now limit 0 s h

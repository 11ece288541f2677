-- ===== src/Sources/Commands/Tombstoned.antt =====
-- What a tombstone leaves of the tree of a source.
use mathlib.Core.List.{Memᴰ}
use assistant_memory.Prelude.{
  ◌≡◌, refl, ◌∙◌, sym, subst, ==→eq, ==_refl, ℕ, Bool, true, false, not, ◌&&◌, ◌==◌, List, [], ◌∷◌,
  filter, any, length, contains, if◌then◌else◌, All, All-map, arith, Bool-cases, inl, inr,
}
use assistant_memory.Erasure.Rows.Deletes.{mem-any, All-from_mem}
use assistant_memory.Erasure.Derivatives.Leaves.{filter-mem}
use assistant_memory.Erasure.ReadModels.Gone.{erase_source_read_models-IsErased}
use assistant_memory.Erasure.ReadModels.Deleted.{IsErased}
use assistant_memory.Sources.Rows.{
  SourceRow, Tombstone, UploadState, reserved, uploading, upload_unknown, uploaded, cleanup_pending,
  cleanup_completed, Upload, Request, Command, Response, Store, answered, source_not_found,
  throw_if-Returns, returned, is_tombstone, is_tombstoned, is_present,
}
use assistant_memory.Sources.Tree.{find_source_tree_ids, load_and_lock_source_tree}
use assistant_memory.Sources.Actions.{
  ids_of, is_locked, erase_row, tombstone_sources, request_source_blob_upload_cleanup,
  new_tombstone, insert_tombstones, needs_cleanup, tombstone_store, tombstone_response,
}
use assistant_memory.Sources.Commands.{record_command, apply_source_lifecycle_command}
use assistant_memory.Sources.Commands.Cases.{apply-Returns}

-- An upload that still may put bytes, or whose bytes are there.
abbrev pub is_open : UploadState → Bool
is_open reserved = true
is_open uploading = true
is_open uploaded = true
is_open _ = false

-- The sources are erased and tombstoned, and their uploads wait for the cleanup or are unresolved.
pub record IsRetired (user_id : ℕ) (ids : List ℕ) (s : Store) : Type 0 where
  pub erased : IsErased user_id ids s.graph
  pub deleted :
      All
        (λ k. (k.user_id == user_id && contains ids k.id && not (is_present k.deleted_at)) ≡ false)
        s.sources
  pub buried : All (λ id. any (is_tombstone user_id id) s.tombstones ≡ true) ids
  pub fenced :
      All
        (λ u. (u.user_id == user_id && contains ids u.source_id && is_open u.state) ≡ false)
        s.uploads

pub insert_tombstones-keeps :
    (now owner user_id id : ℕ) (tree : List SourceRow) (ts : List Tombstone)
    → any (is_tombstone user_id id) ts ≡ true
    → any (is_tombstone user_id id) (insert_tombstones now owner tree ts) ≡ true
unfolding insert_tombstones
insert_tombstones-keeps now owner user_id id [] ts h = h
insert_tombstones-keeps now owner user_id id (s ∷ ss) ts h =
    insert_tombstones-keeps now owner user_id id ss
      (if any (is_tombstone owner s.id) ts then ts else new_tombstone now owner s ∷ ts)
      (ground arith)

insert_tombstones-All :
    (now user_id : ℕ) (tree : List SourceRow) (ts : List Tombstone)
    → All
        (λ id. any (is_tombstone user_id id) (insert_tombstones now user_id tree ts) ≡ true)
        (ids_of tree)
unfolding insert_tombstones
insert_tombstones-All now user_id [] ts = tt
insert_tombstones-All now user_id (s ∷ ss) ts =
    let next =
      if any (is_tombstone user_id s.id) ts then ts else new_tombstone now user_id s ∷ ts in
    (
      insert_tombstones-keeps now user_id user_id s.id ss next
          (ground (arith, ==_refl user_id, ==_refl s.id)),
      insert_tombstones-All now user_id ss next,
    )

settled-closed : (u : UploadState) → needs_cleanup u ≡ false → is_open u ≡ false
settled-closed reserved h = cc
settled-closed uploading h = cc
settled-closed upload_unknown h = refl
settled-closed uploaded h = cc
settled-closed cleanup_pending h = refl
settled-closed cleanup_completed h = refl

request-fenced :
    (now user_id : ℕ) (ids : List ℕ) (us : List Upload)
    → All
        (λ u. (u.user_id == user_id && contains ids u.source_id && is_open u.state) ≡ false)
        (request_source_blob_upload_cleanup now user_id ids us)
unfolding request_source_blob_upload_cleanup
request-fenced now user_id ids [] = tt
request-fenced now user_id ids (u ∷ us) =
    let rest = request-fenced now user_id ids us in
    elim (Bool-cases (u.user_id == user_id && contains ids u.source_id && needs_cleanup u.state)) [
      | inl hit ↦ rw hit (ground arith, rest)
      | inr miss ↦ rw miss (ground (arith, settled-closed u.state), rest)
    ]

ids_of-filter :
    (user_id : ℕ) (ids : List ℕ) (rows : List SourceRow) (id : ℕ)
    → contains (ids_of (filter (λ s. s.user_id == user_id && contains ids s.id) rows)) id ≡ true
    → contains ids id ≡ true
unfolding contains
ids_of-filter user_id ids [] id h = cc
ids_of-filter user_id ids (s ∷ ss) id h =
    elim (Bool-cases (s.user_id == user_id && contains ids s.id)) [
      | inl kept ↦ elim (Bool-cases (s.id == id)) [
        | inl same ↦ subst (λ k. contains ids k ≡ true) (==→eq s.id id same) (ground arith)
        | inr other ↦ ids_of-filter user_id ids ss id (rw (kept, other) at h)
      ]
      | inr dropped ↦ ids_of-filter user_id ids ss id (rw dropped at h)
    ]

-- The tree has every row of the user with an id of the tree.
tree-rows :
    (user_id root : ℕ) (rows tree : List SourceRow)
    → load_and_lock_source_tree user_id root rows ≡ answered tree
    → tree
      ≡ filter
          (λ s. s.user_id == user_id && contains (find_source_tree_ids user_id root rows) s.id)
          rows
unfolding load_and_lock_source_tree
tree-rows user_id root rows tree e =
    let ids = find_source_tree_ids user_id root rows in
    let found = filter (λ s. s.user_id == user_id && contains ids s.id) rows in
    returned (λ t. t ≡ found) (load_and_lock_source_tree user_id root rows) tree
      (throw_if-Returns (λ t. t ≡ found) (not (length found == length ids)) source_not_found
        (answered found) (λ h. refl))
      e

module _ (now user_id root : ℕ) (rows tree : List SourceRow)
    (loaded : load_and_lock_source_tree user_id root rows ≡ answered tree) where
  -- A row of the user with an id of the tree is in the tree, so it is deleted.
  pub row_deleted :
      (k : SourceRow)
      → Memᴰ k rows
      → (k.user_id == user_id) ≡ true
      → contains (ids_of tree) k.id ≡ true
      → is_present k.deleted_at ≡ false
      → any (λ t. not (is_present t.deleted_at) && is_locked user_id t k) tree ≡ true
  row_deleted k m mine within live =
      let ids = find_source_tree_ids user_id root rows in
      let same = tree-rows user_id root rows tree loaded in
      let inside =
        ids_of-filter user_id ids rows k.id
          (subst (λ t. contains (ids_of t) k.id ≡ true) same within) in
      let there : Memᴰ k tree =
        subst (λ t. Memᴰ k t) (sym same)
          (filter-mem (λ s. s.user_id == user_id && contains ids s.id) rows k m
            (rw (mine, inside) refl)) in
      mem-any (λ t. not (is_present t.deleted_at) && is_locked user_id t k) tree k there
        (rw (live, mine, ==_refl k.id, ==_refl k.version) refl)

  rows_deleted :
      All
        (λ k.
          (k.user_id == user_id && contains (ids_of tree) k.id && not (is_present k.deleted_at))
          ≡ false)
        (tombstone_sources now user_id tree rows)
  rows_deleted =
      All-map
        (λ k.
          (k.user_id == user_id && contains (ids_of tree) k.id && not (is_present k.deleted_at))
          ≡ false)
        (λ s.
          if any (λ t. not (is_present t.deleted_at) && is_locked user_id t s) tree
          then erase_row now s
          else s)
        rows
        (All-from_mem
          (λ s.
            let k =
              if any (λ t. not (is_present t.deleted_at) && is_locked user_id t s) tree
              then erase_row now s
              else s in
            (k.user_id == user_id && contains (ids_of tree) k.id && not (is_present k.deleted_at))
            ≡ false)
          rows
          (λ s m.
            elim (Bool-cases
              (any (λ t. not (is_present t.deleted_at) && is_locked user_id t s) tree)) [
                | inl hit ↦ rw hit (ground arith)
                | inr miss ↦ rw miss (ground (arith, row_deleted s m, miss))
              ]))

store-IsRetired :
    (now : ℕ) (r : Request) (s : Store) (tree : List SourceRow) (p : Response)
    → load_and_lock_source_tree r.user_id r.source_id s.sources ≡ answered tree
    → IsRetired r.user_id (ids_of tree) (record_command r tree (tombstone_store now r tree s, p)).0
store-IsRetired now r s tree p loaded = record {
  erased = erase_source_read_models-IsErased r.user_id (ids_of tree) s.graph;
  deleted = rows_deleted now r.user_id r.source_id s.sources tree loaded;
  buried = insert_tombstones-All now r.user_id tree s.tombstones;
  fenced = request-fenced now r.user_id (ids_of tree) s.uploads;
}

-- When a command that is no replay is answered with a tombstoned state, every source of the tree that
-- it locked is retired.
pub apply_source_lifecycle_command-IsRetired :
    (before : List Command) (now : ℕ) (r : Request) (s s' : Store) (p : Response)
    (tree : List SourceRow)
    → apply_source_lifecycle_command before now r s ≡ answered (s', p)
    → p.replayed ≡ false
    → is_tombstoned p.state ≡ true
    → load_and_lock_source_tree r.user_id r.source_id s.sources ≡ answered tree
    → IsRetired r.user_id (ids_of tree) s'
apply_source_lifecycle_command-IsRetired before now r s s' p tree e new ended loaded =
    returned
      (λ d.
        d.1.replayed ≡ false
        → is_tombstoned d.1.state ≡ true
        → IsRetired r.user_id (ids_of tree) d.0)
      (apply_source_lifecycle_command before now r s) (s', p)
      (apply-Returns
        (λ d.
          d.1.replayed ≡ false
          → is_tombstoned d.1.state ≡ true
          → IsRetired r.user_id (ids_of tree) d.0)
        now r s before (λ c seen same new ended. cc) (λ c seen same new ended. cc)
        (λ t source d root unseen key version. record {
          on_tombstone = λ a live fresh updated f new ended.
              let same =
                tree-rows r.user_id r.source_id s.sources t d
                ∙ sym (tree-rows r.user_id r.source_id s.sources tree loaded) in
              subst
                (λ ts.
                  IsRetired r.user_id (ids_of ts)
                    (record_command r t
                      (tombstone_store now r t s, tombstone_response now r updated)).0)
                same (store-IsRetired now r s t (tombstone_response now r updated) d);
          on_restore = λ t a f h k l new ended. cc;
          on_purge = λ t a f h new ended. cc;
        }))
      e new ended

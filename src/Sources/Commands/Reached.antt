-- ===== src/Sources/Commands/Reached.antt =====
-- Runs of the lifecycle commands, between other transactions on the sources.
use assistant_memory.Prelude.{
  ◌≡◌, refl, ==→eq, ℕ, Bool, true, false, not, ◌&&◌, ◌||◌, ◌==◌, List, [], ◌∷◌, map, filter, any,
  contains, if◌then◌else◌, All, All-map, All-filter, All-impl, All-mem, arith, Bool-cases, inl, inr,
}
use assistant_memory.Erasure.Rows.Deletes.{All-from_mem}
use assistant_memory.Processing.Work.{purge_source_ingestion_operations}
use assistant_memory.Sources.Rows.{
  SourceRow, Tombstone, Request, Response, Command, Store, answered, returned, is_tombstone,
  is_present,
}
use assistant_memory.Sources.Tree.{load_and_lock_source_tree}
use assistant_memory.Sources.Actions.{
  ids_of, is_locked, erase_row, new_tombstone, insert_tombstones, finalize, tombstone_store,
  close_restored, close_purged,
}
use assistant_memory.Sources.Commands.{apply_source_lifecycle_command}
use assistant_memory.Sources.Commands.Cases.{apply-Returns}
use assistant_memory.Sources.Commands.Tombstoned.{row_deleted}

-- A row with a tombstone is deleted.
abbrev pub is_legal : List Tombstone → SourceRow → Bool
is_legal ts k = is_present k.deleted_at || not (any (is_tombstone k.user_id k.id) ts)

abbrev pub IsLegal : Store → Type 0
IsLegal s = All (λ k. is_legal s.tombstones k ≡ true) s.sources

-- A new tombstone is of a row of the tree.
insert_tombstones-only :
    (now user_id u id : ℕ) (tree : List SourceRow) (ts : List Tombstone)
    → any (is_tombstone u id) (insert_tombstones now user_id tree ts) ≡ true
    → (any (is_tombstone u id) ts || (user_id == u && contains (ids_of tree) id)) ≡ true
unfolding insert_tombstones contains
insert_tombstones-only now user_id u id [] ts h = ground arith
insert_tombstones-only now user_id u id (s ∷ ss) ts h =
    let next =
      if any (is_tombstone user_id s.id) ts then ts else new_tombstone now user_id s ∷ ts in
    ground (arith, insert_tombstones-only now user_id u id ss next h)

pub close-any :
    (close : Tombstone → Tombstone)
    → ((t : Tombstone) → (u id : ℕ) → is_tombstone u id (close t) ≡ is_tombstone u id t)
    → (user_id : ℕ) (ids : List ℕ) (u id : ℕ) (ts : List Tombstone)
    → any
        (is_tombstone u id)
        (map (λ t. if t.user_id == user_id && contains ids t.source_id then close t else t) ts)
      ≡ any (is_tombstone u id) ts
close-any close same user_id ids u id [] = refl
close-any close same user_id ids u id (t ∷ ts) =
    elim (Bool-cases (t.user_id == user_id && contains ids t.source_id)) [
      | inl hit ↦ rw (hit, same t u id, close-any close same user_id ids u id ts) refl
      | inr miss ↦ rw (miss, close-any close same user_id ids u id ts) refl
    ]

finalize-IsLegal :
    (close : Tombstone → Tombstone)
    → ((t : Tombstone) → (u id : ℕ) → is_tombstone u id (close t) ≡ is_tombstone u id t)
    → (user_id : ℕ) (ids : List ℕ) (s : Store) → IsLegal s
    → IsLegal (finalize close user_id ids s)
finalize-IsLegal close same user_id ids s h =
    let p : SourceRow → Bool = λ k. not (k.user_id == user_id && contains ids k.id) in
    All-impl {Q = λ k. is_legal (finalize close user_id ids s).tombstones k ≡ true}
      (λ k legal.
        ground (arith, close-any close same user_id ids k.user_id k.id s.tombstones, legal))
      (filter p s.sources) (All-filter (λ k. is_legal s.tombstones k ≡ true) p s.sources h)

tombstone-IsLegal :
    (now : ℕ) (r : Request) (s : Store) (tree : List SourceRow)
    → load_and_lock_source_tree r.user_id r.source_id s.sources ≡ answered tree
    → IsLegal s
    → IsLegal (tombstone_store now r tree s)
tombstone-IsLegal now r s tree loaded h =
    let ts = insert_tombstones now r.user_id tree s.tombstones in
    let hit : SourceRow → Bool =
      λ k. any (λ t. not (is_present t.deleted_at) && is_locked r.user_id t k) tree in
    All-map (λ k. is_legal ts k ≡ true) (λ k. if hit k then erase_row now k else k) s.sources
      (All-from_mem (λ k. is_legal ts (if hit k then erase_row now k else k) ≡ true) s.sources
        (λ k m. elim (Bool-cases (hit k)) [
          | inl erased ↦ rw erased (ground arith)
          | inr kept ↦ rw kept (
              ground (
                arith,
                insert_tombstones-only now r.user_id k.user_id k.id tree s.tombstones,
                All-mem (λ k. is_legal s.tombstones k ≡ true) s.sources k h m,
                ==→eq r.user_id k.user_id,
                row_deleted now r.user_id r.source_id s.sources tree loaded k m,
                kept,
              ))
        ]))

-- A command leaves every row with a tombstone deleted.
command-IsLegal :
    (before : List Command) (now : ℕ) (r : Request) (s s' : Store) (p : Response)
    → apply_source_lifecycle_command before now r s ≡ answered (s', p)
    → IsLegal s
    → IsLegal s'
command-IsLegal before now r s s' p e h =
    returned (λ d. IsLegal d.0) (apply_source_lifecycle_command before now r s) (s', p)
      (apply-Returns (λ d. IsLegal d.0) now r s before (λ c seen same. h) (λ c seen same. h)
        (λ tree source d root unseen key version. record {
          on_tombstone = λ a live fresh updated f. tombstone-IsLegal now r s tree d h;
          on_restore = λ t a f k l m.
              finalize-IsLegal (close_restored now) (λ t u id. refl) r.user_id (ids_of tree) s h;
          on_purge = λ t a f k.
              finalize-IsLegal (close_purged now) (λ t u id. refl) r.user_id (ids_of tree)
                (record s {
                  operations =
                      purge_source_ingestion_operations now r.user_id (ids_of tree) s.operations;
                })
                h;
        }))
      e

-- An edit of a source keeps its key, and a deleted source deleted.
pub record IsEdit (f : SourceRow → SourceRow) : Type 0 where
  pub same_user : (k : SourceRow) → (f k).user_id ≡ k.user_id
  pub same_id : (k : SourceRow) → (f k).id ≡ k.id
  pub stays_deleted :
      (k : SourceRow) → is_present k.deleted_at ≡ true → is_present (f k).deleted_at ≡ true

-- A command, or what another transaction does to the sources: an insertion under an id that no tombstone
-- has, an edit of the rows, or a deletion.
pub data Step : Store → Store → Type 0 where
  command :
      (before : List Command) (now : ℕ) (r : Request) (p : Response) {s t : Store}
      → apply_source_lifecycle_command before now r s ≡ answered (t, p)
      → Step s t
  insert_source :
      (k : SourceRow) {s : Store}
      → any (is_tombstone k.user_id k.id) s.tombstones ≡ false
      → Step s (record s { sources = k ∷ s.sources })
  edit_sources :
      (f : SourceRow → SourceRow) {s : Store}
      → IsEdit f
      → Step s (record s { sources = map f s.sources })
  delete_sources :
      (p : SourceRow → Bool) {s : Store} → Step s (record s { sources = filter p s.sources })

pub data Reach (s : Store) : Store → Type 0 where
  here : Reach s s
  next : {t u : Store} → Reach s t → Step t u → Reach s u

edit-legal :
    (f : SourceRow → SourceRow) (ts : List Tombstone) (k : SourceRow)
    → IsEdit f
    → is_legal ts k ≡ true
    → is_legal ts (f k) ≡ true
edit-legal f ts k e h = rw (e.same_user k, e.same_id k) (ground (arith, e.stays_deleted k))

Step-IsLegal : {s t : Store} → Step s t → IsLegal s → IsLegal t
Step-IsLegal {s} {t} (command before now r p e) h = command-IsLegal before now r s t p e h
Step-IsLegal (insert_source k fresh) h = (rw fresh (ground arith), h)
Step-IsLegal {s} (edit_sources f e) h =
    All-map (λ k. is_legal s.tombstones k ≡ true) f s.sources
      (All-impl (λ k legal. edit-legal f s.tombstones k e legal) s.sources h)
Step-IsLegal {s} (delete_sources p) h =
    All-filter (λ k. is_legal s.tombstones k ≡ true) p s.sources h

-- A source with a tombstone stays deleted through any sequence of lifecycle commands, insertions under
-- ids without a tombstone, edits that restore nothing, and deletions.
pub Reach-IsLegal : {s t : Store} → Reach s t → IsLegal s → IsLegal t
Reach-IsLegal here h = h
Reach-IsLegal (next r step) h = Step-IsLegal step (Reach-IsLegal r h)

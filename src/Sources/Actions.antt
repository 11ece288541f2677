-- ===== src/Sources/Actions.antt =====
-- `applyAction`: the tombstone, the restore and the purge of a source.
use assistant_memory.Prelude.{
  ℕ, ◌+◌, Bool, true, false, not, ◌&&◌, ◌||◌, ◌==◌, ltb, Option, none, some, List, [], ◌∷◌, map,
  filter, any, contains, if◌then◌else◌,
}
use assistant_memory.Erasure.ReadModels.{erase_source_read_models}
use assistant_memory.Processing.Work.{purge_source_ingestion_operations}
use assistant_memory.Sources.Rows.{
  Action, tombstone, restore, purge, State, tombstoned, restored, purged, CleanupState,
  not_required, cleanup_due, UploadState, upload_unknown, cleanup_pending, cleanup_completed,
  SourceRow, Tombstone, Upload, Request, Response, Store, descendant_changed, plain_error,
  state_conflict, restore_window_expired, Answer, refused, answered, throw_if, is_tombstoned,
  is_purged, is_present, is_source, is_tombstone, find_first, cascade_sources,
}

-- 30 days.
abbrev pub restore_window_ms : ℕ
restore_window_ms = 2592000000

abbrev pub is_none : Option Tombstone → Bool
is_none none = true
is_none (some t) = false

-- `restorableUntil < new Date()`.
abbrev pub is_past : ℕ → Option ℕ → Bool
is_past now none = false
is_past now (some until) = ltb until now

-- The details of `stateConflict`.
abbrev pub details : Option Tombstone → Option (State × Option ℕ)
details none = none
details (some t) = some (t.state, t.restorable_until)

abbrev pub response : Request → State → Bool → Option ℕ → Option ℕ → CleanupState → Response
response r state fresh version until cleanup = record {
  source_id = r.source_id;
  command_id = r.command_id;
  action = r.action;
  state = state;
  replayed = false;
  fresh_ingestion_required = fresh;
  source_version = version;
  restorable_until = until;
  storage_cleanup_state = cleanup;
}

-- The update of one row. The trigger `enforce_source_version` of drizzle/0028_dizzy_norrin_radd.sql
-- adds one to the version, since `deleted_at` changes.
abbrev pub erase_row : ℕ → SourceRow → SourceRow
erase_row now s = record s {
  metadata = 0;
  content_type = none;
  content_length = none;
  deleted_at = some now;
  version = s.version + 1;
}

-- The row that the update of a locked source selects.
abbrev pub is_locked : ℕ → SourceRow → SourceRow → Bool
is_locked user_id locked s = is_source user_id locked.id s && s.version == locked.version

abbrev pub tombstone_sources : ℕ → ℕ → List SourceRow → List SourceRow → List SourceRow
tombstone_sources now user_id tree rows =
    map
      (λ s.
        if any (λ t. not (is_present t.deleted_at) && is_locked user_id t s) tree
        then erase_row now s
        else s)
      rows

-- A live source of the tree whose row is not found any more.
abbrev pub has_changed : ℕ → List SourceRow → List SourceRow → Bool
has_changed user_id tree rows =
    any (λ t. not (is_present t.deleted_at) && not (any (is_locked user_id t) rows)) tree

abbrev pub needs_cleanup : UploadState → Bool
needs_cleanup cleanup_completed = false
needs_cleanup upload_unknown = false
needs_cleanup _ = true

unfoldable pub request_source_blob_upload_cleanup : ℕ → ℕ → List ℕ → List Upload → List Upload
request_source_blob_upload_cleanup now user_id ids uploads =
    map
      (λ u.
        if u.user_id == user_id && contains ids u.source_id && needs_cleanup u.state
        then record u { state = cleanup_pending; updated_at = now }
        else u)
      uploads

abbrev pub new_tombstone : ℕ → ℕ → SourceRow → Tombstone
new_tombstone now user_id s = record {
  user_id = user_id;
  source_id = s.id;
  partition_key = s.partition_key;
  state = tombstoned;
  storage_cleanup_state = cleanup_due;
  read_model_cleanup_state = not_required;
  storage_object_key = some (user_id, s.id);
  erased_at = now;
  restorable_until = some (now + restore_window_ms);
  finalized_at = none;
  updated_at = now;
}

-- `onConflictDoNothing`.
unfoldable pub insert_tombstones : ℕ → ℕ → List SourceRow → List Tombstone → List Tombstone
insert_tombstones now user_id [] ts = ts
insert_tombstones now user_id (s ∷ ss) ts =
    insert_tombstones now user_id ss
      (if any (is_tombstone user_id s.id) ts then ts else new_tombstone now user_id s ∷ ts)

abbrev pub ids_of : List SourceRow → List ℕ
ids_of ss = map (λ s. s.id) ss

abbrev pub tombstone_store : ℕ → Request → List SourceRow → Store → Store
tombstone_store now r tree s = record s {
  sources = tombstone_sources now r.user_id tree s.sources;
  tombstones = insert_tombstones now r.user_id tree s.tombstones;
  uploads = request_source_blob_upload_cleanup now r.user_id (ids_of tree) s.uploads;
  graph = erase_source_read_models r.user_id (ids_of tree) s.graph;
}

abbrev pub tombstone_response : ℕ → Request → SourceRow → Response
tombstone_response now r updated =
    response r tombstoned false (some updated.version) (some (now + restore_window_ms)) cleanup_due

abbrev pub tombstone_answer : ℕ → Request → Store → Option SourceRow → Answer (Store × Response)
tombstone_answer now r after none = refused plain_error
tombstone_answer now r after (some updated) = answered (after, tombstone_response now r updated)

unfoldable pub tombstone_action :
    ℕ → Request → SourceRow → List SourceRow → Option Tombstone → Store → Answer (Store × Response)
tombstone_action now r source tree found s =
    let after = tombstone_store now r tree s in
    throw_if (is_present source.deleted_at || not (is_none found)) (state_conflict (details found))
      (throw_if (has_changed r.user_id tree s.sources) descendant_changed
        (tombstone_answer now r after (find_first (is_source r.user_id r.source_id) after.sources)))

-- The rows of the tree go, with what hangs on them, and their tombstones are final.
abbrev pub finalize : (Tombstone → Tombstone) → ℕ → List ℕ → Store → Store
finalize close user_id ids s = record s {
  sources = filter (λ k. not (k.user_id == user_id && contains ids k.id)) s.sources;
  graph = cascade_sources ids s.graph;
  tombstones =
      map (λ t. if t.user_id == user_id && contains ids t.source_id then close t else t)
        s.tombstones;
}

abbrev pub close_restored : ℕ → Tombstone → Tombstone
close_restored now t = record t { state = restored; finalized_at = some now; updated_at = now }

abbrev pub close_purged : ℕ → Tombstone → Tombstone
close_purged now t = record t {
  state = purged;
  finalized_at = some now;
  restorable_until = none;
  updated_at = now;
}

abbrev pub restore_answer : ℕ → Request → List SourceRow → Tombstone → Store → Store × Response
restore_answer now r tree t s = (
  finalize (close_restored now) r.user_id (ids_of tree) s,
  response r restored true none t.restorable_until t.storage_cleanup_state,
)

unfoldable pub restore_action :
    ℕ → Request → List SourceRow → Tombstone → Store → Answer (Store × Response)
restore_action now r tree t s =
    throw_if (not (is_tombstoned t.state) || not (is_present t.restorable_until))
      (state_conflict (details (some t)))
      (throw_if (is_past now t.restorable_until) (restore_window_expired t.state t.restorable_until)
        (answered (restore_answer now r tree t s)))

abbrev pub purge_answer : ℕ → Request → List SourceRow → Tombstone → Store → Store × Response
purge_answer now r tree t s =
    let cleared = record s {
      operations = purge_source_ingestion_operations now r.user_id (ids_of tree) s.operations;
    } in
    (
      finalize (close_purged now) r.user_id (ids_of tree) cleared,
      response r purged false none none t.storage_cleanup_state,
    )

unfoldable pub purge_action :
    ℕ → Request → List SourceRow → Tombstone → Store → Answer (Store × Response)
purge_action now r tree t s =
    throw_if (is_purged t.state) (state_conflict (details (some t)))
      (answered (purge_answer now r tree t s))

unfoldable pub apply_action :
    ℕ
    → Request
    → Action
    → SourceRow
    → List SourceRow
    → Option Tombstone
    → Store
    → Answer (Store × Response)
apply_action now r tombstone source tree found s = tombstone_action now r source tree found s
apply_action now r restore source tree none s = refused (state_conflict none)
apply_action now r restore source tree (some t) s = restore_action now r tree t s
apply_action now r purge source tree none s = refused (state_conflict none)
apply_action now r purge source tree (some t) s = purge_action now r tree t s

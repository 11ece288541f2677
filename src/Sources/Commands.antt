-- ===== src/Sources/Commands.antt =====
-- `applySourceLifecycleCommand` and the functions that it calls.
pub mod Cases
pub mod Replay
pub mod Final
pub mod Tombstoned
pub mod Reached
use assistant_memory.Prelude.{
  ℕ, zero, suc, ◌+◌, Bool, true, false, not, ◌&&◌, ◌||◌, ◌==◌, ltb, Option, none, some, List, [],
  ◌∷◌, ◌++◌, map, filter, any, length, contains, if◌then◌else◌,
}
use assistant_memory.Erasure.Rows.{Graph}
use assistant_memory.Erasure.ReadModels.{erase_source_read_models}
use assistant_memory.Partition.Tables.{same_key}
use assistant_memory.Processing.Work.{purge_source_ingestion_operations}
use assistant_memory.Sources.Rows.{
  Action, tombstone, restore, purge, State, tombstoned, restored, purged, CleanupState,
  not_required, cleanup_due, cleanup_done, UploadState, reserved, uploading, upload_unknown,
  uploaded, cleanup_pending, cleanup_completed, SourceRow, Tombstone, Upload, Request, Command,
  Response, Store, LifecycleError, source_not_found, command_conflict, descendant_changed,
  plain_error, partition_conflict, version_conflict, state_conflict, restore_window_expired, Answer,
  refused, answered, throw_if, same_action, is_tombstoned, is_restored, is_purged, is_present,
  is_source, is_tombstone, find_first, cascade_sources,
}
use assistant_memory.Sources.Actions.{response, ids_of, apply_action}
use assistant_memory.Sources.Tree.{load_and_lock_source_tree}

unfoldable pub load_command : ℕ → ℕ → List Command → Option Command
unfolding find_first
load_command user_id command_id commands =
    find_first (λ c. c.user_id == user_id && c.command_id == command_id) commands

abbrev pub same_payload : Request → Command → Bool
same_payload r c =
    c.source_id == r.source_id
    && same_action c.action r.action
    && same_key c.expected_partition_key r.expected_partition_key
    && c.expected_source_version == r.expected_source_version

abbrev pub replay_response : Command → Response
replay_response c = record {
  source_id = c.source_id;
  command_id = c.command_id;
  action = c.action;
  state = c.state;
  replayed = true;
  fresh_ingestion_required = is_restored c.state;
  source_version = c.source_version;
  restorable_until = c.restorable_until;
  storage_cleanup_state = c.storage_cleanup_state;
}

unfoldable pub replay_command : Request → Command → Answer Response
replay_command r c =
    throw_if (not (same_payload r c)) command_conflict (answered (replay_response c))

unfoldable pub assert_expected_source : {A : Type 0} → SourceRow → Request → Answer A → Answer A
assert_expected_source s r rest =
    throw_if (not (same_key s.partition_key r.expected_partition_key))
      (partition_conflict s.partition_key s.version)
      (throw_if (not (s.version == r.expected_source_version))
        (version_conflict s.partition_key s.version) rest)

abbrev pub keys_of_tombstones : ℕ → List ℕ → List Tombstone → List (ℕ × ℕ)
keys_of_tombstones user_id ids [] = []
keys_of_tombstones user_id ids (t ∷ ts) =
    let rest = keys_of_tombstones user_id ids ts in
    if t.user_id == user_id && contains ids t.source_id
    then elim t.storage_object_key [ none ↦ rest | some key ↦ key ∷ rest ]
    else rest

unfoldable pub storage_cleanup_object_keys :
    Request → Action → List SourceRow → List Tombstone → List (ℕ × ℕ)
storage_cleanup_object_keys r tombstone tree ts = map (λ s. (r.user_id, s.id)) tree
storage_cleanup_object_keys r restore tree ts = keys_of_tombstones r.user_id (ids_of tree) ts
storage_cleanup_object_keys r purge tree ts = keys_of_tombstones r.user_id (ids_of tree) ts

-- The receipt of a command.
abbrev pub receipt : Request → Response → List (ℕ × ℕ) → Command
receipt r p keys = record {
  user_id = r.user_id;
  command_id = r.command_id;
  source_id = r.source_id;
  expected_partition_key = r.expected_partition_key;
  expected_source_version = r.expected_source_version;
  action = r.action;
  state = p.state;
  source_version = p.source_version;
  restorable_until = p.restorable_until;
  storage_cleanup_state = p.storage_cleanup_state;
  storage_object_keys = keys;
}

abbrev pub record_command : Request → List SourceRow → Store × Response → Store × Response
record_command r tree (s, p) = (
  record s {
    commands = receipt r p (storage_cleanup_object_keys r r.action tree s.tombstones) ∷ s.commands;
  },
  p,
)

abbrev pub then_record :
    Request → List SourceRow → Answer (Store × Response) → Answer (Store × Response)
then_record r tree (refused error) = refused error
then_record r tree (answered done) = answered (record_command r tree done)

abbrev pub replayed_by : Request → Command → Store → Answer Response → Answer (Store × Response)
replayed_by r c s (refused error) = refused error
replayed_by r c s (answered p) = answered (s, p)

-- The part after the tree is locked, on the root of the tree.
unfoldable pub apply_locked :
    ℕ
    → Request
    → List SourceRow
    → Option SourceRow
    → Option Command
    → Store
    → Answer (Store × Response)
apply_locked now r tree none seen s = refused source_not_found
apply_locked now r tree (some source) (some c) s = replayed_by r c s (replay_command r c)
apply_locked now r tree (some source) none s = assert_expected_source source r (
    then_record r tree (
      apply_action now r r.action source tree
        (find_first (is_tombstone r.user_id r.source_id) s.tombstones) s))

abbrev pub apply_tree : ℕ → Request → Answer (List SourceRow) → Store → Answer (Store × Response)
apply_tree now r (refused error) s = refused error
apply_tree now r (answered tree) s =
    apply_locked now r tree (find_first (λ k. k.id == r.source_id) tree)
      (load_command r.user_id r.command_id s.commands) s

abbrev pub apply_unless_seen : ℕ → Request → Option Command → Store → Answer (Store × Response)
apply_unless_seen now r (some c) s = replayed_by r c s (replay_command r c)
apply_unless_seen now r none s =
    apply_tree now r (load_and_lock_source_tree r.user_id r.source_id s.sources) s

-- `before` is the table of commands that the first read sees, before the locks are taken.
unfoldable pub apply_source_lifecycle_command :
    List Command → ℕ → Request → Store → Answer (Store × Response)
apply_source_lifecycle_command before now r s =
    apply_unless_seen now r (load_command r.user_id r.command_id before) s

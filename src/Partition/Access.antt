-- ===== src/Partition/Access.antt =====
-- Reads and writes of one partition, and the workspace scope.
pub mod Laws
use assistant_memory.Prelude.{
  ℕ, Bool, true, false, not, ◌&&◌, ◌||◌, ◌==◌, Option, none, some, List, [], ◌∷◌, if◌then◌else◌,
  is_some,
}
use assistant_memory.Partition.Tables.{
  ErrorCode, partition_required, partition_migration_required, partition_unauthorized,
  source_version_conflict, Error, partition_access_error, plain_error, Result, ok, err, ◌>>=◌, ◌>>◌,
  ensure, MigrationState, migrated, PartitionStatus, active, AccessScope, partition, workspace,
  Source, Tables, same_key, find_source,
}

abbrev pub error : ErrorCode → Error
error code = partition_access_error code none

abbrev pub is_active : Option PartitionStatus → Bool
is_active (some active) = true
is_active _ = false

abbrev pub is_migrated : Option MigrationState → Bool
is_migrated (some migrated) = true
is_migrated _ = false

-- The workspace predicate of `partitionAccessCondition` on the column's value.
abbrev pub workspace_condition : Tables → ℕ → Option ℕ → Bool
workspace_condition t user_id none = not (is_migrated (t.migration user_id))
workspace_condition t user_id (some key) = is_active (t.partitions user_id key)

-- `partitionAccessCondition`, on the value of the column.
unfoldable pub partition_access_condition : Tables → Option ℕ → ℕ → Option ℕ → AccessScope → Bool
partition_access_condition t column user_id none workspace = workspace_condition t user_id column
partition_access_condition t column user_id none partition = same_key column none
partition_access_condition t column user_id (some key) scope = same_key column (some key)

-- The part of `assertPartitionReadAllowed` for a request with a key.
abbrev pub assert_registered : Tables → ℕ → ℕ → Result (Unit {0})
assert_registered t user_id key = do
  ensure (is_some (t.migration user_id)) (error partition_migration_required)
  ensure (is_active (t.partitions user_id key)) (error partition_unauthorized)

-- `assertPartitionReadAllowed`.
unfoldable pub assert_partition_read_allowed :
    Tables → ℕ → Option ℕ → AccessScope → Result (Unit {0})
assert_partition_read_allowed t user_id none workspace = ok tt
assert_partition_read_allowed t user_id none partition =
    ensure (not (is_some (t.migration user_id))) (error partition_required)
assert_partition_read_allowed t user_id (some key) scope = assert_registered t user_id key

abbrev pub or_active : Option PartitionStatus → Option PartitionStatus
or_active none = some active
or_active (some status) = some status

-- `insert(memoryPartitions)…onConflictDoNothing`.
unfoldable pub register_partition : Tables → ℕ → ℕ → Tables
register_partition t user_id key = record t {
  partitions =
      λ u k. if u == user_id && k == key then or_active (t.partitions u k) else t.partitions u k;
}

-- `MEMORY_PERSONAL_PARTITION_KEY`, the text "memory:personal", is a number like any key.
abbrev pub memory_personal_partition_key : ℕ
memory_personal_partition_key = 0

-- `ensurePersonalPartition`.
unfoldable pub ensure_personal_partition : Tables → ℕ → Result (Tables × Option ℕ)
unfolding register_partition assert_partition_read_allowed
ensure_personal_partition t user_id =
    let t' = register_partition t user_id memory_personal_partition_key in
    let registered : Result (Tables × Option ℕ) = do
      assert_partition_read_allowed t' user_id (some memory_personal_partition_key) partition
      ok (t', some memory_personal_partition_key)
    in if is_migrated (t.migration user_id) then registered else ok (t, none)

-- `preparePartitionWrite`. An insert that is followed by an error changed
-- nothing: the row was there, and not active.
unfoldable pub prepare_partition_write : Tables → ℕ → Option ℕ → Result Tables
unfolding register_partition assert_partition_read_allowed
prepare_partition_write t user_id none = do
  ensure (not (is_some (t.migration user_id))) (error partition_required)
  ok t
prepare_partition_write t user_id (some key) = do
  ensure (is_some (t.migration user_id)) (error partition_migration_required)
  let t' = register_partition t user_id key
  assert_partition_read_allowed t' user_id (some key) partition
  ok t'

-- The rest of `resolveNodePartition`, on the node's row: its partition column, if there is a row.
unfoldable pub resolve_stored : Tables → ℕ → Option (Option ℕ) → Result (Option ℕ)
unfolding assert_partition_read_allowed
resolve_stored t user_id none = ok none
resolve_stored t user_id (some none) = ok none
resolve_stored t user_id (some (some key)) = do
  assert_partition_read_allowed t user_id (some key) partition
  ok (some key)

-- `resolveNodePartition`; the node's row is the one of the user with its id.
unfoldable pub resolve_node_partition :
    Tables → ℕ → Option (Option ℕ) → Option ℕ → AccessScope → Result (Option ℕ)
unfolding resolve_stored
resolve_node_partition t user_id stored (some key) scope = ok (some key)
resolve_node_partition t user_id stored none partition = ok none
resolve_node_partition t user_id stored none workspace = resolve_stored t user_id stored

abbrev pub expects : Option ℕ → ℕ → Bool
expects none version = true
expects (some v) version = v == version

abbrev pub assert_row : Option ℕ → Option ℕ → Option Source → Result (Unit {0})
assert_row key expected none = err plain_error
assert_row key expected (some s) = do
  ensure (same_key s.partition_key key) (error partition_unauthorized)
  ensure (expects expected s.version)
      (partition_access_error source_version_conflict (some s.version))

-- `assertSourcePartition`.
unfoldable pub assert_source_partition : Tables → ℕ → ℕ → Option ℕ → Option ℕ → Result (Unit {0})
unfolding assert_partition_read_allowed find_source
assert_source_partition t user_id source_id key expected = do
  assert_partition_read_allowed t user_id key partition
  assert_row key expected (find_source user_id source_id t.sources)

-- ===== src/Tests/Partition.antt =====
-- Tables of one user with two partitions and one source.
use assistant_memory.Prelude.{
  ◌≡◌, refl, ℕ, Option, none, some, [], ◌∷◌, if◌then◌else◌, ◌==◌, contains,
}
use mathlib.Core.List.{Memᴰ}
use assistant_memory.Partition.Tables.{
  Tables, Source, migrated, PartitionStatus, active, quarantined, pending, partition, ok,
}
use assistant_memory.Partition.Access.{
  assert_partition_read_allowed, register_partition, prepare_partition_write,
}
use assistant_memory.Partition.Access.Laws.{IsRegistered, prepare_partition_write-reads}
use assistant_memory.Partition.Fence.{
  FenceInput, Version, expect_all, lookup_expected, fence, check_locked,
  assert_source_identities_active, assert_versions, version_of,
}
use assistant_memory.Partition.Fence.Expects.{first_version}
use assistant_memory.Partition.Fence.Laws.{IsGuarded, fence-IsGuarded, fence-forgets_later_version}

abbrev pub a_source : Source
a_source = record {
  id = 7;
  user_id = 1;
  type = 2;
  external_id = 70;
  partition_key = some 4;
  version = 3;
  status = pending;
  deleted_at = none;
  ingestion_revision_hash = some 55;
  more = 0;
}

-- User 1 is migrated; its partition 4 is active and 5 is quarantined.
abbrev status_of_partition : ℕ → ℕ → Option PartitionStatus
status_of_partition user_id key =
    if user_id == 1
    then if key == 4 then some active else if key == 5 then some quarantined else none
    else none

abbrev pub tables : Tables
tables = record {
  migration = λ u. if u == 1 then some migrated else none;
  partitions = status_of_partition;
  sources = a_source ∷ [];
  source_tombstones = (1, 8) ∷ [];
  identity_tombstones = [];
}

may_read : assert_partition_read_allowed tables 1 (some 4) partition ≡ ok tt
unfolding assert_partition_read_allowed
may_read = refl

prepared : prepare_partition_write tables 1 (some 6) ≡ ok (register_partition tables 1 6)
unfolding prepare_partition_write register_partition assert_partition_read_allowed
prepared = refl

prepare_partition_write-reads_example : IsRegistered tables 1 6 (register_partition tables 1 6)
prepare_partition_write-reads_example =
    prepare_partition_write-reads tables (register_partition tables 1 6) 1 6 prepared

-- A write that saw version 3 of the source.
abbrev input : FenceInput
input = record {
  user_id = 1;
  sources = record { source_id = 7; expected_source_version = some 3 } ∷ [];
  partition_key = some (some 4);
  source_identities = [];
}

abbrev version_3 : Version
version_3 = record { source_id = 7; version = 3 }

passes : fence tables tables (λ t. ok tt) input ≡ ok (version_3 ∷ [])
unfolding fence expect_all lookup_expected check_locked assert_source_identities_active
    assert_versions version_of contains
passes = refl

first_is_3 : first_version 7 input.sources ≡ some 3
unfolding first_version
first_is_3 = refl

fence-IsGuarded_example : IsGuarded tables input 7 3
fence-IsGuarded_example =
    fence-IsGuarded tables tables (λ t. ok tt) input (version_3 ∷ [])
      record { source_id = 7; expected_source_version = some 3 } 3 3 passes (Memᴰ.head refl) refl
      first_is_3

-- The second entry names version 9, which the source never had.
fence-forgets_later_version_example :
    fence tables tables
      (λ t. ok tt)
      (record {
        user_id = 1;
        sources =
            record { source_id = 7; expected_source_version = none }
            ∷ (record { source_id = 7; expected_source_version = some 9 } ∷ []);
        partition_key = none;
        source_identities = [];
      })
    ≡ fence tables tables
        (λ t. ok tt)
        (record {
          user_id = 1;
          sources = record { source_id = 7; expected_source_version = none } ∷ [];
          partition_key = none;
          source_identities = [];
        })
fence-forgets_later_version_example =
    fence-forgets_later_version tables tables (λ t. ok tt) 1 7 9 none []

-- ===== src/Processing/Elsewhere.antt =====
-- The writes of receipts by other files: sources.ts, ingestion/source-revision.ts,
-- partition-reclassification.ts and partition-migration.ts.
use assistant_memory.Prelude.{
  ℕ, Bool, ◌&&◌, ◌==◌, Option, none, some, List, map, is_some, not, if◌then◌else◌,
}
use assistant_memory.Partition.Tables.{Source, find_source}
use assistant_memory.Processing.Receipts.{Operation}
use assistant_memory.Processing.Accept.{is_open}

abbrev pub is_receipt_of : ℕ → ℕ → Operation → Bool
is_receipt_of user_id source_id o = o.user_id == user_id && o.source_id == source_id

-- The open receipts of the user's source at its old version follow an update of its metadata.
abbrev pub follow_version : ℕ → ℕ → ℕ → ℕ → ℕ → List Operation → List Operation
follow_version now user_id source_id current updated os =
    map
      (λ o.
        if is_receipt_of user_id source_id o && o.source_version == current && is_open o.status
        then record o { source_version = updated; updated_at = now }
        else o)
      os

-- `invalidateSourceExtractionRevision`, its write of the receipts.
abbrev pub invalidate_source_extraction_revision : ℕ → ℕ → List Operation → List Operation
invalidate_source_extraction_revision user_id source_id os =
    map (λ o. if is_receipt_of user_id source_id o then record o { content_hash = none } else o) os

abbrev pub reclassified_version : ℕ → ℕ → Operation → ℕ
reclassified_version current updated o =
    if is_open o.status && o.source_version == current then updated else o.source_version

-- The receipts of one source of a reclassified tree: its partition, its new external id, and its
-- versions before and after.
abbrev pub reclassify_receipts : ℕ → ℕ → ℕ → ℕ → ℕ → ℕ → ℕ → List Operation → List Operation
reclassify_receipts now user_id source_id target_partition_key external_id current updated os =
    map
      (λ o.
        if is_receipt_of user_id source_id o
        then record o {
          partition_key = some target_partition_key;
          external_id = some external_id;
          source_version = reclassified_version current updated o;
          updated_at = now;
        }
        else o)
      os

-- The partition of a source, or that of the unassigned.
abbrev pub partition_or : ℕ → Option Source → Option ℕ
partition_or unassigned none = some unassigned
partition_or unassigned (some k) = elim k.partition_key [
  | none ↦ some unassigned
  | some key ↦ some key
]

-- A migration ends: the receipts of the user without a partition get one.
abbrev pub assign_receipts : ℕ → ℕ → ℕ → List Source → List Operation → List Operation
assign_receipts now user_id unassigned rows os =
    map
      (λ o.
        if o.user_id == user_id && not (is_some o.partition_key)
        then record o {
          partition_key = partition_or unassigned (find_source o.user_id o.source_id rows);
          updated_at = now;
        }
        else o)
      os

-- ===== src/Processing/Receipts.antt =====
-- The table of receipts (`sourceIngestionOperations`), its public view and its queries.
use assistant_memory.Prelude.{
  ℕ, Bool, true, false, not, ◌&&◌, ◌||◌, ◌==◌, ltb, Option, none, some, List, [], ◌∷◌, map, any,
  if◌then◌else◌,
}
use assistant_memory.Partition.Tables.{Tables, same_key, AccessScope}
use assistant_memory.Partition.Access.{partition_access_condition}

pub data Status : Type 0 where
  queued processing completed failed purged : Status

pub data Stage : Type 0 where
  content extraction : Stage

-- The codes that this file writes, and those that its callers pass.
pub data ReceiptError : Type 0 where
  superseded_operation source_purged processing_interrupted : ReceiptError
  reported : ℕ → ReceiptError

pub record Operation : Type 0 where
  pub operation_id : ℕ
  pub user_id : ℕ
  pub source_id : ℕ
  pub partition_key : Option ℕ
  pub external_id : Option ℕ
  pub content_hash : Option ℕ
  pub source_version : ℕ
  pub status : Status
  pub stage : Stage
  pub attempt : ℕ
  pub error_code : Option ReceiptError
  pub created_at : ℕ
  pub updated_at : ℕ
  pub completed_at : Option ℕ

pub record Store : Type 0 where
  pub tables : Tables
  pub operations : List Operation

-- `SourceProcessing`, the receipt that callers see.
pub record SourceProcessing : Type 0 where
  pub operation_id : ℕ
  pub source_id : ℕ
  pub partition_key : Option ℕ
  pub status : Status
  pub stage : Stage
  pub source_version : ℕ
  pub attempt : ℕ
  pub error_code : Option ReceiptError
  pub created_at : ℕ
  pub updated_at : ℕ
  pub completed_at : Option ℕ

-- `toSourceProcessing`.
unfoldable pub to_source_processing : Operation → SourceProcessing
to_source_processing o = record {
  operation_id = o.operation_id;
  source_id = o.source_id;
  partition_key = o.partition_key;
  status = o.status;
  stage = o.stage;
  source_version = o.source_version;
  attempt = o.attempt;
  error_code = o.error_code;
  created_at = o.created_at;
  updated_at = o.updated_at;
  completed_at = o.completed_at;
}

abbrev pub same_status : Status → Status → Bool
same_status queued queued = true
same_status processing processing = true
same_status completed completed = true
same_status failed failed = true
same_status purged purged = true
same_status _ _ = false

abbrev pub same_stage : Stage → Stage → Bool
same_stage content content = true
same_stage extraction extraction = true
same_stage _ _ = false

abbrev pub same_error : Option ReceiptError → Option ReceiptError → Bool
same_error none none = true
same_error (some superseded_operation) (some superseded_operation) = true
same_error (some source_purged) (some source_purged) = true
same_error (some processing_interrupted) (some processing_interrupted) = true
same_error (some (reported a)) (some (reported b)) = a == b
same_error _ _ = false

-- `sameProcessingSnapshot`; `sameDate` compares two optional times.
unfoldable pub same_processing_snapshot : SourceProcessing → SourceProcessing → Bool
same_processing_snapshot a b =
    a.operation_id == b.operation_id
    && a.source_id == b.source_id
    && same_key a.partition_key b.partition_key
    && same_status a.status b.status
    && same_stage a.stage b.stage
    && a.source_version == b.source_version
    && a.attempt == b.attempt
    && same_error a.error_code b.error_code
    && a.created_at == b.created_at
    && a.updated_at == b.updated_at
    && same_key a.completed_at b.completed_at

-- Whether a receipt is of the user and the source, and has the id.
abbrev pub is_receipt : ℕ → ℕ → ℕ → Operation → Bool
is_receipt user_id source_id operation_id o =
    o.user_id == user_id && o.source_id == source_id && o.operation_id == operation_id

unfoldable pub find_where : (Operation → Bool) → List Operation → Option Operation
find_where p [] = none
find_where p (o ∷ os) = if p o then some o else find_where p os

-- The newest of those found: `orderBy(desc(createdAt), desc(operationId)).limit(1)`.
abbrev pub is_newer : Operation → Operation → Bool
is_newer a b =
    ltb b.created_at a.created_at
    || (a.created_at == b.created_at && ltb b.operation_id a.operation_id)

unfoldable pub newest_where : (Operation → Bool) → List Operation → Option Operation
newest_where p [] = none
newest_where p (o ∷ os) =
    let rest = newest_where p os in
    if p o then some (elim rest [ none ↦ o | some r ↦ if is_newer r o then r else o ]) else rest

-- `isSuperseded`.
unfoldable pub is_superseded : List Operation → Operation → Bool
is_superseded os o =
    any
      (λ (n : Operation).
        n.user_id == o.user_id
        && n.source_id == o.source_id
        && not (n.operation_id == o.operation_id)
        && is_newer n o)
      os

-- `update(sourceIngestionOperations).set(…).where(eq(operationId, …))`; the id is a primary key.
unfoldable pub put_operation : Operation → List Operation → List Operation
put_operation u os = map (λ (o : Operation). if o.operation_id == u.operation_id then u else o) os

-- `getSourceIngestionOperationById`, after the assertion that the partition may be read.
unfoldable pub operation_by_id : Store → ℕ → Option ℕ → AccessScope → ℕ → Option Operation
unfolding find_where partition_access_condition
operation_by_id s user_id key scope operation_id =
    find_where
      (λ (o : Operation).
        o.user_id == user_id
        && o.operation_id == operation_id
        && partition_access_condition s.tables o.partition_key user_id key scope)
      s.operations

-- ===== src/Processing/Handled.antt =====
-- Creating, reopening, advancing and purging receipts keeps them valid.
use assistant_memory.Prelude.{
  ℕ, not, ◌==◌, Option, none, some, List, [], ◌∷◌, map, arith, Bool-cases, ◌&&◌, inl, inr, All,
  contains,
}
use assistant_memory.Partition.Tables.{
  Source, SourceStatus, ok, find_source, AccessScope, same_key, source_tombstoned,
  partition_unauthorized, partition,
}
use assistant_memory.Partition.Access.{expects, error, assert_partition_read_allowed}
use assistant_memory.Processing.Receipts.{
  Operation, Store, find_where, is_receipt, is_superseded, operation_by_id, to_source_processing,
}
use assistant_memory.Processing.Accept.{
  CreateInput, create_source_ingestion_operation, retry_source_ingestion_operation, is_open,
  is_failed, set_source_status, live_or, revision_matches, has_content, is_superseded_error,
  reopened, or_fail, new_operation, insert_operation, reuse_or_insert, reopen,
}
use assistant_memory.Processing.Work.{
  Work, write_operation, advance_source_ingestion_operation_version,
  purge_source_ingestion_operations, is_processing,
}
use assistant_memory.Processing.Invariant.{
  IsValid, reopened-IsValid, purged-IsValid, AllValid, Keeps, write-Keeps, bind-Keeps,
  set_status-AllValid, ensure-Keeps, if-Keeps,
}

created-IsValid :
    (fresh now version : ℕ) (input : CreateInput) (key : Option ℕ)
    → IsValid (new_operation fresh now input key version)
created-IsValid fresh now version input key = ground arith

insert-Keeps :
    (fresh now : ℕ) (input : CreateInput) (source : Source) (s : Store)
    → AllValid s
    → Keeps (insert_operation fresh now input source s)
insert-Keeps fresh now input source s h =
    ensure-Keeps (expects input.expected_source_version source.version) _ _ (
      bind-Keeps (set_source_status input.user_id input.source_id SourceStatus.pending s)
        (λ (p : Store × ℕ).
          let o = new_operation fresh now input source.partition_key p.1 in
          ok (record (p.0) { operations = o ∷ p.0.operations }, to_source_processing o))
        (λ p e. (
          created-IsValid fresh now p.1 input source.partition_key,
          set_status-AllValid input.user_id input.source_id _ s p e h,
        )))

reuse-Keeps :
    (fresh now : ℕ) (input : CreateInput) (source : Source) (s : Store) (o : Option Operation)
    → AllValid s
    → Keeps (reuse_or_insert fresh now input source s o)
reuse-Keeps fresh now input source s none h = insert-Keeps fresh now input source s h
reuse-Keeps fresh now input source s (some o) h = h

pub create-Keeps :
    (fresh now : ℕ) (input : CreateInput) (s : Store)
    → AllValid s
    → Keeps (create_source_ingestion_operation fresh now input s)
unfolding create_source_ingestion_operation
create-Keeps fresh now input s h =
    bind-Keeps (assert_partition_read_allowed s.tables input.user_id input.partition_key partition)
      _
      (λ u e.
        bind-Keeps
          (live_or (error source_tombstoned)
            (find_source input.user_id input.source_id s.tables.sources))
          _
          (λ source f. ensure-Keeps (same_key source.partition_key input.partition_key) _ _ (
            ensure-Keeps (revision_matches source.ingestion_revision_hash input.content_hash) _ _ (
              reuse-Keeps fresh now input source s (find_where (has_content input) s.operations)
                h))))

reopen-Keeps :
    (now user_id : ℕ) (key : Option ℕ) (o : Operation) (s : Store)
    → AllValid s
    → Keeps (reopen now user_id key o s)
reopen-Keeps now user_id key o s h =
    ensure-Keeps
      (is_failed o.status
        && not (is_superseded_error o.error_code)
        && not (is_superseded s.operations o))
      _ _
      (bind-Keeps
        (live_or (error source_tombstoned) (find_source user_id o.source_id s.tables.sources)) _
        (λ source e. ensure-Keeps (same_key source.partition_key key) _ _ (
          bind-Keeps (set_source_status user_id o.source_id SourceStatus.pending s)
            (λ (p : Store × ℕ). write_operation (reopened now p.1 o) p.0)
            (λ p f.
              write-Keeps (reopened now p.1 o) p.0 (reopened-IsValid now p.1 o)
                (set_status-AllValid user_id o.source_id _ s p f h)))))

pub retry-Keeps :
    (now user_id : ℕ) (key : Option ℕ) (scope : AccessScope) (id : ℕ) (s : Store)
    → AllValid s
    → Keeps (retry_source_ingestion_operation now user_id key scope id s)
unfolding retry_source_ingestion_operation
retry-Keeps now user_id key scope id s h =
    bind-Keeps (assert_partition_read_allowed s.tables user_id key scope) _ (λ u e.
      bind-Keeps (or_fail (error partition_unauthorized) (operation_by_id s user_id key scope id)) _
        (λ o f. if-Keeps (is_open o.status) _ _ (λ g. h) (λ g. reopen-Keeps now user_id key o s h)))

pub map-IsValid :
    (f : Operation → Operation)
    → ((o : Operation) → IsValid o → IsValid (f o))
    → (os : List Operation) → All IsValid os
    → All IsValid (map f os)
map-IsValid f keep [] h = tt
map-IsValid f keep (o ∷ os) (v, h) = (keep o v, map-IsValid f keep os h)

advanced-IsValid :
    (now version : ℕ) (o : Operation)
    → IsValid o
    → IsValid (record o { source_version = version; updated_at = now })
advanced-IsValid now version o v = ground arith

pub advance-All :
    (now : ℕ) (w : Work) (version : ℕ) (s : Store)
    → AllValid s
    → AllValid (advance_source_ingestion_operation_version now w version s)
unfolding advance_source_ingestion_operation_version
advance-All now w version s h =
    map-IsValid _
      (λ o v.
        elim (Bool-cases
          (is_receipt w.user_id w.source_id w.operation_id o && is_processing o.status)) [
            | inl hit ↦ rw hit (advanced-IsValid now version o v)
            | inr miss ↦ rw miss v
          ])
      _ h

pub purge-All :
    (now user_id : ℕ) (ids : List ℕ) (os : List Operation)
    → All IsValid os
    → All IsValid (purge_source_ingestion_operations now user_id ids os)
unfolding purge_source_ingestion_operations
purge-All now user_id ids os h =
    map-IsValid _
      (λ o v. elim (Bool-cases (o.user_id == user_id && contains ids o.source_id)) [
        | inl hit ↦ rw hit (purged-IsValid now o)
        | inr miss ↦ rw miss v
      ])
      _ h

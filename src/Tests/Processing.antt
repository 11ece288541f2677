-- ===== src/Tests/Processing.antt =====
-- A receipt from its creation to its end.
use assistant_memory.Prelude.{Option, ◌⊎◌, ◌≡◌, refl, true, none, some, List, [], ◌∷◌, contains}
use assistant_memory.Tests.Partition.{a_source, tables}
use assistant_memory.Partition.Tables.{
  partition, SourceStatus, ok, find_source, set_status, update_source_status,
}
use assistant_memory.Partition.Access.{partition_access_condition, assert_partition_read_allowed}
use assistant_memory.Partition.Fence.{
  fence, with_source_write_fence, Version, expect_all, lookup_expected, check_locked,
  assert_source_identities_active, assert_versions, version_of,
}
use assistant_memory.Processing.Receipts.{
  operation_by_id, same_processing_snapshot, Operation, Store, SourceProcessing, find_where,
  to_source_processing, is_superseded, put_operation,
}
use assistant_memory.Processing.Accept.{
  CreateInput, create_source_ingestion_operation, new_operation, set_source_status,
}
use assistant_memory.Processing.Work.{
  Work, complete, find_receipt, finished, one_source, finish_found,
  complete_source_ingestion_operation, finish_source_ingestion_operation,
}
use assistant_memory.Processing.Queue.{
  SourceProcessingQueueJob, ingest_document, job_failed, project_interrupted_source_processing,
  interrupted, IsInterrupted, project-cases, get_source_ingestion_operation_by_id,
  is_source_processing_job_for_operation,
}
use assistant_memory.Processing.Invariant.{AllValid, is_completed}
use assistant_memory.Processing.Elsewhere.{reclassify_receipts}
use assistant_memory.Processing.Lifecycle.{created, reclassified, stop, step_then, Reach-AllValid}
use assistant_memory.Processing.Reuse.{create-again}
use assistant_memory.Processing.Progress.{IsFresh, complete-only_current}

abbrev input : CreateInput
input = record {
  user_id = 1;
  partition_key = some 4;
  source_id = 7;
  external_id = 70;
  content_hash = 55;
  expected_source_version = some 3;
}

abbrev empty : Store
empty = record { tables = tables; operations = [] }

-- The source is pending, so it keeps its version.
abbrev pub receipt : Operation
receipt = new_operation 100 1000 input (some 4) 3

abbrev accepted : Store
accepted = record { tables = tables; operations = receipt ∷ [] }

creates :
    create_source_ingestion_operation 100 1000 input empty
    ≡ ok (accepted, to_source_processing receipt)
unfolding create_source_ingestion_operation assert_partition_read_allowed find_source
    set_source_status update_source_status set_status find_where
creates = refl

-- The source is then reclassified from partition 4 to 6, which moves it to version 4.
abbrev moved : Store
moved = record {
  tables = tables;
  operations = reclassify_receipts 1100 1 7 6 71 3 4 accepted.operations;
}

Reach-AllValid_example : AllValid moved
Reach-AllValid_example =
    Reach-AllValid empty moved
      (step_then empty accepted moved
        (created 100 1000 input empty (accepted, to_source_processing receipt) creates)
        (step_then accepted moved moved (reclassified tables 1100 1 7 6 71 3 4 accepted (refl, tt))
          (stop moved)))
      tt

create-again_example :
    create_source_ingestion_operation 101 2000 input accepted
    ≡ ok (accepted, to_source_processing receipt)
create-again_example =
    create-again 100 1000 101 2000 input empty (accepted, to_source_processing receipt) creates

abbrev work : Work
work = record { user_id = 1; partition_key = some 4; source_id = 7; operation_id = 100 }

finds : find_receipt work accepted ≡ ok receipt
unfolding find_receipt find_where
finds = refl

-- The completed source is at version 4.
abbrev done : Operation
done = finished 1500 complete none 4 receipt

abbrev after_work : Store
after_work = record {
  tables = record tables {
    sources = record a_source { status = SourceStatus.completed; version = 4 } ∷ [];
  };
  operations = done ∷ [];
}

completes :
    complete_source_ingestion_operation tables 1500 none (some 3) work accepted
    ≡ ok (after_work, to_source_processing done)
unfolding complete_source_ingestion_operation finish_source_ingestion_operation
    with_source_write_fence fence expect_all lookup_expected check_locked
    assert_source_identities_active assert_versions version_of contains find_receipt find_where
    finish_found is_superseded set_source_status find_source update_source_status set_status
    put_operation
completes = refl

is_done : is_completed (to_source_processing done).status ≡ true
unfolding to_source_processing
is_done = refl

complete-only_current_example :
    (versions : List Version) × (fence tables tables (λ _. ok tt) (one_source 1 none 7)
      ≡ ok versions)
    × IsFresh versions accepted (some 3) receipt
complete-only_current_example =
    complete-only_current tables 1500 none (some 3) work accepted receipt
      (after_work, to_source_processing done) finds refl completes is_done

abbrev failed_job : SourceProcessingQueueJob
failed_job = record {
  id = some 100;
  name = ingest_document;
  identity = some (record { user_id = 1; source_id = 7; operation_id = 100 });
  state = job_failed;
}

abbrev seen : SourceProcessing
seen = to_source_processing receipt

projects :
    project_interrupted_source_processing
      (some failed_job)
      accepted
      (some failed_job)
      1
      seen
      (some 4)
      partition
    ≡ ok (some (interrupted seen))
unfolding project_interrupted_source_processing get_source_ingestion_operation_by_id
    assert_partition_read_allowed operation_by_id partition_access_condition find_where
    same_processing_snapshot is_source_processing_job_for_operation to_source_processing
projects = refl

project-cases_example :
    (interrupted seen ≡ seen)
    ⊎ ((latest : Option SourceProcessing) × (get_source_ingestion_operation_by_id accepted 1
            (some 4)
            partition
            seen.operation_id
          ≡ ok latest)
        × ((latest ≡ some (interrupted seen))
            ⊎ ((l : SourceProcessing) × (latest ≡ some l)
                × IsInterrupted (some failed_job) (some failed_job) 1 seen l (interrupted seen))))
project-cases_example =
    project-cases (some failed_job) accepted (some failed_job) 1 seen (some 4) partition
      (interrupted seen) projects

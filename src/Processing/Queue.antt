-- ===== src/Processing/Queue.antt =====
-- The public view of a receipt, with the job that the queue retains for it.
--
-- The queue is outside of this code: what it shows is an argument, once for each time it is asked.
use assistant_memory.Prelude.{
  ◌≡◌, refl, sym, ℕ, Bool, true, false, ◌&&◌, ◌==◌, Option, none, some, Bool-cases, inl, inr, ◌⊎◌,
  if◌then◌else◌,
}
use mathlib.Core.Option.{some-injective}
use assistant_memory.Partition.Tables.{bind-ok, ok-injective, Result, ok, ◌>>=◌, ◌>>◌, AccessScope}
use assistant_memory.Partition.Access.{assert_partition_read_allowed}
use assistant_memory.Processing.Receipts.{
  failed, processing_interrupted, Store, SourceProcessing, to_source_processing,
  same_processing_snapshot, operation_by_id,
}
use assistant_memory.Processing.Accept.{is_open}

pub data JobName : Type 0 where
  ingest_document ingest_file other_job : JobName

pub data JobState : Type 0 where
  job_failed other_state : JobState

pub record JobIdentity : Type 0 where
  pub user_id : ℕ
  pub source_id : ℕ
  pub operation_id : ℕ

-- `identity` is what `sourceProcessingJobIdentitySchema` reads of the data, or `none`.
pub record SourceProcessingQueueJob : Type 0 where
  pub id : Option ℕ
  pub name : JobName
  pub identity : Option JobIdentity
  pub state : JobState

abbrev pub is_ingest_name : JobName → Bool
is_ingest_name other_job = false
is_ingest_name _ = true

abbrev pub is_some_id : Option ℕ → ℕ → Bool
is_some_id none n = false
is_some_id (some m) n = m == n

abbrev pub is_identity : Option JobIdentity → JobIdentity → Bool
is_identity none wanted = false
is_identity (some i) wanted =
    i.user_id == wanted.user_id
    && i.source_id == wanted.source_id
    && i.operation_id == wanted.operation_id

-- `isSourceProcessingJobForOperation`.
unfoldable pub is_source_processing_job_for_operation :
    SourceProcessingQueueJob → JobIdentity → Bool
is_source_processing_job_for_operation job input =
    is_some_id job.id input.operation_id
    && is_ingest_name job.name
    && is_identity job.identity input

abbrev pub is_failed_state : JobState → Bool
is_failed_state job_failed = true
is_failed_state other_state = false

-- A job that the queue shows, that is of the operation, and that has failed.
abbrev pub shows_failure : Option SourceProcessingQueueJob → JobIdentity → Bool
shows_failure none input = false
shows_failure (some job) input =
    is_source_processing_job_for_operation job input && is_failed_state job.state

abbrev pub identity_of : ℕ → SourceProcessing → JobIdentity
identity_of user_id o = record {
  user_id = user_id;
  source_id = o.source_id;
  operation_id = o.operation_id;
}

abbrev pub interrupted : SourceProcessing → SourceProcessing
interrupted latest = record latest { status = failed; error_code = some processing_interrupted }

-- `getSourceIngestionOperationById`.
unfoldable pub get_source_ingestion_operation_by_id :
    Store → ℕ → Option ℕ → AccessScope → ℕ → Result (Option SourceProcessing)
unfolding assert_partition_read_allowed operation_by_id
get_source_ingestion_operation_by_id s user_id key scope id = do
  assert_partition_read_allowed s.tables user_id key scope
  ok (elim (operation_by_id s user_id key scope id) [
    | none ↦ none
    | some o ↦ some (to_source_processing o)
  ])

-- The projection after the receipt is read again.
abbrev pub project_latest :
    JobIdentity
    → SourceProcessing
    → Option SourceProcessingQueueJob
    → Option SourceProcessing
    → Option SourceProcessing
project_latest job seen again none = none
project_latest job seen again (some latest) =
    if same_processing_snapshot seen latest && shows_failure again job
    then some (interrupted latest)
    else some latest

-- `projectInterruptedSourceProcessing`; the queue shows `first`, and `again` after `s` is read.
unfoldable pub project_interrupted_source_processing :
    Option SourceProcessingQueueJob
    → Store
    → Option SourceProcessingQueueJob
    → ℕ
    → SourceProcessing
    → Option ℕ
    → AccessScope
    → Result (Option SourceProcessing)
unfolding get_source_ingestion_operation_by_id
project_interrupted_source_processing first s again user_id seen key scope =
    let job = identity_of user_id seen in
    let projected : Result (Option SourceProcessing) = do
      latest ← get_source_ingestion_operation_by_id s user_id key scope seen.operation_id
      ok (project_latest job seen again latest)
    in if is_open seen.status && shows_failure first job then projected else ok (some seen)

-- Both looks at the queue show the receipt's own failed job, and the receipt did not change between.
pub record IsInterrupted (first again : Option SourceProcessingQueueJob) (user_id : ℕ)
    (seen latest r : SourceProcessing) : Type 0 where
  pub open_receipt : is_open seen.status ≡ true
  pub failed_first : shows_failure first (identity_of user_id seen) ≡ true
  pub failed_again : shows_failure again (identity_of user_id seen) ≡ true
  pub same_snapshot : same_processing_snapshot seen latest ≡ true
  pub projected : r ≡ interrupted latest

latest-cases :
    (first again : Option SourceProcessingQueueJob) (user_id : ℕ) (seen r : SourceProcessing)
    (latest : Option SourceProcessing)
    → is_open seen.status ≡ true
    → shows_failure first (identity_of user_id seen) ≡ true
    → project_latest (identity_of user_id seen) seen again latest ≡ some r
    → (latest ≡ some r)
      ⊎ ((l : SourceProcessing) × (latest ≡ some l) × IsInterrupted first again user_id seen l r)
latest-cases first again user_id seen r none o f h = cc
latest-cases first again user_id seen r (some l) o f h =
    elim (Bool-cases (same_processing_snapshot seen l)) [
      | inl same ↦ elim (Bool-cases (shows_failure again (identity_of user_id seen))) [
        | inl failing ↦ inr (
          l,
          refl,
          record {
            open_receipt = o;
            failed_first = f;
            failed_again = failing;
            same_snapshot = same;
            projected = sym (some-injective _ _ (rw (same, failing) at h));
          },
        )
        | inr fine ↦ inl (rw (same, fine) at h)
      ]
      | inr changed ↦ inl (rw changed at h)
    ]

-- What the projection shows is the receipt as it was seen, or as it is read again, or, and then the
-- receipt was open and did not change while the queue showed its own job as failed before and after,
-- the receipt as failed by an interruption.
pub project-cases :
    (first : Option SourceProcessingQueueJob) (s : Store) (again : Option SourceProcessingQueueJob)
    (user_id : ℕ) (seen : SourceProcessing) (key : Option ℕ) (scope : AccessScope)
    (r : SourceProcessing)
    → project_interrupted_source_processing first s again user_id seen key scope ≡ ok (some r)
    → (r ≡ seen)
      ⊎ ((latest : Option SourceProcessing) × (get_source_ingestion_operation_by_id s user_id key
              scope seen.operation_id
            ≡ ok latest)
          × ((latest ≡ some r)
              ⊎ ((l : SourceProcessing) × (latest ≡ some l)
                  × IsInterrupted first again user_id seen l r)))
unfolding project_interrupted_source_processing
project-cases first s again user_id seen key scope r h = elim (Bool-cases (is_open seen.status)) [
  | inl opened ↦ elim (Bool-cases (shows_failure first (identity_of user_id seen))) [
    | inl failing ↦
        let (latest, found, e) =
          bind-ok (get_source_ingestion_operation_by_id s user_id key scope seen.operation_id) _
            (some r) (rw (opened, failing) at h) in
        inr (
          latest,
          found,
          latest-cases first again user_id seen r latest opened failing (ok-injective e),
        )
    | inr fine ↦ inl (sym (some-injective _ _ (ok-injective (rw (opened, fine) at h))))
  ]
  | inr closed ↦ inl (sym (some-injective _ _ (ok-injective (rw closed at h))))
]

-- ===== src/Processing/Lifecycle.antt =====
-- Runs of transactions that write receipts.
use assistant_memory.Prelude.{Bool, false, ◌≡◌, subst, ℕ, Option, List, ◌&&◌, All}
use assistant_memory.Partition.Tables.{Tables, ok, AccessScope}
use assistant_memory.Processing.Receipts.{Stage, Store, SourceProcessing}
use assistant_memory.Processing.Accept.{
  CreateInput, create_source_ingestion_operation, retry_source_ingestion_operation,
}
use assistant_memory.Processing.Work.{
  Work, Outcome, Finish, mark_source_ingestion_processing, mark_source_ingestion_extraction_started,
  finish_source_ingestion_operation, advance_source_ingestion_operation_version,
  purge_source_ingestion_operations,
}
use assistant_memory.Processing.Invariant.{AllValid, Keeps}
use assistant_memory.Processing.Keeps.{mark_processing-Keeps, mark_extraction-Keeps, finish-Keeps}
use assistant_memory.Processing.Elsewhere.{
  is_receipt_of, follow_version, invalidate_source_extraction_revision, reclassify_receipts,
  assign_receipts,
}
use assistant_memory.Processing.Invariant.{is_purged}
use assistant_memory.Processing.Handled.{create-Keeps, retry-Keeps, advance-All, purge-All}
use assistant_memory.Processing.Others.{
  put-All, follow-All, invalidate-All, reclassify-All, assign-All, with_uploads, receipts_of,
}
use assistant_memory.Sources.Rows.{Upload}
use assistant_memory.Sources.Uploads.{Blobs}
use assistant_memory.Sources.Uploads.Put.{Put, PutEnd, put_source_blob_with_fence}

-- One transaction on the store: a handler that returns, a write of the receipts by another file, with
-- any tables after it, or a transaction that writes no receipt.
pub data Step : Store → Store → Type 0 where
  created :
      (fresh now : ℕ) (input : CreateInput) (s : Store) (p : Store × SourceProcessing)
      → create_source_ingestion_operation fresh now input s ≡ ok p
      → Step s p.0
  retried :
      (now user_id : ℕ) (key : Option ℕ) (scope : AccessScope) (id : ℕ) (s : Store)
      (p : Store × SourceProcessing)
      → retry_source_ingestion_operation now user_id key scope id s ≡ ok p
      → Step s p.0
  started :
      (before : Tables) (now : ℕ) (w : Work) (s : Store) (p : Store × SourceProcessing)
      → mark_source_ingestion_processing before now w s ≡ ok p
      → Step s p.0
  extracting :
      (before : Tables) (now : ℕ) (w : Work) (s : Store) (p : Store × SourceProcessing)
      → mark_source_ingestion_extraction_started before now w s ≡ ok p
      → Step s p.0
  advanced :
      (now : ℕ) (w : Work) (version : ℕ) (s : Store)
      → Step s (advance_source_ingestion_operation_version now w version s)
  ended :
      (before : Tables) (now : ℕ) (f : Finish) (stage : Option Stage) (expected : Option ℕ)
      (w : Work) (s : Store) (p : Store × SourceProcessing)
      → finish_source_ingestion_operation before now f stage expected w s ≡ ok p
      → Step s p.0
  cleared :
      (now user_id : ℕ) (ids : List ℕ) (s : Store)
      → Step s
          (record s { operations = purge_source_ingestion_operations now user_id ids s.operations })
  uploaded :
      (now : ℕ) (p : Put) (end : PutEnd) (us : List Upload) (s : Store) (b : Blobs) (settled : Bool)
      → put_source_blob_with_fence now p end (with_uploads us s) ≡ ok (b, settled)
      → Step s (receipts_of b)
  followed :
      (t : Tables) (now user_id source_id current updated : ℕ) (s : Store)
      → Step s (record {
        tables = t;
        operations = follow_version now user_id source_id current updated s.operations;
      })
  invalidated :
      (t : Tables) (user_id source_id : ℕ) (s : Store)
      → Step s (record {
        tables = t;
        operations = invalidate_source_extraction_revision user_id source_id s.operations;
      })
  reclassified :
      (t : Tables) (now user_id source_id target external_id current updated : ℕ) (s : Store)
      → All (λ o. (is_receipt_of user_id source_id o && is_purged o.status) ≡ false) s.operations
      → Step s (record {
        tables = t;
        operations =
            reclassify_receipts now user_id source_id target external_id current updated
              s.operations;
      })
  assigned :
      (t : Tables) (now user_id unassigned : ℕ) (s : Store)
      → Step s (record {
        tables = t;
        operations = assign_receipts now user_id unassigned s.tables.sources s.operations;
      })
  elsewhere : (t : Tables) (s : Store) → Step s (record s { tables = t })

-- Any number of these transactions: the handlers of source-processing.ts that write receipts, the
-- upload of bytes, an update of metadata, a replaced revision, a reclassification of a source, the end
-- of a migration, and transactions that write no receipt.
pub data Reach : Store → Store → Type 0 where
  stop : (s : Store) → Reach s s
  step_then : (s s' s'' : Store) → Step s s' → Reach s' s'' → Reach s s''

kept : (m : Outcome) (p : Store × SourceProcessing) → Keeps m → m ≡ ok p → AllValid p.0
kept m p k e = subst Keeps e k

Step-AllValid : (s s' : Store) → Step s s' → AllValid s → AllValid s'
Step-AllValid s s' (created fresh now input _ p e) h = kept _ p (create-Keeps fresh now input s h) e
Step-AllValid s s' (retried now user_id key scope id _ p e) h =
    kept _ p (retry-Keeps now user_id key scope id s h) e
Step-AllValid s s' (started before now w _ p e) h =
    kept _ p (mark_processing-Keeps before now w s h) e
Step-AllValid s s' (extracting before now w _ p e) h =
    kept _ p (mark_extraction-Keeps before now w s h) e
Step-AllValid s s' (advanced now w version _) h = advance-All now w version s h
Step-AllValid s s' (ended before now f stage expected w _ p e) h =
    kept _ p (finish-Keeps before now f stage expected w s h) e
Step-AllValid s s' (cleared now user_id ids _) h = purge-All now user_id ids s.operations h
Step-AllValid s s' (uploaded now p end us _ b settled e) h = put-All now p end us s b settled e h
Step-AllValid s s' (followed t now user_id source_id current updated _) h =
    follow-All now user_id source_id current updated s.operations h
Step-AllValid s s' (invalidated t user_id source_id _) h =
    invalidate-All user_id source_id s.operations h
Step-AllValid s s' (reclassified t now user_id source_id target external_id current updated _ live)
      h =
    reclassify-All now user_id source_id target external_id current updated s.operations live h
Step-AllValid s s' (assigned t now user_id unassigned _) h =
    assign-All now user_id unassigned s.tables.sources s.operations h
Step-AllValid s s' (elsewhere t _) h = h

-- Whatever of these transactions run, and in whatever order, if every reclassification is of a source
-- none of whose receipts is purged: every receipt stays valid if all were. An open one has no error and
-- no end, a closed one has an end, a completed one has no error and a failed one has one, and a purged
-- one has neither its external id nor its content hash, and says so.
pub Reach-AllValid : (s s' : Store) → Reach s s' → AllValid s → AllValid s'
Reach-AllValid s s' (stop _) h = h
Reach-AllValid s s' (step_then _ s1 _ step more) h =
    Reach-AllValid s1 s' more (Step-AllValid s s1 step h)

-- ===== src/Processing/Keeps.antt =====
-- The handlers of the worker and the validity of receipts.
use assistant_memory.Prelude.{
  ◌≡◌, subst, ℕ, true, not, Option, List, Bool-cases, Option-cases, inl, inr, is_some,
}
use assistant_memory.Partition.Tables.{
  ok-injective, Tables, Source, SourceStatus, is_status, plain_error, ok, ◌>>=◌, find_source,
}
use assistant_memory.Partition.Fence.{
  FenceInput, Version, version_of, fence, with_source_write_fence,
}
use assistant_memory.Processing.Receipts.{Stage, Operation, Store, find_where, is_receipt}
use assistant_memory.Processing.Accept.{is_open, set_source_status, or_fail}
use assistant_memory.Processing.Work.{
  Work, Outcome, may_go_on, Finish, write_operation, overtaken, begun, finished, mark_source, begin,
  begin_found, extract_found, finish_found, close, result_is_current, source_finish_status,
  find_receipt, mark_source_ingestion_processing, mark_source_ingestion_extraction_started,
  finish_source_ingestion_operation, is_processing,
}
use assistant_memory.Processing.Invariant.{
  IsValid, overtaken-IsValid, begun-IsValid, staged-IsValid, finished-IsValid, find-All, AllValid,
  Keeps, write-Keeps, bind-Keeps, set_status-AllValid, ensure-Keeps, if-Keeps, not-false,
}

mark_source-Keeps :
    (user_id source_id : ℕ) (s : Store) (row : Source) (p : Store × ℕ)
    → AllValid s
    → mark_source user_id source_id s row ≡ ok p
    → AllValid p.0
mark_source-Keeps user_id source_id s row p h e =
    elim (Bool-cases (is_status row.status SourceStatus.processing)) [
      | inl marked ↦ subst (λ (q : Store × ℕ). AllValid q.0) (ok-injective (rw marked at e)) h
      | inr unmarked ↦ set_status-AllValid user_id source_id _ s p (rw unmarked at e) h
    ]

begin-Keeps :
    (now : ℕ) (w : Work) (o : Operation) (s : Store)
    → AllValid s
    → is_open o.status ≡ true
    → IsValid o
    → Keeps (begin now w o s)
begin-Keeps now w o s h open_now v =
    bind-Keeps (or_fail plain_error (find_source w.user_id w.source_id s.tables.sources)) _
      (λ row e. bind-Keeps (mark_source w.user_id w.source_id s row) _ (λ p f.
        write-Keeps (begun now p.1 o) p.0 (begun-IsValid now p.1 o open_now v)
          (mark_source-Keeps w.user_id w.source_id s row p h f)))

begin_found-Keeps :
    (now : ℕ) (w : Work) (versions : List Version) (s : Store) (o : Operation)
    → AllValid s
    → IsValid o
    → Keeps (begin_found now w versions s o)
unfolding begin_found
begin_found-Keeps now w versions s o h v =
    if-Keeps (not (is_open o.status)) _ _ (λ e. h)
      (λ e.
        if-Keeps (not (is_some (version_of o.source_id versions))) _ _ (λ f. tt)
          (λ f.
            if-Keeps (may_go_on versions s o) _ _ (λ g. begin-Keeps now w o s h (not-false _ e) v)
              (λ g. write-Keeps (overtaken now o) s (overtaken-IsValid now o) h)))

extract_found-Keeps :
    (now : ℕ) (versions : List Version) (s : Store) (o : Operation)
    → AllValid s
    → IsValid o
    → Keeps (extract_found now versions s o)
unfolding extract_found
extract_found-Keeps now versions s o h v =
    if-Keeps (not (is_open o.status)) _ _ (λ e. h)
      (λ e.
        if-Keeps (not (may_go_on versions s o)) _ _
          (λ f. write-Keeps (overtaken now o) s (overtaken-IsValid now o) h)
          (λ f.
            if-Keeps (is_processing o.status) _ _ (λ g. write-Keeps _ s (staged-IsValid now o v) h)
              (λ g. h)))

close-Keeps :
    (now : ℕ) (f : Finish) (stage : Option Stage) (expected : Option ℕ) (w : Work)
    (versions : List Version) (o : Operation) (s : Store)
    → AllValid s
    → is_open o.status ≡ true
    → IsValid o
    → Keeps (close now f stage expected w versions o s)
close-Keeps now f stage expected w versions o s h open_now v =
    ensure-Keeps (result_is_current f expected (version_of o.source_id versions)) _ _ (
      bind-Keeps (set_source_status w.user_id w.source_id (source_finish_status f) s)
        (λ (p : Store × ℕ). write_operation (finished now f stage p.1 o) p.0)
        (λ p g.
          write-Keeps (finished now f stage p.1 o) p.0
            (finished-IsValid now p.1 f stage o open_now v)
            (set_status-AllValid w.user_id w.source_id _ s p g h)))

finish_found-Keeps :
    (now : ℕ) (f : Finish) (stage : Option Stage) (expected : Option ℕ) (w : Work)
    (versions : List Version) (s : Store) (o : Operation)
    → AllValid s
    → IsValid o
    → Keeps (finish_found now f stage expected w versions s o)
unfolding finish_found
finish_found-Keeps now f stage expected w versions s o h v =
    if-Keeps (not (is_open o.status)) _ _ (λ e. h)
      (λ e.
        if-Keeps (may_go_on versions s o) _ _
          (λ g. close-Keeps now f stage expected w versions o s h (not-false _ e) v)
          (λ g. write-Keeps (overtaken now o) s (overtaken-IsValid now o) h))

receipt-IsValid :
    (w : Work) (s : Store) (o : Operation) → AllValid s → find_receipt w s ≡ ok o → IsValid o
unfolding find_receipt
receipt-IsValid w s o h e =
    elim (Option-cases
      (find_where (is_receipt w.user_id w.source_id w.operation_id) s.operations)) [
        | inl missing ↦ cc (rw missing at e)
        | inr (x, found) ↦
            subst IsValid (ok-injective (rw found at e)) (find-All IsValid _ s.operations x found h)
      ]

fenced-Keeps :
    (before : Tables) (w : Work) (input : FenceInput) (s : Store)
    (body : List Version → Operation → Outcome)
    → AllValid s
    → ((versions : List Version) (o : Operation) → IsValid o → Keeps (body versions o))
    → Keeps (
        with_source_write_fence before s.tables
          (λ _. ok tt)
          input
          (λ t versions. find_receipt w s >>= body versions))
unfolding with_source_write_fence
fenced-Keeps before w input s body h k =
    bind-Keeps (fence before s.tables (λ _. ok tt) input) _ (λ versions e.
      bind-Keeps (find_receipt w s) _ (λ o f. k versions o (receipt-IsValid w s o h f)))

-- Starting a receipt keeps all receipts valid.
pub mark_processing-Keeps :
    (before : Tables) (now : ℕ) (w : Work) (s : Store)
    → AllValid s
    → Keeps (mark_source_ingestion_processing before now w s)
unfolding mark_source_ingestion_processing
mark_processing-Keeps before now w s h =
    fenced-Keeps before w _ s _ h (λ versions o v. begin_found-Keeps now w versions s o h v)

pub mark_extraction-Keeps :
    (before : Tables) (now : ℕ) (w : Work) (s : Store)
    → AllValid s
    → Keeps (mark_source_ingestion_extraction_started before now w s)
unfolding mark_source_ingestion_extraction_started
mark_extraction-Keeps before now w s h =
    fenced-Keeps before w _ s _ h (λ versions o v. extract_found-Keeps now versions s o h v)

pub finish-Keeps :
    (before : Tables) (now : ℕ) (f : Finish) (stage : Option Stage) (expected : Option ℕ) (w : Work)
    (s : Store)
    → AllValid s
    → Keeps (finish_source_ingestion_operation before now f stage expected w s)
unfolding finish_source_ingestion_operation
finish-Keeps before now f stage expected w s h =
    fenced-Keeps before w _ s _ h
      (λ versions o v. finish_found-Keeps now f stage expected w versions s o h v)

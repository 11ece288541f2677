-- ===== src/Processing/Progress.antt =====
-- When a report of success completes a receipt.
use assistant_memory.Partition.Tables.{bind-ok, ensure-ok, ok-injective, Tables, ok}
use assistant_memory.Prelude.{
  ◌≡◌, sym, ap, ◌∙◌, ℕ, true, false, ◌==◌, Option, none, some, List, arith, Bool-cases,
  Option-cases, inl, inr, ==→eq,
}
use mathlib.Core.Option.{some-injective}
use assistant_memory.Partition.Fence.{Version, version_of, fence, with_source_write_fence}
use assistant_memory.Processing.Receipts.{
  Operation, Store, SourceProcessing, Stage, is_superseded, to_source_processing,
}
use assistant_memory.Processing.Accept.{is_open}
use assistant_memory.Processing.Work.{
  Work, may_go_on, complete, find_receipt, finish_found, close, result_is_current, one_source,
  finish_source_ingestion_operation, complete_source_ingestion_operation, write_operation,
  overtaken,
}
use assistant_memory.Processing.Invariant.{is_completed}

-- The source stands at the receipt's version, which is the one that the result was made from, and no
-- receipt is newer.
pub record IsFresh (versions : List Version) (s : Store) (expected : Option ℕ) (o : Operation)
    : Type 0 where
  pub current : version_of o.source_id versions ≡ some o.source_version
  pub newest : is_superseded s.operations o ≡ false
  pub proved : (v : ℕ) → expected ≡ some v → v ≡ o.source_version

may_go_on-fresh :
    (versions : List Version) (s : Store) (o : Operation)
    → may_go_on versions s o ≡ true
    → (version_of o.source_id versions ≡ some o.source_version)
      × (is_superseded s.operations o ≡ false)
may_go_on-fresh versions s o h = elim (Option-cases (version_of o.source_id versions)) [
  | inl missing ↦ absurd (ground arith)
  | inr (v, found) ↦ ground arith
]

-- A success whose expected version is the current one was made from it.
success-proved :
    (versions : List Version) (o : Operation) (expected : Option ℕ) (v : ℕ)
    → version_of o.source_id versions ≡ some o.source_version
    → result_is_current complete expected (version_of o.source_id versions) ≡ true
    → expected ≡ some v
    → v ≡ o.source_version
success-proved versions o none v current good e = cc
success-proved versions o (some u) v current good e =
    let same = some-injective _ _ e in
    let good' : (o.source_version == u) ≡ true = rw current at good in
    sym same ∙ sym (==→eq _ _ good')

finish_found-IsFresh :
    (now : ℕ) (stage : Option Stage) (expected : Option ℕ) (w : Work) (versions : List Version)
    (s : Store) (o : Operation) (p : Store × SourceProcessing)
    → is_open o.status ≡ true
    → finish_found now complete stage expected w versions s o ≡ ok p
    → is_completed p.1.status ≡ true
    → IsFresh versions s expected o
unfolding finish_found to_source_processing
finish_found-IsFresh now stage expected w versions s o p open_now h done =
    elim (Bool-cases (may_go_on versions s o)) [
      | inl on ↦
          let closed : close now complete stage expected w versions o s ≡ ok p =
            rw (open_now, on) at h in
          let (current, newest) = may_go_on-fresh versions s o on in
          let (good, e) =
            ensure-ok (result_is_current complete expected (version_of o.source_id versions)) _ _ p
              closed in
          record {
            current = current;
            newest = newest;
            proved = λ v same. success-proved versions o expected v current good same;
          }
      | inr off ↦
          let gone : write_operation (overtaken now o) s ≡ ok p = rw (open_now, off) at h in
          let failed_now : is_completed p.1.status ≡ false =
            ap (λ (q : Store × SourceProcessing). is_completed q.1.status)
              (sym (ok-injective gone)) in
          absurd (cc)
    ]

-- A worker that reports success completes an open receipt only if the source, under the lock, stands
-- at the receipt's version and at the version that the result was made from, if one is named, and no
-- newer receipt exists for the source.
pub complete-only_current :
    (before : Tables) (now : ℕ) (stage : Option Stage) (expected : Option ℕ) (w : Work) (s : Store)
    (o : Operation) (p : Store × SourceProcessing)
    → find_receipt w s ≡ ok o
    → is_open o.status ≡ true
    → complete_source_ingestion_operation before now stage expected w s ≡ ok p
    → is_completed p.1.status ≡ true
    → (versions : List Version) × (fence before s.tables
          (λ _. ok tt)
          (one_source w.user_id none w.source_id)
        ≡ ok versions)
      × IsFresh versions s expected o
unfolding complete_source_ingestion_operation finish_source_ingestion_operation
    with_source_write_fence
complete-only_current before now stage expected w s o p found open_now h done =
    let (versions, passed, h1) =
      bind-ok (fence before s.tables (λ _. ok tt) (one_source w.user_id none w.source_id)) _ p h in
    let h2 : finish_found now complete stage expected w versions s o ≡ ok p = rw found at h1 in
    (versions, passed, finish_found-IsFresh now stage expected w versions s o p open_now h2 done)

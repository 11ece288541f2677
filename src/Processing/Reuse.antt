-- ===== src/Processing/Reuse.antt =====
-- Creating a receipt twice.
use assistant_memory.Prelude.{
  ◌≡◌, refl, ap, ◌∙◌, subst, ℕ, true, false, ◌==◌, ==_refl, Option, none, some, List, [], ◌∷◌,
  arith, Bool-cases, inl, inr, is_some, ◌&&◌,
}
use assistant_memory.Partition.Tables.{
  bind-ok, ensure-ok, ok-injective, Tables, Source, SourceStatus, pending, Error, ok, find_source,
  set_status, update_source_status, same_key, partition, plain_error, source_tombstoned,
}
use assistant_memory.Partition.Access.{error, expects, assert_partition_read_allowed}
use assistant_memory.Processing.Receipts.{
  Operation, Store, SourceProcessing, find_where, to_source_processing,
}
use assistant_memory.Processing.Accept.{
  CreateInput, create_source_ingestion_operation, set_source_status, live_or, or_fail,
  revision_matches, has_content, reuse_or_insert, new_operation,
}

-- What creation asks of the store before it looks for a receipt.
record Accepts (input : CreateInput) (s : Store) (source : Source) : Type 0 where
  allowed :
      assert_partition_read_allowed s.tables input.user_id input.partition_key partition ≡ ok tt
  found : find_source input.user_id input.source_id s.tables.sources ≡ some source
  alive : is_some source.deleted_at ≡ false
  same_partition : same_key source.partition_key input.partition_key ≡ true
  same_revision : revision_matches source.ingestion_revision_hash input.content_hash ≡ true

accepted :
    (fresh now : ℕ) (input : CreateInput) (s : Store) (source : Source)
    → Accepts input s source
    → create_source_ingestion_operation fresh now input s
      ≡ reuse_or_insert fresh now input source s (find_where (has_content input) s.operations)
unfolding create_source_ingestion_operation
accepted fresh now input s source a =
    rw (a.allowed, a.found, a.alive, a.same_partition, a.same_revision)

live_or-ok :
    (e : Error) (o : Option Source) (s : Source)
    → live_or e o ≡ ok s
    → (o ≡ some s) × (is_some s.deleted_at ≡ false)
live_or-ok e none s h = absurd (ground arith)
live_or-ok e (some x) s h = elim (Bool-cases (is_some x.deleted_at)) [
  | inl dead ↦ absurd (ground arith)
  | inr alive ↦ ground arith
]

create-inversion :
    (fresh now : ℕ) (input : CreateInput) (s : Store) (p : Store × SourceProcessing)
    → create_source_ingestion_operation fresh now input s ≡ ok p
    → (source : Source) × Accepts input s source
      × (reuse_or_insert fresh now input source s (find_where (has_content input) s.operations)
          ≡ ok p)
unfolding create_source_ingestion_operation
create-inversion fresh now input s p h =
    let (u, allowed, h1) =
      bind-ok (assert_partition_read_allowed s.tables input.user_id input.partition_key partition) _
        p h in
    let (source, found, h2) =
      bind-ok
        (live_or (error source_tombstoned)
          (find_source input.user_id input.source_id s.tables.sources))
        _ p h1 in
    let (known, alive) = live_or-ok (error source_tombstoned) _ source found in
    let (same, h3) = ensure-ok (same_key source.partition_key input.partition_key) _ _ p h2 in
    let (revision, h4) =
      ensure-ok (revision_matches source.ingestion_revision_hash input.content_hash) _ _ p h3 in
    (
      source,
      (record {
        allowed = allowed;
        found = known;
        alive = alive;
        same_partition = same;
        same_revision = revision;
      }),
      h4,
    )

pub find-updated :
    (user_id id : ℕ) (status : SourceStatus) (ss : List Source) (r : Source)
    → find_source user_id id ss ≡ some r
    → find_source user_id id (update_source_status user_id id status ss)
      ≡ some (set_status status r)
unfolding find_source update_source_status
find-updated user_id id status [] r h = cc
find-updated user_id id status (s ∷ ss) r h =
    elim (Bool-cases (s.user_id == user_id && s.id == id)) [
      | inl hit ↦ ground arith
      | inr miss ↦ rw (miss, miss) (find-updated user_id id status ss r (rw miss at h))
    ]

set_status-row :
    (user_id id : ℕ) (status : SourceStatus) (s : Store) (source : Source) (p : Store × ℕ)
    → find_source user_id id s.tables.sources ≡ some source
    → set_source_status user_id id status s ≡ ok p
    → find_source user_id id p.0.tables.sources ≡ some (set_status status source)
unfolding set_source_status
set_status-row user_id id status s source p found h =
    ground (arith, find-updated user_id id status s.tables.sources source found)

set_status-state :
    (user_id id : ℕ) (status : SourceStatus) (s : Store) (p : Store × ℕ)
    → set_source_status user_id id status s ≡ ok p
    → record s {
      tables = record (s.tables) {
        sources = update_source_status user_id id status s.tables.sources;
      };
    }
      ≡ p.0
unfolding set_source_status
set_status-state user_id id status s p h =
    let (row, found, e) =
      bind-ok
        (or_fail plain_error
          (find_source user_id id (update_source_status user_id id status s.tables.sources)))
        _ p h in
    ap (λ (q : Store × ℕ). q.0) (ok-injective e)

status-allowed :
    (t : Tables) (sources : List Source) (user_id : ℕ) (key : Option ℕ)
    → assert_partition_read_allowed t user_id key partition ≡ ok tt
    → assert_partition_read_allowed (record t { sources = sources }) user_id key partition ≡ ok tt
unfolding assert_partition_read_allowed
status-allowed t sources user_id none h = h
status-allowed t sources user_id (some key) h = h

-- Of two rows, what does not change with the status.
set_status-Accepts :
    (input : CreateInput) (s : Store) (source : Source) (p : Store × ℕ)
    → Accepts input s source
    → set_source_status input.user_id input.source_id pending s ≡ ok p
    → Accepts input p.0 (set_status pending source)
unfolding set_source_status set_status
set_status-Accepts input s source p a h = record {
  allowed =
      subst
        (λ (s' : Store).
          assert_partition_read_allowed s'.tables input.user_id input.partition_key partition
          ≡ ok tt)
        (set_status-state input.user_id input.source_id pending s p h)
        (status-allowed s.tables _ input.user_id input.partition_key a.allowed);
  found = set_status-row input.user_id input.source_id pending s source p a.found h;
  alive = ground (arith, a.alive);
  same_partition = ground (arith, a.same_partition);
  same_revision = ground (arith, a.same_revision);
}

has_content-new :
    (fresh now : ℕ) (input : CreateInput) (key : Option ℕ) (version : ℕ)
    → has_content input (new_operation fresh now input key version) ≡ true
has_content-new fresh now input key version =
    rw (==_refl input.user_id, ==_refl input.source_id, ==_refl input.content_hash)

-- The receipt just inserted is the first that has the content.
inserted :
    (fresh now fresh' now' : ℕ) (input : CreateInput) (source : Source) (s : Store) (key : Option ℕ)
    (version : ℕ)
    → Accepts input s source
    → create_source_ingestion_operation fresh' now' input
        (record s { operations = new_operation fresh now input key version ∷ s.operations })
      ≡ ok (
        record s { operations = new_operation fresh now input key version ∷ s.operations },
        to_source_processing (new_operation fresh now input key version),
      )
unfolding find_where
inserted fresh now fresh' now' input source s key version a =
    let o = new_operation fresh now input key version in
    let s' : Store = record s { operations = o ∷ s.operations } in
    let a' : Accepts input s' source = record {
      allowed = a.allowed;
      found = a.found;
      alive = a.alive;
      same_partition = a.same_partition;
      same_revision = a.same_revision;
    } in
    accepted fresh' now' input s' source a' ∙ rw (has_content-new fresh now input key version)

reuse-again :
    (fresh now fresh' now' : ℕ) (input : CreateInput) (source : Source) (s : Store)
    (o : Option Operation) (p : Store × SourceProcessing)
    → Accepts input s source
    → find_where (has_content input) s.operations ≡ o
    → reuse_or_insert fresh now input source s o ≡ ok p
    → create_source_ingestion_operation fresh' now' input p.0 ≡ ok p
reuse-again fresh now fresh' now' input source s none p a e h =
    let (expected, h1) = ensure-ok (expects input.expected_source_version source.version) _ _ p h in
    let (q, marked, h2) =
      bind-ok (set_source_status input.user_id input.source_id pending s) _ p h1 in
    subst
      (λ (q : Store × SourceProcessing).
        create_source_ingestion_operation fresh' now' input q.0 ≡ ok q)
      (ok-injective h2)
      (inserted fresh now fresh' now' input (set_status pending source) q.0 source.partition_key q.1
        (set_status-Accepts input s source q a marked))
reuse-again fresh now fresh' now' input source s (some o) p a e h =
    subst
      (λ (q : Store × SourceProcessing).
        create_source_ingestion_operation fresh' now' input q.0 ≡ ok q)
      (ok-injective h) (accepted fresh' now' input s source a ∙ rw e)

-- Creating a receipt is idempotent: once a call has returned, the same call made again, whenever it
-- is made and whatever id it draws, returns the same receipt and changes nothing.
pub create-again :
    (fresh now fresh' now' : ℕ) (input : CreateInput) (s : Store) (p : Store × SourceProcessing)
    → create_source_ingestion_operation fresh now input s ≡ ok p
    → create_source_ingestion_operation fresh' now' input p.0 ≡ ok p
create-again fresh now fresh' now' input s p h =
    let (source, a, e) = create-inversion fresh now input s p h in
    reuse-again fresh now fresh' now' input source s _ p a refl e

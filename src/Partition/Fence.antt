-- ===== src/Partition/Fence.antt =====
-- The fence that serialises source-derived writes with the erasure of their sources.
--
-- One run is one transaction that holds its locks: `before` is what it reads of the sources before
-- it locks them, and `t` is what it reads and writes under the locks. The order in which gates and
-- rows are locked decides no result, and is left out.
pub mod Expects
pub mod Laws
use assistant_memory.Prelude.{
  ℕ, Bool, true, false, not, ◌&&◌, ◌||◌, ◌==◌, Option, none, some, List, [], ◌∷◌, ◌++◌, map,
  if◌then◌else◌, is_some, any, filter, length, contains, distinct,
}
use assistant_memory.Partition.Tables.{
  ErrorCode, source_version_conflict, source_identity_retired, source_tombstoned,
  partition_unauthorized, Error, partition_access_error, Result, ok, err, ◌>>=◌, ◌>>◌, ensure,
  Source, SourceIdentity, Tables, same_key,
}
use assistant_memory.Partition.Access.{error, expects}

-- Equality of `sourceIdentityKey`, the JSON text of the three parts.
abbrev pub same_identity : SourceIdentity → SourceIdentity → Bool
same_identity a b =
    a.user_id == b.user_id && a.source_type == b.source_type && a.external_id == b.external_id

abbrev pub has_identity : List SourceIdentity → SourceIdentity → Bool
has_identity identities i = any (same_identity i) identities

-- The `where` clause of the query for retired identities: each part is in its own list.
abbrev pub may_be_retired : List SourceIdentity → SourceIdentity → Bool
may_be_retired identities r =
    contains (map (λ i. i.user_id) identities) r.user_id
    && contains (map (λ i. i.source_type) identities) r.source_type
    && contains (map (λ i. i.external_id) identities) r.external_id

-- `assertSourceIdentitiesActive`; with no identity the query's lists are empty.
unfoldable pub assert_source_identities_active : Tables → List SourceIdentity → Result (Unit {0})
assert_source_identities_active t identities =
    let retired = filter (may_be_retired identities) t.identity_tombstones in
    ensure (not (any (has_identity identities) retired)) (error source_identity_retired)

pub record SourceParentAttachment : Type 0 where
  pub user_id : ℕ
  pub source_id : ℕ
  pub partition_key : Option ℕ

-- `expectedPartitionById.get`: the last parent with the id.
unfoldable pub expected_partition : List SourceParentAttachment → ℕ → Option (Option ℕ)
expected_partition [] id = none
expected_partition (p ∷ ps) id =
    let here = if p.source_id == id then some p.partition_key else none in
    elim (expected_partition ps id) [ some k ↦ some k | none ↦ here ]

abbrev pub is_expected : Option (Option ℕ) → Option ℕ → Bool
is_expected none key = false
is_expected (some k) key = same_key key k

-- `isNull(sources.deletedAt)` and the other tests of the query for live parents.
abbrev pub is_live_in : ℕ → List ℕ → Source → Bool
is_live_in user_id ids s = s.user_id == user_id && contains ids s.id && not (is_some s.deleted_at)

abbrev pub is_tombstone_in : ℕ → List ℕ → ℕ × ℕ → Bool
is_tombstone_in user_id ids p = p.0 == user_id && contains ids p.1

-- One round of the loop over the users.
unfoldable pub assert_live_parents_of : Tables → List SourceParentAttachment → ℕ → Result (Unit {0})
unfolding expected_partition distinct
assert_live_parents_of t parents user_id =
    let mine = filter (λ (p : SourceParentAttachment). p.user_id == user_id) parents in
    let ids = distinct (map (λ (p : SourceParentAttachment). p.source_id) mine) in
    let live = filter (is_live_in user_id ids) t.sources in
    ensure
      (length live == length ids
        && not (any (is_tombstone_in user_id ids) t.source_tombstones)
        && not (any (λ s. not (is_expected (expected_partition mine s.id) s.partition_key)) live))
      (error source_tombstoned)

unfoldable pub for_each : (ℕ → Result (Unit {0})) → List ℕ → Result (Unit {0})
for_each f [] = ok tt
for_each f (x ∷ xs) = let rest = for_each f xs in f x >> rest

-- `assertLiveSourceParents`.
unfoldable pub assert_live_source_parents : Tables → List SourceParentAttachment → Result (Unit {0})
unfolding for_each assert_live_parents_of distinct
assert_live_source_parents t parents =
    for_each (assert_live_parents_of t parents)
      (distinct (map (λ (p : SourceParentAttachment). p.user_id) parents))

pub record SourceWriteFence : Type 0 where
  pub source_id : ℕ
  pub expected_source_version : Option ℕ

pub record Expected : Type 0 where
  pub source_id : ℕ
  pub version : Option ℕ

-- `expectedBySource.get`; the outer option is the presence of the key.
unfoldable pub lookup_expected : ℕ → List Expected → Option (Option ℕ)
lookup_expected id [] = none
lookup_expected id (e ∷ es) = if e.source_id == id then some e.version else lookup_expected id es

abbrev pub conflicts : Option (Option ℕ) → Option ℕ → Bool
conflicts (some (some v)) (some w) = not (v == w)
conflicts _ _ = false

-- The loop that fills `expectedBySource`: a key that is there keeps its value.
unfoldable pub expect_all : List Expected → List SourceWriteFence → Result (List Expected)
unfolding lookup_expected
expect_all seen [] = ok seen
expect_all seen (f ∷ fs) =
    let found = lookup_expected f.source_id seen in
    let added : Expected = record {
      source_id = f.source_id;
      version = f.expected_source_version;
    } in
    let rest = expect_all (if is_some found then seen else seen ++ added ∷ []) fs in
    ensure (not (conflicts found f.expected_source_version)) (error source_version_conflict) >> rest

-- `partition_key` is `none` where the property is absent from the input.
pub record FenceInput : Type 0 where
  pub user_id : ℕ
  pub sources : List SourceWriteFence
  pub partition_key : Option (Option ℕ)
  pub source_identities : List SourceIdentity

abbrev pub identity_of : ℕ → Source → SourceIdentity
identity_of user_id s = record {
  user_id = user_id;
  source_type = s.type;
  external_id = s.external_id;
}

-- The rows of the user with the ids.
abbrev pub rows_of : ℕ → List ℕ → List Source → List Source
rows_of user_id ids sources = filter (λ s. s.user_id == user_id && contains ids s.id) sources

abbrev pub in_partition : Option (Option ℕ) → Source → Bool
in_partition none s = true
in_partition (some key) s = same_key s.partition_key key

pub record Version : Type 0 where
  pub source_id : ℕ
  pub version : ℕ

abbrev pub versions_of : List Source → List Version
versions_of rows = map (λ s. record { source_id = s.id; version = s.version }) rows

-- `sourceVersions.get`.
unfoldable pub version_of : ℕ → List Version → Option ℕ
version_of id [] = none
version_of id (v ∷ vs) = if v.source_id == id then some v.version else version_of id vs

abbrev pub meets : Option ℕ → Option ℕ → Bool
meets none current = true
meets (some v) none = false
meets (some v) (some w) = v == w

-- The last loop: every expected version is the current one.
unfoldable pub assert_versions : List Version → List Expected → Result (Unit {0})
unfolding version_of
assert_versions versions [] = ok tt
assert_versions versions (e ∷ es) =
    let rest = assert_versions versions es in
    let current = version_of e.source_id versions in
    ensure (meets e.version current) (partition_access_error source_version_conflict current)
    >> rest

abbrev pub source_ids : List Expected → List ℕ
source_ids es = map (λ e. e.source_id) es

-- The checks on the locked rows, in the order of the code.
unfoldable pub check_locked :
    Tables → FenceInput → List Expected → List SourceIdentity → List Source → Result (List Version)
check_locked t input expected discovered locked = do
  let ids = source_ids expected
  ensure (length locked == length ids) (error source_tombstoned)
  ensure (not (any (λ s. not (has_identity discovered (identity_of input.user_id s))) locked))
      (error source_version_conflict)
  assert_source_identities_active t (discovered ++ input.source_identities)
  ensure
      (not (any (is_tombstone_in input.user_id ids) t.source_tombstones)
        && not (any (λ s. is_some s.deleted_at) locked))
      (error source_tombstoned)
  ensure (not (any (λ s. not (in_partition input.partition_key s)) locked))
      (error partition_unauthorized)
  assert_versions (versions_of locked) expected
  ok (versions_of locked)

abbrev pub discovered_identities : Tables → ℕ → List ℕ → List SourceIdentity
discovered_identities before user_id ids =
    map (λ s. record { user_id = s.user_id; source_type = s.type; external_id = s.external_id })
      (rows_of user_id ids before.sources)

-- The transaction up to the call of `write`, whose argument is the versions.
unfoldable pub fence :
    Tables → Tables → (Tables → Result (Unit {0})) → FenceInput → Result (List Version)
unfolding expect_all check_locked
fence before t before_source_locks input = do
  expected ← expect_all [] input.sources
  let ids = source_ids expected
  let discovered = discovered_identities before input.user_id ids
  elim ids [
    | [] ↦ do assert_source_identities_active t (discovered ++ input.source_identities); ok []
    | i ∷ is ↦ do
      before_source_locks t
      check_locked t input expected discovered (rows_of input.user_id (i ∷ is) t.sources)
  ]

-- `withSourceWriteFence`.
unfoldable pub with_source_write_fence {ℓ} :
    {A : Type ℓ}
    → Tables
    → Tables
    → (Tables → Result (Unit {0}))
    → FenceInput
    → (Tables → List Version → Result A)
    → Result A
with_source_write_fence before t before_source_locks input write = do
  versions ← fence before t before_source_locks input
  write t versions

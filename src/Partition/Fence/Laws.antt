-- ===== src/Partition/Fence/Laws.antt =====
-- What a write behind the fence may rely on.
use mathlib.Core.List.{Memᴰ}
use mathlib.Core.Option.{some-injective}
use assistant_memory.Prelude.{
  ◌≡◌, refl, ap, ◌∙◌, ℕ, Bool, true, false, not, ◌&&◌, ◌==◌, Option, none, some, List, [], ◌∷◌,
  arith, Bool-cases, inl, inr, is_some, any, contains, All, All-mem, All-impl, mem-filter,
  any-false, ==→eq, ==_refl,
}
use assistant_memory.Partition.Tables.{
  Result, ok, err, bind-ok, ◌>>◌, Source, SourceIdentity, Tables,
}
use assistant_memory.Partition.Fence.{
  FenceInput, Expected, Version, versions_of, version_of, assert_versions, rows_of, check_locked,
  fence, expect_all, source_ids, is_tombstone_in, in_partition, SourceWriteFence,
  discovered_identities, meets, SourceWriteFence, lookup_expected,
}
use assistant_memory.Partition.Fence.Expects.{
  first_version, empty-expects, lookup-member, first-expected, first-agrees,
}

>>-ok {ℓ} :
    {B : Type ℓ} (m : Result (Unit {0})) (k : Result B) {b : B}
    → (m >> k) ≡ ok b
    → (m ≡ ok tt) × (k ≡ ok b)
>>-ok (ok u) k h = (refl, h)
>>-ok (err e) k h = cc

version_of-source :
    (id v : ℕ) (rows : List Source)
    → version_of id (versions_of rows) ≡ some v
    → (s : Source) × Memᴰ s rows × (s.id ≡ id) × (s.version ≡ v)
unfolding version_of
version_of-source id v [] h = cc
version_of-source id v (s ∷ rows) h = elim (Bool-cases (s.id == id)) [
  | inl here ↦ (s, Memᴰ.head refl, ==→eq s.id id here, some-injective _ _ (rw here at h))
  | inr other ↦
      let (x, m, e, f) = version_of-source id v rows (rw other at h) in (x, Memᴰ.tail m, e, f)
]

meets-some : (v : ℕ) (o : Option ℕ) → meets (some v) o ≡ true → o ≡ some v
meets-some v o h = ground arith

assert_versions-mem :
    (versions : List Version) (es : List Expected) (e : Expected) (v : ℕ)
    → assert_versions versions es ≡ ok tt
    → Memᴰ e es
    → e.version ≡ some v
    → version_of e.source_id versions ≡ some v
unfolding assert_versions
assert_versions-mem versions [] e v h m same = elim m [ ]
assert_versions-mem versions (x ∷ es) e v h (Memᴰ.head f) same =
    ground (arith, meets-some v (version_of e.source_id versions))
assert_versions-mem versions (x ∷ es) e v h (Memᴰ.tail m) same =
    assert_versions-mem versions es e v (>>-ok _ _ h).1 m same

-- What the checks on the locked rows establish.
pub record IsFenced (t : Tables) (input : FenceInput) (expected : List Expected)
    (locked : List Source) (versions : List Version) : Type 0 where
  pub same_versions : versions ≡ versions_of locked
  pub expectations : assert_versions (versions_of locked) expected ≡ ok tt
  pub not_deleted : any (λ s. is_some s.deleted_at) locked ≡ false
  pub not_tombstoned :
      any (is_tombstone_in input.user_id (source_ids expected)) t.source_tombstones ≡ false
  pub placed : any (λ s. not (in_partition input.partition_key s)) locked ≡ false

check_locked-IsFenced :
    (t : Tables) (input : FenceInput) (expected : List Expected) (discovered : List SourceIdentity)
    (locked : List Source) (versions : List Version)
    → check_locked t input expected discovered locked ≡ ok versions
    → IsFenced t input expected locked versions
unfolding check_locked
check_locked-IsFenced t input expected discovered locked versions h = ground arith

-- A source that a write may touch: the user's row, live, at the version that was observed, in the
-- partition that was asked for, and with no tombstone.
pub record IsGuarded (t : Tables) (input : FenceInput) (id version : ℕ) : Type 0 where
  pub source : Source
  pub listed : Memᴰ source t.sources
  pub same_id : source.id ≡ id
  pub owned : source.user_id ≡ input.user_id
  pub same_version : source.version ≡ version
  pub live : source.deleted_at ≡ none
  pub placed : in_partition input.partition_key source ≡ true
  pub not_tombstoned : All (λ p. p.0 ≡ input.user_id → p.1 ≡ id → ⊥) t.source_tombstones

contains-source_ids :
    (es : List Expected) (e : Expected) → Memᴰ e es → contains (source_ids es) e.source_id ≡ true
unfolding contains
contains-source_ids [] e m = elim m [ ]
contains-source_ids (x ∷ es) e (Memᴰ.head f) = ground (arith, ==_refl e.source_id)
contains-source_ids (x ∷ es) e (Memᴰ.tail m) = ground (arith, contains-source_ids es e m)

fence-check :
    (before t : Tables) (gate : Tables → Result (Unit {0})) (input : FenceInput) (x : Expected)
    (xs : List Expected) (versions : List Version)
    → expect_all [] input.sources ≡ ok (x ∷ xs)
    → fence before t gate input ≡ ok versions
    → check_locked t input
        (x ∷ xs)
        (discovered_identities before input.user_id (source_ids (x ∷ xs)))
        (rows_of input.user_id (source_ids (x ∷ xs)) t.sources)
      ≡ ok versions
unfolding fence
fence-check before t gate input x xs versions e h = (>>-ok (gate t) _ (rw e at h)).1

is_some-none : (o : Option ℕ) → is_some o ≡ false → o ≡ none
is_some-none o h = ground arith

owner-eq : (a b : ℕ) (c : Bool) → a == b && c ≡ true → a ≡ b
owner-eq a b c h = ground arith

not-false : (b : Bool) → not b ≡ false → b ≡ true
not-false true h = refl
not-false false h = cc

no_tombstone :
    (user_id : ℕ) (ids : List ℕ) (id : ℕ) (p : ℕ × ℕ)
    → contains ids id ≡ true
    → is_tombstone_in user_id ids p ≡ false
    → p.0 ≡ user_id
    → p.1 ≡ id
    → ⊥
no_tombstone user_id ids id (u, i) c h e f =
    let has : contains ids i ≡ true = ap (contains ids) f ∙ c in ground (arith, has)

checked-guards :
    (t : Tables) (input : FenceInput) (expected : List Expected) (versions : List Version)
    (e : Expected) (v : ℕ)
    → IsFenced t input expected (rows_of input.user_id (source_ids expected) t.sources) versions
    → Memᴰ e expected
    → e.version ≡ some v
    → IsGuarded t input e.source_id v
checked-guards t input expected versions e v f m same =
    let rows = rows_of input.user_id (source_ids expected) t.sources in
    let (s, listed, same_id, same_version) =
      version_of-source e.source_id v rows
        (assert_versions-mem (versions_of rows) expected e v f.expectations m same) in
    let (in_table, mine) = mem-filter _ t.sources s listed in
    record {
      source = s;
      listed = in_table;
      same_id = same_id;
      owned = owner-eq _ _ _ mine;
      same_version = same_version;
      live = is_some-none _ (All-mem _ rows s (any-false _ rows f.not_deleted) listed);
      placed = not-false _ (All-mem _ rows s (any-false _ rows f.placed) listed);
      not_tombstoned =
          All-impl
            (λ p none_here.
              no_tombstone input.user_id (source_ids expected) e.source_id p
                (contains-source_ids expected e m) none_here)
            t.source_tombstones (any-false _ t.source_tombstones f.not_tombstoned);
    }

IsGuarded-expected :
    (before t : Tables) (gate : Tables → Result (Unit {0})) (input : FenceInput)
    (expected : List Expected) (versions : List Version) (e : Expected) (v : ℕ)
    → expect_all [] input.sources ≡ ok expected
    → Memᴰ e expected
    → e.version ≡ some v
    → fence before t gate input ≡ ok versions
    → IsGuarded t input e.source_id v
IsGuarded-expected before t gate input [] versions e v known m same h = elim m [ ]
IsGuarded-expected before t gate input (x ∷ xs) versions e v known m same h =
    checked-guards t input (x ∷ xs) versions e v
      (check_locked-IsFenced t input (x ∷ xs) _ _ versions
        (fence-check before t gate input x xs versions known h))
      m same

fence-expects :
    (before t : Tables) (gate : Tables → Result (Unit {0})) (input : FenceInput)
    (versions : List Version)
    → fence before t gate input ≡ ok versions
    → (expected : List Expected) × (expect_all [] input.sources ≡ ok expected)
unfolding fence
fence-expects before t gate input versions h =
    let (expected, known, rest) = bind-ok (expect_all [] input.sources) _ versions h in
    (expected, known)

-- Whatever other transactions did before the locks were taken, a write behind the fence runs only if
-- each source whose first entry in the request names a version is the user's own live row at the version
-- that any of its entries names, in the requested partition if one is named, and has no tombstone.
pub fence-IsGuarded :
    (before t : Tables) (gate : Tables → Result (Unit {0})) (input : FenceInput)
    (versions : List Version) (f : SourceWriteFence) (v w : ℕ)
    → fence before t gate input ≡ ok versions
    → Memᴰ f input.sources
    → f.expected_source_version ≡ some v
    → first_version f.source_id input.sources ≡ some w
    → IsGuarded t input f.source_id v
fence-IsGuarded before t gate input versions f v w h m k l =
    let (expected, known) = fence-expects before t gate input versions h in
    let same : w ≡ v =
      first-agrees v w expected f input.sources [] known (empty-expects f.source_id) m k l in
    IsGuarded-expected before t gate input expected versions
      (record { source_id = f.source_id; version = some v }) v known
      (lookup-member f.source_id (some v) expected (
        first-expected f.source_id w expected input.sources [] known (empty-expects f.source_id) l
        ∙ ap (λ n. some (some n)) same))
      refl h

-- A source that is named twice, first with no version, is not checked against the version that the
-- second entry names: the fence decides as if the second entry were absent.
pub fence-forgets_later_version :
    (before t : Tables) (gate : Tables → Result (Unit {0})) (user_id id version : ℕ)
    (key : Option (Option ℕ)) (identities : List SourceIdentity)
    → fence before t gate (record {
      user_id = user_id;
      sources =
          record { source_id = id; expected_source_version = none }
          ∷ (record { source_id = id; expected_source_version = some version } ∷ []);
      partition_key = key;
      source_identities = identities;
    })
      ≡ fence before t gate (record {
        user_id = user_id;
        sources = record { source_id = id; expected_source_version = none } ∷ [];
        partition_key = key;
        source_identities = identities;
      })
unfolding fence lookup_expected
fence-forgets_later_version before t gate user_id id version key identities = rw (==_refl id)

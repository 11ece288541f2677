-- ===== src/Partition/Fence/Expects.antt =====
-- What the fence expects of each source that a request names.
use mathlib.Core.List.{Memᴰ}
use mathlib.Core.Option.{some-injective}
use assistant_memory.Prelude.{
  ◌≡◌, refl, sym, subst, if◌then◌else◌, ap, ◌∙◌, ℕ, true, false, not, ◌==◌, Option, none, some,
  List, [], ◌∷◌, ◌++◌, arith, Bool-cases, inl, inr, is_some, ==→eq, ==_refl,
}
use assistant_memory.Partition.Tables.{ok, ok-injective, ensure-ok, source_version_conflict}
use assistant_memory.Partition.Access.{error}
use assistant_memory.Partition.Fence.{
  Expected, expect_all, conflicts, SourceWriteFence, SourceWriteFence, lookup_expected,
}

lookup-append :
    (id : ℕ) (es fs : List Expected) (x : Option ℕ)
    → lookup_expected id es ≡ some x
    → lookup_expected id (es ++ fs) ≡ some x
unfolding lookup_expected
lookup-append id [] fs x h = absurd (ground (arith, h))
lookup-append id (e ∷ es) fs x h = elim (Bool-cases (e.source_id == id)) [
  | inl here ↦ rw here (rw here at h)
  | inr other ↦ rw other (lookup-append id es fs x (rw other at h))
]

lookup-last :
    (es : List Expected) (e : Expected)
    → lookup_expected e.source_id es ≡ none
    → lookup_expected e.source_id (es ++ e ∷ []) ≡ some e.version
unfolding lookup_expected
lookup-last [] e h = rw (==_refl e.source_id) refl
lookup-last (x ∷ es) e h = elim (Bool-cases (x.source_id == e.source_id)) [
  | inl here ↦ absurd (ground (arith, rw here at h))
  | inr other ↦ rw other (lookup-last es e (rw other at h))
]

lookup-snoc_other :
    (id : ℕ) (es : List Expected) (e : Expected)
    → (e.source_id == id) ≡ false
    → lookup_expected id es ≡ none
    → lookup_expected id (es ++ e ∷ []) ≡ none
unfolding lookup_expected
lookup-snoc_other id [] e other h = rw other refl
lookup-snoc_other id (x ∷ es) e other h = elim (Bool-cases (x.source_id == id)) [
  | inl here ↦ absurd (ground (arith, rw here at h))
  | inr apart ↦ rw apart (lookup-snoc_other id es e other (rw apart at h))
]

abbrev next_seen : List Expected → SourceWriteFence → List Expected
next_seen seen f =
    if is_some (lookup_expected f.source_id seen)
    then seen
    else seen ++ record { source_id = f.source_id; version = f.expected_source_version } ∷ []

-- One round of the loop.
expect-next :
    (seen expected : List Expected) (f : SourceWriteFence) (fs : List SourceWriteFence)
    → expect_all seen (f ∷ fs) ≡ ok expected
    → (conflicts (lookup_expected f.source_id seen) f.expected_source_version ≡ false)
      × (expect_all (next_seen seen f) fs ≡ ok expected)
unfolding expect_all
expect-next seen expected f fs e =
    let (agrees, rest) =
      ensure-ok (not (conflicts (lookup_expected f.source_id seen) f.expected_source_version))
        (error source_version_conflict) _ _ e in
    (ground (arith, agrees), rest)

next_seen-keeps :
    (id : ℕ) (seen : List Expected) (f : SourceWriteFence) (x : Option ℕ)
    → lookup_expected id seen ≡ some x
    → lookup_expected id (next_seen seen f) ≡ some x
next_seen-keeps id seen f x h = elim (Bool-cases (is_some (lookup_expected f.source_id seen))) [
  | inl there ↦ rw there h
  | inr new ↦ rw new (
      lookup-append id seen
        (record { source_id = f.source_id; version = f.expected_source_version } ∷ []) x h)
]

next_seen-finds :
    (seen : List Expected) (f : SourceWriteFence)
    → lookup_expected f.source_id seen ≡ none
    → lookup_expected f.source_id (next_seen seen f) ≡ some f.expected_source_version
next_seen-finds seen f h =
    rw h
      (lookup-last seen record { source_id = f.source_id; version = f.expected_source_version } h)

-- What is expected of a source is not changed by the entries after it.
expect_all-keeps :
    (id : ℕ) (x : Option ℕ) (expected : List Expected) (fs : List SourceWriteFence)
    (seen : List Expected)
    → expect_all seen fs ≡ ok expected
    → lookup_expected id seen ≡ some x
    → lookup_expected id expected ≡ some x
unfolding expect_all
expect_all-keeps id x expected [] seen e h =
    subst (λ es. lookup_expected id es ≡ some x) (ok-injective e) h
expect_all-keeps id x expected (f ∷ fs) seen e h =
    expect_all-keeps id x expected fs (next_seen seen f) (expect-next seen expected f fs e).1
      (next_seen-keeps id seen f x h)

agreeing : (a b : ℕ) → conflicts (some (some a)) (some b) ≡ false → a ≡ b
agreeing a b h = ground arith

-- Every later entry of a source of which a version is expected names that version, or none.
expect_all-agrees :
    (w v : ℕ) (expected : List Expected) (fs : List SourceWriteFence) (f : SourceWriteFence)
    (seen : List Expected)
    → expect_all seen fs ≡ ok expected
    → Memᴰ f fs
    → lookup_expected f.source_id seen ≡ some (some w)
    → f.expected_source_version ≡ some v
    → w ≡ v
expect_all-agrees w v expected [] f seen e m h k = elim m [ ]
expect_all-agrees w v expected (g ∷ fs) f seen e (Memᴰ.head same) h k = agreeing w v (
    rw
      (
        ap (λ x. lookup_expected x.source_id seen) (sym same) ∙ h,
        ap (λ x. x.expected_source_version) (sym same) ∙ k,
      )
      at (expect-next seen expected g fs e).0)
expect_all-agrees w v expected (g ∷ fs) f seen e (Memᴰ.tail m) h k =
    expect_all-agrees w v expected fs f (next_seen seen g) (expect-next seen expected g fs e).1 m
      (next_seen-keeps f.source_id seen g (some w) h) k

-- The version that the first entry of a source names, if it names one.
unfoldable pub first_version : ℕ → List SourceWriteFence → Option ℕ
first_version id [] = none
first_version id (f ∷ fs) =
    if f.source_id == id then f.expected_source_version else first_version id fs

pub lookup-member :
    (id : ℕ) (x : Option ℕ) (es : List Expected)
    → lookup_expected id es ≡ some x
    → Memᴰ (record { source_id = id; version = x }) es
unfolding lookup_expected
lookup-member id x [] h = absurd (ground (arith, h))
lookup-member id x (e ∷ es) h = elim (Bool-cases (e.source_id == id)) [
  | inl here ↦ Memᴰ.head (
      ap (λ y. record { source_id = id; version = y }) (sym (some-injective _ _ (rw here at h)))
      ∙ ap (λ y. record { source_id = y; version = e.version }) (sym (==→eq e.source_id id here)))
  | inr other ↦ Memᴰ.tail (lookup-member id x es (rw other at h))
]

next_seen-misses :
    (id : ℕ) (seen : List Expected) (f : SourceWriteFence)
    → (f.source_id == id) ≡ false
    → lookup_expected id seen ≡ none
    → lookup_expected id (next_seen seen f) ≡ none
next_seen-misses id seen f other h =
    elim (Bool-cases (is_some (lookup_expected f.source_id seen))) [
      | inl there ↦ rw there h
      | inr new ↦ rw new (
          lookup-snoc_other id seen
            (record { source_id = f.source_id; version = f.expected_source_version }) other h)
    ]

pub empty-expects : (id : ℕ) → lookup_expected id [] ≡ none
unfolding lookup_expected
empty-expects id = refl

pub first-expected :
    (id w : ℕ) (expected : List Expected) (fs : List SourceWriteFence) (seen : List Expected)
    → expect_all seen fs ≡ ok expected
    → lookup_expected id seen ≡ none
    → first_version id fs ≡ some w
    → lookup_expected id expected ≡ some (some w)
unfolding first_version
first-expected id w expected [] seen e h k = absurd (ground (arith, k))
first-expected id w expected (f ∷ fs) seen e h k =
    let rest = (expect-next seen expected f fs e).1 in
    elim (Bool-cases (f.source_id == id)) [
      | inl here ↦
          let same = ==→eq f.source_id id here in
          let named : f.expected_source_version ≡ some w = rw here at k in
          expect_all-keeps id (some w) expected fs (next_seen seen f) rest (
            ap (λ i. lookup_expected i (next_seen seen f)) (sym same)
            ∙ next_seen-finds seen f (ap (λ i. lookup_expected i seen) same ∙ h)
            ∙ ap some named)
      | inr other ↦
          first-expected id w expected fs (next_seen seen f) rest
            (next_seen-misses id seen f other h) (rw other at k)
    ]

-- With a version in its first entry, all versions that the entries of a source name are the same.
pub first-agrees :
    (v w : ℕ) (expected : List Expected) (f : SourceWriteFence) (fs : List SourceWriteFence)
    (seen : List Expected)
    → expect_all seen fs ≡ ok expected
    → lookup_expected f.source_id seen ≡ none
    → Memᴰ f fs
    → f.expected_source_version ≡ some v
    → first_version f.source_id fs ≡ some w
    → w ≡ v
unfolding first_version
first-agrees v w expected f [] seen e h m k l = elim m [ ]
first-agrees v w expected f (g ∷ fs) seen e h (Memᴰ.head same) k l =
    let here : (g.source_id == f.source_id) ≡ true =
      ap (λ x. x.source_id == f.source_id) (sym same) ∙ ==_refl f.source_id in
    some-injective _ _ (sym (rw here at l) ∙ ap (λ x. x.expected_source_version) (sym same) ∙ k)
first-agrees v w expected f (g ∷ fs) seen e h (Memᴰ.tail m) k l =
    let rest = (expect-next seen expected g fs e).1 in
    elim (Bool-cases (g.source_id == f.source_id)) [
      | inl here ↦
          let same = ==→eq g.source_id f.source_id here in
          let named : g.expected_source_version ≡ some w = rw here at l in
          expect_all-agrees w v expected fs f (next_seen seen g) rest m
            (ap (λ i. lookup_expected i (next_seen seen g)) (sym same)
              ∙ next_seen-finds seen g (ap (λ i. lookup_expected i seen) same ∙ h)
              ∙ ap some named)
            k
      | inr other ↦
          first-agrees v w expected f fs (next_seen seen g) rest
            (next_seen-misses f.source_id seen g other h) m k (rw other at l)
    ]

-- ===== src/Identity/Profile/Laws.antt =====
-- The profile score is at most one.
use assistant_memory.Prelude.{
  suc, ◌+◌, ◌≤◌, true, false, ◌≡◌, refl, inl, inr, List, [], ◌∷◌, length, Bool-cases, ==→eq,
  ==_refl, arith, filter,
}
use assistant_memory.Graph.{same_predicate→eq, same_predicate_refl}
use assistant_memory.Identity.Rows.{CandidateClaim, Claim, is_trusted}
use assistant_memory.Identity.Profile.{
  ProfileKey, rel, attr, same_profile_key, has_profile_key, distinct_keys, overlap, score_of_keys,
  profile_compatibility_score, candidate_keys, existing_keys,
}

same_profile_key→eq : (a b : ProfileKey) → same_profile_key a b ≡ true → a ≡ b
same_profile_key→eq (rel p n) (rel q m) h =
    rw (same_predicate→eq p q (ground (arith, h)), ==→eq n m (ground (arith, h))) refl
same_profile_key→eq (attr p n) (attr q m) h =
    rw (same_predicate→eq p q (ground (arith, h)), ==→eq n m (ground (arith, h))) refl
same_profile_key→eq (rel p n) (attr q m) h = absurd (ground (arith, h))
same_profile_key→eq (attr p n) (rel q m) h = absurd (ground (arith, h))

same_profile_key_refl : (a : ProfileKey) → same_profile_key a a ≡ true
same_profile_key_refl (rel p n) = rw (same_predicate_refl p, ==_refl n) refl
same_profile_key_refl (attr p n) = rw (same_predicate_refl p, ==_refl n) refl

same_profile_key_comm :
    (a b : ProfileKey) → same_profile_key a b ≡ true → same_profile_key b a ≡ true
same_profile_key_comm a b h = rw (same_profile_key→eq a b h) (same_profile_key_refl b)

-- The keys of a set: none of them stands again in the rest.
abbrev IsSetList : List ProfileKey → Type 0
IsSetList [] = Unit
IsSetList (k ∷ ks) = (has_profile_key ks k ≡ false) × IsSetList ks

distinct_keys-IsSetList : (ks : List ProfileKey) → IsSetList (distinct_keys ks)
unfolding distinct_keys
distinct_keys-IsSetList [] = tt
distinct_keys-IsSetList (k ∷ ks) = elim (Bool-cases (has_profile_key (distinct_keys ks) k)) [
  | inl again ↦ rw again (distinct_keys-IsSetList ks)
  | inr new ↦ rw new (new, distinct_keys-IsSetList ks)
]

overlap_le : (ks es : List ProfileKey) → overlap ks es ≤ length ks
unfolding overlap
overlap_le [] es = ground arith
overlap_le (k ∷ ks) es = elim (Bool-cases (has_profile_key es k)) [
  | inl shared ↦ rw shared (ground (arith, overlap_le ks es))
  | inr alone ↦ rw alone (ground (arith, overlap_le ks es))
]

-- A key that none of the keys equals adds nothing to the overlap.
overlap-absent :
    (e : ProfileKey) (ks es : List ProfileKey)
    → has_profile_key ks e ≡ false
    → overlap ks (e ∷ es) ≡ overlap ks es
unfolding overlap
overlap-absent e [] es h = refl
overlap-absent e (k ∷ ks) es h = elim (Bool-cases (same_profile_key k e)) [
  | inl same ↦ absurd (ground (arith, h, same_profile_key_comm k e same))
  | inr other ↦ rw (other, overlap-absent e ks es (ground (arith, h)))
]

overlap_snoc :
    (e : ProfileKey) (ks es : List ProfileKey)
    → IsSetList ks
    → overlap ks (e ∷ es) ≤ overlap ks es + 1
unfolding overlap
overlap_snoc e [] es h = ground arith
overlap_snoc e (k ∷ ks) es (new, h) = elim (Bool-cases (same_profile_key k e)) [
  | inl same ↦
      let absent = overlap-absent e ks es (rw⁻¹ (same_profile_key→eq k e same) new) in
      elim (Bool-cases (has_profile_key es k)) [
        | inl shared ↦ rw (same, absent, shared) (ground arith)
        | inr alone ↦ rw (same, absent, alone) (ground arith)
      ]
  | inr other ↦ elim (Bool-cases (has_profile_key es k)) [
    | inl shared ↦ rw (other, shared) (ground (arith, overlap_snoc e ks es h))
    | inr alone ↦ rw (other, alone) (ground (arith, overlap_snoc e ks es h))
  ]
]

overlap-none : (ks : List ProfileKey) → overlap ks [] ≡ 0
unfolding overlap
overlap-none [] = refl
overlap-none (k ∷ ks) = overlap-none ks

overlap_le_right : (ks es : List ProfileKey) → IsSetList ks → overlap ks es ≤ length es
overlap_le_right ks [] h = rw (overlap-none ks) (ground arith)
overlap_le_right ks (e ∷ es) h = ground (arith, overlap_snoc e ks es h, overlap_le_right ks es h)

score_of_keys_le :
    (ks es : List ProfileKey)
    → IsSetList ks
    → ((score_of_keys ks es).num ≤ (score_of_keys ks es).den) × (suc 0 ≤ (score_of_keys ks es).den)
unfolding score_of_keys
score_of_keys_le [] es h = (ground arith, ground arith)
score_of_keys_le (k ∷ ks) [] h = (ground arith, ground arith)
score_of_keys_le (k ∷ ks) (e ∷ es) h = (
  ground (arith, overlap_le (k ∷ ks) (e ∷ es), overlap_le_right (k ∷ ks) (e ∷ es) h),
  ground (arith, overlap_le (k ∷ ks) (e ∷ es), overlap_le_right (k ∷ ks) (e ∷ es) h),
)

-- The score of two profiles is a fraction: it is at most one, and it never divides by zero.
score_le :
    (candidate : List CandidateClaim) (existing : List Claim)
    → ((profile_compatibility_score candidate existing).num
        ≤ (profile_compatibility_score candidate existing).den)
      × (1 ≤ (profile_compatibility_score candidate existing).den)
unfolding profile_compatibility_score
score_le candidate existing =
    score_of_keys_le (distinct_keys (candidate_keys candidate))
      (distinct_keys (existing_keys (filter (λ c. is_trusted c.asserted_by_kind) existing)))
      (distinct_keys-IsSetList (candidate_keys candidate))

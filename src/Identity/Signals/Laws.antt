-- ===== src/Identity/Signals/Laws.antt =====
-- What filtering and sorting the candidates of a trace keeps.
use assistant_memory.Prelude.{
  ℕ, ◌≤◌, Bool, true, false, not, ◌≡◌, refl, sym, ap, ◌++◌, inl, inr, List, [], ◌∷◌, filter, length,
  contains, All, Bool-cases, ◌==◌, arith,
}
use assistant_memory.Identity.Rows.{Graph, reaches, Candidate, Signal, SignalCandidate, SignalTrace}
use assistant_memory.Identity.Profile.{is_any, insert_scored, sort_scored}
use assistant_memory.Identity.Signals.{
  in_scope, certainly, classify_scope_matches, filter_trace_candidates, filter_candidates,
  is_excluded,
}

module _ {κ} (P : SignalCandidate → Type κ) where
  All-insert_scored :
      (k : SignalCandidate) (ks : List SignalCandidate)
      → P k
      → All P ks
      → All P (insert_scored k ks)
  unfolding insert_scored
  All-insert_scored k [] p h = (p, tt)
  All-insert_scored k (d ∷ ds) p (q, h) = elim (Bool-cases (reaches k.score d.score)) [
    | inl higher ↦ rw higher (p, (q, h))
    | inr lower ↦ rw lower (q, All-insert_scored k ds p h)
  ]

  pub All-sort_scored : (ks : List SignalCandidate) → All P ks → All P (sort_scored ks)
  unfolding sort_scored
  All-sort_scored [] h = tt
  All-sort_scored (k ∷ ks) (p, h) = All-insert_scored k (sort_scored ks) p (All-sort_scored ks h)

module _ {ℓ} {A : Type ℓ} (p : A → Bool) where
  length-filter_le : (xs : List A) → length (filter p xs) ≤ length xs
  length-filter_le [] = ground arith
  length-filter_le (x ∷ xs) = elim (Bool-cases (p x)) [
    | inl kept ↦ rw kept (ground (arith, length-filter_le xs))
    | inr dropped ↦ rw dropped (ground (arith, length-filter_le xs))
  ]

  -- A filter that drops nothing keeps the list.
  pub length-filter_self : (xs : List A) → length (filter p xs) ≡ length xs → filter p xs ≡ xs
  length-filter_self [] h = refl
  length-filter_self (x ∷ xs) h = elim (Bool-cases (p x)) [
    | inl kept ↦ rw kept (ap (λ l. x ∷ l) (length-filter_self xs (ground (arith, rw kept at h))))
    | inr dropped ↦ absurd (ground (arith, length-filter_le xs, rw dropped at h))
  ]

pub filter-true {ℓ} : {A : Type ℓ} (xs : List A) → filter (λ x. true) xs ≡ xs
filter-true [] = refl
filter-true (x ∷ xs) = ap (λ l. x ∷ l) (filter-true xs)

-- What a trace keeps when the excluded nodes are dropped.
pub candidates-filter_trace :
    (t : SignalTrace) (excluded : List ℕ)
    → (filter_trace_candidates t excluded).candidates ≡ filter_candidates excluded t.candidates
unfolding filter_trace_candidates contains
candidates-filter_trace t [] = sym (filter-true t.candidates)
candidates-filter_trace t (x ∷ xs) =
    elim (Bool-cases (length (filter_candidates (x ∷ xs) t.candidates) == length t.candidates)) [
      | inl same ↦ rw same (
          sym (
            length-filter_self (λ k. not (is_excluded (x ∷ xs) k)) t.candidates
              (ground (arith, same))))
      | inr fewer ↦ rw fewer
    ]

pub fired-filter_trace :
    (t : SignalTrace) (excluded : List ℕ)
    → t.fired ≡ is_any t.candidates
    → (filter_trace_candidates t excluded).fired
      ≡ is_any (filter_trace_candidates t excluded).candidates
unfolding filter_trace_candidates
fired-filter_trace t [] h = h
fired-filter_trace t (x ∷ xs) h =
    elim (Bool-cases (length (filter_candidates (x ∷ xs) t.candidates) == length t.candidates)) [
      | inl same ↦ rw same h
      | inr fewer ↦ rw fewer
    ]

pub candidates-classify :
    (by : Signal) (user_id : ℕ) (c : Candidate) (g : Graph) (ids : List ℕ)
    → (classify_scope_matches by user_id c g ids).candidates ≡ certainly (in_scope user_id c g ids)
unfolding classify_scope_matches
candidates-classify by user_id c g ids = elim (Bool-cases (is_any (in_scope user_id c g ids))) [
  | inl some_fit ↦ rw some_fit
  | inr none_fit ↦ rw none_fit (sym (certainly-none (in_scope user_id c g ids) none_fit))
]
  where
    certainly-none : (xs : List ℕ) → is_any xs ≡ false → certainly xs ≡ []
    certainly-none [] h = refl
    certainly-none (x ∷ xs) h = ground arith

pub fired-classify :
    (by : Signal) (user_id : ℕ) (c : Candidate) (g : Graph) (ids : List ℕ)
    → (classify_scope_matches by user_id c g ids).fired
      ≡ is_any (classify_scope_matches by user_id c g ids).candidates
unfolding classify_scope_matches
fired-classify by user_id c g ids = elim (Bool-cases (is_any (in_scope user_id c g ids))) [
  | inl some_fit ↦ rw some_fit
  | inr none_fit ↦ rw none_fit
]

pub filter_candidates-certainly :
    (excluded ids : List ℕ)
    → filter_candidates excluded (certainly ids)
      ≡ certainly (filter (λ id. not (contains excluded id)) ids)
filter_candidates-certainly excluded [] = refl
filter_candidates-certainly excluded (x ∷ xs) = elim (Bool-cases (contains excluded x)) [
  | inl out ↦ rw out (filter_candidates-certainly excluded xs)
  | inr in_list ↦
      rw in_list (ap (λ l. certainly (x ∷ []) ++ l) (filter_candidates-certainly excluded xs))
]

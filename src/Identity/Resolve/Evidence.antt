-- ===== src/Identity/Resolve/Evidence.antt =====
-- The decisions by the profile.
use mathlib.Core.Option.{some-injective}
use assistant_memory.Prelude.{
  All-take, All-both, ℕ, true, false, not, ◌≡◌, refl, sym, ap, ◌∙◌, inl, inr, Option, none, some,
  List, [], ◌∷◌, map, filter, take, All, All-impl, All-map, All-filter, All-filter_self, Bool-cases,
  ==_refl, contains, arith, ◌⊎◌,
}
use assistant_memory.Partition.Tables.{Tables, ok}
use assistant_memory.Identity.Rows.{
  Graph, Score, reaches, Candidate, profile_compat, SignalCandidate, SignalTrace,
  IdentityResolution, Similar,
}
use assistant_memory.Identity.Profile.{
  is_any, rescored, score_profile, trusted_claims, profile_matches, signal_profile_compat,
}
use assistant_memory.Identity.Signals.{
  signal_embedding_sim, filter_trace_candidates, is_similar_of, signal_3_candidate_limit,
  is_excluded,
}
use assistant_memory.Identity.Signals.Laws.{All-sort_scored, candidates-filter_trace}
use assistant_memory.Identity.Resolve.{
  only_candidate, best_candidate, resolved_or, canonical_trace, alias_trace, embedding_trace,
  profile_trace, decide, resolve_identity,
}
use assistant_memory.Identity.Resolve.Laws.{best_candidate-All, decided}

-- Dropping excluded candidates keeps what holds of all of them.
filter_trace-All {κ} :
    (P : SignalCandidate → Type κ) (t : SignalTrace) (excluded : List ℕ)
    → All P t.candidates
    → All P (filter_trace_candidates t excluded).candidates
filter_trace-All P t excluded h =
    rw (candidates-filter_trace t excluded)
      (All-filter P (λ k. not (is_excluded excluded k)) t.candidates h)

contained : (xs : List Similar) → All (λ s. contains (map (λ r. r.id) xs) s.id ≡ true) xs
unfolding contains
contained [] = tt
contained (s ∷ ss) = (rw (==_refl s.id) refl, All-impl (λ r h. ground (arith, h)) ss (contained ss))

module _ (user_id : ℕ) (c : Candidate) (g : Graph) (similar : List Similar) where
  abbrev IsSimilar : SignalCandidate → Type 0
  IsSimilar k = contains (map (λ r. r.id) similar) k.node_id ≡ true

  embedding-IsSimilar : All IsSimilar (embedding_trace user_id c g similar).candidates
  unfolding embedding_trace signal_embedding_sim
  embedding-IsSimilar =
      filter_trace-All IsSimilar (signal_embedding_sim user_id c g similar) c.exclude_node_ids
        (of_signal (Bool-cases c.has_embedding))
    where
      of_signal :
          (c.has_embedding ≡ true) ⊎ (c.has_embedding ≡ false)
          → All IsSimilar (signal_embedding_sim user_id c g similar).candidates
      of_signal (inr missing) = rw missing tt
      of_signal (inl given) = rw given (
          All-map IsSimilar (λ s. record { node_id = s.id; score = s.similarity })
            (take signal_3_candidate_limit (filter (is_similar_of user_id c g) similar))
            (All-take (λ s. contains (map (λ r. r.id) similar) s.id ≡ true) signal_3_candidate_limit
              (filter (is_similar_of user_id c g) similar)
              (All-filter (λ s. contains (map (λ r. r.id) similar) s.id ≡ true)
                (is_similar_of user_id c g) similar (contained similar))))

  module _ (threshold : Score) where
    abbrev IsBacked : SignalCandidate → Type 0
    IsBacked k =
        IsSimilar k
        × ((reaches k.score threshold ≡ true) × (k.score ≡ score_profile user_id c g k.node_id))

    abbrev IsScored : SignalCandidate → Type 0
    IsScored k = IsSimilar k × (k.score ≡ score_profile user_id c g k.node_id)

    matches-IsBacked :
        (found : List SignalCandidate)
        → All IsSimilar found
        → All IsBacked (profile_matches threshold user_id c g found)
    unfolding profile_matches
    matches-IsBacked found h =
        let scored = rescored (score_profile user_id c g) found in
        All-sort_scored IsBacked (filter (λ k. reaches k.score threshold) scored) (
          All-both (λ k. reaches k.score threshold ≡ true) IsScored IsBacked
            (λ k high p. let (near, own) = p in (near, (high, own)))
            (filter (λ k. reaches k.score threshold) scored)
            (All-filter_self (λ k. reaches k.score threshold) scored)
            (All-filter IsScored (λ k. reaches k.score threshold) scored
              (All-map IsScored
                (λ k. record { node_id = k.node_id; score = score_profile user_id c g k.node_id })
                found (All-impl (λ k near. (near, refl)) found h))))

    profile-IsBacked : All IsBacked (profile_trace threshold user_id c g similar).candidates
    unfolding profile_trace signal_profile_compat
    profile-IsBacked =
        filter_trace-All IsBacked (signal_profile_compat threshold user_id c g found)
          c.exclude_node_ids
          (of_signal (Bool-cases (is_any found)) (Bool-cases (is_any (trusted_claims c))))
      where
        found : List SignalCandidate
        found = (embedding_trace user_id c g similar).candidates

        of_signal :
            (is_any found ≡ true) ⊎ (is_any found ≡ false)
            → (is_any (trusted_claims c) ≡ true) ⊎ (is_any (trusted_claims c) ≡ false)
            → All IsBacked (signal_profile_compat threshold user_id c g found).candidates
        of_signal (inr nobody) b = rw nobody tt
        of_signal (inl somebody) (inr bare) = rw (somebody, bare) tt
        of_signal (inl somebody) (inl backed) =
            rw (somebody, backed) (matches-IsBacked found embedding-IsSimilar)

resolved_by_profile :
    (label by_alias embedding profile : SignalTrace) (v w x : Option SignalCandidate)
    → only_candidate label ≡ v
    → only_candidate by_alias ≡ w
    → best_candidate profile ≡ x
    → (decide label by_alias embedding profile).signal ≡ profile_compat
    → (k : SignalCandidate) × (best_candidate profile ≡ some k)
      × (((decide label by_alias embedding profile).resolved_node_id ≡ some k.node_id)
          × ((decide label by_alias embedding profile).confidence ≡ k.score))
unfolding decide resolved_or
resolved_by_profile label by_alias embedding profile (some k) w x e f g s =
    absurd (ground (arith, rw e at s))
resolved_by_profile label by_alias embedding profile none (some k) x e f g s =
    absurd (ground (arith, rw (e, f) at s))
resolved_by_profile label by_alias embedding profile none none none e f g s =
    absurd (ground (arith, rw (e, f, g) at s))
resolved_by_profile label by_alias embedding profile none none (some k) e f g s =
    (k, g, (rw (e, f, g) refl, rw (e, f, g) refl))

-- Where the profile decides, the node is one that the search for similar embeddings returned, the
-- confidence is the score of its own profile, and that reaches the threshold: an embedding alone never
-- resolves a candidate.
pub profile-backed :
    (t : Tables) (threshold : Score) (user_id : ℕ) (c : Candidate) (g : Graph)
    (similar : List Similar) (r : IdentityResolution) (n : ℕ)
    → resolve_identity t threshold user_id c g similar ≡ ok r
    → r.signal ≡ profile_compat
    → r.resolved_node_id ≡ some n
    → (contains (map (λ s. s.id) similar) n ≡ true)
      × ((reaches r.confidence threshold ≡ true) × (r.confidence ≡ score_profile user_id c g n))
profile-backed t threshold user_id c g similar r n e by_profile named =
    let d = decided t threshold user_id c g similar r e in
    let (k, best, (found, scored)) =
      resolved_by_profile (canonical_trace user_id c g) (alias_trace user_id c g)
        (embedding_trace user_id c g similar) (profile_trace threshold user_id c g similar) _ _ _
        refl refl refl (ap (λ x. x.signal) d ∙ by_profile) in
    let same : k.node_id ≡ n =
      some-injective _ _ (sym found ∙ ap (λ x. x.resolved_node_id) d ∙ named) in
    let level : r.confidence ≡ k.score = sym (ap (λ x. x.confidence) d) ∙ scored in
    let (near, (high, own)) =
      best_candidate-All (IsBacked user_id c g similar threshold) k
        (profile_trace threshold user_id c g similar)
        (profile-IsBacked user_id c g similar threshold) best in
    (rw⁻¹ same near, (rw level high, level ∙ own ∙ ap (score_profile user_id c g) same))

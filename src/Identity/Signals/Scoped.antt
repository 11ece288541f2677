-- ===== src/Identity/Signals/Scoped.antt =====
-- The nodes that the candidates of a trace name.
use assistant_memory.Identity.Signals.Laws.{
  candidates-classify, filter_candidates-certainly, fired-classify, fired-filter_trace,
  All-sort_scored, candidates-filter_trace,
}
use assistant_memory.Prelude.{
  All-take, All-both, ◌∙◌, ap, ℕ, true, false, not, ◌≡◌, inl, inr, List, filter, take, contains,
  All, All-impl, All-filter, All-filter_self, All-map, Bool-cases, ◌==◌, arith,
}
use assistant_memory.Identity.Rows.{
  Graph, Score, reaches, Candidate, Signal, canonical_label, alias, SignalCandidate, SignalTrace,
  Similar,
}
use assistant_memory.Identity.Profile.{
  is_any, rescored, profile_matches, signal_profile_compat, trusted_claims, score_profile,
}
use assistant_memory.Identity.Signals.{
  certainly, has_scope, in_scope, classify_scope_matches, signal_canonical_label, signal_alias,
  signal_embedding_sim, is_similar_of, filter_trace_candidates, filter_candidates, is_excluded,
  find_nodes_by_canonical_label, find_nodes_by_alias, signal_3_candidate_limit, certain,
}

-- The matches of an exact key that have the candidate's scope and are not excluded.
abbrev pub allowed : ℕ → Candidate → Graph → List ℕ → List ℕ
allowed user_id c g ids =
    filter (λ id. not (contains c.exclude_node_ids id)) (in_scope user_id c g ids)

module _ (user_id : ℕ) (c : Candidate) (g : Graph) where
  abbrev pub IsAllowed : ℕ → Type 0
  IsAllowed node_id =
      (contains c.exclude_node_ids node_id ≡ false)
      × (has_scope user_id c.partition_key g c.scope node_id ≡ true)

  abbrev pub IsScoped : SignalCandidate → Type 0
  IsScoped k = has_scope user_id c.partition_key g c.scope k.node_id ≡ true

  pub classify-IsScoped :
      (by : Signal) (ids : List ℕ)
      → All IsScoped (classify_scope_matches by user_id c g ids).candidates
  classify-IsScoped by ids = rw (candidates-classify by user_id c g ids) (
      All-map IsScoped (λ id. record { node_id = id; score = certain }) (in_scope user_id c g ids)
        (All-filter_self (has_scope user_id c.partition_key g c.scope) ids))

  pub label-IsScoped : All IsScoped (signal_canonical_label user_id c g).candidates
  unfolding signal_canonical_label
  label-IsScoped = elim (Bool-cases (c.normalized_label == 0)) [
    | inl empty ↦ rw empty tt
    | inr given ↦
        rw given (classify-IsScoped canonical_label (find_nodes_by_canonical_label user_id c g))
  ]

  pub alias-IsScoped : All IsScoped (signal_alias user_id c g).candidates
  unfolding signal_alias
  alias-IsScoped = elim (Bool-cases (c.normalized_label == 0)) [
    | inl empty ↦ rw empty tt
    | inr given ↦ rw given (classify-IsScoped alias (find_nodes_by_alias user_id c g))
  ]

  pub embedding-IsScoped :
      (similar : List Similar) → All IsScoped (signal_embedding_sim user_id c g similar).candidates
  unfolding signal_embedding_sim
  embedding-IsScoped similar = elim (Bool-cases c.has_embedding) [
    | inl given ↦ rw given (
        All-map IsScoped (λ s. record { node_id = s.id; score = s.similarity })
          (take signal_3_candidate_limit (filter (is_similar_of user_id c g) similar))
          (All-take (λ s. has_scope user_id c.partition_key g c.scope s.id ≡ true)
            signal_3_candidate_limit (filter (is_similar_of user_id c g) similar)
            (All-impl (λ s h. ground (arith, h)) (filter (is_similar_of user_id c g) similar)
              (All-filter_self (is_similar_of user_id c g) similar))))
    | inr missing ↦ rw missing tt
  ]

  pub profile-IsScoped :
      (threshold : Score) (found : List SignalCandidate)
      → All IsScoped found
      → All IsScoped (signal_profile_compat threshold user_id c g found).candidates
  unfolding signal_profile_compat profile_matches
  profile-IsScoped threshold found h = elim (Bool-cases (is_any found)) [
    | inr nobody ↦ rw nobody tt
    | inl somebody ↦ elim (Bool-cases (is_any (trusted_claims c))) [
      | inr silent_profile ↦ rw (somebody, silent_profile) tt
      | inl backed ↦
          rw (somebody, backed)
            (All-sort_scored IsScoped
              (filter (λ k. reaches k.score threshold) (rescored (score_profile user_id c g) found))
              (All-filter IsScoped (λ k. reaches k.score threshold)
                (rescored (score_profile user_id c g) found)
                (All-map IsScoped
                  (λ k. record { node_id = k.node_id; score = score_profile user_id c g k.node_id })
                  found h)))
    ]
  ]

  -- A filtered trace has none of the excluded nodes.
  pub filter_trace-IsAllowed :
      (t : SignalTrace)
      → All IsScoped t.candidates
      → All (λ k. IsAllowed k.node_id) (filter_trace_candidates t c.exclude_node_ids).candidates
  filter_trace-IsAllowed t h = rw (candidates-filter_trace t c.exclude_node_ids) (
      All-both (λ k. not (is_excluded c.exclude_node_ids k) ≡ true) IsScoped
        (λ k. IsAllowed k.node_id) (λ k kept scoped. (ground (arith, kept), scoped))
        (filter_candidates c.exclude_node_ids t.candidates)
        (All-filter_self (λ k. not (is_excluded c.exclude_node_ids k)) t.candidates)
        (All-filter IsScoped (λ k. not (is_excluded c.exclude_node_ids k)) t.candidates h))

-- The candidates of an exact key, the excluded ones dropped.
pub candidates-allowed :
    (by : Signal) (user_id : ℕ) (c : Candidate) (g : Graph) (ids : List ℕ)
    → (filter_trace_candidates
        (classify_scope_matches by user_id c g ids)
        c.exclude_node_ids).candidates
      ≡ certainly (allowed user_id c g ids)
candidates-allowed by user_id c g ids =
    candidates-filter_trace (classify_scope_matches by user_id c g ids) c.exclude_node_ids
    ∙ ap (filter_candidates c.exclude_node_ids) (candidates-classify by user_id c g ids)
    ∙ filter_candidates-certainly c.exclude_node_ids (in_scope user_id c g ids)

pub fired-allowed :
    (by : Signal) (user_id : ℕ) (c : Candidate) (g : Graph) (ids : List ℕ)
    → (filter_trace_candidates (classify_scope_matches by user_id c g ids) c.exclude_node_ids).fired
      ≡ is_any (certainly (allowed user_id c g ids))
fired-allowed by user_id c g ids =
    fired-filter_trace (classify_scope_matches by user_id c g ids) c.exclude_node_ids
      (fired-classify by user_id c g ids)
    ∙ ap is_any (candidates-allowed by user_id c g ids)

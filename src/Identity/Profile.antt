-- ===== src/Identity/Profile.antt =====
-- `_signalProfileCompat` and its score: the overlap of two profiles of trusted claims.
pub mod Laws
use assistant_memory.Prelude.{
  ℕ, ◌+◌, ◌-◌, Bool, true, false, not, ◌&&◌, ◌||◌, ◌==◌, Option, none, some, List, [], ◌∷◌, map,
  filter, any, length, contains, if◌then◌else◌,
}
use assistant_memory.Graph.{Predicate, same_predicate}
use assistant_memory.Claims.Rows.{is_active}
use assistant_memory.Partition.Tables.{same_key}
use assistant_memory.Identity.Rows.{
  Claim, Graph, Score, reaches, CandidateClaim, Candidate, Signal, profile_compat, SignalCandidate,
  Skipped, no_supporting_claims, no_embedding_candidates, SignalTrace, is_trusted,
}

-- `_profileKey`.
pub data ProfileKey : Type 0 where
  rel : Predicate → ℕ → ProfileKey
  attr : Predicate → ℕ → ProfileKey

abbrev pub same_profile_key : ProfileKey → ProfileKey → Bool
same_profile_key (rel p n) (rel q m) = same_predicate p q && n == m
same_profile_key (attr p n) (attr q m) = same_predicate p q && n == m
same_profile_key _ _ = false

abbrev pub profile_key : Predicate → Option ℕ → Option ℕ → ProfileKey
profile_key p value (some n) = rel p n
profile_key p none none = attr p 0
profile_key p (some v) none = attr p v

abbrev pub has_profile_key : List ProfileKey → ProfileKey → Bool
has_profile_key keys k = any (same_profile_key k) keys

-- `new Set(…)`.
unfoldable pub distinct_keys : List ProfileKey → List ProfileKey
distinct_keys [] = []
distinct_keys (k ∷ ks) =
    let rest = distinct_keys ks in if has_profile_key rest k then rest else k ∷ rest

abbrev pub candidate_keys : List CandidateClaim → List ProfileKey
candidate_keys cs = map (λ c. profile_key c.predicate c.object_value c.object_node_id) cs

abbrev pub existing_keys : List Claim → List ProfileKey
existing_keys cs = map (λ c. profile_key c.predicate c.object_value c.object_node_id) cs

unfoldable pub overlap : List ProfileKey → List ProfileKey → ℕ
overlap [] existing = 0
overlap (k ∷ ks) existing =
    let rest = overlap ks existing in if has_profile_key existing k then rest + 1 else rest

abbrev pub no_score : Score
no_score = record { num = 0; den = 1 }

-- The score of two sets of keys; where one is empty, it is 0.
unfoldable pub score_of_keys : List ProfileKey → List ProfileKey → Score
score_of_keys [] existing = no_score
score_of_keys (k ∷ ks) [] = no_score
score_of_keys (k ∷ ks) (e ∷ es) = record {
  num = overlap (k ∷ ks) (e ∷ es);
  den = length (k ∷ ks) + length (e ∷ es) - overlap (k ∷ ks) (e ∷ es);
}

-- `_profileCompatibilityScore`.
unfoldable pub profile_compatibility_score : List CandidateClaim → List Claim → Score
unfolding distinct_keys score_of_keys
profile_compatibility_score candidate existing =
    score_of_keys (distinct_keys (candidate_keys candidate))
      (distinct_keys (existing_keys (filter (λ c. is_trusted c.asserted_by_kind) existing)))

-- `_fetchTrustedProfileClaims`, the rows of one node.
abbrev pub is_profile_claim : ℕ → Option ℕ → ℕ → Claim → Bool
is_profile_claim user_id key node_id c =
    c.user_id == user_id
    && same_key c.partition_key key
    && is_active c.status
    && c.subject_node_id == node_id
    && is_trusted c.asserted_by_kind

unfoldable pub profile_claims : ℕ → Option ℕ → Graph → ℕ → List Claim
profile_claims user_id key g node_id = filter (is_profile_claim user_id key node_id) g.claims

abbrev pub rescored : (ℕ → Score) → List SignalCandidate → List SignalCandidate
rescored f cs = map (λ c. record { node_id = c.node_id; score = f c.node_id }) cs

-- `scored.sort`: the highest score first, equal ones in their order.
unfoldable pub insert_scored : SignalCandidate → List SignalCandidate → List SignalCandidate
insert_scored c [] = c ∷ []
insert_scored c (d ∷ ds) =
    let rest = insert_scored c ds in if reaches c.score d.score then c ∷ d ∷ ds else d ∷ rest

unfoldable pub sort_scored : List SignalCandidate → List SignalCandidate
unfolding insert_scored
sort_scored [] = []
sort_scored (c ∷ cs) = insert_scored c (sort_scored cs)

abbrev pub silent : Signal → Option Skipped → SignalTrace
silent signal skipped = record {
  signal = signal;
  fired = false;
  candidates = [];
  cross_scope_refusal = none;
  ambiguous = none;
  skipped = skipped;
}

abbrev pub is_any {ℓ} : {A : Type ℓ} → List A → Bool
is_any [] = false
is_any (x ∷ xs) = true

-- The trace of a signal with its candidates.
abbrev pub with_candidates : Signal → List SignalCandidate → SignalTrace
with_candidates signal cs = record (silent signal none) { fired = is_any cs; candidates = cs }

abbrev pub trusted_claims : Candidate → List CandidateClaim
trusted_claims c = filter (λ k. is_trusted k.asserted_by_kind) c.supporting_claims

abbrev pub score_profile : ℕ → Candidate → Graph → ℕ → Score
score_profile user_id c g node_id =
    profile_compatibility_score (trusted_claims c)
      (profile_claims user_id c.partition_key g node_id)

-- The candidates whose profile reaches the threshold, the best first.
unfoldable pub profile_matches :
    Score → ℕ → Candidate → Graph → List SignalCandidate → List SignalCandidate
unfolding sort_scored
profile_matches threshold user_id c g found =
    sort_scored
      (filter (λ k. reaches k.score threshold) (rescored (score_profile user_id c g) found))

-- `_signalProfileCompat`.
unfoldable pub signal_profile_compat :
    Score → ℕ → Candidate → Graph → List SignalCandidate → SignalTrace
signal_profile_compat threshold user_id c g found =
    if not (is_any found)
    then silent profile_compat (some no_embedding_candidates)
    else if not (is_any (trusted_claims c))
    then silent profile_compat (some no_supporting_claims)
    else with_candidates profile_compat (profile_matches threshold user_id c g found)

-- ===== src/Identity/Resolve.antt =====
-- `resolveIdentity`: the signals in their order, and the decision.
pub mod Laws
pub mod Label
pub mod Evidence
use assistant_memory.Prelude.{ℕ, Option, none, some, List, [], ◌∷◌, map, if◌then◌else◌}
use assistant_memory.Partition.Tables.{Tables, Result, ok, ◌>>◌, partition}
use assistant_memory.Partition.Access.{assert_partition_read_allowed}
use assistant_memory.Identity.Rows.{
  Graph, Score, Candidate, Signal, canonical_label, alias, profile_compat, no_signal,
  SignalCandidate, SignalTrace, IdentityResolution, Similar,
}
use assistant_memory.Identity.Profile.{no_score, signal_profile_compat}
use assistant_memory.Identity.Signals.{
  signal_canonical_label, signal_alias, signal_embedding_sim, filter_trace_candidates,
}

abbrev pub single : List SignalCandidate → Option SignalCandidate
single (k ∷ []) = some k
single _ = none

abbrev pub first : List SignalCandidate → Option SignalCandidate
first [] = none
first (k ∷ ks) = some k

-- The winner of a lookup by an exact key: its only candidate.
unfoldable pub only_candidate : SignalTrace → Option SignalCandidate
only_candidate t = if t.fired then single t.candidates else none

unfoldable pub best_candidate : SignalTrace → Option SignalCandidate
best_candidate t = if t.fired then first t.candidates else none

-- More than one candidate: the ambiguity is recorded.
unfoldable pub mark_ambiguous : SignalTrace → SignalTrace
mark_ambiguous t =
    if t.fired then record t { ambiguous = some (map (λ k. k.node_id) t.candidates) } else t

-- `_resolved`, or what comes after.
unfoldable pub resolved_or :
    Signal → Option SignalCandidate → List SignalTrace → IdentityResolution → IdentityResolution
resolved_or by none trace rest = rest
resolved_or by (some winner) trace rest = record {
  resolved_node_id = some winner.node_id;
  signal = by;
  confidence = winner.score;
  trace = trace;
}

abbrev pub unresolved : List SignalTrace → IdentityResolution
unresolved trace = record {
  resolved_node_id = none;
  signal = no_signal;
  confidence = no_score;
  trace = trace;
}

unfoldable pub canonical_trace : ℕ → Candidate → Graph → SignalTrace
unfolding signal_canonical_label filter_trace_candidates
canonical_trace user_id c g =
    filter_trace_candidates (signal_canonical_label user_id c g) c.exclude_node_ids

unfoldable pub alias_trace : ℕ → Candidate → Graph → SignalTrace
unfolding signal_alias filter_trace_candidates
alias_trace user_id c g = filter_trace_candidates (signal_alias user_id c g) c.exclude_node_ids

unfoldable pub embedding_trace : ℕ → Candidate → Graph → List Similar → SignalTrace
unfolding signal_embedding_sim filter_trace_candidates
embedding_trace user_id c g similar =
    filter_trace_candidates (signal_embedding_sim user_id c g similar) c.exclude_node_ids

unfoldable pub profile_trace : Score → ℕ → Candidate → Graph → List Similar → SignalTrace
unfolding signal_profile_compat embedding_trace filter_trace_candidates
profile_trace threshold user_id c g similar =
    filter_trace_candidates
      (signal_profile_compat threshold user_id c g (embedding_trace user_id c g similar).candidates)
      c.exclude_node_ids

-- The decision of `resolveIdentity` from its four traces.
unfoldable pub decide : SignalTrace → SignalTrace → SignalTrace → SignalTrace → IdentityResolution
unfolding only_candidate best_candidate mark_ambiguous resolved_or
decide label by_alias embedding profile =
    resolved_or canonical_label (only_candidate label) (label ∷ []) (
      resolved_or alias (only_candidate by_alias) (mark_ambiguous label ∷ by_alias ∷ []) (
        resolved_or profile_compat (best_candidate profile)
          (mark_ambiguous label ∷ mark_ambiguous by_alias ∷ embedding ∷ profile ∷ [])
          (unresolved (mark_ambiguous label ∷ mark_ambiguous by_alias ∷ embedding ∷ profile ∷ []))))

-- `resolveIdentity`; the threshold is the one of the profiles.
unfoldable pub resolve_identity :
    Tables → Score → ℕ → Candidate → Graph → List Similar → Result IdentityResolution
unfolding assert_partition_read_allowed decide canonical_trace alias_trace embedding_trace
    profile_trace
resolve_identity t threshold user_id c g similar = do
  assert_partition_read_allowed t user_id c.partition_key partition
  ok (
      decide (canonical_trace user_id c g) (alias_trace user_id c g)
        (embedding_trace user_id c g similar) (profile_trace threshold user_id c g similar))

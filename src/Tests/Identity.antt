-- ===== src/Tests/Identity.antt =====
-- Two people called alike, of whom one has the candidate's scope; and one who is found by the profile.
use mathlib.Core.List.{flat_map}
use assistant_memory.Prelude.{
  ℕ, ◌≡◌, refl, true, false, none, some, List, [], ◌∷◌, ◌==◌, contains, map, ◌↔◌,
}
use assistant_memory.Graph.{
  person, Scope, personal, reference, user, active, attribute, has_goal, same_type, same_predicate,
}
use assistant_memory.Partition.Tables.{ok}
use assistant_memory.Partition.Access.{assert_partition_read_allowed}
use assistant_memory.Identity.Rows.{
  Node, Claim, Graph, Score, reaches, Candidate, CandidateClaim, canonical_label, profile_compat,
  IdentityResolution, Similar,
}
use assistant_memory.Identity.Profile.{
  distinct_keys, overlap, score_of_keys, profile_compatibility_score, profile_claims, sort_scored,
  insert_scored, profile_matches, signal_profile_compat, score_profile,
}
use assistant_memory.Identity.Signals.{
  link_scopes, claim_scopes, scopes_of, has_scope, classify_scope_matches,
  find_nodes_by_canonical_label, signal_canonical_label, find_nodes_by_alias, signal_alias,
  signal_embedding_sim, filter_trace_candidates,
}
use assistant_memory.Identity.Signals.Scoped.{allowed, IsAllowed}
use assistant_memory.Identity.Resolve.{
  only_candidate, best_candidate, resolved_or, canonical_trace, alias_trace, embedding_trace,
  profile_trace, decide, resolve_identity,
}
use assistant_memory.Identity.Resolve.Laws.{resolves-IsAllowed}
use assistant_memory.Identity.Resolve.Label.{label_iff}
use assistant_memory.Identity.Resolve.Evidence.{profile-backed}
use assistant_memory.Tests.Partition.{tables}

abbrev person_of : ℕ → Node
person_of id = record { id = id; user_id = 1; partition_key = some 4; node_type = person }

abbrev goal_of : ℕ → Scope → Claim
goal_of subject scope = record {
  user_id = 1;
  partition_key = some 4;
  status = active;
  subject_node_id = subject;
  object_node_id = none;
  object_value = some 90;
  predicate = attribute has_goal;
  asserted_by_kind = user;
  scope = scope;
}

-- The persons 11 and 12 have the label 5, and 12 is only known of a reference; 13 has another label.
abbrev graph : Graph
graph = record {
  nodes = person_of 11 ∷ person_of 12 ∷ person_of 13 ∷ [];
  metadata =
      record { node_id = 11; canonical_label = some 5 }
      ∷ record { node_id = 12; canonical_label = some 5 }
      ∷ record { node_id = 13; canonical_label = some 6 }
      ∷ [];
  aliases = [];
  links = [];
  sources = [];
  claims = goal_of 12 reference ∷ goal_of 13 personal ∷ [];
}

abbrev stated : CandidateClaim
stated = record {
  predicate = attribute has_goal;
  object_value = some 90;
  object_node_id = none;
  asserted_by_kind = user;
}

abbrev candidate : ℕ → Candidate
candidate label = record {
  normalized_label = label;
  node_type = person;
  scope = personal;
  partition_key = some 4;
  has_embedding = true;
  supporting_claims = stated ∷ [];
  exclude_node_ids = 14 ∷ [];
}

abbrev half : Score
half = record { num = 1; den = 2 }

abbrev similar : List Similar
similar =
    record { id = 12; type = person; similarity = half }
    ∷ record { id = 13; type = person; similarity = half }
    ∷ []

abbrev found_for : ℕ → IdentityResolution
found_for label =
    decide (canonical_trace 1 (candidate label) graph) (alias_trace 1 (candidate label) graph)
      (embedding_trace 1 (candidate label) graph similar)
      (profile_trace half 1 (candidate label) graph similar)

runs :
    (label : ℕ)
    → resolve_identity tables half 1 (candidate label) graph similar ≡ ok (found_for label)
unfolding resolve_identity assert_partition_read_allowed
runs label = refl

label_allowed :
    allowed 1 (candidate 5) graph (find_nodes_by_canonical_label 1 (candidate 5) graph) ≡ 11 ∷ []
unfolding find_nodes_by_canonical_label flat_map has_scope scopes_of link_scopes claim_scopes
    contains same_type
label_allowed = refl

profile_found : ((found_for 9).signal ≡ profile_compat) × ((found_for 9).resolved_node_id ≡ some 13)
unfolding decide canonical_trace alias_trace embedding_trace profile_trace signal_canonical_label
    signal_alias signal_embedding_sim signal_profile_compat profile_matches classify_scope_matches
    find_nodes_by_canonical_label find_nodes_by_alias flat_map has_scope scopes_of link_scopes
    claim_scopes contains same_type filter_trace_candidates only_candidate best_candidate
    resolved_or sort_scored insert_scored profile_compatibility_score distinct_keys score_of_keys
    overlap profile_claims same_predicate
profile_found = (refl, refl)

label_iff_example :
    (((found_for 5).signal ≡ canonical_label) × ((found_for 5).resolved_node_id ≡ some 11)) ↔ (
      ((5 == 0) ≡ false)
      × (allowed 1 (candidate 5) graph (find_nodes_by_canonical_label 1 (candidate 5) graph)
          ≡ 11 ∷ []))
label_iff_example = label_iff tables half 1 (candidate 5) graph similar (found_for 5) 11 (runs 5)

resolves-IsAllowed_example : IsAllowed 1 (candidate 9) graph 13
resolves-IsAllowed_example =
    resolves-IsAllowed tables half 1 (candidate 9) graph similar (found_for 9) 13 (runs 9)
      (profile_found.1)

profile-backed_example :
    (contains (map (λ s. s.id) similar) 13 ≡ true)
    × ((reaches (found_for 9).confidence half ≡ true)
        × ((found_for 9).confidence ≡ score_profile 1 (candidate 9) graph 13))
profile-backed_example =
    profile-backed tables half 1 (candidate 9) graph similar (found_for 9) 13 (runs 9)
      (profile_found.0) (profile_found.1)

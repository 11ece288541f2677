-- ===== src/Identity/Signals.antt =====
-- The signals that look nodes up: `_annotateScope`, the canonical label, the alias and the embedding.
pub mod Laws
pub mod Scoped
use mathlib.Core.List.{flat_map}
use assistant_memory.Prelude.{
  ℕ, Bool, true, false, not, ◌&&◌, ◌||◌, ◌==◌, Option, none, some, List, [], ◌∷◌, ◌++◌, map, filter,
  any, length, take, contains, if◌then◌else◌,
}
use assistant_memory.Graph.{same_type, Scope, personal}
use assistant_memory.Claims.Rows.{is_active}
use assistant_memory.Partition.Tables.{same_key}
use assistant_memory.Identity.Rows.{
  Node, NodeMetadata, Alias, SourceLink, SourceRow, Claim, Graph, Score, Candidate, Signal,
  canonical_label, alias, embedding_sim, SignalCandidate, no_embedding, SignalTrace, Similar,
  same_scope,
}
use assistant_memory.Identity.Profile.{silent, is_any, with_candidates}

abbrev pub one_if {ℓ} : {A : Type ℓ} → Bool → A → List A
one_if true a = a ∷ []
one_if false a = []

-- The scopes of the sources that a link joins to a node.
abbrev pub is_linked_source : ℕ → Option ℕ → SourceLink → SourceRow → Bool
is_linked_source user_id key l s =
    s.id == l.source_id && s.user_id == user_id && same_key s.partition_key key

unfoldable pub link_scopes : ℕ → Option ℕ → Graph → ℕ → List Scope
unfolding flat_map
link_scopes user_id key g node_id =
    flat_map (λ l. map (λ s. s.scope) (filter (is_linked_source user_id key l) g.sources))
      (filter (λ l. l.node_id == node_id) g.links)

abbrev pub is_object : Option ℕ → ℕ → Bool
is_object none node_id = false
is_object (some object) node_id = object == node_id

abbrev pub names_node : Claim → ℕ → Bool
names_node c node_id = c.subject_node_id == node_id || is_object c.object_node_id node_id

-- The scopes of the active claims that name a node.
unfoldable pub claim_scopes : ℕ → Option ℕ → Graph → ℕ → List Scope
claim_scopes user_id key g node_id =
    map (λ c. c.scope)
      (filter
        (λ c.
          c.user_id == user_id
          && same_key c.partition_key key
          && is_active c.status
          && names_node c node_id)
        g.claims)

abbrev pub or_personal : List Scope → List Scope
or_personal [] = personal ∷ []
or_personal (s ∷ ss) = s ∷ ss

-- `_annotateScope` of one node. The set is a list in the order of the insertions.
unfoldable pub scopes_of : ℕ → Option ℕ → Graph → ℕ → List Scope
unfolding link_scopes claim_scopes
scopes_of user_id key g node_id =
    or_personal (link_scopes user_id key g node_id ++ claim_scopes user_id key g node_id)

unfoldable pub has_scope : ℕ → Option ℕ → Graph → Scope → ℕ → Bool
unfolding scopes_of
has_scope user_id key g scope node_id = any (same_scope scope) (scopes_of user_id key g node_id)

-- The scope of `scopes` that a refusal names.
unfoldable pub other_scope : Scope → List Scope → Scope
other_scope scope [] = personal
other_scope scope (s ∷ ss) =
    let rest = other_scope scope ss in if same_scope scope s then rest else s

abbrev pub certain : Score
certain = record { num = 1; den = 1 }

abbrev pub certainly : List ℕ → List SignalCandidate
certainly ids = map (λ id. record { node_id = id; score = certain }) ids

-- No match has the scope: the first of them is refused.
abbrev pub refusal : ℕ → Candidate → Graph → List ℕ → Option (ℕ × Scope)
refusal user_id c g [] = none
refusal user_id c g (id ∷ ids) =
    some (id, other_scope c.scope (scopes_of user_id c.partition_key g id))

abbrev pub in_scope : ℕ → Candidate → Graph → List ℕ → List ℕ
in_scope user_id c g ids = filter (has_scope user_id c.partition_key g c.scope) ids

-- `_classifyScopeMatches`.
unfoldable pub classify_scope_matches : Signal → ℕ → Candidate → Graph → List ℕ → SignalTrace
unfolding other_scope has_scope
classify_scope_matches signal user_id c g ids =
    if is_any (in_scope user_id c g ids)
    then with_candidates signal (certainly (in_scope user_id c g ids))
    else record (silent signal none) { cross_scope_refusal = refusal user_id c g ids }

abbrev pub is_of_candidate : ℕ → Candidate → Node → Bool
is_of_candidate user_id c n =
    n.user_id == user_id
    && same_key n.partition_key c.partition_key
    && same_type n.node_type c.node_type

abbrev pub has_label : ℕ → ℕ → NodeMetadata → Bool
has_label label node_id m = m.node_id == node_id && same_key m.canonical_label (some label)

-- `_findNodesByCanonicalLabel`: a node once for each of its metadata rows that carry the label.
unfoldable pub find_nodes_by_canonical_label : ℕ → Candidate → Graph → List ℕ
unfolding flat_map
find_nodes_by_canonical_label user_id c g =
    flat_map (λ n. map (λ m. n.id) (filter (has_label c.normalized_label n.id) g.metadata))
      (filter (is_of_candidate user_id c) g.nodes)

-- `_signalCanonicalLabel`.
unfoldable pub signal_canonical_label : ℕ → Candidate → Graph → SignalTrace
unfolding classify_scope_matches find_nodes_by_canonical_label
signal_canonical_label user_id c g =
    if c.normalized_label == 0
    then silent canonical_label none
    else classify_scope_matches canonical_label user_id c g
        (find_nodes_by_canonical_label user_id c g)

abbrev pub is_matching_alias : ℕ → Candidate → Alias → Bool
is_matching_alias user_id c a =
    a.user_id == user_id
    && same_key a.partition_key c.partition_key
    && a.normalized_alias_text == c.normalized_label

-- The node that an alias names is of the partition and the type; its user is not asked for.
abbrev pub is_alias_node : Candidate → ℕ → Node → Bool
is_alias_node c node_id n =
    n.id == node_id && same_key n.partition_key c.partition_key && same_type n.node_type c.node_type

unfoldable pub find_nodes_by_alias : ℕ → Candidate → Graph → List ℕ
unfolding flat_map
find_nodes_by_alias user_id c g =
    flat_map
      (λ a. map (λ n. a.canonical_node_id) (filter (is_alias_node c a.canonical_node_id) g.nodes))
      (filter (is_matching_alias user_id c) g.aliases)

-- `_signalAlias`.
unfoldable pub signal_alias : ℕ → Candidate → Graph → SignalTrace
unfolding classify_scope_matches find_nodes_by_alias
signal_alias user_id c g =
    if c.normalized_label == 0
    then silent alias none
    else classify_scope_matches alias user_id c g (find_nodes_by_alias user_id c g)

abbrev pub signal_3_candidate_limit : ℕ
signal_3_candidate_limit = 5

abbrev pub is_similar_of : ℕ → Candidate → Graph → Similar → Bool
is_similar_of user_id c g s =
    same_type s.type c.node_type && has_scope user_id c.partition_key g c.scope s.id

-- `_signalEmbeddingSim`, with the rows of `findSimilarNodes` for the candidate's embedding.
unfoldable pub signal_embedding_sim : ℕ → Candidate → Graph → List Similar → SignalTrace
unfolding has_scope
signal_embedding_sim user_id c g similar =
    if not c.has_embedding
    then silent embedding_sim (some no_embedding)
    else with_candidates embedding_sim (
        map (λ s. record { node_id = s.id; score = s.similarity })
          (take signal_3_candidate_limit (filter (is_similar_of user_id c g) similar)))

abbrev pub is_excluded : List ℕ → SignalCandidate → Bool
is_excluded excluded k = contains excluded k.node_id

abbrev pub filter_candidates : List ℕ → List SignalCandidate → List SignalCandidate
filter_candidates excluded ks = filter (λ k. not (is_excluded excluded k)) ks

-- `_filterTraceCandidates`.
unfoldable pub filter_trace_candidates : SignalTrace → List ℕ → SignalTrace
filter_trace_candidates t [] = t
filter_trace_candidates t (x ∷ xs) =
    if length (filter_candidates (x ∷ xs) t.candidates) == length t.candidates
    then t
    else record t {
      candidates = filter_candidates (x ∷ xs) t.candidates;
      fired = is_any (filter_candidates (x ∷ xs) t.candidates);
    }

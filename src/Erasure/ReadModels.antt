-- ===== src/Erasure/ReadModels.antt =====
-- `eraseSourceReadModels`: what the graph keeps of a set of sources is erased.
pub mod Deleted
pub mod Gone
pub mod Support
use assistant_memory.Prelude.{
  ℕ, Bool, true, false, not, ◌&&◌, ◌||◌, ◌==◌, Option, none, some, List, [], ◌∷◌, ◌++◌, map, filter,
  any, distinct, contains, if◌then◌else◌,
}
use assistant_memory.Erasure.Rows.{
  Link, Claim, Observation, Definition, Presentation, Node, Graph, delete_where, contains_some,
  present, mentions, delete_claims, delete_nodes, delete_definitions,
}
use assistant_memory.Erasure.Derivatives.{erase_partition_derivatives}
use assistant_memory.Erasure.Reviews.{delete_node_rows, erase_metric_definition_review_artifacts}

abbrev pub claim_nodes : List Claim → List ℕ
claim_nodes [] = []
claim_nodes (c ∷ cs) =
    c.subject_node_id ∷ (present (c.object_node_id ∷ c.asserted_by_node_id ∷ []) ++ claim_nodes cs)

abbrev pub of_sources : ℕ → List ℕ → Claim → Bool
of_sources user_id source_ids c = c.user_id == user_id && contains source_ids c.source_id

-- The nodes that the sources link or that their claims mention.
abbrev pub linked_nodes : ℕ → List ℕ → Graph → List ℕ
linked_nodes user_id source_ids g = distinct (
    map (λ l. l.node_id) (filter (λ l. contains source_ids l.source_id) g.links)
    ++ claim_nodes (filter (of_sources user_id source_ids) g.claims))

abbrev pub of_observation : ℕ → List ℕ → Observation → Bool
of_observation user_id source_ids o = o.user_id == user_id && contains source_ids o.source_id

-- The definitions of the user that the sources observe.
abbrev pub observed_definitions : ℕ → List ℕ → Graph → List Definition
observed_definitions user_id source_ids g =
    filter
      (λ d.
        d.user_id == user_id
        && any (λ o. of_observation user_id source_ids o && o.metric_definition_id == d.id)
            g.observations)
      g.definitions

-- Of the locked definitions, those without an observation of the user.
abbrev pub unsupported : ℕ → List ℕ → Graph → List Definition
unsupported user_id locked g =
    filter
      (λ d.
        d.user_id == user_id
        && contains locked d.id
        && not (any (λ o. o.metric_definition_id == d.id && o.user_id == user_id) g.observations))
      g.definitions

-- The definitions, after their embeddings.
abbrev pub drop_definitions : ℕ → List ℕ → Graph → Graph
drop_definitions user_id ids g =
    delete_definitions user_id ids
      record g { definition_embeddings = delete_where (contains ids) g.definition_embeddings }

abbrev pub erase_definitions : ℕ → List Definition → Graph → Graph
erase_definitions user_id [] g = g
erase_definitions user_id (d ∷ ds) g =
    erase_metric_definition_review_artifacts user_id
      (present (map (λ k. k.review_task_node_id) (d ∷ ds)))
      (drop_definitions user_id (map (λ k. k.id) (d ∷ ds)) g)

unfoldable pub erase_observations : ℕ → List ℕ → Graph → Graph
erase_observations user_id source_ids g =
    let locked = map (λ d. d.id) (observed_definitions user_id source_ids g) in
    let without = record g {
      observations = delete_where (of_observation user_id source_ids) g.observations;
    } in
    erase_definitions user_id (unsupported user_id locked without) without

unfoldable pub erase_evidence : ℕ → List ℕ → Graph → Graph
erase_evidence user_id source_ids g =
    let without = delete_claims (of_sources user_id source_ids) g in
    record without {
      links = delete_where (λ l. contains source_ids l.source_id) without.links;
      presentations =
          delete_where (λ p. p.user_id == user_id && contains source_ids p.source_id)
            without.presentations;
    }

-- No link and no claim, of any user, names the node.
abbrev pub is_orphan : Graph → ℕ → Bool
is_orphan g id = not (any (λ l. l.node_id == id) g.links) && not (any (mentions (id ∷ [])) g.claims)

abbrev pub orphans : ℕ → List ℕ → Graph → List ℕ
orphans user_id ids g =
    map (λ k. k.id)
      (filter (λ k. k.user_id == user_id && contains ids k.id && is_orphan g k.id) g.nodes)

unfoldable pub erase_nodes : ℕ → List ℕ → Graph → Graph
erase_nodes user_id [] g = g
erase_nodes user_id (n ∷ ns) g =
    let without = delete_node_rows user_id (n ∷ ns) g in
    delete_nodes user_id (orphans user_id (n ∷ ns) without) without

unfoldable pub erase_source_read_models : ℕ → List ℕ → Graph → Graph
erase_source_read_models user_id source_ids g =
    let linked = linked_nodes user_id source_ids g in
    let (without, node_ids) = erase_partition_derivatives user_id source_ids linked g in
    let erased =
      erase_nodes user_id node_ids
        (erase_evidence user_id source_ids (erase_observations user_id source_ids without)) in
    record erased {
      profiles = delete_where (λ u. u == user_id) erased.profiles;
      rollups = delete_where (λ u. u == user_id) erased.rollups;
    }

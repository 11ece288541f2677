-- ===== src/Erasure/ReadModels/Deleted.antt =====
-- What the deletes of `eraseSourceReadModels` leave, one after the other.
use assistant_memory.Prelude.{
  ◌≡◌, refl, ℕ, false, arith, ◌&&◌, ◌||◌, ◌==◌, List, [], ◌∷◌, map, filter, distinct, contains, All,
  All-map,
}
use assistant_memory.Erasure.Rows.{
  Observation, Definition, Graph, present, node_rows, has_end, delete_nodes, clear_author,
  delete_where,
}
use assistant_memory.Erasure.Rows.Deletes.{All-always, All-delete_self, All-delete}
use assistant_memory.Erasure.Reviews.{
  review_nodes, delete_node_rows, erase_reviewed, erase_metric_definition_review_artifacts,
}
use assistant_memory.Erasure.ReadModels.{
  of_sources, of_observation, observed_definitions, unsupported, drop_definitions,
  erase_definitions, erase_observations, erase_evidence, orphans, erase_nodes,
}

-- No table has a row of the sources.
pub record IsErased (user_id : ℕ) (source_ids : List ℕ) (g : Graph) : Type 0 where
  pub no_link : All (λ l. contains source_ids l.source_id ≡ false) g.links
  pub no_claim : All (λ c. of_sources user_id source_ids c ≡ false) g.claims
  pub no_observation : All (λ o. of_observation user_id source_ids o ≡ false) g.observations
  pub no_presentation :
      All (λ p. (p.user_id == user_id && contains source_ids p.source_id) ≡ false) g.presentations

-- No table describes one of the nodes.
pub record IsSilent (user_id : ℕ) (node_ids : List ℕ) (g : Graph) : Type 0 where
  pub no_metadata : All (λ n. contains node_ids n ≡ false) g.metadata
  pub no_embedding : All (λ n. contains node_ids n ≡ false) g.embeddings
  pub no_alias :
      All (λ a. (a.user_id == user_id && contains node_ids a.canonical_node_id) ≡ false) g.aliases
  pub no_redirect :
      All
        (λ r.
          (r.user_id == user_id
            && (contains node_ids r.to_node_id || contains node_ids r.from_node_id))
          ≡ false)
        g.redirects

reviewed-observations :
    (P : Observation → Type 0) (user_id : ℕ) (ids : List ℕ) (g : Graph)
    → All P g.observations
    → All P (erase_reviewed user_id ids g).observations
reviewed-observations P user_id [] g h = h
reviewed-observations P user_id (n ∷ ns) g h = h

review-observations :
    (P : Observation → Type 0) (user_id : ℕ) (ids : List ℕ) (g : Graph)
    → All P g.observations
    → All P (erase_metric_definition_review_artifacts user_id ids g).observations
unfolding erase_metric_definition_review_artifacts
review-observations P user_id ids g h =
    reviewed-observations P user_id (review_nodes user_id (distinct ids) g) g h

definitions-observations :
    (P : Observation → Type 0) (user_id : ℕ) (ds : List Definition) (g : Graph)
    → All P g.observations
    → All P (erase_definitions user_id ds g).observations
definitions-observations P user_id [] g h = h
definitions-observations P user_id (d ∷ ds) g h =
    let ids = map (λ k. k.id) (d ∷ ds) in
    review-observations P user_id (present (map (λ k. k.review_task_node_id) (d ∷ ds)))
      (drop_definitions user_id ids g)
      (All-delete P
        (λ o.
          contains
            (map (λ k. k.id)
              (filter (λ k. k.user_id == user_id && contains ids k.id) g.definitions))
            o.metric_definition_id)
        g.observations h)

pub observations_gone :
    (user_id : ℕ) (source_ids : List ℕ) (g : Graph)
    → All
        (λ o. of_observation user_id source_ids o ≡ false)
        (erase_observations user_id source_ids g).observations
unfolding erase_observations
observations_gone user_id source_ids g =
    let without = record g {
      observations = delete_where (of_observation user_id source_ids) g.observations;
    } in
    let locked = map (λ d. d.id) (observed_definitions user_id source_ids g) in
    definitions-observations (λ o. of_observation user_id source_ids o ≡ false) user_id
      (unsupported user_id locked without) without
      (All-delete_self (of_observation user_id source_ids) g.observations)

pub erase_evidence-IsErased :
    (user_id : ℕ) (source_ids : List ℕ) (g : Graph)
    → All (λ o. of_observation user_id source_ids o ≡ false) g.observations
    → IsErased user_id source_ids (erase_evidence user_id source_ids g)
unfolding erase_evidence
erase_evidence-IsErased user_id source_ids g h = record {
  no_link = All-delete_self (λ l. contains source_ids l.source_id) g.links;
  no_claim = All-delete_self (of_sources user_id source_ids) g.claims;
  no_observation = h;
  no_presentation =
      All-delete_self (λ p. p.user_id == user_id && contains source_ids p.source_id)
        g.presentations;
}

delete_nodes-IsErased :
    (user_id : ℕ) (source_ids ids : List ℕ) (g : Graph)
    → IsErased user_id source_ids g
    → IsErased user_id source_ids (delete_nodes user_id ids g)
delete_nodes-IsErased user_id source_ids ids g h =
    let rows = node_rows user_id ids g in
    record {
      no_link =
          All-delete (λ l. contains source_ids l.source_id ≡ false) (λ l. contains rows l.node_id)
            g.links h.no_link;
      no_claim =
          All-map (λ c. of_sources user_id source_ids c ≡ false) (clear_author rows)
            (delete_where (has_end rows) g.claims)
            (All-delete (λ c. of_sources user_id source_ids c ≡ false) (has_end rows) g.claims
              h.no_claim);
      no_observation = h.no_observation;
      no_presentation =
          All-delete (λ p. (p.user_id == user_id && contains source_ids p.source_id) ≡ false)
            (λ p. contains rows p.task_id) g.presentations h.no_presentation;
    }

-- The nodes are silent after their rows are deleted, and a later deletion of nodes keeps that.
delete_node_rows-IsSilent :
    (user_id : ℕ) (ids : List ℕ) (g : Graph) → IsSilent user_id ids (delete_node_rows user_id ids g)
delete_node_rows-IsSilent user_id ids g = record {
  no_metadata = All-delete_self (contains ids) g.metadata;
  no_embedding = All-delete_self (contains ids) g.embeddings;
  no_alias =
      All-delete_self (λ a. a.user_id == user_id && contains ids a.canonical_node_id) g.aliases;
  no_redirect =
      All-delete_self
        (λ r. r.user_id == user_id && (contains ids r.to_node_id || contains ids r.from_node_id))
        g.redirects;
}

delete_nodes-IsSilent :
    (user_id : ℕ) (ids orphans : List ℕ) (g : Graph)
    → IsSilent user_id ids g
    → IsSilent user_id ids (delete_nodes user_id orphans g)
delete_nodes-IsSilent user_id ids orphans g h =
    let rows = node_rows user_id orphans g in
    record {
      no_metadata =
          All-delete (λ n. contains ids n ≡ false) (contains rows) g.metadata h.no_metadata;
      no_embedding =
          All-delete (λ n. contains ids n ≡ false) (contains rows) g.embeddings h.no_embedding;
      no_alias =
          All-delete (λ a. (a.user_id == user_id && contains ids a.canonical_node_id) ≡ false)
            (λ a. contains rows a.canonical_node_id) g.aliases h.no_alias;
      no_redirect =
          All-delete
            (λ r.
              (r.user_id == user_id && (contains ids r.to_node_id || contains ids r.from_node_id))
              ≡ false)
            (λ r. contains rows r.to_node_id) g.redirects h.no_redirect;
    }

pub erase_nodes-gone :
    (user_id : ℕ) (source_ids ids : List ℕ) (g : Graph)
    → IsErased user_id source_ids g
    → IsErased user_id source_ids (erase_nodes user_id ids g)
      × IsSilent user_id ids (erase_nodes user_id ids g)
unfolding erase_nodes contains
erase_nodes-gone user_id source_ids [] g h = (
  h,
  record {
    no_metadata = All-always (λ n. false ≡ false) (λ n. refl) g.metadata;
    no_embedding = All-always (λ n. false ≡ false) (λ n. refl) g.embeddings;
    no_alias =
        All-always (λ a. (a.user_id == user_id && false) ≡ false) (λ a. ground arith) g.aliases;
    no_redirect =
        All-always (λ r. (r.user_id == user_id && false) ≡ false) (λ r. ground arith) g.redirects;
  },
)
erase_nodes-gone user_id source_ids (n ∷ ns) g h =
    let without = delete_node_rows user_id (n ∷ ns) g in
    let kept : IsErased user_id source_ids without = record {
      no_link = h.no_link;
      no_claim = h.no_claim;
      no_observation = h.no_observation;
      no_presentation = h.no_presentation;
    } in
    (
      delete_nodes-IsErased user_id source_ids (orphans user_id (n ∷ ns) without) without kept,
      delete_nodes-IsSilent user_id (n ∷ ns) (orphans user_id (n ∷ ns) without) without
          (delete_node_rows-IsSilent user_id (n ∷ ns) g),
    )

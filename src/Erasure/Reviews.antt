-- ===== src/Erasure/Reviews.antt =====
-- `eraseMetricDefinitionReviewArtifacts` and `redactReviewArtifactFeedEvents`: the tasks that were
-- generated to review a metric definition that is gone.
use assistant_memory.Prelude.{
  ℕ, Bool, false, not, ◌&&◌, ◌||◌, ◌==◌, Option, none, some, List, [], ◌∷◌, map, filter, any,
  distinct, contains, if◌then◌else◌,
}
use assistant_memory.Erasure.Rows.{
  Link, Claim, SourceRow, EntityType, node_entity, commitment_entity, claim_entity,
  source_link_entity, other_entity, redacted, tombstoned, FeedEvent, Graph, delete_where,
  contains_some, mentions, delete_claims, delete_nodes,
}

-- The link belongs to a source that is not the generic manual one.
abbrev pub is_evidence : List SourceRow → Link → Bool
is_evidence sources l = any (λ s. s.id == l.source_id && not s.is_manual) sources

-- No definition has the node as its review task, and no other source owns it.
abbrev pub is_review_node : Graph → ℕ → Bool
is_review_node g id =
    not (any (λ d. contains_some (id ∷ []) d.review_task_node_id) g.definitions)
    && not (any (λ l. l.node_id == id && is_evidence g.sources l) g.links)

abbrev pub review_nodes : ℕ → List ℕ → Graph → List ℕ
review_nodes user_id candidate_node_ids g =
    map (λ n. n.id)
      (filter
        (λ n. n.user_id == user_id && contains candidate_node_ids n.id && is_review_node g n.id)
        g.nodes)

abbrev pub is_review_event : List ℕ → List ℕ → List ℕ → EntityType → Option ℕ → Bool
is_review_event node_ids claim_ids link_ids node_entity id = contains_some node_ids id
is_review_event node_ids claim_ids link_ids commitment_entity id = contains_some node_ids id
is_review_event node_ids claim_ids link_ids claim_entity id = contains_some claim_ids id
is_review_event node_ids claim_ids link_ids source_link_entity id = contains_some link_ids id
is_review_event node_ids claim_ids link_ids other_entity id = false

abbrev pub redact : FeedEvent → FeedEvent
redact e = record e {
  payload = redacted;
  provenance = none;
  freshness = none;
  status = some tombstoned;
}

unfoldable pub redact_review_artifact_feed_events :
    ℕ → List ℕ → List ℕ → List ℕ → List FeedEvent → List FeedEvent
redact_review_artifact_feed_events user_id node_ids claim_ids link_ids events =
    map
      (λ e.
        if e.user_id == user_id
          && is_review_event node_ids claim_ids link_ids e.entity_type e.entity_id
        then redact e
        else e)
      events

-- The rows that hang on the nodes, deleted before the nodes.
abbrev pub delete_node_rows : ℕ → List ℕ → Graph → Graph
delete_node_rows user_id ids g = record g {
  metadata = delete_where (contains ids) g.metadata;
  embeddings = delete_where (contains ids) g.embeddings;
  aliases = delete_where (λ a. a.user_id == user_id && contains ids a.canonical_node_id) g.aliases;
  redirects =
      delete_where
        (λ r. r.user_id == user_id && (contains ids r.to_node_id || contains ids r.from_node_id))
        g.redirects;
}

abbrev pub erase_review_nodes : ℕ → List ℕ → Graph → Graph
erase_review_nodes user_id ids g =
    let about : Claim → Bool = λ c. c.user_id == user_id && mentions ids c in
    let review_claims = map (λ c. c.id) (filter about g.claims) in
    let review_links = map (λ l. l.id) (filter (λ l. contains ids l.node_id) g.links) in
    let cleared = delete_nodes user_id ids (delete_node_rows user_id ids (delete_claims about g)) in
    record cleared {
      events =
          redact_review_artifact_feed_events user_id ids review_claims review_links cleared.events;
    }

-- Without review nodes, nothing changes.
abbrev pub erase_reviewed : ℕ → List ℕ → Graph → Graph
erase_reviewed user_id [] g = g
erase_reviewed user_id (n ∷ ns) g = erase_review_nodes user_id (n ∷ ns) g

unfoldable pub erase_metric_definition_review_artifacts : ℕ → List ℕ → Graph → Graph
erase_metric_definition_review_artifacts user_id candidate_node_ids g =
    erase_reviewed user_id (review_nodes user_id (distinct candidate_node_ids) g) g

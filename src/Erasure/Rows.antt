-- ===== src/Erasure/Rows.antt =====
-- The tables that an erasure reads and writes (src/db/schema.ts).
--
-- Ids, keys, users and texts are numbers; a row has the columns that the erasure reads, and the triggers
-- that append to the change feed are left out.
pub mod Deletes
use assistant_memory.Prelude.{
  ℕ, Bool, true, false, not, ◌&&◌, ◌||◌, ◌==◌, Option, none, some, List, [], ◌∷◌, ◌++◌, map, filter,
  any, contains, if◌then◌else◌,
}

-- `source_links`: the source says something of the node.
pub record Link : Type 0 where
  pub id : ℕ
  pub source_id : ℕ
  pub node_id : ℕ

pub record Claim : Type 0 where
  pub id : ℕ
  pub user_id : ℕ
  pub source_id : ℕ
  pub subject_node_id : ℕ
  pub object_node_id : Option ℕ
  pub asserted_by_node_id : Option ℕ

pub record Observation : Type 0 where
  pub user_id : ℕ
  pub metric_definition_id : ℕ
  pub source_id : ℕ

pub record Definition : Type 0 where
  pub id : ℕ
  pub user_id : ℕ
  pub review_task_node_id : Option ℕ

pub record Presentation : Type 0 where
  pub user_id : ℕ
  pub task_id : ℕ
  pub source_id : ℕ

pub record Alias : Type 0 where
  pub user_id : ℕ
  pub canonical_node_id : ℕ

pub record Redirect : Type 0 where
  pub user_id : ℕ
  pub from_node_id : ℕ
  pub to_node_id : ℕ

pub record Node : Type 0 where
  pub id : ℕ
  pub user_id : ℕ

-- `sources`, with whether the type is `manual`.
pub record SourceRow : Type 0 where
  pub id : ℕ
  pub is_manual : Bool

pub data EntityType : Type 0 where
  node_entity commitment_entity claim_entity source_link_entity other_entity : EntityType

-- The payload of a feed event: what it was written with, or what the redaction puts there.
pub data Payload : Type 0 where
  written : ℕ → Payload
  redacted : Payload

pub data EventStatus : Type 0 where
  tombstoned other_status : EventStatus

pub record FeedEvent : Type 0 where
  pub user_id : ℕ
  pub entity_type : EntityType
  pub entity_id : Option ℕ
  pub payload : Payload
  pub provenance : Option ℕ
  pub freshness : Option ℕ
  pub status : Option EventStatus

pub record NodeMapping : Type 0 where
  pub source_node_id : ℕ
  pub partition_key : ℕ
  pub replacement_node_id : ℕ

-- `partition_node_mappings`.
pub record Mapping : Type 0 where
  pub user_id : ℕ
  pub source_node_id : ℕ
  pub partition_key : ℕ
  pub replacement_node_id : Option ℕ
  pub source_id : ℕ

-- `partition_artifact_receipts`.
pub record Receipt : Type 0 where
  pub user_id : ℕ
  pub source_node_id : ℕ
  pub partition_key : ℕ

-- `source_partition_commands`.
pub record PartitionCommand : Type 0 where
  pub user_id : ℕ
  pub binding_generation : ℕ
  pub source_id : ℕ
  pub source_ids : List ℕ
  pub node_mappings : List NodeMapping

-- `node_metadata` and `node_embeddings` by their node, `claim_embeddings` by their claim,
-- `metric_definition_embeddings` by their definition, `user_profiles` and `rollup_state` by their user.
pub record Graph : Type 0 where
  pub sources : List SourceRow
  pub links : List Link
  pub claims : List Claim
  pub claim_embeddings : List ℕ
  pub observations : List Observation
  pub definitions : List Definition
  pub definition_embeddings : List ℕ
  pub presentations : List Presentation
  pub metadata : List ℕ
  pub embeddings : List ℕ
  pub aliases : List Alias
  pub redirects : List Redirect
  pub nodes : List Node
  pub profiles : List ℕ
  pub rollups : List ℕ
  pub events : List FeedEvent
  pub mappings : List Mapping
  pub receipts : List Receipt
  pub commands : List PartitionCommand

-- `delete … where`: the rows that the test does not select.
abbrev pub delete_where {ℓ} : {A : Type ℓ} → (A → Bool) → List A → List A
delete_where p xs = filter (λ x. not (p x)) xs

-- `inArray` on a column that may be null.
abbrev pub contains_some : List ℕ → Option ℕ → Bool
contains_some ids none = false
contains_some ids (some id) = contains ids id

-- The ids of a column that are not null.
abbrev pub present : List (Option ℕ) → List ℕ
present [] = []
present (none ∷ os) = present os
present (some id ∷ os) = id ∷ present os

-- `subject`, `object` or `asserted by` is among the nodes.
abbrev pub mentions : List ℕ → Claim → Bool
mentions ids c =
    contains ids c.subject_node_id
    || contains_some ids c.object_node_id
    || contains_some ids c.asserted_by_node_id

-- `onDelete: "set null"`.
abbrev pub clear : List ℕ → Option ℕ → Option ℕ
clear ids none = none
clear ids (some id) = if contains ids id then none else some id

abbrev pub clear_author : List ℕ → Claim → Claim
clear_author ids c = record c { asserted_by_node_id = clear ids c.asserted_by_node_id }

abbrev pub clear_task : List ℕ → Definition → Definition
clear_task ids d = record d { review_task_node_id = clear ids d.review_task_node_id }

-- Claims go with their embeddings.
abbrev pub delete_claims : (Claim → Bool) → Graph → Graph
delete_claims p g =
    let gone = map (λ c. c.id) (filter p g.claims) in
    record g {
      claims = delete_where p g.claims;
      claim_embeddings = delete_where (contains gone) g.claim_embeddings;
    }

-- The nodes that a deletion finds.
abbrev pub node_rows : ℕ → List ℕ → Graph → List ℕ
node_rows user_id ids g =
    map (λ n. n.id) (filter (λ n. n.user_id == user_id && contains ids n.id) g.nodes)

abbrev pub has_end : List ℕ → Claim → Bool
has_end ids c = contains ids c.subject_node_id || contains_some ids c.object_node_id

-- Nodes go with every row that a foreign key with `cascade` hangs on them.
abbrev pub delete_nodes : ℕ → List ℕ → Graph → Graph
delete_nodes user_id ids g =
    let rows = node_rows user_id ids g in
    let h = delete_claims (has_end rows) g in
    record h {
      nodes = delete_where (λ n. n.user_id == user_id && contains ids n.id) h.nodes;
      claims = map (clear_author rows) h.claims;
      links = delete_where (λ l. contains rows l.node_id) h.links;
      metadata = delete_where (contains rows) h.metadata;
      embeddings = delete_where (contains rows) h.embeddings;
      aliases = delete_where (λ a. contains rows a.canonical_node_id) h.aliases;
      redirects = delete_where (λ r. contains rows r.to_node_id) h.redirects;
      presentations = delete_where (λ p. contains rows p.task_id) h.presentations;
      definitions = map (clear_task rows) h.definitions;
    }

-- Definitions go with their embeddings and observations.
abbrev pub delete_definitions : ℕ → List ℕ → Graph → Graph
delete_definitions user_id ids g =
    let rows =
      map (λ d. d.id) (filter (λ d. d.user_id == user_id && contains ids d.id) g.definitions) in
    record g {
      definitions = delete_where (λ d. d.user_id == user_id && contains ids d.id) g.definitions;
      definition_embeddings = delete_where (contains rows) g.definition_embeddings;
      observations = delete_where (λ o. contains rows o.metric_definition_id) g.observations;
    }

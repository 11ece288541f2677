-- ===== src/Tests/Erasure.antt =====
-- Source 5 of user 1 links node 7 and is behind the copy of node 7 as node 9 in partition 2; source 6
-- says that node 7 is tied to node 8.
use mathlib.Core.List.{Memᴰ}
use assistant_memory.Prelude.{
  ℕ, ◌==◌, List, ◌≡◌, refl, ◌↔◌, true, false, none, some, [], ◌∷◌, contains, distinct,
}
use assistant_memory.Erasure.Rows.{Claim, Node, Mapping, PartitionCommand, Graph}
use assistant_memory.Erasure.Walk.{touches, add_nodes, walk_from}
use assistant_memory.Erasure.Walk.Ends.{walk_from-ends}
use assistant_memory.Erasure.Walk.Exact.{IsReached, by_source, walk_from-exact}
use assistant_memory.Erasure.Derivatives.{
  mapping_edge, command_edge, edges, erase_partition_derivatives,
}
use assistant_memory.Erasure.Derivatives.Leaves.{erase_partition_derivatives-leaves}
use assistant_memory.Erasure.ReadModels.{
  is_orphan, linked_nodes, erase_source_read_models, erase_observations, erase_evidence,
  erase_nodes,
}
use assistant_memory.Erasure.ReadModels.Gone.{erase_source_read_models-gone}
use assistant_memory.Erasure.ReadModels.Deleted.{IsErased, IsSilent}
use assistant_memory.Erasure.ReadModels.Support.{erase_source_read_models-supported}

abbrev copy : Mapping
copy = record {
  user_id = 1;
  source_node_id = 7;
  partition_key = 2;
  replacement_node_id = some 9;
  source_id = 5;
}

abbrev apart : Mapping
apart = record {
  user_id = 1;
  source_node_id = 20;
  partition_key = 2;
  replacement_node_id = none;
  source_id = 6;
}

abbrev distant : PartitionCommand
distant = record {
  user_id = 1;
  binding_generation = 3;
  source_id = 6;
  source_ids = 6 ∷ [];
  node_mappings = [];
}

abbrev tied : Claim
tied = record {
  id = 31;
  user_id = 1;
  source_id = 6;
  subject_node_id = 7;
  object_node_id = some 8;
  asserted_by_node_id = none;
}

abbrev pub graph : Graph
graph = record {
  sources = record { id = 5; is_manual = false } ∷ record { id = 6; is_manual = false } ∷ [];
  links = record { id = 41; source_id = 5; node_id = 7 } ∷ [];
  claims = tied ∷ [];
  claim_embeddings = 31 ∷ [];
  observations = [];
  definitions = [];
  definition_embeddings = [];
  presentations = [];
  metadata = 7 ∷ 8 ∷ 9 ∷ [];
  embeddings = 7 ∷ 9 ∷ [];
  aliases = [];
  redirects = [];
  nodes =
      record { id = 7; user_id = 1 }
      ∷ record { id = 8; user_id = 1 }
      ∷ record { id = 9; user_id = 1 }
      ∷ [];
  profiles = 1 ∷ [];
  rollups = [];
  events = [];
  mappings = copy ∷ apart ∷ [];
  receipts = [];
  commands = distant ∷ [];
}

copy-IsReached : IsReached (5 ∷ []) (linked_nodes 1 (5 ∷ []) graph) (edges 1 graph) 9
unfolding contains
copy-IsReached = by_source 9 (mapping_edge copy) (Memᴰ.head refl) refl refl

erase_source_read_models-gone_example :
    IsErased 1 (5 ∷ []) (erase_source_read_models 1 (5 ∷ []) graph)
    × IsSilent 1 (9 ∷ []) (erase_source_read_models 1 (5 ∷ []) graph)
erase_source_read_models-gone_example =
    erase_source_read_models-gone 1 (5 ∷ []) graph 9 copy-IsReached

abbrev shared : Node
shared = record { id = 7; user_id = 1 }

shared-IsReached : IsReached (5 ∷ []) (linked_nodes 1 (5 ∷ []) graph) (edges 1 graph) 7
unfolding contains
shared-IsReached = by_source 7 (mapping_edge copy) (Memᴰ.head refl) refl refl

shared_stays : Memᴰ shared (erase_source_read_models 1 (5 ∷ []) graph).nodes
unfolding erase_source_read_models erase_partition_derivatives walk_from touches add_nodes contains
    distinct erase_observations erase_evidence erase_nodes
shared_stays = Memᴰ.head refl

erase_source_read_models-supported_example :
    is_orphan (erase_source_read_models 1 (5 ∷ []) graph) 7 ≡ false
erase_source_read_models-supported_example =
    erase_source_read_models-supported 1 (5 ∷ []) graph shared shared_stays refl shared-IsReached

apart_stays : Memᴰ apart (erase_partition_derivatives 1 (5 ∷ []) (7 ∷ []) graph).0.mappings
unfolding erase_partition_derivatives walk_from touches add_nodes contains
apart_stays = Memᴰ.head refl

distant_stays : Memᴰ distant (erase_partition_derivatives 1 (5 ∷ []) (7 ∷ []) graph).0.commands
unfolding erase_partition_derivatives walk_from touches add_nodes contains
distant_stays = Memᴰ.head refl

abbrev after_erasure : Graph × List ℕ
after_erasure = erase_partition_derivatives 1 (5 ∷ []) (7 ∷ []) graph

erase_partition_derivatives-leaves_example :
    ((m : Mapping)
      → Memᴰ m after_erasure.0.mappings
      → (m.user_id == 1) ≡ true
      → touches (5 ∷ []) after_erasure.1 (mapping_edge m) ≡ false)
    × ((c : PartitionCommand)
        → Memᴰ c after_erasure.0.commands
        → (c.user_id == 1) ≡ true
        → touches (5 ∷ []) after_erasure.1 (command_edge c) ≡ false)
erase_partition_derivatives-leaves_example =
    erase_partition_derivatives-leaves 1 (5 ∷ []) (7 ∷ []) graph

walk_from-ends_example : (walk_from (5 ∷ []) (7 ∷ []) (edges 1 graph)).changed ≡ false
walk_from-ends_example = walk_from-ends (5 ∷ []) (7 ∷ []) (edges 1 graph)

walk_from-exact_example :
    (contains (walk_from (5 ∷ []) (7 ∷ []) (edges 1 graph)).nodes 9 ≡ true)
    ↔ IsReached (5 ∷ []) (7 ∷ []) (edges 1 graph) 9
walk_from-exact_example = walk_from-exact (5 ∷ []) (7 ∷ []) (edges 1 graph) 9

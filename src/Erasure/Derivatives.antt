-- ===== src/Erasure/Derivatives.antt =====
-- `erasePartitionDerivatives`: the mappings, receipts and commands that could bring a source back.
pub mod Leaves
use assistant_memory.Prelude.{
  ℕ, Bool, true, false, not, ◌&&◌, ◌||◌, ◌==◌, Option, none, some, List, [], ◌∷◌, ◌++◌, map, filter,
  any, contains, if◌then◌else◌,
}
use assistant_memory.Erasure.Rows.{
  Mapping, Receipt, PartitionCommand, NodeMapping, Graph, delete_where,
}
use assistant_memory.Erasure.Walk.{Edge, Flagged, Walk, walk_from}

abbrev pub mapping_edge : Mapping → Edge
mapping_edge m = record {
  sources = m.source_id ∷ [];
  nodes = m.source_node_id ∷ elim m.replacement_node_id [ none ↦ [] | some r ↦ r ∷ [] ];
}

abbrev pub mapping_nodes : List NodeMapping → List ℕ
mapping_nodes [] = []
mapping_nodes (m ∷ ms) = m.source_node_id ∷ m.replacement_node_id ∷ mapping_nodes ms

abbrev pub command_edge : PartitionCommand → Edge
command_edge c = record {
  sources = c.source_id ∷ c.source_ids;
  nodes = mapping_nodes c.node_mappings;
}

abbrev pub mappings_of : ℕ → Graph → List Mapping
mappings_of user_id g = filter (λ m. m.user_id == user_id) g.mappings

abbrev pub commands_of : ℕ → Graph → List PartitionCommand
commands_of user_id g = filter (λ c. c.user_id == user_id) g.commands

-- The mappings and then the commands, in the order of the loops.
abbrev pub edges : ℕ → Graph → List Edge
edges user_id g =
    map mapping_edge (mappings_of user_id g) ++ map command_edge (commands_of user_id g)

-- The rows at the front of the walk's edges that are affected.
abbrev pub affected {ℓ} : {A : Type ℓ} → List A → List Flagged → List A
affected [] fs = []
affected (x ∷ xs) [] = []
affected (x ∷ xs) (f ∷ fs) = let rest = affected xs fs in if f.affected then x ∷ rest else rest

-- The edges behind those of the rows.
abbrev pub behind {ℓ} : {A : Type ℓ} → List A → List Flagged → List Flagged
behind [] fs = fs
behind (x ∷ xs) [] = []
behind (x ∷ xs) (f ∷ fs) = behind xs fs

-- `eq` on the user and on the primary key of a mapping.
abbrev pub is_mapping : ℕ → Mapping → Mapping → Bool
is_mapping user_id m row =
    row.user_id == user_id
    && row.source_node_id == m.source_node_id
    && row.partition_key == m.partition_key

abbrev pub is_command : ℕ → PartitionCommand → PartitionCommand → Bool
is_command user_id c row = row.user_id == user_id && row.binding_generation == c.binding_generation

-- The keys of the receipts: a node and a partition.
abbrev pub node_keys : List NodeMapping → List (ℕ × ℕ)
node_keys [] = []
node_keys (m ∷ ms) = (m.source_node_id, m.partition_key) ∷ node_keys ms

abbrev pub command_keys : List PartitionCommand → List (ℕ × ℕ)
command_keys [] = []
command_keys (c ∷ cs) = node_keys c.node_mappings ++ command_keys cs

abbrev pub receipt_keys : List Mapping → List PartitionCommand → List (ℕ × ℕ)
receipt_keys ms cs = map (λ m. (m.source_node_id, m.partition_key)) ms ++ command_keys cs

abbrev pub is_receipt : ℕ → Receipt → ℕ × ℕ → Bool
is_receipt user_id r key =
    r.user_id == user_id && r.source_node_id == key.0 && r.partition_key == key.1

unfoldable pub erase_partition_derivatives : ℕ → List ℕ → List ℕ → Graph → Graph × List ℕ
erase_partition_derivatives user_id source_ids linked_node_ids g =
    let ms = mappings_of user_id g in
    let cs = commands_of user_id g in
    let end = walk_from source_ids linked_node_ids (edges user_id g) in
    let affected_mappings = affected ms end.edges in
    let affected_commands = affected cs (behind ms end.edges) in
    (
      record g {
        mappings =
            delete_where (λ row. any (λ m. is_mapping user_id m row) affected_mappings) g.mappings;
        receipts =
            delete_where
              (λ row.
                any (is_receipt user_id row) (receipt_keys affected_mappings affected_commands))
              g.receipts;
        commands =
            delete_where (λ row. any (λ c. is_command user_id c row) affected_commands) g.commands;
      },
      end.nodes,
    )

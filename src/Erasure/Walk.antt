-- ===== src/Erasure/Walk.antt =====
-- The fixed point of `erasePartitionDerivatives`: what the deleted sources reach.
--
-- A mapping and a command are both an edge: the sources that touch it, and the nodes that it ties. The
-- loop runs on fuel; Walk/Ends shows how much is enough.
pub mod Ends
pub mod Closed
pub mod Exact
use assistant_memory.Prelude.{
  ℕ, zero, suc, Bool, true, false, not, ◌&&◌, ◌||◌, List, [], ◌∷◌, any, contains, length,
  if◌then◌else◌, map,
}

pub record Edge : Type 0 where
  pub sources : List ℕ
  pub nodes : List ℕ

-- An edge, and whether its index is in `affectedMappings` or `affectedCommands`.
pub record Flagged : Type 0 where
  pub edge : Edge
  pub affected : Bool

-- `affectedNodeIds`, the edges, and `changed`.
pub record Walk : Type 0 where
  pub nodes : List ℕ
  pub edges : List Flagged
  pub changed : Bool

-- `touchesDeletedSource || touchesAffectedNode`.
unfoldable pub touches : List ℕ → List ℕ → Edge → Bool
touches deleted nodes e = any (contains deleted) e.sources || any (contains nodes) e.nodes

-- The loop that adds the nodes which are not in the set.
unfoldable pub add_nodes : List ℕ → List ℕ → List ℕ
add_nodes nodes [] = nodes
add_nodes nodes (n ∷ ns) = add_nodes (if contains nodes n then nodes else n ∷ nodes) ns

abbrev pub has_new : List ℕ → List ℕ → Bool
has_new nodes ns = any (λ n. not (contains nodes n)) ns

-- One round of the `while` loop, through the mappings and then the commands.
unfoldable pub pass : List ℕ → List ℕ → List Flagged → Walk
pass deleted nodes [] = record { nodes = nodes; edges = []; changed = false }
pass deleted nodes (f ∷ fs) =
    let hit = touches deleted nodes f.edge in
    let rest = pass deleted (if hit then add_nodes nodes f.edge.nodes else nodes) fs in
    record {
      nodes = rest.nodes;
      edges = record { edge = f.edge; affected = f.affected || hit } ∷ rest.edges;
      changed = (hit && (not f.affected || has_new nodes f.edge.nodes)) || rest.changed;
    }

unfoldable pub walk : ℕ → List ℕ → List ℕ → List Flagged → Walk
unfolding pass
walk zero deleted nodes fs = record { nodes = nodes; edges = fs; changed = true }
walk (suc fuel) deleted nodes fs =
    let p = pass deleted nodes fs in
    elim p.changed [ true ↦ walk fuel deleted p.nodes p.edges | false ↦ p ]

abbrev pub unaffected : Edge → Flagged
unaffected e = record { edge = e; affected = false }

-- The loop from the start, with the fuel that it needs.
unfoldable pub walk_from : List ℕ → List ℕ → List Edge → Walk
unfolding walk
walk_from deleted linked edges = walk (suc (length edges)) deleted linked (map unaffected edges)

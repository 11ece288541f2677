-- ===== src/Graph.antt =====
-- src/types/graph.ts: the enumerations of the memory graph.
use assistant_memory.Prelude.{Bool, true, false, ◌≡◌, List, [], ◌∷◌, ◌||◌, arith}

pub data NodeType : Type 0 where
  person organization location event object emotion concept media temporal : NodeType
  conversation atlas assistant_dream document feedback idea task : NodeType

pub data ClaimStatus : Type 0 where
  active superseded contradicted retracted : ClaimStatus

pub data Scope : Type 0 where
  personal reference : Scope

pub data AssertedByKind : Type 0 where
  user user_confirmed assistant_inferred participant document_author system : AssertedByKind

pub data TaskStatus : Type 0 where
  pending in_progress done abandoned : TaskStatus

pub data AttributePredicate : Type 0 where
  has_status has_task_status has_preference has_goal made_decision has_attribute :
      AttributePredicate

pub data RelationshipPredicate : Type 0 where
  participated_in occurred_at occurred_on recorded_on involved_item exhibited_emotion :
      RelationshipPredicate
  tagged_with assigned_to due_on precedes follows works_at founded created : RelationshipPredicate
  located_in part_of uses owns affiliated_with related_to : RelationshipPredicate

-- `PredicateEnum` is the union of the two enumerations, whose members do not overlap.
pub data Predicate : Type 0 where
  attribute : AttributePredicate → Predicate
  relationship : RelationshipPredicate → Predicate

NodeType-discrete : Discrete NodeType
NodeType-discrete = hlevel

Predicate-discrete : Discrete Predicate
Predicate-discrete = hlevel

-- `===` on node types.
unfoldable pub same_type : NodeType → NodeType → Bool
unfolding NodeType-discrete
same_type a b = elim (NodeType-discrete a b) [ yes _ ↦ true | no _ ↦ false ]

-- `===` on predicates.
unfoldable pub same_predicate : Predicate → Predicate → Bool
unfolding Predicate-discrete
same_predicate a b = elim (Predicate-discrete a b) [ yes _ ↦ true | no _ ↦ false ]

pub same_type→eq : (a b : NodeType) → same_type a b ≡ true → a ≡ b
unfolding same_type
same_type→eq a b h = ground arith

pub same_predicate→eq : (a b : Predicate) → same_predicate a b ≡ true → a ≡ b
unfolding same_predicate
same_predicate→eq a b h = ground arith

pub same_type_refl : (a : NodeType) → same_type a a ≡ true
unfolding same_type
same_type_refl a = ground arith

pub same_predicate_refl : (a : Predicate) → same_predicate a a ≡ true
unfolding same_predicate
same_predicate_refl a = ground arith

-- `Array.prototype.includes` on node types.
unfoldable pub includes : List NodeType → NodeType → Bool
unfolding same_type
includes [] t = false
includes (x ∷ xs) t = same_type x t || includes xs t

-- `LABEL_MERGEABLE_NODE_TYPES`.
abbrev pub label_mergeable_node_types : List NodeType
label_mergeable_node_types =
    person ∷ organization ∷ location ∷ object ∷ emotion ∷ concept ∷ media ∷ temporal ∷ []

-- `isLabelMergeableNodeType`.
unfoldable pub is_label_mergeable_node_type : NodeType → Bool
unfolding includes
is_label_mergeable_node_type t = includes label_mergeable_node_types t

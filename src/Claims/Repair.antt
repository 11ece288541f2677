-- ===== src/Claims/Repair.antt =====
-- src/lib/claims/predicate-shape-repair.ts: proposals that mend a relationship of a wrong shape.
pub mod Laws
use assistant_memory.Prelude.{
  ℕ, Bool, true, false, ◌&&◌, Option, none, some, List, [], ◌∷◌, if◌then◌else◌,
}
use assistant_memory.Graph.{
  NodeType, person, organization, location, object, concept, media, atlas, task, Predicate,
  RelationshipPredicate, assigned_to, owns, related_to, same_type, includes,
}
use assistant_memory.Claims.Shapes.{
  is_relationship_predicate_shape_allowed, relationship_predicate_from,
}

pub record PredicateShapeRepairEndpoint : Type 0 where
  pub node_id : ℕ
  pub type : NodeType

-- `Predicate | "OWNED_BY"`.
pub data InputPredicate : Type 0 where
  known : Predicate → InputPredicate
  owned_by : InputPredicate

pub record PredicateShapeRepairInput : Type 0 where
  pub claim_id : ℕ
  pub predicate : InputPredicate
  pub statement : ℕ
  pub subject : PredicateShapeRepairEndpoint
  pub object : Option PredicateShapeRepairEndpoint

pub record PredicateShapeRepairReplacement : Type 0 where
  pub predicate : RelationshipPredicate
  pub subject_node_id : ℕ
  pub object_node_id : ℕ
  pub statement : ℕ

-- The reason strings.
pub data Reason : Type 0 where
  legacy_task_assignment legacy_task_assignment_inverted legacy_passive_ownership : Reason
  legacy_active_ownership legacy_ambiguous_ownership valid_when_inverted : Reason

pub record PredicateShapeRepairProposal : Type 0 where
  pub claim_id : ℕ
  pub reason : Reason
  pub replacement : PredicateShapeRepairReplacement

-- This module has its own copies of the two lists.
abbrev pub owner_types : List NodeType
owner_types = person ∷ organization ∷ concept ∷ object ∷ []

abbrev pub ownable_types : List NodeType
ownable_types = organization ∷ location ∷ object ∷ concept ∷ media ∷ atlas ∷ []

abbrev pub replacement_for :
    RelationshipPredicate
    → PredicateShapeRepairEndpoint
    → PredicateShapeRepairEndpoint
    → ℕ
    → PredicateShapeRepairReplacement
replacement_for p subj obj text = record {
  predicate = p;
  subject_node_id = subj.node_id;
  object_node_id = obj.node_id;
  statement = text;
}

abbrev pub proposal : ℕ → Reason → PredicateShapeRepairReplacement → PredicateShapeRepairProposal
proposal id why r = record { claim_id = id; reason = why; replacement = r }

-- `proposeOwnedByRepair`.
unfoldable pub propose_owned_by_repair :
    ℕ
    → ℕ
    → PredicateShapeRepairEndpoint
    → PredicateShapeRepairEndpoint
    → PredicateShapeRepairProposal
propose_owned_by_repair id text subj obj =
    if same_type subj.type task && same_type obj.type person
    then proposal id legacy_task_assignment (replacement_for assigned_to subj obj text)
    else if same_type subj.type person && same_type obj.type task
    then proposal id legacy_task_assignment_inverted (replacement_for assigned_to obj subj text)
    else if includes ownable_types subj.type && includes owner_types obj.type
    then proposal id legacy_passive_ownership (replacement_for owns obj subj text)
    else if includes owner_types subj.type && includes ownable_types obj.type
    then proposal id legacy_active_ownership (replacement_for owns subj obj text)
    else proposal id legacy_ambiguous_ownership (replacement_for related_to subj obj text)

-- The part of `proposeRelationshipPredicateShapeRepair` after the predicate is known.
unfoldable pub propose_inversion :
    RelationshipPredicate
    → ℕ
    → ℕ
    → PredicateShapeRepairEndpoint
    → PredicateShapeRepairEndpoint
    → Option PredicateShapeRepairProposal
propose_inversion p id text subj obj =
    if is_relationship_predicate_shape_allowed p subj.type obj.type
    then none
    else if is_relationship_predicate_shape_allowed p obj.type subj.type
    then some (proposal id valid_when_inverted (replacement_for p obj subj text))
    else none

abbrev pub propose_known :
    Option RelationshipPredicate
    → ℕ
    → ℕ
    → PredicateShapeRepairEndpoint
    → PredicateShapeRepairEndpoint
    → Option PredicateShapeRepairProposal
propose_known none id text subj obj = none
propose_known (some p) id text subj obj = propose_inversion p id text subj obj

abbrev pub propose_for :
    InputPredicate
    → ℕ
    → ℕ
    → PredicateShapeRepairEndpoint
    → PredicateShapeRepairEndpoint
    → Option PredicateShapeRepairProposal
propose_for owned_by id text subj obj = some (propose_owned_by_repair id text subj obj)
propose_for (known p) id text subj obj =
    propose_known (relationship_predicate_from p) id text subj obj

abbrev pub propose_with :
    PredicateShapeRepairInput
    → Option PredicateShapeRepairEndpoint
    → Option PredicateShapeRepairProposal
propose_with input none = none
propose_with input (some obj) =
    propose_for input.predicate input.claim_id input.statement input.subject obj

-- `proposeRelationshipPredicateShapeRepair`.
unfoldable pub propose_relationship_predicate_shape_repair :
    PredicateShapeRepairInput → Option PredicateShapeRepairProposal
unfolding relationship_predicate_from
propose_relationship_predicate_shape_repair input = propose_with input input.object

-- ===== src/Tests/Claims.antt =====
-- Policies, shapes and a repair.
use assistant_memory.Prelude.{◌≡◌, refl, some}
use assistant_memory.Graph.{person, task, relationship, same_type, includes, assigned_to}
use assistant_memory.Claims.Shapes.{
  relationship_predicate_from, is_relationship_predicate_shape_allowed,
}
use assistant_memory.Claims.Repair.{
  PredicateShapeRepairEndpoint, PredicateShapeRepairInput, PredicateShapeRepairProposal, owned_by,
  known, propose_relationship_predicate_shape_repair, propose_owned_by_repair, proposal,
  replacement_for, legacy_task_assignment, propose_inversion, valid_when_inverted,
}
use assistant_memory.Claims.Repair.Laws.{IsSound, repair-IsSound}

abbrev a_task : PredicateShapeRepairEndpoint
a_task = record { node_id = 1; type = task }

abbrev a_person : PredicateShapeRepairEndpoint
a_person = record { node_id = 2; type = person }

abbrev owned_task : PredicateShapeRepairInput
owned_task = record {
  claim_id = 7;
  predicate = owned_by;
  statement = 0;
  subject = a_task;
  object = some a_person;
}

abbrev assigned_task : PredicateShapeRepairProposal
assigned_task = proposal 7 legacy_task_assignment (replacement_for assigned_to a_task a_person 0)

owned_task-repair : propose_relationship_predicate_shape_repair owned_task ≡ some assigned_task
unfolding propose_relationship_predicate_shape_repair propose_owned_by_repair same_type
owned_task-repair = refl

repair-IsSound_example : IsSound owned_task a_task a_person assigned_task
repair-IsSound_example = repair-IsSound owned_task a_person assigned_task refl owned_task-repair

abbrev inverted : PredicateShapeRepairInput
inverted = record {
  claim_id = 8;
  predicate = known (relationship assigned_to);
  statement = 0;
  subject = a_person;
  object = some a_task;
}

abbrev turned : PredicateShapeRepairProposal
turned = proposal 8 valid_when_inverted (replacement_for assigned_to a_task a_person 0)

inverted-repair : propose_relationship_predicate_shape_repair inverted ≡ some turned
unfolding propose_relationship_predicate_shape_repair propose_inversion relationship_predicate_from
    is_relationship_predicate_shape_allowed includes same_type
inverted-repair = refl

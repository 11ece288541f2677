-- ===== src/Claims/Repair/Laws.antt =====
-- What a proposed repair is worth.
use assistant_memory.Prelude.{◌≡◌, refl, sym, ap, subst, ◌⊎◌, true, false, ◌&&◌, not, some, arith}
use mathlib.Core.Bool.{and-eq-true_iff}
use mathlib.Core.Option.{some-injective}
use assistant_memory.Graph.{
  NodeType, person, task, Predicate, attribute, relationship, RelationshipPredicate, assigned_to,
  owns, related_to, same_type, includes, same_type→eq,
}
use assistant_memory.Claims.Shapes.{
  is_relationship_predicate_shape_allowed, relationship_predicate_from,
  is_invalid_relationship_predicate_claim_shape,
}
use assistant_memory.Claims.Repair.{
  PredicateShapeRepairEndpoint, PredicateShapeRepairInput, PredicateShapeRepairProposal, known,
  owned_by, owner_types, ownable_types, propose_owned_by_repair, propose_inversion, propose_for,
  InputPredicate, propose_relationship_predicate_shape_repair,
}

-- The replacement joins the two nodes of the claim, in one order or the other, keeps the claim's
-- text and id, and has a shape that the registry allows.
pub record IsSound (input : PredicateShapeRepairInput) (subj obj : PredicateShapeRepairEndpoint)
    (r : PredicateShapeRepairProposal) : Type 0 where
  pub same_claim : r.claim_id ≡ input.claim_id
  pub same_text : r.replacement.statement ≡ input.statement
  pub shaped :
      ((r.replacement.subject_node_id ≡ subj.node_id)
        × (r.replacement.object_node_id ≡ obj.node_id)
        × (is_relationship_predicate_shape_allowed r.replacement.predicate subj.type obj.type
            ≡ true))
      ⊎ ((r.replacement.subject_node_id ≡ obj.node_id)
          × (r.replacement.object_node_id ≡ subj.node_id)
          × (is_relationship_predicate_shape_allowed r.replacement.predicate obj.type subj.type
              ≡ true))

assigned-allowed :
    (s o : NodeType)
    → same_type s task && same_type o person ≡ true
    → is_relationship_predicate_shape_allowed assigned_to s o ≡ true
unfolding is_relationship_predicate_shape_allowed includes
assigned-allowed s o h =
    let (is_task, is_person) = (and-eq-true_iff _ _).0 h in
    rw (same_type→eq s task is_task, same_type→eq o person is_person)

owns-allowed :
    (s o : NodeType)
    → includes owner_types s && includes ownable_types o ≡ true
    → is_relationship_predicate_shape_allowed owns s o ≡ true
unfolding is_relationship_predicate_shape_allowed
owns-allowed s o h = h

related-allowed : (s o : NodeType) → is_relationship_predicate_shape_allowed related_to s o ≡ true
unfolding is_relationship_predicate_shape_allowed
related-allowed s o = refl

-- The same fact with the tests in the order of the code.
assigned-allowed_inverted :
    (s o : NodeType)
    → same_type s person && same_type o task ≡ true
    → is_relationship_predicate_shape_allowed assigned_to o s ≡ true
assigned-allowed_inverted s o h = ground (arith, assigned-allowed o s)

owns-allowed_inverted :
    (s o : NodeType)
    → includes ownable_types s && includes owner_types o ≡ true
    → is_relationship_predicate_shape_allowed owns o s ≡ true
owns-allowed_inverted s o h = ground (arith, owns-allowed o s)

module _ (input : PredicateShapeRepairInput) (subj obj : PredicateShapeRepairEndpoint) where
  owned_by-IsSound :
      IsSound input subj obj (propose_owned_by_repair input.claim_id input.statement subj obj)
  unfolding propose_owned_by_repair
  owned_by-IsSound = ground (
    arith,
    assigned-allowed subj.type obj.type,
    assigned-allowed_inverted subj.type obj.type,
    owns-allowed_inverted subj.type obj.type,
    owns-allowed subj.type obj.type,
    related-allowed subj.type obj.type,
  )

  inversion-IsSound :
      (p : RelationshipPredicate) (r : PredicateShapeRepairProposal)
      → propose_inversion p input.claim_id input.statement subj obj ≡ some r
      → IsSound input subj obj r
        × (r.replacement.predicate ≡ p)
        × (is_relationship_predicate_shape_allowed p subj.type obj.type ≡ false)
  unfolding propose_inversion
  inversion-IsSound p r h = ground arith

  for-IsSound :
      (q : InputPredicate) (r : PredicateShapeRepairProposal)
      → propose_for q input.claim_id input.statement subj obj ≡ some r
      → IsSound input subj obj r
  unfolding relationship_predicate_from
  for-IsSound owned_by r h = subst (IsSound input subj obj) (some-injective _ _ h) owned_by-IsSound
  for-IsSound (known (attribute p)) r h = cc
  for-IsSound (known (relationship p)) r h = (inversion-IsSound p r h).0

  known_invalid :
      (p : Predicate) (r : PredicateShapeRepairProposal)
      → propose_for (known p) input.claim_id input.statement subj obj ≡ some r
      → (p ≡ relationship r.replacement.predicate)
        × (is_invalid_relationship_predicate_claim_shape p subj.type (some obj.type) ≡ true)
  unfolding relationship_predicate_from is_invalid_relationship_predicate_claim_shape
  known_invalid (attribute p) r h = cc
  known_invalid (relationship p) r h =
      let (_, same, refused) = inversion-IsSound p r h in
      (ap relationship (sym same), ap not refused)

-- A proposal keeps the claim's id and text, joins the claim's own two nodes, and its predicate may
-- join nodes of their types in the proposed order.
pub repair-IsSound :
    (input : PredicateShapeRepairInput) (obj : PredicateShapeRepairEndpoint)
    (r : PredicateShapeRepairProposal)
    → input.object ≡ some obj
    → propose_relationship_predicate_shape_repair input ≡ some r
    → IsSound input input.subject obj r
unfolding propose_relationship_predicate_shape_repair
repair-IsSound input obj r has_object h =
    for-IsSound input input.subject obj input.predicate r (rw has_object at h)

-- For a predicate other than OWNED_BY a repair is proposed only for a relationship whose shape the
-- registry refuses, it keeps the predicate, and the proposed shape is one that the registry allows.
repair-known_only_invalid :
    (input : PredicateShapeRepairInput) (obj : PredicateShapeRepairEndpoint) (p : Predicate)
    (r : PredicateShapeRepairProposal)
    → input.object ≡ some obj
    → input.predicate ≡ known p
    → propose_relationship_predicate_shape_repair input ≡ some r
    → (p ≡ relationship r.replacement.predicate)
      × (is_invalid_relationship_predicate_claim_shape p input.subject.type (some obj.type) ≡ true)
unfolding propose_relationship_predicate_shape_repair is_invalid_relationship_predicate_claim_shape
repair-known_only_invalid input obj p r has_object known_predicate h =
    known_invalid input input.subject obj p r (rw (has_object, known_predicate) at h)

-- ===== src/Claims/Shapes.antt =====
-- src/lib/claims/predicate-shapes.ts: the node types that each relationship may join.
pub mod Laws
use assistant_memory.Prelude.{
  Bool, true, false, not, ◌&&◌, Option, none, some, List, [], ◌∷◌, ◌++◌, if◌then◌else◌,
}
use assistant_memory.Graph.{
  NodeType, person, organization, location, event, object, emotion, concept, media, temporal,
  conversation, atlas, assistant_dream, document, feedback, idea, task, Predicate, attribute,
  relationship, RelationshipPredicate, participated_in, occurred_at, occurred_on, recorded_on,
  involved_item, exhibited_emotion, tagged_with, assigned_to, due_on, precedes, follows, works_at,
  founded, created, located_in, part_of, uses, owns, affiliated_with, related_to, includes,
}

pub data NodeTypeConstraint : Type 0 where
  any : NodeTypeConstraint
  one_of : List NodeType → NodeTypeConstraint

-- The texts `meaning` and `useWhen` go into a prompt and decide nothing.
pub record RelationshipPredicateShape : Type 0 where
  pub subject_types : NodeTypeConstraint
  pub object_types : NodeTypeConstraint

abbrev pub event_types : List NodeType
event_types = event ∷ conversation ∷ document ∷ assistant_dream ∷ []

abbrev pub entity_types : List NodeType
entity_types =
    person ∷ organization ∷ location ∷ event ∷ object ∷ concept ∷ media ∷ feedback ∷ idea ∷ task
    ∷ []

abbrev pub owner_types : List NodeType
owner_types = person ∷ organization ∷ concept ∷ object ∷ []

abbrev pub ownable_types : List NodeType
ownable_types = organization ∷ location ∷ object ∷ concept ∷ media ∷ atlas ∷ []

abbrev pub work_or_product_types : List NodeType
work_or_product_types = object ∷ concept ∷ media ∷ document ∷ task ∷ []

abbrev pub sequence_types : List NodeType
sequence_types = event ∷ task ∷ temporal ∷ []

abbrev pub recordable_types : List NodeType
recordable_types =
    person ∷ organization ∷ location ∷ event ∷ object ∷ emotion ∷ concept ∷ media ∷ conversation
    ∷ atlas ∷ assistant_dream ∷ document ∷ feedback ∷ idea ∷ task ∷ []

abbrev pub shape : NodeTypeConstraint → NodeTypeConstraint → RelationshipPredicateShape
shape subj obj = record { subject_types = subj; object_types = obj }

-- `RELATIONSHIP_PREDICATE_SHAPES`.
unfoldable pub relationship_predicate_shapes : RelationshipPredicate → RelationshipPredicateShape
relationship_predicate_shapes participated_in =
    shape (one_of (person ∷ [])) (one_of (event ∷ conversation ∷ []))
relationship_predicate_shapes occurred_at = shape (one_of event_types) (one_of (location ∷ []))
relationship_predicate_shapes occurred_on =
    shape (one_of (event_types ++ (task ∷ media ∷ object ∷ []))) (one_of (temporal ∷ []))
relationship_predicate_shapes recorded_on = shape (one_of recordable_types) (one_of (temporal ∷ []))
relationship_predicate_shapes involved_item =
    shape (one_of event_types) (one_of (object ∷ concept ∷ media ∷ location ∷ []))
relationship_predicate_shapes exhibited_emotion =
    shape (one_of (person ∷ [])) (one_of (emotion ∷ []))
relationship_predicate_shapes tagged_with = shape any (one_of (concept ∷ []))
relationship_predicate_shapes assigned_to = shape (one_of (task ∷ [])) (one_of (person ∷ []))
relationship_predicate_shapes due_on = shape (one_of (task ∷ [])) (one_of (temporal ∷ []))
relationship_predicate_shapes precedes = shape (one_of sequence_types) (one_of sequence_types)
relationship_predicate_shapes follows = shape (one_of sequence_types) (one_of sequence_types)
relationship_predicate_shapes works_at = shape (one_of (person ∷ [])) (one_of (organization ∷ []))
relationship_predicate_shapes founded =
    shape (one_of (person ∷ [])) (one_of (organization ∷ concept ∷ object ∷ []))
relationship_predicate_shapes created =
    shape (one_of (person ∷ organization ∷ concept ∷ object ∷ [])) (one_of work_or_product_types)
relationship_predicate_shapes located_in = shape (one_of entity_types) (one_of (location ∷ []))
relationship_predicate_shapes part_of = shape any any
relationship_predicate_shapes uses =
    shape (one_of entity_types) (one_of (object ∷ concept ∷ media ∷ []))
relationship_predicate_shapes owns = shape (one_of owner_types) (one_of ownable_types)
relationship_predicate_shapes affiliated_with =
    shape (one_of (person ∷ organization ∷ concept ∷ object ∷ []))
      (one_of (person ∷ organization ∷ concept ∷ object ∷ []))
relationship_predicate_shapes related_to = shape any any

-- `allowsNodeType`.
unfoldable pub allows_node_type : NodeTypeConstraint → NodeType → Bool
allows_node_type any t = true
allows_node_type (one_of ts) t = includes ts t

-- `isRelationshipPredicateShapeAllowed`.
unfoldable pub is_relationship_predicate_shape_allowed :
    RelationshipPredicate → NodeType → NodeType → Bool
unfolding relationship_predicate_shapes allows_node_type
is_relationship_predicate_shape_allowed p subj obj =
    let s = relationship_predicate_shapes p in
    allows_node_type s.subject_types subj && allows_node_type s.object_types obj

-- `relationshipPredicateFrom`.
unfoldable pub relationship_predicate_from : Predicate → Option RelationshipPredicate
relationship_predicate_from (attribute p) = none
relationship_predicate_from (relationship p) = some p

-- The last two tests of `isInvalidRelationshipPredicateClaimShape`.
abbrev pub invalid_relationship : RelationshipPredicate → NodeType → Option NodeType → Bool
invalid_relationship p subj none = true
invalid_relationship p subj (some obj) = not (is_relationship_predicate_shape_allowed p subj obj)

abbrev pub invalid_claim : Option RelationshipPredicate → NodeType → Option NodeType → Bool
invalid_claim none subj obj = false
invalid_claim (some p) subj obj = invalid_relationship p subj obj

-- `isInvalidRelationshipPredicateClaimShape`.
unfoldable pub is_invalid_relationship_predicate_claim_shape :
    Predicate → NodeType → Option NodeType → Bool
unfolding relationship_predicate_from
is_invalid_relationship_predicate_claim_shape p subj obj =
    invalid_claim (relationship_predicate_from p) subj obj

pub data ShapeCheck : Type 0 where
  passed : ShapeCheck
  invalid_relationship_predicate_shape_error :
      RelationshipPredicate → NodeType → NodeType → ShapeCheck

-- `assertRelationshipPredicateShape`; the thrown error is the second constructor.
unfoldable pub assert_relationship_predicate_shape :
    RelationshipPredicate → NodeType → NodeType → ShapeCheck
assert_relationship_predicate_shape p subj obj =
    if not (is_relationship_predicate_shape_allowed p subj obj)
    then invalid_relationship_predicate_shape_error p subj obj
    else passed

-- ===== src/Claims/Shapes/Laws.antt =====
-- What the shape check accepts.
use assistant_memory.Prelude.{◌≡◌, refl, ◌↔◌, false, not, Option, none, some, arith}
use assistant_memory.Graph.{
  NodeType, Predicate, attribute, relationship, AttributePredicate, RelationshipPredicate,
}
use assistant_memory.Claims.Shapes.{
  is_relationship_predicate_shape_allowed, is_invalid_relationship_predicate_claim_shape,
  assert_relationship_predicate_shape, passed,
}

-- A claim that the check does not call invalid: an attribute, or a relationship whose end is there
-- and of a type that the registry allows beside the subject's.
pub data IsWellShaped : Predicate → NodeType → Option NodeType → Type 0 where
  of_attribute :
      (p : AttributePredicate) (subj : NodeType) (obj : Option NodeType)
      → IsWellShaped (attribute p) subj obj
  of_relationship :
      (p : RelationshipPredicate) (subj obj : NodeType)
      → assert_relationship_predicate_shape p subj obj ≡ passed
      → IsWellShaped (relationship p) subj (some obj)

allowed-passed_iff :
    (p : RelationshipPredicate) (subj obj : NodeType)
    → (not (is_relationship_predicate_shape_allowed p subj obj) ≡ false)
      ↔ (assert_relationship_predicate_shape p subj obj ≡ passed)
unfolding assert_relationship_predicate_shape
allowed-passed_iff p subj obj = ground arith

sound :
    (p : Predicate) (subj : NodeType) (obj : Option NodeType)
    → is_invalid_relationship_predicate_claim_shape p subj obj ≡ false
    → IsWellShaped p subj obj
unfolding is_invalid_relationship_predicate_claim_shape
sound (attribute p) subj obj h = of_attribute p subj obj
sound (relationship p) subj none h = cc
sound (relationship p) subj (some obj) h =
    of_relationship p subj obj ((allowed-passed_iff p subj obj).0 h)

complete :
    {p : Predicate} {subj : NodeType} {obj : Option NodeType}
    → IsWellShaped p subj obj
    → is_invalid_relationship_predicate_claim_shape p subj obj ≡ false
unfolding is_invalid_relationship_predicate_claim_shape
complete (of_attribute p subj obj) = refl
complete (of_relationship p subj obj h) = (allowed-passed_iff p subj obj).1 h

-- The claim check rejects exactly what is not an attribute and not a relationship that the
-- assertion lets pass.
is_invalid_iff :
    (p : Predicate) (subj : NodeType) (obj : Option NodeType)
    → (is_invalid_relationship_predicate_claim_shape p subj obj ≡ false) ↔ IsWellShaped p subj obj
is_invalid_iff p subj obj = (sound p subj obj, complete)

-- ===== src/Claims/Policies.antt =====
-- src/lib/claims/predicate-policies.ts: the registry of predicate behaviour, and the pre-filter of
-- src/lib/claims/lifecycle.ts that reads it.
pub mod Laws
use assistant_memory.Prelude.{
  Bool, true, false, ◌&&◌, ◌||◌, Option, none, some, List, [], ◌∷◌, any, if◌then◌else◌,
}
use assistant_memory.Graph.{
  NodeType, person, organization, location, event, object, emotion, concept, media, temporal,
  conversation, atlas, assistant_dream, document, feedback, idea, task, Predicate, attribute,
  relationship, AttributePredicate, has_status, has_task_status, has_preference, has_goal,
  made_decision, has_attribute, RelationshipPredicate, assigned_to, due_on,
}

pub data Cardinality : Type 0 where
  single_current_value multi_value append_only : Cardinality

pub data LifecycleRule : Type 0 where
  supersede_previous no_lifecycle : LifecycleRule

pub data RetrievalSection : Type 0 where
  atlas_section open_commitments preferences evidence no_section : RetrievalSection

pub record PredicatePolicy : Type 0 where
  pub predicate : Predicate
  pub cardinality : Cardinality
  pub lifecycle : LifecycleRule
  pub feeds_atlas : Bool
  pub retrieval_section : RetrievalSection
  pub force_refresh_on_supersede : Bool

pub record PredicatePolicyOverride : Type 0 where
  pub cardinality : Cardinality
  pub lifecycle : LifecycleRule

-- `Partial<Record<NodeType, PredicatePolicyOverride>>` is a function; `none` is an absent key.
pub record PredicatePolicyEntry : Type 0 where
  pub base : PredicatePolicy
  pub subject_type_overrides : NodeType → Option PredicatePolicyOverride

abbrev pub no_overrides : NodeType → Option PredicatePolicyOverride
no_overrides t = none

-- A Task has exactly one current due date.
abbrev pub due_on_overrides : NodeType → Option PredicatePolicyOverride
due_on_overrides task =
    some (record { cardinality = single_current_value; lifecycle = supersede_previous })
due_on_overrides _ = none

abbrev pub policy :
    Predicate → Cardinality → LifecycleRule → Bool → RetrievalSection → Bool → PredicatePolicy
policy p c l feeds section force = record {
  predicate = p;
  cardinality = c;
  lifecycle = l;
  feeds_atlas = feeds;
  retrieval_section = section;
  force_refresh_on_supersede = force;
}

abbrev pub attribute_policy : AttributePredicate → PredicatePolicy
attribute_policy has_status =
    policy (attribute has_status) single_current_value supersede_previous true atlas_section true
attribute_policy has_task_status =
    policy (attribute has_task_status) single_current_value supersede_previous false
      open_commitments true
attribute_policy has_preference =
    policy (attribute has_preference) multi_value no_lifecycle true preferences false
attribute_policy has_goal =
    policy (attribute has_goal) multi_value no_lifecycle true preferences false
attribute_policy made_decision =
    policy (attribute made_decision) append_only no_lifecycle false evidence false
attribute_policy has_attribute =
    policy (attribute has_attribute) multi_value no_lifecycle false evidence false

-- The entries that the last clause stands for are alike but for their predicate.
abbrev pub relationship_policy : RelationshipPredicate → PredicatePolicy
relationship_policy assigned_to =
    policy (relationship assigned_to) single_current_value supersede_previous false evidence false
relationship_policy due_on =
    policy (relationship due_on) multi_value no_lifecycle false open_commitments false
relationship_policy p = policy (relationship p) multi_value no_lifecycle false evidence false

-- `PREDICATE_POLICIES`.
unfoldable pub predicate_policies : Predicate → PredicatePolicyEntry
predicate_policies (attribute p) = record {
  base = attribute_policy p;
  subject_type_overrides = no_overrides;
}
predicate_policies (relationship due_on) = record {
  base = relationship_policy due_on;
  subject_type_overrides = due_on_overrides;
}
predicate_policies (relationship p) = record {
  base = relationship_policy p;
  subject_type_overrides = no_overrides;
}

abbrev pub override_with : PredicatePolicy → Option PredicatePolicyOverride → PredicatePolicy
override_with p none = p
override_with p (some o) = record p { cardinality = o.cardinality; lifecycle = o.lifecycle }

abbrev pub override_for : PredicatePolicyEntry → Option NodeType → Option PredicatePolicyOverride
override_for entry none = none
override_for entry (some t) = entry.subject_type_overrides t

-- `resolvePredicatePolicy`; `none` is the unknown subject type.
unfoldable pub resolve_predicate_policy : Predicate → Option NodeType → PredicatePolicy
unfolding predicate_policies
resolve_predicate_policy p t =
    let entry = predicate_policies p in override_with entry.base (override_for entry t)

-- cardinality === "single_current_value" && lifecycle === "supersede_previous"
abbrev pub is_superseding : Cardinality → LifecycleRule → Bool
is_superseding single_current_value supersede_previous = true
is_superseding _ _ = false

abbrev pub superseding_override : Option PredicatePolicyOverride → Bool
superseding_override none = false
superseding_override (some o) = is_superseding o.cardinality o.lifecycle

-- The order of `NodeTypeEnum`; `Object.values` of an override map runs over its keys.
abbrev pub node_types : List NodeType
node_types =
    person ∷ organization ∷ location ∷ event ∷ object ∷ emotion ∷ concept ∷ media ∷ temporal
    ∷ conversation ∷ atlas ∷ assistant_dream ∷ document ∷ feedback ∷ idea ∷ task ∷ []

-- Membership in `POTENTIALLY_SUPERSEDING_PREDICATES` of lifecycle.ts.
unfoldable pub potentially_superseding : Predicate → Bool
unfolding predicate_policies
potentially_superseding p =
    let entry = predicate_policies p in
    is_superseding entry.base.cardinality entry.base.lifecycle
    || any (λ t. superseding_override (entry.subject_type_overrides t)) node_types

-- The test of `singleCurrentValueSubjects` and of the recomputation.
unfoldable pub supersedes : Predicate → NodeType → Bool
unfolding resolve_predicate_policy
supersedes p t =
    let r = resolve_predicate_policy p (some t) in is_superseding r.cardinality r.lifecycle

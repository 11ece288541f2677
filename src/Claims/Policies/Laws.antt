-- ===== src/Claims/Policies/Laws.antt =====
-- Which pairs of predicate and subject type let a newer claim supersede an older one.
use assistant_memory.Prelude.{◌≡◌, refl, ◌↔◌, true, arith}
use assistant_memory.Graph.{
  NodeType, task, Predicate, attribute, relationship, has_status, has_task_status, assigned_to,
  due_on,
}
use assistant_memory.Claims.Policies.{potentially_superseding, supersedes}

-- The pairs at which a claim has one current value.
pub data IsSingleValued : Predicate → NodeType → Type 0 where
  of_status : (t : NodeType) → IsSingleValued (attribute has_status) t
  of_task_status : (t : NodeType) → IsSingleValued (attribute has_task_status) t
  of_assignee : (t : NodeType) → IsSingleValued (relationship assigned_to) t
  of_task_due : IsSingleValued (relationship due_on) task

supersedes_complete : {p : Predicate} {t : NodeType} → IsSingleValued p t → supersedes p t ≡ true
unfolding supersedes
supersedes_complete (of_status t) = refl
supersedes_complete (of_task_status t) = refl
supersedes_complete (of_assignee t) = refl
supersedes_complete of_task_due = refl

supersedes_sound : (p : Predicate) (t : NodeType) → supersedes p t ≡ true → IsSingleValued p t
unfolding supersedes
supersedes_sound (attribute has_status) t h = of_status t
supersedes_sound (attribute has_task_status) t h = of_task_status t
supersedes_sound (attribute p) t h = absurd (ground arith)
supersedes_sound (relationship assigned_to) t h = of_assignee t
supersedes_sound (relationship due_on) task h = of_task_due
supersedes_sound (relationship due_on) t h = cc
supersedes_sound (relationship p) t h = cc

-- A pair of a predicate and a subject type supersedes exactly when it is HAS_STATUS,
-- HAS_TASK_STATUS or ASSIGNED_TO on any subject, or DUE_ON on a Task.
pub supersedes_iff : (p : Predicate) (t : NodeType) → (supersedes p t ≡ true) ↔ IsSingleValued p t
supersedes_iff p t = (supersedes_sound p t, supersedes_complete)

-- The pre-filter of the lifecycle keeps a predicate exactly when some subject type makes it
-- superseding.
potentially_superseding_iff :
    (p : Predicate)
    → (potentially_superseding p ≡ true) ↔ ((t : NodeType) × (supersedes p t ≡ true))
unfolding potentially_superseding supersedes
potentially_superseding_iff (attribute has_status) = (λ h. (task, refl), λ h. refl)
potentially_superseding_iff (attribute has_task_status) = (λ h. (task, refl), λ h. refl)
potentially_superseding_iff (attribute p) = (λ h. (task, h), λ e. e.1)
potentially_superseding_iff (relationship assigned_to) = (λ h. (task, refl), λ h. refl)
potentially_superseding_iff (relationship due_on) = (λ h. (task, refl), λ h. refl)
potentially_superseding_iff (relationship p) = (λ h. (task, h), λ e. cc (e.1))

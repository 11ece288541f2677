-- ===== src/Claims/Lifecycle/Apply.antt =====
-- `recomputeSingleValuedLifecycleForSubject` and `applyClaimLifecycle` over the tables.
--
-- The subjects of one round are distinct keys, whose rows do not meet, so the recomputations that
-- the code runs at once are run one after the other. The log events are left out.
pub mod Laws
pub mod Frame
pub mod Intervals
use assistant_memory.Prelude.{
  ℕ, Bool, true, false, not, ◌&&◌, ◌==◌, Option, none, some, List, [], ◌∷◌, map, filter,
  if◌then◌else◌,
}
use assistant_memory.Graph.{
  NodeType, task, Predicate, attribute, relationship, has_task_status, due_on, same_predicate,
  same_type,
}
use assistant_memory.Claims.Policies.{potentially_superseding, supersedes}
use assistant_memory.Claims.Rows.{Claim, is_current_or_superseded}
use assistant_memory.Claims.Lifecycle.Order.{sort_claims}
use assistant_memory.Claims.Lifecycle.Settle.{
  Row, row, Settled, Successor, successor_of, carry_progress, settle_rows, updates,
  is_assistant_inferred,
}
use assistant_memory.Claims.Lifecycle.Removal.{Source, find_email_deadline_removal}

pub record Database : Type 0 where
  pub claims : List Claim
  pub sources : List Source
  pub node_types : ℕ → Option NodeType

pub record SingleValuedSubject : Type 0 where
  pub user_id : ℕ
  pub subject_node_id : ℕ
  pub subject_type : NodeType
  pub predicate : Predicate

-- From the rows as they are read to the rows as they are settled.
unfoldable pub recompute_rows : (Option Claim → Option Successor) → List Claim → List Settled
recompute_rows find_removal cs =
    settle_rows find_removal (carry_progress (map row (sort_claims cs)))

-- The `where` clause of the recomputation.
abbrev pub is_claim_of : SingleValuedSubject → Claim → Bool
is_claim_of s c =
    c.user_id == s.user_id
    && c.subject_node_id == s.subject_node_id
    && same_predicate c.predicate s.predicate
    && is_current_or_superseded c.status

unfoldable pub is_task_due : SingleValuedSubject → Bool
is_task_due s = same_type s.subject_type task && same_predicate s.predicate (relationship due_on)

abbrev pub to_successor : Option Claim → Option Successor
to_successor none = none
to_successor (some c) = some (successor_of c)

-- `update(claims).set(…).where(eq(claims.id, …))`, for each row that is written.
unfoldable pub write_row : Claim → List Claim → List Claim
write_row u cs = map (λ c. if c.id == u.id then u else c) cs

unfoldable pub write_rows : List Claim → List Claim → List Claim
unfolding write_row
write_rows [] cs = cs
write_rows (u ∷ us) cs = write_rows us (write_row u cs)

-- `Map.set` by the key of user, node and predicate: the key keeps its place.
unfoldable pub set_subject :
    SingleValuedSubject → List SingleValuedSubject → List SingleValuedSubject
set_subject s [] = s ∷ []
set_subject s (t ∷ ts) =
    if t.user_id == s.user_id
      && t.subject_node_id == s.subject_node_id
      && same_predicate t.predicate s.predicate
    then s ∷ ts
    else t ∷ set_subject s ts

abbrev pub subject_of : Claim → NodeType → Predicate → SingleValuedSubject
subject_of c t p = record {
  user_id = c.user_id;
  subject_node_id = c.subject_node_id;
  subject_type = t;
  predicate = p;
}

-- The body of the loop, once the subject's type is known.
unfoldable pub add_subject : Claim → NodeType → List SingleValuedSubject → List SingleValuedSubject
unfolding set_subject
add_subject c t subjects =
    let with_claim = set_subject (subject_of c t c.predicate) subjects in
    if not (supersedes c.predicate t)
    then subjects
    else if same_type t task && same_predicate c.predicate (attribute has_task_status)
    then set_subject (subject_of c t (relationship due_on)) with_claim
    else with_claim

abbrev pub add_known : Claim → Option NodeType → List SingleValuedSubject → List SingleValuedSubject
add_known c none subjects = subjects
add_known c (some t) subjects = add_subject c t subjects

unfoldable pub collect_subjects :
    Database → List Claim → List SingleValuedSubject → List SingleValuedSubject
unfolding add_subject
collect_subjects db [] subjects = subjects
collect_subjects db (c ∷ cs) subjects =
    collect_subjects db cs (add_known c (db.node_types c.subject_node_id) subjects)

-- `singleCurrentValueSubjects`.
unfoldable pub single_current_value_subjects : Database → List Claim → List SingleValuedSubject
unfolding collect_subjects
single_current_value_subjects db changed =
    collect_subjects db (filter (λ c. potentially_superseding c.predicate) changed) []

abbrev pub is_due : SingleValuedSubject → Bool
is_due s = same_predicate s.predicate (relationship due_on)

module _ (has_removal_evidence : ℕ → Bool) (now : ℕ) where
  -- `deadlineRemoval`.
  unfoldable pub deadline_removal : Database → SingleValuedSubject → Option Claim → Option Successor
  deadline_removal db s none = none
  deadline_removal db s (some latest) =
      if is_task_due s && is_assistant_inferred latest.asserted_by_kind
      then to_successor (
          find_email_deadline_removal has_removal_evidence db.sources db.claims s.user_id
            s.subject_node_id latest.id)
      else none

  unfoldable pub recompute : Database → SingleValuedSubject → Database
  unfolding recompute_rows deadline_removal write_rows
  recompute db s =
      let selected = filter (is_claim_of s) db.claims in
      let settled = recompute_rows (deadline_removal db s) selected in
      if supersedes s.predicate s.subject_type
      then record db { claims = write_rows (updates now settled) db.claims }
      else db

  -- `recomputeSingleValuedLifecycle`.
  unfoldable pub recompute_with_due : Database → SingleValuedSubject → Database
  unfolding recompute
  recompute_with_due db s =
      let db' = recompute db s in
      if same_type s.subject_type task && same_predicate s.predicate (attribute has_task_status)
      then recompute db' (record s { predicate = relationship due_on })
      else db'

  unfoldable pub recompute_each : Database → List SingleValuedSubject → Database
  recompute_each db [] = db
  recompute_each db (s ∷ ss) = recompute_each (recompute db s) ss

  -- `applyClaimLifecycle`: first the subjects of other predicates, then the due dates.
  unfoldable pub apply_claim_lifecycle : Database → List Claim → Database
  unfolding recompute_each single_current_value_subjects
  apply_claim_lifecycle db changed =
      let subjects = single_current_value_subjects db changed in
      let after_others = recompute_each db (filter (λ s. not (is_due s)) subjects) in
      recompute_each after_others (filter is_due subjects)

-- ===== src/Claims/Lifecycle/Removal.antt =====
-- src/lib/email-deadline-lifecycle.ts: the email that removes a deadline.
--
-- The test of the excerpt, a list of patterns for several languages, is a parameter.
pub mod Laws
use assistant_memory.Prelude.{
  ℕ, Bool, true, false, not, ◌&&◌, ◌||◌, ◌==◌, ltb, leb, Option, none, some, List, [], ◌∷◌, filter,
  if◌then◌else◌, is_some,
}
use assistant_memory.Graph.{
  Predicate, attribute, relationship, has_task_status, due_on, AssertedByKind, same_predicate,
}
use assistant_memory.Claims.Rows.{
  Claim, RequestEvidence, EmailThread, MatchStatus, matched, LifecycleEvidence,
  current_message_revision,
}
use assistant_memory.Claims.Lifecycle.Settle.{Successor, successor_of, is_assistant_inferred}

pub data SourceKind : Type 0 where
  email message other_kind : SourceKind

-- What `readSourceContext` reads of a source's metadata.
pub record SourceContext : Type 0 where
  pub source_kind : SourceKind
  pub account_id : Option ℕ
  pub thread_id : Option ℕ

pub record Source : Type 0 where
  pub id : ℕ
  pub deleted_at : Option ℕ
  pub context : Option SourceContext

pub record Joined : Type 0 where
  pub claim : Claim
  pub context : Option SourceContext

-- The inner join with the live sources; `sources.id` is a primary key.
unfoldable pub live_source : ℕ → List Source → Option Source
live_source id [] = none
live_source id (s ∷ ss) =
    if s.id == id && not (is_some s.deleted_at) then some s else live_source id ss

-- The `where` clause on the claims.
abbrev pub is_deadline_evidence : ℕ → ℕ → Claim → Bool
is_deadline_evidence user_id task_id c =
    c.user_id == user_id
    && c.subject_node_id == task_id
    && (same_predicate c.predicate (attribute has_task_status)
        || same_predicate c.predicate (relationship due_on))
    && is_assistant_inferred c.asserted_by_kind

abbrev pub join_with : Claim → Option Source → List Joined → List Joined
join_with c none rest = rest
join_with c (some s) rest = record { claim = c; context = s.context } ∷ rest

unfoldable pub joined_rows : ℕ → ℕ → List Source → List Claim → List Joined
unfolding live_source
joined_rows user_id task_id sources [] = []
joined_rows user_id task_id sources (c ∷ cs) =
    let rest = joined_rows user_id task_id sources cs in
    if is_deadline_evidence user_id task_id c
    then join_with c (live_source c.source_id sources) rest
    else rest

unfoldable pub find_deadline : ℕ → List Joined → Option Joined
find_deadline id [] = none
find_deadline id (r ∷ rs) = if r.claim.id == id then some r else find_deadline id rs

abbrev pub is_matched : Option MatchStatus → Bool
is_matched (some matched) = true
is_matched _ = false

abbrev pub is_revision : LifecycleEvidence → Bool
is_revision current_message_revision = true
is_revision _ = false

abbrev pub is_id : Option ℕ → ℕ → Bool
is_id none n = false
is_id (some m) n = m == n

-- `.sort(by statedAt)[0]`: the first of the smallest.
abbrev pub earlier : Claim → Option Claim → Claim
earlier c none = c
earlier c (some d) = if leb c.stated_at d.stated_at then c else d

unfoldable pub earliest : List Claim → Option Claim
earliest [] = none
earliest (c ∷ cs) = some (earlier c (earliest cs))

abbrev pub is_mail : SourceKind → Bool
is_mail email = true
is_mail message = true
is_mail other_kind = false

module _ (has_removal_evidence : ℕ → Bool) where
  abbrev pub thread_removes : SourceContext → Claim → Claim → Option EmailThread → Bool
  thread_removes context deadline c none = false
  thread_removes context deadline c (some t) =
      has_removal_evidence t.excerpt
      && is_id context.account_id t.account_id
      && is_id context.thread_id t.thread_id
      && ltb deadline.stated_at c.stated_at

  abbrev pub evidence_removes : SourceContext → Claim → Claim → Option RequestEvidence → Bool
  evidence_removes context deadline c none = false
  evidence_removes context deadline c (some e) =
      is_matched e.match_status
      && is_revision e.lifecycle_evidence
      && thread_removes context deadline c e.email_thread

  -- One round of the `flatMap`.
  unfoldable pub is_removal : SourceContext → Claim → Claim → Bool
  is_removal context deadline c =
      same_predicate c.predicate (attribute has_task_status)
      && evidence_removes context deadline c c.metadata.request_evidence

  unfoldable pub removals : SourceContext → Claim → List Joined → List Claim
  unfolding is_removal
  removals context deadline [] = []
  removals context deadline (r ∷ rs) =
      let rest = removals context deadline rs in
      if is_removal context deadline r.claim then r.claim ∷ rest else rest

  abbrev pub removal_in : Option SourceContext → Claim → List Joined → Option Claim
  removal_in none deadline rows = none
  removal_in (some context) deadline rows =
      if is_mail context.source_kind then earliest (removals context deadline rows) else none

  abbrev pub removal_of : Option Joined → List Joined → Option Claim
  removal_of none rows = none
  removal_of (some d) rows = removal_in d.context d.claim rows

  -- `findEmailDeadlineRemoval`.
  unfoldable pub find_email_deadline_removal : List Source → List Claim → ℕ → ℕ → ℕ → Option Claim
  unfolding joined_rows find_deadline
  find_email_deadline_removal sources claims user_id task_id deadline_id =
      let rows = joined_rows user_id task_id sources claims in
      removal_of (find_deadline deadline_id rows) rows

-- ===== src/Claims/Rows.antt =====
-- The rows that src/lib/claims/lifecycle.ts reads: a claim (src/db/schema.ts), and the evidence of
-- src/lib/schemas/commitment-request-evidence.ts in its metadata.
--
-- Ids, texts and dates are numbers. A text or id that the code orders by `localeCompare` stands as
-- its place in that order, so that two texts that compare as equal are one number.
use assistant_memory.Prelude.{ℕ, Option, List, Bool, true, false}
use assistant_memory.Graph.{Predicate, AssertedByKind, ClaimStatus}
use native.Mathlib.Decide.{ℕ_discrete}

pub data LifecycleEvidence : Type 0 where
  current_message_direct_request current_message_user_promise : LifecycleEvidence
  current_message_clarification current_message_completion : LifecycleEvidence
  current_message_revision : LifecycleEvidence

pub data MatchStatus : Type 0 where
  new matched uncertain : MatchStatus

-- `more` stands for the fields that no code here reads: authoredAt and sourceOperationId.
pub record EmailThread : Type 0 where
  pub account_id : ℕ
  pub thread_id : ℕ
  pub message_id : ℕ
  pub excerpt : ℕ
  pub evidence_fingerprint : ℕ
  pub more : ℕ

-- `CommitmentRequestEvidence`; `more` stands for kind, requester, intendedResponder and requestId.
pub record RequestEvidence : Type 0 where
  pub supporting_source_ids : List ℕ
  pub lifecycle_evidence : LifecycleEvidence
  pub match_status : Option MatchStatus
  pub email_thread : Option EmailThread
  pub more : ℕ

-- `request_evidence` is what `readCommitmentRequestEvidence` reads of the metadata, and `more` is
-- everything else in it. A value that the schema refuses is in `more`.
pub record Metadata : Type 0 where
  pub request_evidence : Option RequestEvidence
  pub more : ℕ

-- `more` stands for the columns that the lifecycle neither reads nor writes.
pub record Claim : Type 0 where
  pub id : ℕ
  pub user_id : ℕ
  pub subject_node_id : ℕ
  pub predicate : Predicate
  pub object_value : Option ℕ
  pub source_id : ℕ
  pub asserted_by_kind : AssertedByKind
  pub status : ClaimStatus
  pub stated_at : ℕ
  pub created_at : ℕ
  pub valid_from : Option ℕ
  pub valid_to : Option ℕ
  pub superseded_by_claim_id : Option ℕ
  pub metadata : Metadata
  pub updated_at : ℕ
  pub more : ℕ

Claim-discrete : Discrete Claim
Claim-discrete = hlevel ℕ_discrete

-- `isDeepStrictEqual` on two rows.
unfoldable pub same_claim : Claim → Claim → Bool
unfolding Claim-discrete
same_claim a b = elim (Claim-discrete a b) [ yes _ ↦ true | no _ ↦ false ]

abbrev pub is_superseded : ClaimStatus → Bool
is_superseded ClaimStatus.superseded = true
is_superseded _ = false

abbrev pub is_active : ClaimStatus → Bool
is_active ClaimStatus.active = true
is_active _ = false

-- `inArray(claims.status, ["active", "superseded"])`.
abbrev pub is_current_or_superseded : ClaimStatus → Bool
is_current_or_superseded ClaimStatus.active = true
is_current_or_superseded ClaimStatus.superseded = true
is_current_or_superseded _ = false

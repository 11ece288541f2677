-- ===== src/Identity/Rows.antt =====
-- The rows that the resolution reads (src/db/schema.ts), the candidate, and the trace of a decision.
--
-- Texts and ids are numbers, and 0 is the empty text. A score is a fraction, and fractions are compared
-- exactly.
use assistant_memory.Prelude.{ℕ, ◌*◌, Bool, true, false, leb, Option, List}
use assistant_memory.Graph.{
  NodeType, Scope, personal, reference, AssertedByKind, user, user_confirmed, system, ClaimStatus,
  Predicate,
}

pub record Node : Type 0 where
  pub id : ℕ
  pub user_id : ℕ
  pub partition_key : Option ℕ
  pub node_type : NodeType

pub record NodeMetadata : Type 0 where
  pub node_id : ℕ
  pub canonical_label : Option ℕ

pub record Alias : Type 0 where
  pub user_id : ℕ
  pub partition_key : Option ℕ
  pub normalized_alias_text : ℕ
  pub canonical_node_id : ℕ

pub record SourceLink : Type 0 where
  pub source_id : ℕ
  pub node_id : ℕ

pub record SourceRow : Type 0 where
  pub id : ℕ
  pub user_id : ℕ
  pub partition_key : Option ℕ
  pub scope : Scope

pub record Claim : Type 0 where
  pub user_id : ℕ
  pub partition_key : Option ℕ
  pub status : ClaimStatus
  pub subject_node_id : ℕ
  pub object_node_id : Option ℕ
  pub object_value : Option ℕ
  pub predicate : Predicate
  pub asserted_by_kind : AssertedByKind
  pub scope : Scope

pub record Graph : Type 0 where
  pub nodes : List Node
  pub metadata : List NodeMetadata
  pub aliases : List Alias
  pub links : List SourceLink
  pub sources : List SourceRow
  pub claims : List Claim

pub record Score : Type 0 where
  pub num : ℕ
  pub den : ℕ

abbrev pub reaches : Score → Score → Bool
reaches a b = leb (b.num * a.den) (a.num * b.den)

-- `IdentityCandidateClaim`.
pub record CandidateClaim : Type 0 where
  pub predicate : Predicate
  pub object_value : Option ℕ
  pub object_node_id : Option ℕ
  pub asserted_by_kind : AssertedByKind

-- `IdentityCandidate`; of the embedding only whether there is one.
pub record Candidate : Type 0 where
  pub normalized_label : ℕ
  pub node_type : NodeType
  pub scope : Scope
  pub partition_key : Option ℕ
  pub has_embedding : Bool
  pub supporting_claims : List CandidateClaim
  pub exclude_node_ids : List ℕ

pub data Signal : Type 0 where
  canonical_label alias embedding_sim profile_compat no_signal : Signal

pub record SignalCandidate : Type 0 where
  pub node_id : ℕ
  pub score : Score

pub data Skipped : Type 0 where
  no_embedding no_supporting_claims no_embedding_candidates : Skipped

-- `SignalTrace`, without the thresholds.
pub record SignalTrace : Type 0 where
  pub signal : Signal
  pub fired : Bool
  pub candidates : List SignalCandidate
  pub cross_scope_refusal : Option (ℕ × Scope)
  pub ambiguous : Option (List ℕ)
  pub skipped : Option Skipped

pub record IdentityResolution : Type 0 where
  pub resolved_node_id : Option ℕ
  pub signal : Signal
  pub confidence : Score
  pub trace : List SignalTrace

-- A row of `findSimilarNodes`, which asks the database for the nearest embeddings.
pub record Similar : Type 0 where
  pub id : ℕ
  pub type : NodeType
  pub similarity : Score

abbrev pub same_scope : Scope → Scope → Bool
same_scope personal personal = true
same_scope reference reference = true
same_scope _ _ = false

-- `TRUSTED_PROFILE_KINDS`.
abbrev pub is_trusted : AssertedByKind → Bool
is_trusted user = true
is_trusted user_confirmed = true
is_trusted system = true
is_trusted _ = false

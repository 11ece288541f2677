-- ===== src/Claims/Lifecycle/Settle.antt =====
-- One recomputation of `recomputeSingleValuedLifecycleForSubject`: from the sorted claims of one
-- subject and predicate to the rows that it writes.
pub mod Laws
pub mod Trust
pub mod Carry
pub mod Intervals
use assistant_memory.Prelude.{
  ℕ, Bool, true, false, not, ◌&&◌, ◌||◌, ◌==◌, Option, none, some, List, [], ◌∷◌, ◌++◌, map, filter,
  take, if◌then◌else◌, contains,
}
use assistant_memory.Graph.{
  AssertedByKind, user, user_confirmed, assistant_inferred, participant, document_author, system,
  ClaimStatus, Predicate,
}
use assistant_memory.Claims.Rows.{
  Claim, RequestEvidence, EmailThread, Metadata, LifecycleEvidence, current_message_completion,
  current_message_revision, is_superseded, same_claim,
}
use assistant_memory.Claims.Lifecycle.Order.{email_lifecycle_evidence}

-- A claim as it was read, which is `persistedClaims`, and as the carrying of progress changes it.
pub record Row : Type 0 where
  pub persisted : Claim
  pub current : Claim

abbrev pub row : Claim → Row
row c = record { persisted = c; current = c }

abbrev pub is_email_progress : LifecycleEvidence → Bool
is_email_progress current_message_completion = true
is_email_progress current_message_revision = true
is_email_progress _ = false

abbrev pub is_trusted_user_kind : AssertedByKind → Bool
is_trusted_user_kind user = true
is_trusted_user_kind user_confirmed = true
is_trusted_user_kind _ = false

abbrev pub is_assistant_inferred : AssertedByKind → Bool
is_assistant_inferred assistant_inferred = true
is_assistant_inferred _ = false

abbrev pub supporting_ids : Option RequestEvidence → List ℕ
supporting_ids none = []
supporting_ids (some e) = e.supporting_source_ids

-- `[...new Set(xs)]`: the first occurrence of each.
unfoldable pub unique_from : List ℕ → List ℕ → List ℕ
unique_from seen [] = []
unique_from seen (x ∷ xs) =
    let kept = x ∷ unique_from (x ∷ seen) xs in
    let dropped = unique_from seen xs in if contains seen x then dropped else kept

abbrev pub max_supporting_sources : ℕ
max_supporting_sources = 100

-- The supporting sources of a claim that continues an email thread.
unfoldable pub carried_sources : Claim → Claim → RequestEvidence → List ℕ
unfolding unique_from email_lifecycle_evidence
carried_sources previous c e = take max_supporting_sources (
    unique_from [] (
      c.source_id
      ∷ (previous.source_id
          ∷ (supporting_ids (email_lifecycle_evidence previous) ++ e.supporting_source_ids))))

abbrev pub with_sources : Claim → RequestEvidence → List ℕ → Claim
with_sources c e ids = record c {
  metadata = record {
    request_evidence = some (record e { supporting_source_ids = ids });
    more = c.metadata.more;
  };
}

abbrev pub carry_value : Claim → Claim → LifecycleEvidence → Claim
carry_value previous c l =
    if is_email_progress l then c else record c { object_value = previous.object_value }

abbrev pub carry_thread : Claim → Claim → RequestEvidence → Option EmailThread → Claim
carry_thread previous c e none = c
carry_thread previous c e (some t) =
    carry_value previous (with_sources c e (carried_sources previous c e)) e.lifecycle_evidence

abbrev pub carry_evidence : Claim → Claim → Option RequestEvidence → Claim
carry_evidence previous c none = c
carry_evidence previous c (some e) = carry_thread previous c e e.email_thread

-- One round of the loop over the claims after the first.
unfoldable pub carry : Claim → Claim → Claim
unfolding carried_sources
carry previous c = carry_evidence previous c (email_lifecycle_evidence c)

unfoldable pub carry_from : Claim → List Row → List Row
carry_from previous [] = []
carry_from previous (r ∷ rs) =
    let c = carry previous r.current in record r { current = c } ∷ carry_from c rs

unfoldable pub carry_progress : List Row → List Row
unfolding carry_from
carry_progress [] = []
carry_progress (r ∷ rs) = r ∷ carry_from r.current rs

abbrev pub progress_of : Option RequestEvidence → Bool
progress_of none = false
progress_of (some e) = elim e.email_thread [
  | none ↦ false
  | some t ↦ is_email_progress e.lifecycle_evidence
]

-- `explicitEmailProgress`; the evidence is that of a HAS_TASK_STATUS claim only.
unfoldable pub explicit_email_progress : Claim → Bool
unfolding email_lifecycle_evidence
explicit_email_progress c = progress_of (email_lifecycle_evidence c)

-- Whether a claim is demoted when a trusted user claim stands before it.
unfoldable pub is_demotable : Claim → Bool
is_demotable c = is_assistant_inferred c.asserted_by_kind && not (explicit_email_progress c)

-- The loop of `trustRuleDemotedClaimIds`, with `hasTrustedUserClaim` as its first argument.
unfoldable pub demoted_ids : Bool → List Row → List ℕ
demoted_ids trusted [] = []
demoted_ids trusted (r ∷ rs) =
    let after_user = demoted_ids true rs in
    let later = demoted_ids trusted rs in
    if is_trusted_user_kind r.current.asserted_by_kind
    then after_user
    else if trusted && is_demotable r.current
    then r.current.id ∷ later
    else later

-- What a settled claim needs of the claim after it, or of the removal of a deadline.
pub record Successor : Type 0 where
  pub id : ℕ
  pub stated_at : ℕ

abbrev pub successor_of : Claim → Successor
successor_of c = record { id = c.id; stated_at = c.stated_at }

abbrev pub or_stated : Option ℕ → ℕ → Option ℕ
or_stated none n = some n
or_stated (some m) n = some m

-- `{ ...persisted, ...changes }` for a claim of the chain.
unfoldable pub settle : Option Successor → Claim → Claim
settle none c = record c {
  status = ClaimStatus.active;
  valid_from = or_stated c.valid_from c.stated_at;
  valid_to = if is_superseded c.status then none else c.valid_to;
  superseded_by_claim_id = none;
}
settle (some n) c = record c {
  status = ClaimStatus.superseded;
  valid_from = or_stated c.valid_from c.stated_at;
  valid_to = some n.stated_at;
  superseded_by_claim_id = some n.id;
}

abbrev pub id_of : Option Claim → Option ℕ
id_of none = none
id_of (some c) = some c.id

-- `{ ...persisted, ...changes }` for a demoted claim, whose value and metadata stay as they were.
unfoldable pub settle_demoted : Option Claim → Claim → Claim
settle_demoted latest c = record c {
  status = ClaimStatus.superseded;
  valid_from = or_stated c.valid_from c.stated_at;
  valid_to = some c.stated_at;
  superseded_by_claim_id = id_of latest;
}

pub record Settled : Type 0 where
  pub persisted : Claim
  pub result : Claim

abbrev pub next_in : Option Successor → List Row → Option Successor
next_in removal [] = removal
next_in removal (r ∷ rs) = some (successor_of r.current)

-- The loop over `orderedChain`; the last claim is followed by `deadlineRemoval`, if there is one.
unfoldable pub settle_chain : Option Successor → List Row → List Settled
settle_chain removal [] = []
settle_chain removal (r ∷ rs) =
    record { persisted = r.persisted; result = settle (next_in removal rs) r.current }
    ∷ settle_chain removal rs

-- `orderedChain[orderedChain.length - 1]`.
unfoldable pub latest_active : List Row → Option Claim
latest_active [] = none
latest_active (r ∷ []) = some r.current
latest_active (r ∷ s ∷ rs) = latest_active (s ∷ rs)

abbrev pub is_demoted : List ℕ → Row → Bool
is_demoted demoted r = contains demoted r.current.id

unfoldable pub ordered_chain : List Row → List Row
ordered_chain rows =
    let demoted = demoted_ids false rows in filter (λ r. not (is_demoted demoted r)) rows

unfoldable pub demoted_claims : List Row → List Row
demoted_claims rows = let demoted = demoted_ids false rows in filter (is_demoted demoted) rows

abbrev pub settle_demoted_row : Option Claim → Row → Settled
settle_demoted_row latest r = record {
  persisted = r.persisted;
  result = settle_demoted latest r.persisted;
}

-- Both loops over the carried rows; the removal is looked up for the latest claim of the chain.
unfoldable pub settle_rows : (Option Claim → Option Successor) → List Row → List Settled
settle_rows find_removal rows =
    let chain = ordered_chain rows in
    let latest = latest_active chain in
    settle_chain (find_removal latest) chain
    ++ map (settle_demoted_row latest) (demoted_claims rows)

-- A row is written, with a new `updatedAt`, unless it is as it was.
unfoldable pub updates : ℕ → List Settled → List Claim
updates now [] = []
updates now (s ∷ ss) =
    if same_claim s.persisted s.result
    then updates now ss
    else record (s.result) { updated_at = now } ∷ updates now ss

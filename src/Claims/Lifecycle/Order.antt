-- ===== src/Claims/Lifecycle/Order.antt =====
-- The order of the claims of one subject: `compareLifecycleOrder`, and the sort by it.
pub mod Laws
use Prim.Native.Nat.{compare, Ordering}
use assistant_memory.Prelude.{
  ℕ, Bool, true, false, Option, none, some, List, [], ◌∷◌, if◌then◌else◌,
}
use assistant_memory.Graph.{
  Predicate, attribute, has_task_status, AssertedByKind, user, user_confirmed, participant,
  document_author, assistant_inferred, system,
}
use assistant_memory.Claims.Rows.{Claim, RequestEvidence, EmailThread, Metadata}

-- `ASSERTED_BY_KIND_TRUST_RANK`.
abbrev pub asserted_by_kind_trust_rank : AssertedByKind → ℕ
asserted_by_kind_trust_rank user = 5
asserted_by_kind_trust_rank user_confirmed = 5
asserted_by_kind_trust_rank participant = 4
asserted_by_kind_trust_rank document_author = 3
asserted_by_kind_trust_rank assistant_inferred = 2
asserted_by_kind_trust_rank system = 1

abbrev pub evidence_of : Predicate → Metadata → Option RequestEvidence
evidence_of (attribute has_task_status) m = m.request_evidence
evidence_of _ m = none

-- `emailLifecycleEvidence`.
unfoldable pub email_lifecycle_evidence : Claim → Option RequestEvidence
email_lifecycle_evidence c = evidence_of c.predicate c.metadata

-- `evidence?.emailThread`.
abbrev pub thread_of : Option RequestEvidence → Option EmailThread
thread_of none = none
thread_of (some e) = e.email_thread

unfoldable pub email_thread_of : Claim → Option EmailThread
unfolding email_lifecycle_evidence
email_thread_of c = thread_of (email_lifecycle_evidence c)

-- `a || b` on the results of comparisons.
abbrev pub or_else : Ordering → Ordering → Ordering
or_else Ordering.eq o = o
or_else Ordering.lt o = Ordering.lt
or_else Ordering.gt o = Ordering.gt

-- The comparison of two claims that both carry an email thread; it decides nothing otherwise.
abbrev pub compare_evidence : Option EmailThread → Option EmailThread → Ordering
compare_evidence (some a) (some b) =
    or_else (compare a.message_id b.message_id)
      (compare a.evidence_fingerprint b.evidence_fingerprint)
compare_evidence none b = Ordering.eq
compare_evidence (some a) none = Ordering.eq

-- `compareLifecycleOrder`.
unfoldable pub compare_lifecycle_order : Claim → Claim → Ordering
compare_lifecycle_order a b = or_else (compare a.stated_at b.stated_at) (
    or_else (compare_evidence (email_thread_of a) (email_thread_of b)) (
      or_else (compare a.created_at b.created_at) (
        or_else
          (compare (asserted_by_kind_trust_rank a.asserted_by_kind)
            (asserted_by_kind_trust_rank b.asserted_by_kind))
          (compare a.id b.id))))

abbrev pub is_lt : Ordering → Bool
is_lt Ordering.lt = true
is_lt _ = false

-- Before the first claim that is not smaller.
unfoldable pub insert_claim : Claim → List Claim → List Claim
insert_claim c [] = c ∷ []
insert_claim c (d ∷ ds) =
    if is_lt (compare_lifecycle_order d c) then d ∷ insert_claim c ds else c ∷ d ∷ ds

-- `.sort(compareLifecycleOrder)`, which is stable. Where the comparison is no order the standard
-- leaves the result open, and this is one of those it allows.
unfoldable pub sort_claims : List Claim → List Claim
unfolding insert_claim
sort_claims [] = []
sort_claims (c ∷ cs) = insert_claim c (sort_claims cs)

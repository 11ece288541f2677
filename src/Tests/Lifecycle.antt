-- ===== src/Tests/Lifecycle.antt =====
-- Claims of one task.
use assistant_memory.Prelude.{
  List, inl, ◌≡◌, refl, ℕ, Bool, true, false, Option, none, some, [], ◌∷◌, arith, if◌then◌else◌,
  ◌==◌,
}
use mathlib.Core.List.{Memᴰ}
use Prim.Native.Nat.{Ordering}
use assistant_memory.Graph.{
  task, ClaimStatus, AssertedByKind, attribute, relationship, same_predicate, has_task_status,
  due_on,
}
use assistant_memory.Claims.Rows.{
  Claim, EmailThread, LifecycleEvidence, current_message_clarification, current_message_revision,
  matched, RequestEvidence,
}
use assistant_memory.Claims.Lifecycle.Order.{
  compare_lifecycle_order, email_thread_of, email_lifecycle_evidence,
}
use assistant_memory.Claims.Lifecycle.Order.Laws.{compare-circular}
use assistant_memory.Claims.Lifecycle.Settle.{Row, row, carry_progress}
use assistant_memory.Claims.Lifecycle.Settle.Carry.{
  IsClarification, AllFollow, carry_progress-follows,
}
use assistant_memory.Claims.Lifecycle.Removal.{
  Source, email, joined_rows, find_email_deadline_removal, is_removal, find_deadline, live_source,
  removals, earliest,
}
use assistant_memory.Claims.Lifecycle.Removal.Laws.{
  IsFirstRemoval, find_email_deadline_removal-first,
}
use assistant_memory.Claims.Lifecycle.Apply.{SingleValuedSubject, Database, apply_claim_lifecycle}
use assistant_memory.Claims.Lifecycle.Apply.Frame.{IsStored, apply_claim_lifecycle-IsStored}

-- A claim of the status of task 5, by its id, author, value, time and evidence.
abbrev claim : ℕ → AssertedByKind → ℕ → ℕ → ℕ → Option RequestEvidence → Claim
claim id kind value at made evidence = record {
  id = id;
  user_id = 1;
  subject_node_id = 5;
  predicate = attribute has_task_status;
  object_value = some value;
  source_id = id;
  asserted_by_kind = kind;
  status = ClaimStatus.active;
  stated_at = at;
  created_at = made;
  valid_from = none;
  valid_to = none;
  superseded_by_claim_id = none;
  metadata = record { request_evidence = evidence; more = 0 };
  updated_at = made;
  more = 0;
}

abbrev thread : ℕ → EmailThread
thread message = record {
  account_id = 1;
  thread_id = 1;
  message_id = message;
  excerpt = 3;
  evidence_fingerprint = message;
  more = 0;
}

abbrev evidence : LifecycleEvidence → ℕ → RequestEvidence
evidence l message = record {
  supporting_source_ids = [];
  lifecycle_evidence = l;
  match_status = some matched;
  email_thread = some (thread message);
  more = 0;
}

abbrev by_user : Claim
by_user = claim 10 AssertedByKind.user 1 100 100 none

abbrev by_assistant : Claim
by_assistant = claim 11 AssertedByKind.assistant_inferred 2 200 200 none

abbrev question : Claim
question =
    claim 12 AssertedByKind.assistant_inferred 3 300 300
      (some (evidence current_message_clarification 2))

question-IsClarification : IsClarification question
unfolding email_lifecycle_evidence
question-IsClarification = record {
  evidence = evidence current_message_clarification 2;
  thread = thread 2;
  read = refl;
  threaded = refl;
  no_progress = refl;
}

carry_progress-follows_example :
    (ss : List Row) × (carry_progress (row by_user ∷ row by_assistant ∷ row question ∷ [])
      ≡ row by_user ∷ ss)
    × AllFollow by_user (row by_assistant ∷ row question ∷ []) ss
carry_progress-follows_example =
    carry_progress-follows (row by_user) (row by_assistant ∷ row question ∷ [])

-- Three claims of one moment.
abbrev first_mail : Claim
first_mail =
    claim 1 AssertedByKind.assistant_inferred 1 100 30
      (some (evidence current_message_clarification 1))

abbrev second_mail : Claim
second_mail =
    claim 2 AssertedByKind.assistant_inferred 1 100 10
      (some (evidence current_message_clarification 2))

abbrev no_mail : Claim
no_mail = claim 3 AssertedByKind.assistant_inferred 1 100 20 none

mail-thread : email_thread_of first_mail ≡ some (thread 1)
unfolding email_thread_of email_lifecycle_evidence
mail-thread = refl

second-thread : email_thread_of second_mail ≡ some (thread 2)
unfolding email_thread_of email_lifecycle_evidence
second-thread = refl

no-thread : email_thread_of no_mail ≡ none
unfolding email_thread_of email_lifecycle_evidence
no-thread = refl

compare-circular_example :
    (compare_lifecycle_order first_mail second_mail ≡ Ordering.lt)
    × (compare_lifecycle_order second_mail no_mail ≡ Ordering.lt)
    × (compare_lifecycle_order no_mail first_mail ≡ Ordering.lt)
compare-circular_example =
    compare-circular first_mail second_mail no_mail (thread 1) (thread 2) mail-thread second-thread
      no-thread refl refl (ground arith) (ground arith) (ground arith)

-- A deadline of message 1 and a revision of message 2 that removes it.
abbrev deadline : Claim
deadline = record (claim 20 AssertedByKind.assistant_inferred 9 100 100 none) {
  predicate = relationship due_on;
}

abbrev revision : Claim
revision =
    claim 21 AssertedByKind.assistant_inferred 1 200 200
      (some (evidence current_message_revision 2))

abbrev mail : ℕ → Source
mail id = record {
  id = id;
  deleted_at = none;
  context = some (record { source_kind = email; account_id = some 1; thread_id = some 1 });
}

abbrev says_no_deadline : ℕ → Bool
says_no_deadline excerpt = if excerpt == 3 then true else false

found_removal :
    find_email_deadline_removal says_no_deadline
      (mail 20 ∷ mail 21 ∷ [])
      (deadline ∷ revision ∷ [])
      1
      5
      20
    ≡ some revision
unfolding find_email_deadline_removal joined_rows find_deadline live_source removals is_removal
    earliest same_predicate
found_removal = refl

find_email_deadline_removal-first_example :
    IsFirstRemoval says_no_deadline
      (joined_rows 1 5 (mail 20 ∷ mail 21 ∷ []) (deadline ∷ revision ∷ []))
      20
      revision
find_email_deadline_removal-first_example =
    find_email_deadline_removal-first says_no_deadline (mail 20 ∷ mail 21 ∷ [])
      (deadline ∷ revision ∷ []) 1 5 20 revision found_removal

abbrev retracted_claim : Claim
retracted_claim = record by_user { status = ClaimStatus.retracted }

abbrev database : Database
database = record {
  claims = retracted_claim ∷ by_assistant ∷ [];
  sources = [];
  node_types = λ n. some task;
}

apply_claim_lifecycle-IsStored_example :
    IsStored retracted_claim
      (apply_claim_lifecycle says_no_deadline 900 database (by_assistant ∷ [])).claims
apply_claim_lifecycle-IsStored_example =
    apply_claim_lifecycle-IsStored says_no_deadline 900 database (by_assistant ∷ []) retracted_claim
      (inl refl)
      (record {
        stored = Memᴰ.head refl;
        alone = ((λ e. refl), ((λ e. absurd (ground arith)), tt));
      })

abbrev with_deadline : Database
with_deadline = record {
  claims = deadline ∷ revision ∷ [];
  sources = mail 20 ∷ mail 21 ∷ [];
  node_types = λ n. some task;
}

abbrev due_date : SingleValuedSubject
due_date = record {
  user_id = 1;
  subject_node_id = 5;
  subject_type = task;
  predicate = relationship due_on;
}

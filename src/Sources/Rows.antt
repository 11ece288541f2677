-- ===== src/Sources/Rows.antt =====
-- The tables of the source lifecycle (src/db/schema.ts), and what a command gives back.
--
-- Ids, users, keys and times are numbers. The key of an object is the pair that `sourceBlobObjectKey`
-- joins: the user and the source.
use assistant_memory.Prelude.{
  ◌≡◌, refl, subst, ℕ, Bool, true, false, ◌&&◌, ◌==◌, Option, none, some, List, [], ◌∷◌, contains,
  if◌then◌else◌,
}
use assistant_memory.Erasure.Rows.{Graph, delete_where, delete_claims}
use assistant_memory.Partition.Tables.{SourceStatus}
use assistant_memory.Processing.Receipts.{Operation}

pub data Action : Type 0 where
  tombstone restore purge : Action

pub data State : Type 0 where
  tombstoned restored purged : State

pub data CleanupState : Type 0 where
  not_required cleanup_due cleanup_done : CleanupState

pub data UploadState : Type 0 where
  reserved uploading upload_unknown uploaded cleanup_pending cleanup_completed : UploadState

-- `sources`; `metadata` is 0 when it is empty.
pub record SourceRow : Type 0 where
  pub id : ℕ
  pub user_id : ℕ
  pub partition_key : Option ℕ
  pub version : ℕ
  pub parent_source : Option ℕ
  pub metadata : ℕ
  pub deleted_at : Option ℕ
  pub content_type : Option ℕ
  pub content_length : Option ℕ
  pub status : SourceStatus

pub record Tombstone : Type 0 where
  pub user_id : ℕ
  pub source_id : ℕ
  pub partition_key : Option ℕ
  pub state : State
  pub storage_cleanup_state : CleanupState
  pub read_model_cleanup_state : CleanupState
  pub storage_object_key : Option (ℕ × ℕ)
  pub erased_at : ℕ
  pub restorable_until : Option ℕ
  pub finalized_at : Option ℕ
  pub updated_at : ℕ

pub record Upload : Type 0 where
  pub user_id : ℕ
  pub source_id : ℕ
  pub object_key : ℕ × ℕ
  pub state : UploadState
  pub updated_at : ℕ
  pub uploaded_at : Option ℕ
  pub cleanup_completed_at : Option ℕ

-- `SourceLifecycleCommandRequest`.
pub record Request : Type 0 where
  pub user_id : ℕ
  pub command_id : ℕ
  pub source_id : ℕ
  pub expected_partition_key : Option ℕ
  pub expected_source_version : ℕ
  pub action : Action

-- `sourceLifecycleCommands`.
pub record Command : Type 0 where
  pub user_id : ℕ
  pub command_id : ℕ
  pub source_id : ℕ
  pub expected_partition_key : Option ℕ
  pub expected_source_version : ℕ
  pub action : Action
  pub state : State
  pub source_version : Option ℕ
  pub restorable_until : Option ℕ
  pub storage_cleanup_state : CleanupState
  pub storage_object_keys : List (ℕ × ℕ)

-- `SourceLifecycleCommandResponse`.
pub record Response : Type 0 where
  pub source_id : ℕ
  pub command_id : ℕ
  pub action : Action
  pub state : State
  pub replayed : Bool
  pub fresh_ingestion_required : Bool
  pub source_version : Option ℕ
  pub restorable_until : Option ℕ
  pub storage_cleanup_state : CleanupState

pub record Store : Type 0 where
  pub sources : List SourceRow
  pub tombstones : List Tombstone
  pub uploads : List Upload
  pub commands : List Command
  pub graph : Graph
  pub operations : List Operation

-- `SourceLifecycleError`, by its code and details, or a plain `Error`.
pub data LifecycleError : Type 0 where
  source_not_found command_conflict descendant_changed plain_error : LifecycleError
  partition_conflict version_conflict : Option ℕ → ℕ → LifecycleError
  state_conflict : Option (State × Option ℕ) → LifecycleError
  restore_window_expired : State → Option ℕ → LifecycleError

-- What a call throws or returns. A transaction that throws leaves the store as it was.
pub data Answer {ℓ} (A : Type ℓ) : Type ℓ where
  refused : LifecycleError → Answer A
  answered : A → Answer A

-- `if (…) throw …`.
abbrev pub throw_if {ℓ} : {A : Type ℓ} → Bool → LifecycleError → Answer A → Answer A
throw_if true error rest = refused error
throw_if false error rest = rest

-- What holds of what a call returns.
abbrev pub Returns {ℓ κ} : {A : Type ℓ} → (A → Type κ) → Answer A → Type κ
Returns P (refused error) = Unit
Returns P (answered x) = P x

pub throw_if-Returns {ℓ κ} :
    {A : Type ℓ} (P : A → Type κ) (b : Bool) (error : LifecycleError) (rest : Answer A)
    → (b ≡ false → Returns P rest)
    → Returns P (throw_if b error rest)
throw_if-Returns P true error rest f = tt
throw_if-Returns P false error rest f = f refl

pub returned {ℓ κ} :
    {A : Type ℓ} (P : A → Type κ) (m : Answer A) (x : A) → Returns P m → m ≡ answered x → P x
returned P m x h e = subst (Returns P) e h

abbrev pub same_action : Action → Action → Bool
same_action tombstone tombstone = true
same_action restore restore = true
same_action purge purge = true
same_action _ _ = false

abbrev pub is_tombstoned : State → Bool
is_tombstoned tombstoned = true
is_tombstoned _ = false

abbrev pub is_restored : State → Bool
is_restored restored = true
is_restored _ = false

abbrev pub is_purged : State → Bool
is_purged purged = true
is_purged _ = false

abbrev pub is_present : Option ℕ → Bool
is_present none = false
is_present (some n) = true

abbrev pub is_source : ℕ → ℕ → SourceRow → Bool
is_source user_id id s = s.user_id == user_id && s.id == id

abbrev pub is_tombstone : ℕ → ℕ → Tombstone → Bool
is_tombstone user_id id t = t.user_id == user_id && t.source_id == id

unfoldable pub find_first {ℓ} : {A : Type ℓ} → (A → Bool) → List A → Option A
find_first p [] = none
find_first p (x ∷ xs) = let rest = find_first p xs in if p x then some x else rest

-- A deleted source takes with it what the foreign keys hang on it.
abbrev pub cascade_sources : List ℕ → Graph → Graph
cascade_sources ids g =
    let h = delete_claims (λ c. contains ids c.source_id) g in
    record h {
      links = delete_where (λ l. contains ids l.source_id) h.links;
      observations = delete_where (λ o. contains ids o.source_id) h.observations;
      presentations = delete_where (λ p. contains ids p.source_id) h.presentations;
    }

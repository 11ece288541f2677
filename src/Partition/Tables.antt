-- ===== src/Partition/Tables.antt =====
-- The tables behind partition access (src/db/schema.ts), and the errors that the boundary throws.
--
-- Users, keys, ids and texts are numbers. A table with a primary key is a function of it.
use assistant_memory.Prelude.{
  arith, ◌≡◌, refl, ap, ℕ, ◌+◌, Bool, true, false, ◌&&◌, ◌==◌, Option, none, some, List, [], ◌∷◌,
  if◌then◌else◌, map,
}

pub data ErrorCode : Type 0 where
  partition_required partition_migration_required partition_unauthorized : ErrorCode
  source_version_conflict source_identity_retired source_tombstoned : ErrorCode

-- `PartitionAccessError`, with its current version, or a plain `Error`.
pub data Error : Type 0 where
  partition_access_error : ErrorCode → Option ℕ → Error
  plain_error : Error

-- What a call throws or returns.
pub data Result {ℓ} (T : Type ℓ) : Type ℓ where
  err : Error → Result T
  ok : T → Result T

-- Throws the error unless the test holds.
abbrev pub ensure : Bool → Error → Result (Unit {0})
ensure false error = err error
ensure true error = ok tt

infixl 5 ◌>>=◌
abbrev pub ◌>>=◌ {ℓ κ} : {S : Type ℓ} {T : Type κ} → Result S → (S → Result T) → Result T
err thrown >>= next = err thrown
ok value >>= next = next value

infixl 5 ◌>>◌
abbrev pub ◌>>◌ {κ} : {T : Type κ} → Result (Unit {0}) → Result T → Result T
first >> second = first >>= (λ done. second)

pub ok-injective {ℓ} : {A : Type ℓ} {a b : A} → ok a ≡ ok b → a ≡ b
ok-injective {a} e = ap (λ r. elim r [ ok x ↦ x | err y ↦ a ]) e

-- What a chain that returns has returned on the way.
pub bind-ok {ℓ κ} :
    {S : Type ℓ} {T : Type κ} (first : Result S) (next : S → Result T) (value : T)
    → (first >>= next) ≡ ok value
    → (s : S) × (first ≡ ok s) × (next s ≡ ok value)
bind-ok (err thrown) next value e = absurd (ground arith)
bind-ok (ok s) next value e = (s, refl, e)

pub ensure-ok {ℓ} :
    {B : Type ℓ} (test : Bool) (e : Error) (m : Result B) (b : B)
    → (ensure test e >> m) ≡ ok b
    → (test ≡ true) × (m ≡ ok b)
ensure-ok true e m b h = (refl, h)
ensure-ok false e m b h = absurd (ground arith)

pub data MigrationState : Type 0 where
  migrating migrated : MigrationState

pub data PartitionStatus : Type 0 where
  active quarantined : PartitionStatus

-- `MemoryAccessScope`.
pub data AccessScope : Type 0 where
  partition workspace : AccessScope

pub data SourceStatus : Type 0 where
  pending processing completed failed summarized : SourceStatus

pub record SourceIdentity : Type 0 where
  pub user_id : ℕ
  pub source_type : ℕ
  pub external_id : ℕ

-- `ingestion_revision_hash` is the field of the metadata that the receipts read, and `more` stands
-- for the columns that no code here reads.
pub record Source : Type 0 where
  pub id : ℕ
  pub user_id : ℕ
  pub type : ℕ
  pub external_id : ℕ
  pub partition_key : Option ℕ
  pub version : ℕ
  pub status : SourceStatus
  pub deleted_at : Option ℕ
  pub ingestion_revision_hash : Option ℕ
  pub more : ℕ

pub record Tables : Type 0 where
  pub migration : ℕ → Option MigrationState
  pub partitions : ℕ → ℕ → Option PartitionStatus
  pub sources : List Source
  pub source_tombstones : List (ℕ × ℕ)
  pub identity_tombstones : List SourceIdentity

abbrev pub same_key : Option ℕ → Option ℕ → Bool
same_key none none = true
same_key (some a) (some b) = a == b
same_key _ _ = false

abbrev pub is_status : SourceStatus → SourceStatus → Bool
is_status pending pending = true
is_status processing processing = true
is_status completed completed = true
is_status failed failed = true
is_status summarized summarized = true
is_status _ _ = false

-- The row of a user with an id; `sources.id` is a primary key.
unfoldable pub find_source : ℕ → ℕ → List Source → Option Source
find_source user_id id [] = none
find_source user_id id (s ∷ ss) =
    if s.user_id == user_id && s.id == id then some s else find_source user_id id ss

-- An update of the status. The trigger `enforce_source_version` of
-- drizzle/0028_dizzy_norrin_radd.sql adds one to the version if the status changes.
unfoldable pub set_status : SourceStatus → Source → Source
set_status status s =
    if is_status s.status status then s else record s { status = status; version = s.version + 1 }

unfoldable pub update_source_status : ℕ → ℕ → SourceStatus → List Source → List Source
unfolding set_status
update_source_status user_id id status ss =
    map (λ s. if s.user_id == user_id && s.id == id then set_status status s else s) ss

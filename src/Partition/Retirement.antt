-- ===== src/Partition/Retirement.antt =====
-- src/lib/source-identity-lifecycle.ts: retiring and restoring an external identity.
pub mod Laws
use assistant_memory.Prelude.{
  ℕ, Bool, not, ◌&&◌, ◌==◌, Option, List, [], ◌∷◌, map, any, filter, contains, if◌then◌else◌,
}
use assistant_memory.Partition.Tables.{
  partition_unauthorized, Result, ok, ensure, ◌>>◌, SourceIdentity, Source, Tables, same_key,
}
use assistant_memory.Partition.Access.{error}
use assistant_memory.Partition.Fence.{same_identity, has_identity, identity_of}

-- `sourceIdentityTombstones`, without its date.
pub record IdentityTombstone : Type 0 where
  pub identity : SourceIdentity
  pub partition_key : Option ℕ

pub data Action : Type 0 where
  retire restore : Action

-- `SourceIdentityLifecycleInput`. An identity is its type and its external id; the schema of the
-- request asks for at least one.
pub record IdentityInput : Type 0 where
  pub user_id : ℕ
  pub partition_key : Option ℕ
  pub identity : ℕ × ℕ
  pub more_identities : List (ℕ × ℕ)
  pub action : Action

abbrev pub identities : IdentityInput → List (ℕ × ℕ)
identities i = i.identity ∷ i.more_identities

-- The tombstones stand for the column `identity_tombstones` of the tables.
pub record IdentityStore : Type 0 where
  pub tables : Tables
  pub tombstones : List IdentityTombstone

-- One that stands twice is taken once, which neither write nor test depends on.
abbrev pub requested : IdentityInput → List SourceIdentity
requested i =
    map (λ p. record { user_id = i.user_id; source_type = p.0; external_id = p.1 }) (identities i)

-- The rows of the user that have a requested type, a requested external id, and their pair.
abbrev pub is_requested : IdentityInput → SourceIdentity → Bool
is_requested i r =
    r.user_id == i.user_id
    && contains (map (λ p. p.0) (identities i)) r.source_type
    && contains (map (λ p. p.1) (identities i)) r.external_id
    && has_identity (requested i) r

abbrev pub source_matches : IdentityInput → List Source → List Source
source_matches i ss =
    filter (λ s. s.user_id == i.user_id && is_requested i (identity_of i.user_id s)) ss

abbrev pub retirement_matches : IdentityInput → List IdentityTombstone → List IdentityTombstone
retirement_matches i ts = filter (λ t. is_requested i t.identity) ts

-- `insert(…)…onConflictDoNothing` of one row.
abbrev pub insert_identity :
    Option ℕ → SourceIdentity → List IdentityTombstone → List IdentityTombstone
insert_identity key r ts =
    if any (λ t. same_identity t.identity r) ts
    then ts
    else record { identity = r; partition_key = key } ∷ ts

unfoldable pub insert_identities :
    Option ℕ → List SourceIdentity → List IdentityTombstone → List IdentityTombstone
insert_identities key [] ts = ts
insert_identities key (r ∷ rs) ts = insert_identities key rs (insert_identity key r ts)

-- The condition of the `delete`.
abbrev pub is_deleted : IdentityInput → SourceIdentity → Bool
is_deleted i r = r.user_id == i.user_id && has_identity (requested i) r

unfoldable pub delete_identities : IdentityInput → List IdentityTombstone → List IdentityTombstone
delete_identities i ts = filter (λ t. not (is_deleted i t.identity)) ts

unfoldable pub written : Action → IdentityInput → List IdentityTombstone → List IdentityTombstone
unfolding insert_identities delete_identities
written retire i ts = insert_identities i.partition_key (requested i) ts
written restore i ts = delete_identities i ts

-- The two tests that the rows are of the partition of the request.
abbrev pub own_sources : IdentityInput → List Source → Bool
own_sources i ss =
    not (any (λ k. not (same_key k.partition_key i.partition_key)) (source_matches i ss))

abbrev pub own_retirements : IdentityInput → List IdentityTombstone → Bool
own_retirements i ts =
    not (any (λ t. not (same_key t.partition_key i.partition_key)) (retirement_matches i ts))

-- `applySourceIdentityLifecycle`: the tombstones after it, and the sources that have the identities.
unfoldable pub apply_source_identity_lifecycle :
    IdentityInput → IdentityStore → Result (IdentityStore × List Source)
unfolding written
apply_source_identity_lifecycle i s = do
  ensure (own_sources i s.tables.sources) (error partition_unauthorized)
  ensure (own_retirements i s.tombstones) (error partition_unauthorized)
  ok (record s { tombstones = written i.action i s.tombstones }, source_matches i s.tables.sources)

-- What the other transactions read of the tombstones.
abbrev pub tables_of : IdentityStore → Tables
tables_of s = record (s.tables) { identity_tombstones = map (λ t. t.identity) s.tombstones }

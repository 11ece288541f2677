-- ===== src/Tests/Retirement.antt =====
-- A mailbox is retired before its source was seen, and restored again.
use assistant_memory.Prelude.{◌≡◌, refl, some, [], ◌∷◌, contains, List}
use assistant_memory.Partition.Tables.{ok, err, source_identity_retired, SourceIdentity}
use assistant_memory.Partition.Access.{error}
use assistant_memory.Partition.Fence.{assert_source_identities_active}
use assistant_memory.Partition.Retirement.{
  Action, retire, restore, IdentityInput, IdentityStore, IdentityTombstone, requested,
  insert_identities, delete_identities, written, apply_source_identity_lifecycle, tables_of,
}
use assistant_memory.Partition.Retirement.Laws.{retire-closes, restore-opens}
use assistant_memory.Tests.Partition.{tables}

abbrev mailbox : SourceIdentity
mailbox = record { user_id = 1; source_type = 2; external_id = 90 }

abbrev other_mailbox : SourceIdentity
other_mailbox = record { user_id = 1; source_type = 2; external_id = 91 }

abbrev asked : Action → IdentityInput
asked action = record {
  user_id = 1;
  partition_key = some 4;
  identity = (2, 90);
  more_identities = (2, 90) ∷ [];
  action = action;
}

abbrev store_with : List IdentityTombstone → IdentityStore
store_with tombstones = record { tables = tables; tombstones = tombstones }

abbrev its_tombstone : IdentityTombstone
its_tombstone = record { identity = mailbox; partition_key = some 4 }

retired :
    apply_source_identity_lifecycle (asked retire) (store_with [])
    ≡ ok (store_with (its_tombstone ∷ []), [])
unfolding apply_source_identity_lifecycle written insert_identities contains
retired = refl

restored :
    apply_source_identity_lifecycle (asked restore) (store_with (its_tombstone ∷ []))
    ≡ ok (store_with [], [])
unfolding apply_source_identity_lifecycle written delete_identities contains
restored = refl

retire-closes_example :
    assert_source_identities_active
      (tables_of (store_with (its_tombstone ∷ [])))
      (other_mailbox ∷ mailbox ∷ [])
    ≡ err (error source_identity_retired)
retire-closes_example =
    retire-closes (asked retire) (store_with []) (store_with (its_tombstone ∷ [])) []
      (other_mailbox ∷ mailbox ∷ []) mailbox refl retired refl refl

restore-opens_example :
    assert_source_identities_active (tables_of (store_with [])) (requested (asked restore)) ≡ ok tt
restore-opens_example =
    restore-opens (asked restore) (store_with (its_tombstone ∷ [])) (store_with []) [] refl restored

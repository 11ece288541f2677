-- ===== src/Tests/Sources.antt =====
-- Conversation 5 of user 1, with message 6, is tombstoned, restored, or neither.
use assistant_memory.Prelude.{
  ◌≡◌, refl, ◌↔◌, true, none, some, List, [], ◌∷◌, contains, ℕ, Bool, not, filter,
}
use assistant_memory.Tests.Erasure.{graph}
use assistant_memory.Partition.Tables.{SourceStatus}
use assistant_memory.Sources.Rows.{
  SourceRow, Tombstone, Request, Response, Store, tombstone, restore, purge, answered, refused,
  source_not_found, command_conflict, find_first, Upload, upload_unknown,
}
use assistant_memory.Sources.Tree.{descend, find_source_tree_ids, load_and_lock_source_tree}
use assistant_memory.Sources.Tree.Exact.{IsBelow, find_source_tree_ids-exact}
use assistant_memory.Sources.Actions.{
  apply_action, tombstone_action, restore_action, tombstone_store, tombstone_response, erase_row,
  new_tombstone, restore_answer,
}
use assistant_memory.Sources.Commands.{
  apply_source_lifecycle_command, load_command, apply_locked, assert_expected_source,
  record_command,
}
use assistant_memory.Sources.Commands.Replay.{
  apply_source_lifecycle_command-replays, apply_source_lifecycle_command-conflict,
}
use assistant_memory.Sources.Commands.Final.{apply_source_lifecycle_command-ends}
use assistant_memory.Sources.Commands.Tombstoned.{
  IsRetired, apply_source_lifecycle_command-IsRetired,
}
use assistant_memory.Sources.Commands.Reached.{IsLegal, here, next, command, Reach-IsLegal}
use assistant_memory.Sources.Cleanup.{is_same_key, mark_source_storage_cleanup_completed}
use assistant_memory.Sources.Cleanup.Pending.{Pending, pending_tombstone}
use assistant_memory.Sources.Cleanup.Sweep.{retry_pending_source_tombstone_storage_cleanup}
use assistant_memory.Sources.Unsettled.{IsUnsettled}
use assistant_memory.Sources.Unsettled.Reached.{sweep, mark, Reach-IsUnsettled}
use assistant_memory.Sources.Unsettled.Reached as Unsettled

abbrev conversation : SourceRow
conversation = record {
  id = 5;
  user_id = 1;
  partition_key = some 2;
  version = 0;
  parent_source = none;
  metadata = 77;
  deleted_at = none;
  content_type = some 3;
  content_length = some 120;
  status = SourceStatus.completed;
}

abbrev message : SourceRow
message = record conversation { id = 6; parent_source = some 5 }

abbrev request : Request
request = record {
  user_id = 1;
  command_id = 100;
  source_id = 5;
  expected_partition_key = some 2;
  expected_source_version = 0;
  action = tombstone;
}

abbrev store : Store
store = record {
  sources = conversation ∷ message ∷ [];
  tombstones = [];
  uploads = [];
  commands = [];
  graph = graph;
  operations = [];
}

abbrev tree : List SourceRow
tree = conversation ∷ message ∷ []

-- What the tombstone command leaves and answers at time 1000.
abbrev done : Store × Response
done = record_command request tree (
  tombstone_store 1000 request tree store,
  tombstone_response 1000 request (erase_row 1000 conversation),
)

request_done : apply_source_lifecycle_command [] 1000 request store ≡ answered (done.0, done.1)
unfolding apply_source_lifecycle_command apply_locked load_command find_first
    load_and_lock_source_tree find_source_tree_ids descend contains assert_expected_source
    apply_action tombstone_action
request_done = refl

tree_loaded : load_and_lock_source_tree 1 5 store.sources ≡ answered tree
unfolding load_and_lock_source_tree find_source_tree_ids descend contains
tree_loaded = refl

unseen : load_command 1 100 [] ≡ none
unfolding load_command find_first
unseen = refl

apply_source_lifecycle_command-IsRetired_example : IsRetired 1 (5 ∷ 6 ∷ []) done.0
apply_source_lifecycle_command-IsRetired_example =
    apply_source_lifecycle_command-IsRetired [] 1000 request store done.0 done.1 tree request_done
      refl refl tree_loaded

apply_source_lifecycle_command-replays_example :
    apply_source_lifecycle_command done.0.commands 2000 request done.0
    ≡ answered (done.0, record done.1 { replayed = true })
apply_source_lifecycle_command-replays_example =
    apply_source_lifecycle_command-replays [] 1000 2000 request store done.0 done.1 unseen
      request_done

-- The same command id for the message.
abbrev other_request : Request
other_request = record request { source_id = 6 }

apply_source_lifecycle_command-conflict_example :
    apply_source_lifecycle_command done.0.commands 2000 other_request done.0
    ≡ refused command_conflict
apply_source_lifecycle_command-conflict_example =
    apply_source_lifecycle_command-conflict [] 1000 2000 request other_request store done.0 done.1
      unseen request_done refl refl refl

store-IsLegal : IsLegal store
store-IsLegal = (refl, (refl, tt))

Reach-IsLegal_example : IsLegal done.0
Reach-IsLegal_example =
    Reach-IsLegal (next here (command [] 1000 request done.1 request_done)) store-IsLegal

find_source_tree_ids-exact_example :
    (contains (find_source_tree_ids 1 5 tree) 6 ≡ true) ↔ IsBelow 1 5 tree 6
find_source_tree_ids-exact_example = find_source_tree_ids-exact 1 5 tree 6

-- The tombstone of the conversation, and its restore.
abbrev buried : Tombstone
buried = new_tombstone 1000 1 conversation

abbrev buried_store : Store
buried_store = record store { sources = erase_row 1000 conversation ∷ []; tombstones = buried ∷ [] }

abbrev restoring : Request
restoring = record request { command_id = 101; expected_source_version = 1; action = restore }

abbrev restored_store : Store × Response
restored_store =
    record_command restoring (erase_row 1000 conversation ∷ [])
      (restore_answer 2000 restoring (erase_row 1000 conversation ∷ []) buried buried_store)

restoring_done :
    apply_source_lifecycle_command [] 2000 restoring buried_store
    ≡ answered (restored_store.0, restored_store.1)
unfolding apply_source_lifecycle_command apply_locked load_command find_first
    load_and_lock_source_tree find_source_tree_ids descend contains assert_expected_source
    apply_action restore_action
restoring_done = refl

purge_unseen : load_command 1 102 [] ≡ none
unfolding load_command find_first
purge_unseen = refl

apply_source_lifecycle_command-ends_example :
    apply_source_lifecycle_command [] 3000
      (record restoring { command_id = 102; action = purge })
      restored_store.0
    ≡ refused source_not_found
apply_source_lifecycle_command-ends_example =
    apply_source_lifecycle_command-ends [] [] 2000 3000 restoring
      (record restoring { command_id = 102; action = purge }) buried_store restored_store.0
      restored_store.0 restored_store.1 restoring_done refl refl here refl refl purge_unseen

-- The bytes of the conversation may still arrive.
abbrev lost : Upload
lost = record {
  user_id = 1;
  source_id = 5;
  object_key = (1, 5);
  state = upload_unknown;
  updated_at = 900;
  uploaded_at = none;
  cleanup_completed_at = none;
}

abbrev lost_store : Store
lost_store = record buried_store { uploads = lost ∷ [] }

abbrev Objects : Type 0
Objects = List (ℕ × ℕ)

-- An object store that deletes every object with the key.
delete_key : ℕ × ℕ → Objects → Objects × Bool
delete_key key os = (filter (λ o. not (is_same_key key o)) os, true)

lost-IsUnsettled : IsUnsettled 1 5 lost_store
lost-IsUnsettled = record { there = refl; unsettled = (refl, tt); waiting = (refl, tt) }

Reach-IsUnsettled_example : IsUnsettled 1 5 (
    mark_source_storage_cleanup_completed 5000 1 5
      (retry_pending_source_tombstone_storage_cleanup delete_key 4000 10 lost_store
        ((1, 5) ∷ [])).store)
Reach-IsUnsettled_example =
    Reach-IsUnsettled Objects delete_key 1 5
      (Unsettled.next (Unsettled.next Unsettled.here (sweep 4000 10 ((1, 5) ∷ []))) (mark 5000 1 5))
      lost-IsUnsettled

-- The entry of a conversation whose upload is done.
abbrev entry : Pending
entry = pending_tombstone buried

buried_swept :
    (retry_pending_source_tombstone_storage_cleanup delete_key 4000 10 buried_store
      ((1, 5) ∷ [])).answer
    ≡ some (1, 1)
unfolding retry_pending_source_tombstone_storage_cleanup find_first delete_key
buried_swept = refl

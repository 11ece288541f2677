-- ===== src/Sources/Cleanup/Legacy.antt =====
-- `retryPendingLegacySourceReadModelRetraction`: sources that were deleted before there were tombstones.
use assistant_memory.Prelude.{
  ℕ, zero, suc, Bool, true, false, not, ◌&&◌, ◌||◌, ◌==◌, ltb, Option, none, some, List, [], ◌∷◌,
  map, any, contains, if◌then◌else◌,
}
use assistant_memory.Erasure.ReadModels.{erase_source_read_models}
use assistant_memory.Sources.Rows.{
  cleanup_due, cleanup_done, purged, SourceRow, Tombstone, Store, Answer, refused, answered,
  is_present, is_source, is_tombstone,
}
use assistant_memory.Sources.Tree.{load_and_lock_source_tree}
use assistant_memory.Sources.Actions.{ids_of, erase_row}
use assistant_memory.Sources.Cleanup.{is_due}

abbrev pub is_pending_retraction : Store → Tombstone → Bool
is_pending_retraction s t =
    is_due t.read_model_cleanup_state
    && any (λ k. is_source t.user_id t.source_id k && is_present k.deleted_at) s.sources

abbrev pub before_root : Tombstone → Tombstone → Bool
before_root a b = ltb a.user_id b.user_id || a.user_id == b.user_id && ltb a.source_id b.source_id

abbrev pub first_of_two : Tombstone → Option Tombstone → Tombstone
first_of_two t none = t
first_of_two t (some k) = if before_root k t then k else t

-- `claimPendingLegacyReadModelRetraction`: the first by user and source.
unfoldable pub first_pending : Store → List Tombstone → Option Tombstone
first_pending s [] = none
first_pending s (t ∷ ts) =
    let rest = first_pending s ts in
    if is_pending_retraction s t then some (first_of_two t rest) else rest

abbrev pub legacy_tombstone : ℕ → ℕ → SourceRow → Tombstone
legacy_tombstone now user_id k = record {
  user_id = user_id;
  source_id = k.id;
  partition_key = k.partition_key;
  state = purged;
  storage_cleanup_state = cleanup_due;
  read_model_cleanup_state = cleanup_done;
  storage_object_key = some (user_id, k.id);
  erased_at = now;
  restorable_until = none;
  finalized_at = some now;
  updated_at = now;
}

-- `onConflictDoUpdate`.
unfoldable pub upsert_tombstones : ℕ → ℕ → List SourceRow → List Tombstone → List Tombstone
upsert_tombstones now user_id [] ts = ts
upsert_tombstones now user_id (k ∷ ks) ts = upsert_tombstones now user_id ks (
    if any (is_tombstone user_id k.id) ts
    then map
        (λ t.
          if is_tombstone user_id k.id t
          then record t { read_model_cleanup_state = cleanup_done; updated_at = now }
          else t)
        ts
    else legacy_tombstone now user_id k ∷ ts)

abbrev pub retract_tree : ℕ → ℕ → List SourceRow → Store → Store
retract_tree now user_id tree s = record s {
  graph = erase_source_read_models user_id (ids_of tree) s.graph;
  sources =
      map
        (λ k.
          if k.user_id == user_id
            && contains (ids_of tree) k.id
            && not (any (is_tombstone user_id k.id) s.tombstones)
          then erase_row now k
          else k)
        s.sources;
  tombstones = upsert_tombstones now user_id tree s.tombstones;
}

abbrev pub retract_loaded : ℕ → ℕ → Answer (List SourceRow) → Store → Answer (Store × Bool)
retract_loaded now user_id (refused error) s = refused error
retract_loaded now user_id (answered []) s = answered (s, false)
retract_loaded now user_id (answered (k ∷ ks)) s =
    answered (retract_tree now user_id (k ∷ ks) s, true)

unfoldable pub retract_legacy_source_read_models : ℕ → ℕ → ℕ → Store → Answer (Store × Bool)
retract_legacy_source_read_models now user_id source_id s =
    retract_loaded now user_id (load_and_lock_source_tree user_id source_id s.sources) s

-- What the transactions so far left, and the counts or the error of the call.
pub record Retraction : Type 0 where
  pub store : Store
  pub answer : Answer (ℕ × ℕ)

abbrev pub after_round : Store → ℕ → Answer (Store × Bool) → (Store → Retraction) → Retraction
after_round s counted (refused error) next = record { store = s; answer = refused error }
after_round s counted (answered (s', false)) next = record {
  store = s';
  answer = answered (suc counted, counted);
}
after_round s counted (answered (s', true)) next = next s'

-- The loop, after `counted` completed rounds.
unfoldable pub retract_rounds : ℕ → ℕ → ℕ → Store → Retraction
unfolding first_pending retract_legacy_source_read_models
retract_rounds now zero counted s = record { store = s; answer = answered (counted, counted) }
retract_rounds now (suc limit) counted s = elim (first_pending s s.tombstones) [
  | none ↦ record { store = s; answer = answered (counted, counted) }
  | some t ↦
      after_round s counted (retract_legacy_source_read_models now t.user_id t.source_id s)
        (λ s'. retract_rounds now limit (suc counted) s')
]

unfoldable pub retry_pending_legacy_source_read_model_retraction : ℕ → ℕ → Store → Retraction
unfolding retract_rounds
retry_pending_legacy_source_read_model_retraction now limit s = retract_rounds now limit 0 s

-- ===== src/Sources/Commands/Cases.antt =====
-- The ways in which a command returns, for a property of what it returns.
use assistant_memory.Prelude.{
  ◌≡◌, refl, ℕ, true, false, not, ◌||◌, ◌==◌, Option, none, some, List, arith, Bool-cases, inl, inr,
  Option-cases,
}
use assistant_memory.Partition.Tables.{same_key}
use assistant_memory.Sources.Rows.{
  Action, tombstone, restore, purge, SourceRow, Tombstone, Request, Command, Response, Store,
  descendant_changed, partition_conflict, version_conflict, state_conflict, restore_window_expired,
  Answer, refused, answered, throw_if, Returns, throw_if-Returns, is_tombstoned, is_purged,
  is_present, is_source, is_tombstone, find_first,
}
use assistant_memory.Sources.Tree.{load_and_lock_source_tree}
use assistant_memory.Sources.Actions.{
  tombstone_store, tombstone_response, tombstone_answer, tombstone_action, restore_answer,
  restore_action, purge_answer, purge_action, apply_action, has_changed, is_none, is_past, details,
}
use assistant_memory.Sources.Commands.{
  load_command, same_payload, replay_response, replay_command, assert_expected_source,
  record_command, then_record, replayed_by, apply_locked, apply_tree,
  apply_source_lifecycle_command,
}

is_none-none : (o : Option Tombstone) → is_none o ≡ true → o ≡ none
is_none-none none h = refl
is_none-none (some t) h = cc

module _ (P : Store × Response → Type 0) (now : ℕ) (r : Request) (s : Store) where
  module _ (tree : List SourceRow) (source : SourceRow) where
    tombstone_answer-Returns :
        (o : Option SourceRow)
        → ((updated : SourceRow)
            → o ≡ some updated
            → P (tombstone_store now r tree s, tombstone_response now r updated))
        → Returns P (tombstone_answer now r (tombstone_store now r tree s) o)
    tombstone_answer-Returns none f = tt
    tombstone_answer-Returns (some updated) f = f updated refl

    tombstone_action-Returns :
        (o : Option Tombstone)
        → (is_present source.deleted_at ≡ false
            → o ≡ none
            → (updated : SourceRow)
            → find_first (is_source r.user_id r.source_id) (tombstone_store now r tree s).sources
              ≡ some updated
            → P (tombstone_store now r tree s, tombstone_response now r updated))
        → Returns P (tombstone_action now r source tree o s)
    unfolding tombstone_action
    tombstone_action-Returns o f =
        let rows = (tombstone_store now r tree s).sources in
        let after =
          tombstone_answer now r (tombstone_store now r tree s)
            (find_first (is_source r.user_id r.source_id) rows) in
        throw_if-Returns P (is_present source.deleted_at || not (is_none o))
          (state_conflict (details o))
          (throw_if (has_changed r.user_id tree s.sources) descendant_changed after)
          (λ h.
            throw_if-Returns P (has_changed r.user_id tree s.sources) descendant_changed after (λ k.
              tombstone_answer-Returns (find_first (is_source r.user_id r.source_id) rows)
                (f (ground arith) (is_none-none o (ground arith)))))

    restore_action-Returns :
        (t : Tombstone)
        → (is_tombstoned t.state ≡ true
            → is_present t.restorable_until ≡ true
            → is_past now t.restorable_until ≡ false
            → P (restore_answer now r tree t s))
        → Returns P (restore_action now r tree t s)
    unfolding restore_action
    restore_action-Returns t f =
        let rest =
          throw_if (is_past now t.restorable_until)
            (restore_window_expired t.state t.restorable_until)
            (answered (restore_answer now r tree t s)) in
        throw_if-Returns P (not (is_tombstoned t.state) || not (is_present t.restorable_until))
          (state_conflict (details (some t))) rest
          (λ h.
            throw_if-Returns P (is_past now t.restorable_until)
              (restore_window_expired t.state t.restorable_until)
              (answered (restore_answer now r tree t s)) (λ k. f (ground arith) (ground arith) k))

    purge_action-Returns :
        (t : Tombstone)
        → (is_purged t.state ≡ false → P (purge_answer now r tree t s))
        → Returns P (purge_action now r tree t s)
    unfolding purge_action
    purge_action-Returns t f =
        throw_if-Returns P (is_purged t.state) (state_conflict (details (some t)))
          (answered (purge_answer now r tree t s)) f

-- What a property asks of the three actions.
pub record Cases (P : Store × Response → Type 0) (now : ℕ) (r : Request) (s : Store)
    (tree : List SourceRow) (source : SourceRow) (a : Action) (o : Option Tombstone) : Type 0 where
  pub on_tombstone :
      a ≡ tombstone
      → is_present source.deleted_at ≡ false
      → o ≡ none
      → (updated : SourceRow)
      → find_first (is_source r.user_id r.source_id) (tombstone_store now r tree s).sources
        ≡ some updated
      → P (tombstone_store now r tree s, tombstone_response now r updated)
  pub on_restore :
      (t : Tombstone)
      → a ≡ restore
      → o ≡ some t
      → is_tombstoned t.state ≡ true
      → is_present t.restorable_until ≡ true
      → is_past now t.restorable_until ≡ false
      → P (restore_answer now r tree t s)
  pub on_purge :
      (t : Tombstone)
      → a ≡ purge
      → o ≡ some t
      → is_purged t.state ≡ false
      → P (purge_answer now r tree t s)

pub apply_action-Returns :
    (P : Store × Response → Type 0) (now : ℕ) (r : Request) (s : Store) (tree : List SourceRow)
    (source : SourceRow) (a : Action) (o : Option Tombstone)
    → Cases P now r s tree source a o
    → Returns P (apply_action now r a source tree o s)
unfolding apply_action
apply_action-Returns P now r s tree source tombstone o k =
    tombstone_action-Returns P now r s tree source o (k.on_tombstone refl)
apply_action-Returns P now r s tree source restore none k = tt
apply_action-Returns P now r s tree source restore (some t) k =
    restore_action-Returns P now r s tree source t (k.on_restore t refl refl)
apply_action-Returns P now r s tree source purge none k = tt
apply_action-Returns P now r s tree source purge (some t) k =
    purge_action-Returns P now r s tree source t (k.on_purge t refl refl)

module _ (P : Store × Response → Type 0) (now : ℕ) (r : Request) (s : Store) where
  then_record-Returns :
      (tree : List SourceRow) (m : Answer (Store × Response))
      → Returns (λ d. P (record_command r tree d)) m
      → Returns P (then_record r tree m)
  then_record-Returns tree (refused error) h = tt
  then_record-Returns tree (answered d) h = h

  replayed_by-Returns :
      (c : Command)
      → (same_payload r c ≡ true → P (s, replay_response c))
      → Returns P (replayed_by r c s (replay_command r c))
  unfolding replay_command
  replayed_by-Returns c f = elim (Bool-cases (same_payload r c)) [
    | inl same ↦ rw same (f same)
    | inr other ↦ rw other tt
  ]

  -- The command was seen by the second read, or it is carried out on a tree and its root.
  abbrev pub OnSeen : Type 0
  OnSeen =
      (c : Command)
      → load_command r.user_id r.command_id s.commands ≡ some c
      → same_payload r c ≡ true
      → P (s, replay_response c)

  abbrev pub OnFresh : Type 0
  OnFresh =
      (tree : List SourceRow) (source : SourceRow)
      → load_and_lock_source_tree r.user_id r.source_id s.sources ≡ answered tree
      → find_first (λ k. k.id == r.source_id) tree ≡ some source
      → load_command r.user_id r.command_id s.commands ≡ none
      → same_key source.partition_key r.expected_partition_key ≡ true
      → (source.version == r.expected_source_version) ≡ true
      → Cases (λ d. P (record_command r tree d)) now r s tree source r.action
          (find_first (is_tombstone r.user_id r.source_id) s.tombstones)

  apply_locked-Returns :
      (tree : List SourceRow) (root : Option SourceRow) (seen : Option Command)
      → load_and_lock_source_tree r.user_id r.source_id s.sources ≡ answered tree
      → find_first (λ k. k.id == r.source_id) tree ≡ root
      → load_command r.user_id r.command_id s.commands ≡ seen
      → OnSeen
      → OnFresh
      → Returns P (apply_locked now r tree root seen s)
  unfolding apply_locked assert_expected_source
  apply_locked-Returns tree none seen d e g on_seen on_fresh = tt
  apply_locked-Returns tree (some source) (some c) d e g on_seen on_fresh =
      replayed_by-Returns c (on_seen c g)
  apply_locked-Returns tree (some source) none d e g on_seen on_fresh =
      let found = find_first (is_tombstone r.user_id r.source_id) s.tombstones in
      let done = then_record r tree (apply_action now r r.action source tree found s) in
      let checked =
        throw_if (not (source.version == r.expected_source_version))
          (version_conflict source.partition_key source.version) done in
      throw_if-Returns P (not (same_key source.partition_key r.expected_partition_key))
        (partition_conflict source.partition_key source.version) checked
        (λ h.
          throw_if-Returns P (not (source.version == r.expected_source_version))
            (version_conflict source.partition_key source.version) done
            (λ k. then_record-Returns tree (apply_action now r r.action source tree found s) (
              apply_action-Returns (λ d. P (record_command r tree d)) now r s tree source r.action
                found (on_fresh tree source d e g (ground arith) (ground arith)))))

  apply_tree-Returns :
      (m : Answer (List SourceRow))
      → load_and_lock_source_tree r.user_id r.source_id s.sources ≡ m
      → OnSeen
      → OnFresh
      → Returns P (apply_tree now r m s)
  apply_tree-Returns (refused error) d on_seen on_fresh = tt
  apply_tree-Returns (answered tree) d on_seen on_fresh =
      apply_locked-Returns tree (find_first (λ k. k.id == r.source_id) tree)
        (load_command r.user_id r.command_id s.commands) d refl refl on_seen on_fresh

  pub apply-Returns :
      (before : List Command)
      → ((c : Command)
          → load_command r.user_id r.command_id before ≡ some c
          → same_payload r c ≡ true
          → P (s, replay_response c))
      → OnSeen
      → OnFresh
      → Returns P (apply_source_lifecycle_command before now r s)
  unfolding apply_source_lifecycle_command
  apply-Returns before on_before on_seen on_fresh =
      elim (Option-cases (load_command r.user_id r.command_id before)) [
        | inl unseen ↦ rw unseen (
            apply_tree-Returns (load_and_lock_source_tree r.user_id r.source_id s.sources) refl
              on_seen on_fresh)
        | inr seen ↦ let (c, e) = seen in rw e (replayed_by-Returns c (on_before c e))
      ]

-- ===== src/Sources/Commands/Replay.antt =====
-- A command that is sent again.
use assistant_memory.Prelude.{
  ◌≡◌, refl, ap, ◌∙◌, ==→eq, ℕ, Bool, true, false, ◌&&◌, ◌==◌, ==_refl, Option, none, some, List,
  arith,
}
use assistant_memory.Partition.Tables.{same_key}
use assistant_memory.Sources.Rows.{
  Action, tombstone, restore, purge, SourceRow, Tombstone, Request, Command, Response, Store,
  answered, refused, command_conflict, returned, same_action, is_restored, find_first,
}
use assistant_memory.Sources.Actions.{
  tombstone_store, tombstone_response, restore_answer, purge_answer,
}
use assistant_memory.Sources.Commands.{
  load_command, same_payload, replay_response, replay_command, receipt, record_command,
  storage_cleanup_object_keys, apply_source_lifecycle_command,
}
use assistant_memory.Sources.Commands.Cases.{Cases, apply-Returns}

-- A fresh response is of its request.
pub record IsFresh (r : Request) (p : Response) : Type 0 where
  pub of_source : p.source_id ≡ r.source_id
  pub of_command : p.command_id ≡ r.command_id
  pub of_action : p.action ≡ r.action
  pub of_state : p.fresh_ingestion_required ≡ is_restored p.state

same_action_refl : (a : Action) → same_action a a ≡ true
same_action_refl tombstone = refl
same_action_refl restore = refl
same_action_refl purge = refl

same_key_refl : (k : Option ℕ) → same_key k k ≡ true
same_key_refl none = refl
same_key_refl (some k) = ==_refl k

-- The receipt of a fresh response is replayed as that response.
replay_receipt :
    (r : Request) (p : Response) (keys : List (ℕ × ℕ))
    → IsFresh r p
    → replay_command r (receipt r p keys) ≡ answered (record p { replayed = true })
unfolding replay_command
replay_receipt r p keys f =
    rw
      (
        ==_refl r.source_id,
        same_action_refl r.action,
        same_key_refl r.expected_partition_key,
        ==_refl r.expected_source_version,
      )
      (rw (f.of_source, f.of_command, f.of_action, f.of_state) refl)

module _ (now now' : ℕ) (r : Request) where
  -- The command, sent again to what it left.
  abbrev Replays : Store × Response → Type 0
  Replays d =
      apply_source_lifecycle_command d.0.commands now' r d.0
      ≡ answered (d.0, record d.1 { replayed = true })

  receipt-Replays :
      (tree : List SourceRow) (s : Store) (p : Response)
      → IsFresh r p
      → Replays (record_command r tree (s, p))
  unfolding apply_source_lifecycle_command load_command find_first
  receipt-Replays tree s p f =
      rw (==_refl r.user_id, ==_refl r.command_id)
        (rw (replay_receipt r p (storage_cleanup_object_keys r r.action tree s.tombstones) f) refl)

  seen-Replays :
      (c : Command) (s : Store)
      → load_command r.user_id r.command_id s.commands ≡ some c
      → same_payload r c ≡ true
      → Replays (s, replay_response c)
  unfolding apply_source_lifecycle_command replay_command
  seen-Replays c s e same = rw e (rw same refl)

  fresh-Cases :
      (s : Store) (tree : List SourceRow) (source : SourceRow) (o : Option Tombstone)
      → Cases (λ d. Replays (record_command r tree d)) now r s tree source r.action o
  fresh-Cases s tree source o = record {
    on_tombstone = λ a live new updated e.
        receipt-Replays tree _ (tombstone_response now r updated)
          record { of_source = refl; of_command = refl; of_action = refl; of_state = refl };
    on_restore = λ t a e h k l.
        receipt-Replays tree _ (restore_answer now r tree t s).1
          record { of_source = refl; of_command = refl; of_action = refl; of_state = refl };
    on_purge = λ t a e h.
        receipt-Replays tree _ (purge_answer now r tree t s).1
          record { of_source = refl; of_command = refl; of_action = refl; of_state = refl };
  }

-- When a command whose id its first read does not find is answered, the same command, sent again, gets
-- the same response, marked as a replay, and changes nothing.
pub apply_source_lifecycle_command-replays :
    (before : List Command) (now now' : ℕ) (r : Request) (s s' : Store) (p : Response)
    → load_command r.user_id r.command_id before ≡ none
    → apply_source_lifecycle_command before now r s ≡ answered (s', p)
    → apply_source_lifecycle_command s'.commands now' r s'
      ≡ answered (s', record p { replayed = true })
apply_source_lifecycle_command-replays before now now' r s s' p e h =
    returned (Replays now now' r) (apply_source_lifecycle_command before now r s) (s', p)
      (apply-Returns (Replays now now' r) now r s before (λ c seen same. cc)
        (λ c seen same. seen-Replays now now' r c s seen same)
        (λ tree source d root unseen key version. fresh-Cases now now' r s tree source _))
      h

same_action-eq : (a b : Action) → same_action a b ≡ true → a ≡ b
same_action-eq tombstone tombstone h = refl
same_action-eq tombstone restore h = cc
same_action-eq tombstone purge h = cc
same_action-eq restore tombstone h = cc
same_action-eq restore restore h = refl
same_action-eq restore purge h = cc
same_action-eq purge tombstone h = cc
same_action-eq purge restore h = cc
same_action-eq purge purge h = refl

same_key-eq : (k l : Option ℕ) → same_key k l ≡ true → k ≡ l
same_key-eq none none h = refl
same_key-eq none (some l) h = cc
same_key-eq (some k) none h = cc
same_key-eq (some k) (some l) h = ap some (==→eq k l h)

-- The request that a receipt has.
abbrev pub same_request : Request → Request → Bool
same_request r r' =
    r.source_id == r'.source_id
    && same_action r.action r'.action
    && same_key r.expected_partition_key r'.expected_partition_key
    && r.expected_source_version == r'.expected_source_version

same_payload-request :
    (r r' : Request) (c : Command) → same_payload r c ≡ true → same_payload r' c ≡ same_request r r'
same_payload-request r r' c h =
    let source = ==→eq c.source_id r.source_id (ground arith) in
    let action = same_action-eq c.action r.action (ground arith) in
    let key = same_key-eq c.expected_partition_key r.expected_partition_key (ground arith) in
    let version = ==→eq c.expected_source_version r.expected_source_version (ground arith) in
    rw (source, action, key, version) refl

module _ (now' : ℕ) (r r' : Request) (other : same_request r r' ≡ false) where
  abbrev Conflicts : Store × Response → Type 0
  Conflicts d =
      r'.user_id ≡ r.user_id
      → r'.command_id ≡ r.command_id
      → apply_source_lifecycle_command d.0.commands now' r' d.0 ≡ refused command_conflict

  seen-Conflicts :
      (c : Command) (s : Store) (p : Response)
      → load_command r.user_id r.command_id s.commands ≡ some c
      → same_payload r c ≡ true
      → Conflicts (s, p)
  unfolding apply_source_lifecycle_command replay_command
  seen-Conflicts c s p e same user id =
      rw (user, id, e) (rw (same_payload-request r r' c same ∙ other) refl)

  receipt-Conflicts :
      (tree : List SourceRow) (s : Store) (p : Response) → Conflicts (record_command r tree (s, p))
  unfolding load_command find_first
  receipt-Conflicts tree s p =
      let d = record_command r tree (s, p) in
      let c = receipt r p (storage_cleanup_object_keys r r.action tree s.tombstones) in
      seen-Conflicts c d.0 d.1 (rw (==_refl r.user_id, ==_refl r.command_id) refl) (
        rw
          (
            ==_refl r.source_id,
            same_action_refl r.action,
            same_key_refl r.expected_partition_key,
            ==_refl r.expected_source_version,
          )
          refl)

-- Once a command whose id was not found at first is answered, that id, sent again by the user for
-- another source, action, partition or version, is refused as a conflict.
pub apply_source_lifecycle_command-conflict :
    (before : List Command) (now now' : ℕ) (r r' : Request) (s s' : Store) (p : Response)
    → load_command r.user_id r.command_id before ≡ none
    → apply_source_lifecycle_command before now r s ≡ answered (s', p)
    → r'.user_id ≡ r.user_id
    → r'.command_id ≡ r.command_id
    → same_request r r' ≡ false
    → apply_source_lifecycle_command s'.commands now' r' s' ≡ refused command_conflict
apply_source_lifecycle_command-conflict before now now' r r' s s' p e h user id other =
    returned (Conflicts now' r r' other) (apply_source_lifecycle_command before now r s) (s', p)
      (apply-Returns (Conflicts now' r r' other) now r s before (λ c seen same. absurd (cc))
        (λ c seen same. seen-Conflicts now' r r' other c s (replay_response c) seen same)
        (λ tree source d root unseen key version. record {
          on_tombstone = λ a live new updated e.
              receipt-Conflicts now' r r' other tree (tombstone_store now r tree s)
                (tombstone_response now r updated);
          on_restore = λ t a e h k l.
              receipt-Conflicts now' r r' other tree (restore_answer now r tree t s).0
                (restore_answer now r tree t s).1;
          on_purge = λ t a e h.
              receipt-Conflicts now' r r' other tree (purge_answer now r tree t s).0
                (purge_answer now r tree t s).1;
        }))
      h user id

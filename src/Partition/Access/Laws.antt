-- ===== src/Partition/Access/Laws.antt =====
-- What strict and workspace access guarantee.
use assistant_memory.Prelude.{
  ◌≡◌, ◌≢◌, refl, subst, ◌&&◌, ==_refl, ◌⊎◌, inl, inr, ℕ, Bool, true, false, ◌==◌, Option, none,
  some, arith,
}
use assistant_memory.Partition.Tables.{
  ok, AccessScope, partition, workspace, active, Tables, same_key,
}
use assistant_memory.Partition.Access.{
  partition_access_condition, assert_partition_read_allowed, register_partition,
  prepare_partition_write,
}

same_key→eq : (a b : Option ℕ) → same_key a b ≡ true → a ≡ b
same_key→eq a b h = ground arith

-- A request that names a partition, or a strict one, sees the rows of its own key alone.
condition-strict :
    (t : Tables) (column key : Option ℕ) (user_id : ℕ) (scope : AccessScope)
    → (scope ≡ partition) ⊎ (key ≢ none)
    → partition_access_condition t column user_id key scope ≡ true
    → column ≡ key
unfolding partition_access_condition
condition-strict t column none user_id partition strict h = same_key→eq column none h
condition-strict t column none user_id workspace (inl e) h = cc
condition-strict t column none user_id workspace (inr n) h = absurd (n refl)
condition-strict t column (some key) user_id scope strict h = same_key→eq column (some key) h

-- What an allowed strict request sees, a workspace request of the same user sees too.
pub condition-workspace :
    (t : Tables) (column key : Option ℕ) (user_id : ℕ)
    → assert_partition_read_allowed t user_id key partition ≡ ok tt
    → partition_access_condition t column user_id key partition ≡ true
    → partition_access_condition t column user_id none workspace ≡ true
unfolding assert_partition_read_allowed partition_access_condition
condition-workspace t column none user_id allowed h = ground arith
condition-workspace t column (some key) user_id allowed h = ground arith

-- What the registration of a partition does to the tables.
pub record IsRegistered (t : Tables) (user_id key : ℕ) (t' : Tables) : Type 0 where
  pub readable : assert_partition_read_allowed t' user_id (some key) partition ≡ ok tt
  pub other_users : (u k : ℕ) → (u == user_id) ≡ false → t'.partitions u k ≡ t.partitions u k
  pub other_keys : (u k : ℕ) → (k == key) ≡ false → t'.partitions u k ≡ t.partitions u k
  pub same_sources : t'.sources ≡ t.sources
  pub was_open : (t.partitions user_id key ≡ none) ⊎ (t.partitions user_id key ≡ some active)
  pub is_open : t'.partitions user_id key ≡ some active

other_key : (b : Bool) → b && false ≡ false
other_key true = refl
other_key false = refl

prepare-inversion :
    (t t' : Tables) (user_id key : ℕ)
    → prepare_partition_write t user_id (some key) ≡ ok t'
    → (assert_partition_read_allowed (register_partition t user_id key) user_id (some key) partition
        ≡ ok tt)
      × (register_partition t user_id key ≡ t')
unfolding prepare_partition_write assert_partition_read_allowed
prepare-inversion t t' user_id key h = ground arith

was_open :
    (t : Tables) (user_id key : ℕ)
    → assert_partition_read_allowed (register_partition t user_id key) user_id (some key) partition
      ≡ ok tt
    → (t.partitions user_id key ≡ none) ⊎ (t.partitions user_id key ≡ some active)
unfolding assert_partition_read_allowed register_partition
was_open t user_id key h = ground (arith, ==_refl user_id, ==_refl key)

stays_open :
    (t : Tables) (user_id key : ℕ)
    → (t.partitions user_id key ≡ none) ⊎ (t.partitions user_id key ≡ some active)
    → (register_partition t user_id key).partitions user_id key ≡ some active
unfolding register_partition
stays_open t user_id key (inl e) = rw (==_refl user_id, ==_refl key, e) refl
stays_open t user_id key (inr e) = rw (==_refl user_id, ==_refl key, e) refl

-- A write is prepared only for a partition that was not registered or was active, so none in quarantine is
-- made active again: the partition is active afterwards and can be read, and every other partition and
-- the sources are as they were.
pub prepare_partition_write-reads :
    (t t' : Tables) (user_id key : ℕ)
    → prepare_partition_write t user_id (some key) ≡ ok t'
    → IsRegistered t user_id key t'
unfolding register_partition
prepare_partition_write-reads t t' user_id key h =
    let (readable, same) = prepare-inversion t t' user_id key h in
    subst (IsRegistered t user_id key) same (record {
      readable = readable;
      other_users = λ u k e. rw e;
      other_keys = λ u k e. rw (e, other_key (u == user_id));
      same_sources = refl;
      was_open = was_open t user_id key readable;
      is_open = stays_open t user_id key (was_open t user_id key readable);
    })

-- ===== src/Redirects/Resolve.antt =====
-- Resolving a node after a merge.
use assistant_memory.Prelude.{
  ◌≡◌, refl, ℕ, true, ==_refl, Option, none, some, List, any, All, if◌then◌else◌,
}
use assistant_memory.Partition.Tables.{Tables, same_key}
use assistant_memory.Redirects.{Redirect, has_key}

same_key_refl : (key : Option ℕ) → same_key key key ≡ true
same_key_refl none = refl
same_key_refl (some k) = ==_refl k

module _ (user_id survivor : ℕ) (key : Option ℕ) where
  -- The row that the second statement leaves for one id.
  abbrev updated : ℕ → Redirect → Redirect
  updated id r =
      if has_key user_id id r then record r { to_node_id = survivor; partition_key = key } else r

  abbrev IsSettledRow : ℕ → Redirect → Type 0
  IsSettledRow n r =
      has_key user_id n r ≡ true → (r.to_node_id ≡ survivor) × (r.partition_key ≡ key)

  -- Every redirect from `n` leads to the survivor in the partition of the merge, and there is one.
  record IsSettled (n : ℕ) (rows : List Redirect) : Type 0 where
    leads : All (IsSettledRow n) rows
    present : any (has_key user_id n) rows ≡ true

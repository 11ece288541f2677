-- ===== src/Sources/Tree.antt =====
-- `loadAndLockSourceTree`: a source and all that it contains.
--
-- The recursive query adds the children of what it has until there are no new ones; the locks, and the
-- second query that they call for, are left out.
pub mod Exact
use assistant_memory.Prelude.{
  ℕ, zero, suc, Bool, true, false, not, ◌&&◌, ◌||◌, ◌==◌, Option, none, some, List, [], ◌∷◌, ◌++◌,
  map, filter, any, length, contains, if◌then◌else◌,
}
use assistant_memory.Erasure.Rows.{contains_some}
use assistant_memory.Sources.Rows.{
  SourceRow, Answer, answered, throw_if, source_not_found, is_source,
}

-- A child of what the query has, which it does not have.
abbrev pub is_new_child : ℕ → List ℕ → SourceRow → Bool
is_new_child user_id ids s =
    s.user_id == user_id && contains_some ids s.parent_source && not (contains ids s.id)

abbrev pub add_children : ℕ → List SourceRow → List ℕ → List ℕ
add_children user_id rows ids = map (λ s. s.id) (filter (is_new_child user_id ids) rows) ++ ids

unfoldable pub descend : ℕ → ℕ → List SourceRow → List ℕ → List ℕ
descend zero user_id rows ids = ids
descend (suc fuel) user_id rows ids =
    let deeper = descend fuel user_id rows (add_children user_id rows ids) in
    if any (is_new_child user_id ids) rows then deeper else ids

unfoldable pub find_source_tree_ids : ℕ → ℕ → List SourceRow → List ℕ
find_source_tree_ids user_id root rows =
    if any (is_source user_id root) rows then descend (length rows) user_id rows (root ∷ []) else []

-- The rows of the tree: none, or as many as the ids.
unfoldable pub load_and_lock_source_tree : ℕ → ℕ → List SourceRow → Answer (List SourceRow)
load_and_lock_source_tree user_id root rows =
    let ids = find_source_tree_ids user_id root rows in
    let found = filter (λ s. s.user_id == user_id && contains ids s.id) rows in
    throw_if (not (length found == length ids)) source_not_found (answered found)

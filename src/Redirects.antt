-- ===== src/Redirects.antt =====
-- src/lib/node-redirects.ts: what became of the nodes that were merged away.
pub mod Laws
pub mod Resolve
use assistant_memory.Prelude.{
  ℕ, Bool, true, false, ◌&&◌, ◌==◌, Option, none, some, List, [], ◌∷◌, ◌++◌, map, any, contains,
  distinct, if◌then◌else◌,
}
use assistant_memory.Partition.Tables.{Tables, AccessScope, same_key}
use assistant_memory.Partition.Access.{partition_access_condition}

-- A row of `nodeRedirects`; the user and `fromNodeId` are its primary key.
pub record Redirect : Type 0 where
  pub user_id : ℕ
  pub from_node_id : ℕ
  pub to_node_id : ℕ
  pub partition_key : Option ℕ

-- The `where` clause of the update.
abbrev pub points_to : ℕ → Option ℕ → List ℕ → Redirect → Bool
points_to user_id key ids r =
    r.user_id == user_id && same_key r.partition_key key && contains ids r.to_node_id

-- The first statement: redirects to a consumed node are pointed at its survivor.
unfoldable pub repoint : ℕ → ℕ → Option ℕ → List ℕ → List Redirect → List Redirect
repoint user_id survivor key ids rows =
    map (λ r. if points_to user_id key ids r then record r { to_node_id = survivor } else r) rows

abbrev pub has_key : ℕ → ℕ → Redirect → Bool
has_key user_id id r = r.user_id == user_id && r.from_node_id == id

-- `onConflictDoUpdate` for one row of the second statement.
unfoldable pub upsert : ℕ → ℕ → Option ℕ → ℕ → List Redirect → List Redirect
upsert user_id survivor key id rows =
    if any (has_key user_id id) rows
    then map
        (λ r.
          if has_key user_id id r
          then record r { to_node_id = survivor; partition_key = key }
          else r)
        rows
    else rows
      ++ record { user_id = user_id; from_node_id = id; to_node_id = survivor; partition_key = key }
        ∷ []

-- The second statement.
unfoldable pub upsert_all : ℕ → ℕ → Option ℕ → List ℕ → List Redirect → List Redirect
unfolding upsert
upsert_all user_id survivor key [] rows = rows
upsert_all user_id survivor key (id ∷ ids) rows =
    upsert_all user_id survivor key ids (upsert user_id survivor key id rows)

-- `writeNodeRedirects`; with no consumed id both statements leave the rows as they are.
unfoldable pub write_node_redirects : ℕ → ℕ → List ℕ → Option ℕ → List Redirect → List Redirect
unfolding repoint upsert_all
write_node_redirects user_id survivor consumed key rows =
    let unique = distinct consumed in
    upsert_all user_id survivor key unique (repoint user_id survivor key unique rows)

-- `out.get(id)` after the loop over the rows, for an id that is asked for.
unfoldable pub resolved : Tables → ℕ → Option ℕ → AccessScope → List Redirect → ℕ → ℕ
resolved t user_id key scope [] id = id
resolved t user_id key scope (r ∷ rs) id =
    let rest = resolved t user_id key scope rs id in
    let visible = partition_access_condition t r.partition_key user_id key scope in
    let later =
      any
        (λ q.
          has_key user_id id q && partition_access_condition t q.partition_key user_id key scope)
        rs in
    if has_key user_id id r && visible then (if later then rest else r.to_node_id) else rest

-- `resolveNodeRedirects`: the map's entries in the order of their keys.
unfoldable pub resolve_node_redirects :
    Tables → ℕ → List ℕ → Option ℕ → AccessScope → List Redirect → List (ℕ × ℕ)
unfolding resolved
resolve_node_redirects t user_id ids key scope rows =
    map (λ id. (id, resolved t user_id key scope rows id)) (distinct ids)

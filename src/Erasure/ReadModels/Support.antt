-- ===== src/Erasure/ReadModels/Support.antt =====
-- The nodes that the erasure reached and kept.
use mathlib.Core.List.{Memᴰ}
use assistant_memory.Prelude.{
  ◌≡◌, refl, ap, ◌∙◌, ℕ, true, false, not, ◌&&◌, ◌==◌, ==_refl, Option, none, some, List, [], ◌∷◌,
  map, contains, arith, Bool-cases, inl, inr,
}
use assistant_memory.Erasure.Rows.{
  Link, Claim, Node, Graph, node_rows, has_end, clear, clear_author, contains_some, mentions,
  delete_nodes,
}
use assistant_memory.Erasure.Rows.Deletes.{
  filter-All, map_same, mem-any, All-from_mem, contains-column, mem-column,
}
use assistant_memory.Erasure.Walk.Exact.{IsReached}
use assistant_memory.Erasure.ReadModels.Gone.{collected}
use assistant_memory.Erasure.Derivatives.{edges, erase_partition_derivatives}
use assistant_memory.Erasure.Derivatives.Leaves.{left_by_delete}
use assistant_memory.Erasure.Reviews.{delete_node_rows}
use assistant_memory.Erasure.ReadModels.{
  is_orphan, orphans, linked_nodes, erase_observations, erase_evidence, erase_nodes,
  erase_source_read_models,
}

-- An optional column that no id of a list is in.
clear_none :
    (ids : List ℕ) (o : Option ℕ)
    → ((k : ℕ) → contains_some (k ∷ []) o ≡ true → contains ids k ≡ false)
    → (contains_some ids o ≡ false) × (clear ids o ≡ o)
unfolding contains
clear_none ids none f = (refl, refl)
clear_none ids (some k) f = let out = f k (rw (==_refl k) refl) in (out, rw out refl)

module _ (user_id : ℕ) (ids : List ℕ) (g : Graph) where
  abbrev doomed : List ℕ
  doomed = node_rows user_id (orphans user_id ids g) g

  doomed-orphan : (k : ℕ) → contains doomed k ≡ true → is_orphan g k ≡ true
  doomed-orphan k h =
      let (n, p, e, m) =
        contains-column (λ m. m.id)
          (λ n. n.user_id == user_id && contains (orphans user_id ids g) n.id) g.nodes k h in
      let (o, q, same, there) =
        contains-column (λ m. m.id)
          (λ n. n.user_id == user_id && contains ids n.id && is_orphan g n.id) g.nodes n.id
          (ground arith) in
      let alone : is_orphan g o.id ≡ true = ground arith in rw (← e, ← same) alone

  -- No claim names a node that is deleted, and no link does.
  claim_apart :
      (c : Claim)
      → Memᴰ c g.claims
      → (k : ℕ) → mentions (k ∷ []) c ≡ true
      → contains doomed k ≡ false
  claim_apart c m k h = elim (Bool-cases (contains doomed k)) [
    | inl hit ↦
        absurd (ground (arith, doomed-orphan k hit, mem-any (mentions (k ∷ [])) g.claims c m h))
    | inr miss ↦ miss
  ]

  link_apart : (l : Link) → Memᴰ l g.links → contains doomed l.node_id ≡ false
  link_apart l m = elim (Bool-cases (contains doomed l.node_id)) [
    | inl hit ↦ absurd (
        ground (
          arith,
          doomed-orphan l.node_id hit,
          mem-any (λ k. k.node_id == l.node_id) g.links l m (==_refl l.node_id),
        ))
    | inr miss ↦ miss
  ]

  claim_same :
      (c : Claim) → Memᴰ c g.claims → (has_end doomed c ≡ false) × (clear_author doomed c ≡ c)
  unfolding contains
  claim_same c m =
      let subject = claim_apart c m c.subject_node_id (ground (arith, ==_refl c.subject_node_id)) in
      let (object, _) =
        clear_none doomed c.object_node_id (λ k h. claim_apart c m k (ground arith)) in
      let (_, author) =
        clear_none doomed c.asserted_by_node_id (λ k h. claim_apart c m k (ground arith)) in
      (rw (subject, object) refl, ap (λ o. record c { asserted_by_node_id = o }) author)

  -- So the deletion of the orphans keeps the claims and the links.
  same_claims : (delete_nodes user_id (orphans user_id ids g) g).claims ≡ g.claims
  same_claims =
      ap (map (clear_author doomed)) (
        filter-All (λ c. not (has_end doomed c)) g.claims
          (All-from_mem (λ c. not (has_end doomed c) ≡ true) g.claims
            (λ c m. rw (claim_same c m).0 refl)))
      ∙ map_same (clear_author doomed) g.claims
          (All-from_mem (λ c. clear_author doomed c ≡ c) g.claims (λ c m. (claim_same c m).1))

  same_links : (delete_nodes user_id (orphans user_id ids g) g).links ≡ g.links
  same_links =
      filter-All (λ l. not (contains doomed l.node_id)) g.links
        (All-from_mem (λ l. not (contains doomed l.node_id) ≡ true) g.links
          (λ l m. rw (link_apart l m) refl))

  same_orphan :
      (k : ℕ) → is_orphan (delete_nodes user_id (orphans user_id ids g) g) k ≡ is_orphan g k
  same_orphan k = rw (same_claims, same_links) refl

  not_doomed :
      (n : Node)
      → Memᴰ n (delete_nodes user_id (orphans user_id ids g) g).nodes
      → (n.user_id == user_id) ≡ true
      → contains ids n.id ≡ true
      → is_orphan g n.id ≡ false
  not_doomed n m mine within =
      let (there, kept) =
        left_by_delete (λ k. k.user_id == user_id && contains (orphans user_id ids g) k.id) g.nodes
          n m in
      elim (Bool-cases (is_orphan g n.id)) [
        | inl alone ↦ absurd (
            ground (
              arith,
              mem-column (λ m. m.id)
                  (λ k. k.user_id == user_id && contains ids k.id && is_orphan g k.id) g.nodes n
                  there (rw (mine, within, alone) refl),
            ))
        | inr named ↦ named
      ]

erase_nodes-supported :
    (user_id : ℕ) (ids : List ℕ) (g : Graph) (n : Node)
    → Memᴰ n (erase_nodes user_id ids g).nodes
    → (n.user_id == user_id) ≡ true
    → contains ids n.id ≡ true
    → is_orphan (erase_nodes user_id ids g) n.id ≡ false
unfolding erase_nodes contains
erase_nodes-supported user_id [] g n m mine within = absurd (cc within)
erase_nodes-supported user_id (k ∷ ks) g n m mine within =
    let without = delete_node_rows user_id (k ∷ ks) g in
    rw (same_orphan user_id (k ∷ ks) without n.id)
      (not_doomed user_id (k ∷ ks) without n m mine within)

-- A node of the user that the sources reach is only there after the erasure if a link or a claim that
-- is there names it.
pub erase_source_read_models-supported :
    (user_id : ℕ) (source_ids : List ℕ) (g : Graph) (n : Node)
    → Memᴰ n (erase_source_read_models user_id source_ids g).nodes
    → (n.user_id == user_id) ≡ true
    → IsReached source_ids (linked_nodes user_id source_ids g) (edges user_id g) n.id
    → is_orphan (erase_source_read_models user_id source_ids g) n.id ≡ false
unfolding erase_source_read_models
erase_source_read_models-supported user_id source_ids g n m mine reached =
    let linked = linked_nodes user_id source_ids g in
    let p = erase_partition_derivatives user_id source_ids linked g in
    erase_nodes-supported user_id p.1
      (erase_evidence user_id source_ids (erase_observations user_id source_ids p.0)) n m mine
      (collected user_id source_ids linked g n.id reached)

-- ===== src/Erasure/Derivatives/Leaves.antt =====
-- The mappings and the commands that an erasure leaves.
use mathlib.Core.List.{Memᴰ, append-nil}
use assistant_memory.Prelude.{
  ◌≡◌, refl, sym, ◌∙◌, ℕ, suc, length, Bool, true, false, not, ◌==◌, ==_refl, List, [], ◌∷◌, ◌++◌,
  map, filter, any, arith, Bool-cases, inl, inr, mem-filter,
}
use assistant_memory.Erasure.Rows.{Mapping, PartitionCommand, Graph, delete_where}
use assistant_memory.Erasure.Walk.{Edge, Flagged, Walk, touches, walk_from, unaffected}
use assistant_memory.Erasure.Walk.Ends.{walk_from-ends}
use assistant_memory.Erasure.Walk.Exact.{edges-unaffected}
use assistant_memory.Erasure.Walk.Closed.{edges_of, IsMarked, walk-IsMarked, walk-edges}
use assistant_memory.Erasure.Derivatives.{
  mapping_edge, command_edge, mappings_of, commands_of, edges, affected, behind, is_mapping,
  is_command, erase_partition_derivatives,
}

module _ {ℓ} {A : Type ℓ} where
  pub filter-mem :
      (p : A → Bool) (xs : List A) (x : A) → Memᴰ x xs → p x ≡ true → Memᴰ x (filter p xs)
  filter-mem p [] x m h = elim m [ ]
  filter-mem p (y ∷ ys) x (Memᴰ.head e) h = rw (← e, h) (Memᴰ.head refl)
  filter-mem p (y ∷ ys) x (Memᴰ.tail m) h = elim (Bool-cases (p y)) [
    | inl kept ↦ rw kept (Memᴰ.tail (filter-mem p ys x m h))
    | inr dropped ↦ rw dropped (filter-mem p ys x m h)
  ]

  module _ (deleted nodes : List ℕ) (edge : A → Edge) where
    -- A row whose edge the set touches is among the affected rows.
    any-affected :
        (p : A → Bool) (xs : List A) (es : List Edge) (fs : List Flagged) (x : A)
        → edges_of fs ≡ map edge xs ++ es
        → IsMarked deleted nodes fs
        → Memᴰ x xs
        → touches deleted nodes (edge x) ≡ true
        → p x ≡ true
        → any p (affected xs fs) ≡ true
    any-affected p [] es fs x e h m t q = elim m [ ]
    any-affected p (y ∷ ys) es [] x e h m t q = cc
    any-affected p (y ∷ ys) es (f ∷ fs) x e (mark, marks) (Memᴰ.head same) t q =
        let first : f.edge ≡ edge x = cc in rw (mark (rw first t), ← same, q)
    any-affected p (y ∷ ys) es (f ∷ fs) x e (mark, marks) (Memᴰ.tail m) t q =
        let later : edges_of fs ≡ map edge ys ++ es = cc in
        let found = any-affected p ys es fs x later marks m t q in ground (arith, found)

    behind-edges :
        (xs : List A) (es : List Edge) (fs : List Flagged)
        → edges_of fs ≡ map edge xs ++ es
        → IsMarked deleted nodes fs
        → (edges_of (behind xs fs) ≡ es) × IsMarked deleted nodes (behind xs fs)
    behind-edges [] es fs e h = (e, h)
    behind-edges (y ∷ ys) es [] e h = cc
    behind-edges (y ∷ ys) es (f ∷ fs) e (mark, marks) =
        let later : edges_of fs ≡ map edge ys ++ es = cc in behind-edges ys es fs later marks

-- A row that a deletion leaves fails its test.
pub left_by_delete {ℓ} :
    {A : Type ℓ} (p : A → Bool) (xs : List A) (x : A)
    → Memᴰ x (delete_where p xs)
    → Memᴰ x xs × (p x ≡ false)
left_by_delete p xs x m = let (n, e) = mem-filter (λ y. not (p y)) xs x m in (n, ground arith)

module _ (user_id : ℕ) (source_ids linked_node_ids : List ℕ) (g : Graph) where
  abbrev after : Graph × List ℕ
  after = erase_partition_derivatives user_id source_ids linked_node_ids g

  abbrev walked : Walk
  walked = walk_from source_ids linked_node_ids (edges user_id g)

  walked_edges : edges_of walked.edges ≡ edges user_id g
  unfolding walk_from
  walked_edges =
      walk-edges (suc (length (edges user_id g))) source_ids linked_node_ids
        (map unaffected (edges user_id g))
      ∙ edges-unaffected (edges user_id g)

  walked-IsMarked : IsMarked source_ids walked.nodes walked.edges
  unfolding walk_from
  walked-IsMarked =
      walk-IsMarked (suc (length (edges user_id g))) source_ids linked_node_ids
        (map unaffected (edges user_id g))
        (walk_from-ends source_ids linked_node_ids (edges user_id g))

  -- A mapping of the user that stays touches no deleted source and no collected node.
  pub erase_partition_derivatives-mappings :
      (m : Mapping)
      → Memᴰ m after.0.mappings
      → (m.user_id == user_id) ≡ true
      → touches source_ids after.1 (mapping_edge m) ≡ false
  unfolding erase_partition_derivatives
  erase_partition_derivatives-mappings m stays mine =
      let ms = mappings_of user_id g in
      let (stored, kept) =
        left_by_delete (λ row. any (λ k. is_mapping user_id k row) (affected ms walked.edges))
          g.mappings m stays in
      elim (Bool-cases (touches source_ids walked.nodes (mapping_edge m))) [
        | inl touched ↦
            let found =
              any-affected source_ids walked.nodes mapping_edge (λ k. is_mapping user_id k m) ms
                (map command_edge (commands_of user_id g)) walked.edges m walked_edges
                walked-IsMarked (filter-mem (λ k. k.user_id == user_id) g.mappings m stored mine)
                touched (rw (mine, ==_refl m.source_node_id, ==_refl m.partition_key) refl) in
            absurd (ground (arith, found, kept))
        | inr apart ↦ apart
      ]

  pub erase_partition_derivatives-commands :
      (c : PartitionCommand)
      → Memᴰ c after.0.commands
      → (c.user_id == user_id) ≡ true
      → touches source_ids after.1 (command_edge c) ≡ false
  unfolding erase_partition_derivatives
  erase_partition_derivatives-commands c stays mine =
      let ms = mappings_of user_id g in
      let cs = commands_of user_id g in
      let (later, marks) =
        behind-edges source_ids walked.nodes mapping_edge ms (map command_edge cs) walked.edges
          walked_edges walked-IsMarked in
      let (stored, kept) =
        left_by_delete
          (λ row. any (λ k. is_command user_id k row) (affected cs (behind ms walked.edges)))
          g.commands c stays in
      elim (Bool-cases (touches source_ids walked.nodes (command_edge c))) [
        | inl touched ↦
            let found =
              any-affected source_ids walked.nodes command_edge (λ k. is_command user_id k c) cs []
                (behind ms walked.edges) c (later ∙ sym (append-nil (map command_edge cs))) marks
                (filter-mem (λ k. k.user_id == user_id) g.commands c stored mine) touched
                (rw (mine, ==_refl c.binding_generation) refl) in
            absurd (ground (arith, found, kept))
        | inr apart ↦ apart
      ]

-- No mapping of the user that stays touches a deleted source or a collected node, and no command of the
-- user that stays does, whether or not any row of the other kind stays.
pub erase_partition_derivatives-leaves :
    (user_id : ℕ) (source_ids linked_node_ids : List ℕ) (g : Graph)
    → ((m : Mapping)
        → Memᴰ m (erase_partition_derivatives user_id source_ids linked_node_ids g).0.mappings
        → (m.user_id == user_id) ≡ true
        → touches source_ids
            (erase_partition_derivatives user_id source_ids linked_node_ids g).1
            (mapping_edge m)
          ≡ false)
      × ((c : PartitionCommand)
          → Memᴰ c (erase_partition_derivatives user_id source_ids linked_node_ids g).0.commands
          → (c.user_id == user_id) ≡ true
          → touches source_ids
              (erase_partition_derivatives user_id source_ids linked_node_ids g).1
              (command_edge c)
            ≡ false)
erase_partition_derivatives-leaves user_id source_ids linked_node_ids g = (
  erase_partition_derivatives-mappings user_id source_ids linked_node_ids g,
  erase_partition_derivatives-commands user_id source_ids linked_node_ids g,
)

-- ===== src/Sources/Tree/Exact.antt =====
-- The ids that the recursive query finds, against a containment relation.
use mathlib.Core.List.{Memᴰ}
use assistant_memory.Prelude.{
  ◌≡◌, refl, sym, subst, ==→eq, ==_refl, ◌↔◌, ◌+◌, ◌≤◌, ◌<◌, ℕ, zero, suc, true, false, ◌==◌,
  Option, none, some, List, [], ◌∷◌, map, filter, any, length, contains, if◌then◌else◌, All, arith,
  Bool-cases, inl, inr,
}
use assistant_memory.Erasure.Rows.{contains_some}
use assistant_memory.Erasure.Rows.Deletes.{
  mem-any, All-from_mem, contains-column, mem-column, contains-append,
}
use assistant_memory.Sources.Rows.{SourceRow, is_source}
use assistant_memory.Sources.Tree.{is_new_child, add_children, descend, find_source_tree_ids}

-- A source of the user that is the root, or whose parent is below the root.
pub data IsBelow (user_id root : ℕ) (rows : List SourceRow) : ℕ → Type 0 where
  the_root :
      (n : ℕ) → any (is_source user_id root) rows ≡ true → n ≡ root → IsBelow user_id root rows n
  child :
      (n parent : ℕ) (s : SourceRow)
      → Memᴰ s rows
      → (s.user_id == user_id) ≡ true
      → s.id ≡ n
      → s.parent_source ≡ some parent
      → IsBelow user_id root rows parent
      → IsBelow user_id root rows n

-- The rows that the query does not have.
abbrev pub outside : List ℕ → List SourceRow → ℕ
outside ids [] = 0
outside ids (s ∷ ss) = (if contains ids s.id then 0 else 1) + outside ids ss

abbrev Keeps : List ℕ → List ℕ → Type 0
Keeps ids more = (n : ℕ) → contains ids n ≡ true → contains more n ≡ true

outside_le :
    (ids more : List ℕ) (rows : List SourceRow)
    → Keeps ids more
    → outside more rows ≤ outside ids rows
outside_le ids more [] f = omega arith
outside_le ids more (s ∷ ss) f = ground (arith, outside_le ids more ss f, f s.id)

outside_lt :
    (user_id : ℕ) (ids more : List ℕ) (rows : List SourceRow)
    → Keeps ids more
    → All (λ s. is_new_child user_id ids s ≡ true → contains more s.id ≡ true) rows
    → any (is_new_child user_id ids) rows ≡ true
    → outside more rows < outside ids rows
outside_lt user_id ids more [] f h e = cc
outside_lt user_id ids more (s ∷ ss) f (p, h) e = elim (Bool-cases (is_new_child user_id ids s)) [
  | inl fresh ↦ ground (arith, outside_le ids more ss f, p fresh)
  | inr old ↦ ground (arith, outside_lt user_id ids more ss f h, f s.id)
]

outside_zero :
    (user_id : ℕ) (ids : List ℕ) (rows : List SourceRow)
    → outside ids rows ≤ 0
    → any (is_new_child user_id ids) rows ≡ false
outside_zero user_id ids [] h = refl
outside_zero user_id ids (s ∷ ss) h = ground (arith, outside_zero user_id ids ss)

outside-length : (ids : List ℕ) (rows : List SourceRow) → outside ids rows ≤ length rows
outside-length ids [] = omega arith
outside-length ids (s ∷ ss) = ground (arith, outside-length ids ss)

module _ (user_id : ℕ) (rows : List SourceRow) where
  add_children-Keeps : (ids : List ℕ) → Keeps ids (add_children user_id rows ids)
  add_children-Keeps ids n h =
      ground
        (arith, contains-append (map (λ s. s.id) (filter (is_new_child user_id ids) rows)) ids n)

  add_children-has :
      (ids : List ℕ)
      → All
          (λ s.
            is_new_child user_id ids s ≡ true
            → contains (add_children user_id rows ids) s.id ≡ true)
          rows
  add_children-has ids =
      All-from_mem
        (λ s.
          is_new_child user_id ids s ≡ true → contains (add_children user_id rows ids) s.id ≡ true)
        rows
        (λ s m fresh. ground (
          arith,
          contains-append (map (λ s. s.id) (filter (is_new_child user_id ids) rows)) ids s.id,
          mem-column (λ s. s.id) (is_new_child user_id ids) rows s m fresh,
        ))

  -- With a round for every row that is missing, no child is left out.
  descend-closed :
      (fuel : ℕ) (ids : List ℕ)
      → outside ids rows ≤ fuel
      → any (is_new_child user_id (descend fuel user_id rows ids)) rows ≡ false
  unfolding descend
  descend-closed zero ids h = outside_zero user_id ids rows h
  descend-closed (suc fuel) ids h = elim (Bool-cases (any (is_new_child user_id ids) rows)) [
    | inl more ↦
        rw (more, descend)
          (descend-closed fuel (add_children user_id rows ids) (
            ground (
              arith,
              outside_lt user_id ids (add_children user_id rows ids) rows (add_children-Keeps ids)
                  (add_children-has ids) more,
            )))
    | inr closed ↦ rw (closed, descend) closed
  ]

  descend-Keeps : (fuel : ℕ) (ids : List ℕ) → Keeps ids (descend fuel user_id rows ids)
  unfolding descend
  descend-Keeps zero ids n h = h
  descend-Keeps (suc fuel) ids n h =
      ground
        (arith, descend-Keeps fuel (add_children user_id rows ids) n (add_children-Keeps ids n h))

some-parent :
    (ids : List ℕ) (o : Option ℕ)
    → contains_some ids o ≡ true
    → (k : ℕ) × (o ≡ some k) × (contains ids k ≡ true)
some-parent ids none h = cc
some-parent ids (some k) h = (k, refl, h)

module _ (user_id root : ℕ) (rows : List SourceRow) where
  abbrev AllBelow : List ℕ → Type 0
  AllBelow ids = (n : ℕ) → contains ids n ≡ true → IsBelow user_id root rows n

  add_children-AllBelow : (ids : List ℕ) → AllBelow ids → AllBelow (add_children user_id rows ids)
  add_children-AllBelow ids below n h =
      let column = map (λ s. s.id) (filter (is_new_child user_id ids) rows) in
      elim (Bool-cases (contains column n)) [
        | inl new ↦
            let (s, fresh, same, m) =
              contains-column (λ s. s.id) (is_new_child user_id ids) rows n new in
            let (k, parent, there) = some-parent ids s.parent_source (ground arith) in
            child n k s m (ground arith) same parent (below k there)
        | inr old ↦ below n (ground (arith, contains-append column ids n))
      ]

  descend-AllBelow :
      (fuel : ℕ) (ids : List ℕ) → AllBelow ids → AllBelow (descend fuel user_id rows ids)
  unfolding descend
  descend-AllBelow zero ids below = below
  descend-AllBelow (suc fuel) ids below = elim (Bool-cases (any (is_new_child user_id ids) rows)) [
    | inl more ↦
        rw (more, descend)
          (descend-AllBelow fuel (add_children user_id rows ids) (add_children-AllBelow ids below))
    | inr closed ↦ rw (closed, descend) below
  ]

  -- A set that has the root and no new child has all that is below the root.
  closed_complete :
      (ids : List ℕ)
      → contains ids root ≡ true
      → any (is_new_child user_id ids) rows ≡ false
      → (n : ℕ) → IsBelow user_id root rows n
      → contains ids n ≡ true
  closed_complete ids start closed _ (the_root n stored same) = rw same start
  closed_complete ids start closed _ (child n parent s m mine same of b) =
      let above = closed_complete ids start closed parent b in
      elim (Bool-cases (contains ids s.id)) [
        | inl there ↦ subst (λ k. contains ids k ≡ true) same there
        | inr missing ↦
            let fresh : is_new_child user_id ids s ≡ true = rw (mine, of, above, missing) refl in
            absurd (ground (arith, mem-any (is_new_child user_id ids) rows s m fresh, closed))
      ]

  below-stored : (n : ℕ) → IsBelow user_id root rows n → any (is_source user_id root) rows ≡ true
  below-stored _ (the_root n stored same) = stored
  below-stored _ (child n parent s m mine same of b) = below-stored parent b

-- The query finds the root, if it is stored for the user, and all that is below it, and no other.
pub find_source_tree_ids-exact :
    (user_id root : ℕ) (rows : List SourceRow) (n : ℕ)
    → (contains (find_source_tree_ids user_id root rows) n ≡ true) ↔ IsBelow user_id root rows n
unfolding find_source_tree_ids contains
find_source_tree_ids-exact user_id root rows n =
    let ids = descend (length rows) user_id rows (root ∷ []) in
    elim (Bool-cases (any (is_source user_id root) rows)) [
      | inl stored ↦ rw stored (
        descend-AllBelow user_id root rows (length rows) (root ∷ [])
            (λ k h. the_root k stored (sym (==→eq root k (ground arith)))) n,
        closed_complete user_id root rows ids
            (descend-Keeps user_id rows (length rows) (root ∷ []) root (rw (==_refl root) refl))
            (descend-closed user_id rows (length rows) (root ∷ [])
              (outside-length (root ∷ []) rows))
            n,
      )
      | inr missing ↦ rw missing (
        (λ h. absurd (cc h)),
        (λ b. absurd (ground (arith, below-stored user_id root rows n b, missing))),
      )
    ]

-- ===== src/Erasure/Walk/Exact.antt =====
-- The node ids that the loop collects, against a reachability relation.
use mathlib.Core.List.{Memᴰ}
use assistant_memory.Prelude.{
  ◌≡◌, refl, subst, ◌↔◌, ℕ, zero, suc, true, List, [], ◌∷◌, any, contains, length, if◌then◌else◌,
  map, arith, All, All-mem, Bool-cases, inl, inr, ==→eq, ==_refl, ◌==◌,
}
use assistant_memory.Erasure.Walk.{
  Edge, Flagged, touches, add_nodes, pass, walk, unaffected, walk_from,
}
use assistant_memory.Erasure.Walk.Closed.{edges_of, IsClosed, walk-IsClosed, walk-keeps}
use assistant_memory.Erasure.Walk.Ends.{AllIn, after_edge, walk_from-ends}

-- A node that a deleted source ties, through edges that share a node, or that was linked at the start.
pub data IsReached (deleted linked : List ℕ) (edges : List Edge) : ℕ → Type 0 where
  linked_node : (n : ℕ) → contains linked n ≡ true → IsReached deleted linked edges n
  by_source :
      (n : ℕ) (e : Edge)
      → Memᴰ e edges
      → any (contains deleted) e.sources ≡ true
      → contains e.nodes n ≡ true
      → IsReached deleted linked edges n
  by_node :
      (n m : ℕ) (e : Edge)
      → Memᴰ e edges
      → IsReached deleted linked edges m
      → contains e.nodes m ≡ true
      → contains e.nodes n ≡ true
      → IsReached deleted linked edges n

pub AllIn-contains :
    (nodes ns : List ℕ) (n : ℕ) → AllIn nodes ns → contains ns n ≡ true → contains nodes n ≡ true
unfolding contains
AllIn-contains nodes [] n h c = cc
AllIn-contains nodes (m ∷ ns) n (p, h) c = elim (Bool-cases (m == n)) [
  | inl same ↦ subst (λ k. contains nodes k ≡ true) (==→eq m n same) p
  | inr other ↦ AllIn-contains nodes ns n h (rw other at c)
]

pub any-meets :
    (nodes ns : List ℕ) (n : ℕ)
    → contains nodes n ≡ true
    → contains ns n ≡ true
    → any (contains nodes) ns ≡ true
unfolding contains
any-meets nodes [] n h c = cc
any-meets nodes (m ∷ ns) n h c = elim (Bool-cases (m == n)) [
  | inl same ↦ rw (==→eq m n same, h)
  | inr other ↦ ground (arith, any-meets nodes ns n h (rw other at c))
]

-- Where the lists meet.
pub any-met :
    (nodes ns : List ℕ)
    → any (contains nodes) ns ≡ true
    → (n : ℕ) × (contains nodes n ≡ true) × (contains ns n ≡ true)
unfolding contains
any-met nodes [] h = cc
any-met nodes (m ∷ ns) h = elim (Bool-cases (contains nodes m)) [
  | inl yes_m ↦ (m, yes_m, rw (==_refl m) refl)
  | inr no_m ↦ let (n, c, d) = any-met nodes ns (rw no_m at h) in (n, c, ground (arith, d))
]

module _ (deleted linked : List ℕ) (edges : List Edge) where
  abbrev AllReached : List ℕ → Type 0
  AllReached nodes = (n : ℕ) → contains nodes n ≡ true → IsReached deleted linked edges n

  add_nodes-reached :
      (nodes ns : List ℕ) → AllReached nodes → AllReached ns → AllReached (add_nodes nodes ns)
  unfolding add_nodes contains
  add_nodes-reached nodes [] h k = h
  add_nodes-reached nodes (m ∷ ns) h k =
      add_nodes-reached (if contains nodes m then nodes else m ∷ nodes) ns
        (λ n c. elim (Bool-cases (contains nodes m)) [
          | inl old ↦ h n (rw old at c)
          | inr new ↦ elim (Bool-cases (m == n)) [
            | inl same ↦ k n (rw same refl)
            | inr other ↦ h n (rw (new, other) at c)
          ]
        ])
        (λ n c. k n (ground arith))

  -- The ends of an edge that the loop takes are reached.
  touched-reached :
      (nodes : List ℕ) (e : Edge)
      → Memᴰ e edges
      → AllReached nodes
      → touches deleted nodes e ≡ true
      → AllReached e.nodes
  unfolding touches
  touched-reached nodes e m h t n c = elim (Bool-cases (any (contains deleted) e.sources)) [
    | inl from_source ↦ by_source n e m from_source c
    | inr from_node ↦
        let (k, in_set, in_edge) = any-met nodes e.nodes (rw from_node at t) in
        by_node n k e m (h k in_set) in_edge c
  ]

  after_edge-reached :
      (nodes : List ℕ) (e : Edge)
      → Memᴰ e edges
      → AllReached nodes
      → AllReached (after_edge deleted nodes e)
  after_edge-reached nodes e m h = elim (Bool-cases (touches deleted nodes e)) [
    | inl hit ↦ rw hit (add_nodes-reached nodes e.nodes h (touched-reached nodes e m h hit))
    | inr miss ↦ rw miss h
  ]

  abbrev AllEdges : List Flagged → Type 0
  AllEdges fs = All (λ f. Memᴰ f.edge edges) fs

  pass-reached :
      (nodes : List ℕ) (fs : List Flagged)
      → AllEdges fs
      → AllReached nodes
      → AllReached (pass deleted nodes fs).nodes × AllEdges (pass deleted nodes fs).edges
  unfolding pass
  pass-reached nodes [] m h = (h, tt)
  pass-reached nodes (f ∷ fs) (m, ms) h =
      let (k, ks) =
        pass-reached (after_edge deleted nodes f.edge) fs ms
          (after_edge-reached nodes f.edge m h) in
      (k, (m, ks))

  walk-reached :
      (fuel : ℕ) (nodes : List ℕ) (fs : List Flagged)
      → AllEdges fs
      → AllReached nodes
      → AllReached (walk fuel deleted nodes fs).nodes
  unfolding walk
  walk-reached zero nodes fs m h = h
  walk-reached (suc fuel) nodes fs m h =
      let (k, ks) = pass-reached nodes fs m h in
      elim (Bool-cases (pass deleted nodes fs).changed) [
        | inl more ↦
            rw (more, walk)
              (walk-reached fuel (pass deleted nodes fs).nodes (pass deleted nodes fs).edges ks k)
        | inr done ↦ rw (done, walk) k
      ]

pub edges-unaffected : (es : List Edge) → edges_of (map unaffected es) ≡ es
edges-unaffected [] = refl
edges-unaffected (e ∷ es) = rw (edges-unaffected es)

All-members :
    (edges : List Edge) (es : List Edge)
    → ((e : Edge) → Memᴰ e es → Memᴰ e edges)
    → All (λ f. Memᴰ f.edge edges) (map unaffected es)
All-members edges [] h = tt
All-members edges (e ∷ es) h =
    (h e (Memᴰ.head refl), All-members edges es (λ d m. h d (Memᴰ.tail m)))

-- What is reached is in every closed set that has the linked nodes.
IsClosed-complete :
    (deleted linked nodes : List ℕ) (edges : List Edge)
    → IsClosed deleted nodes edges
    → ((n : ℕ) → contains linked n ≡ true → contains nodes n ≡ true)
    → (n : ℕ) → IsReached deleted linked edges n
    → contains nodes n ≡ true
unfolding touches
IsClosed-complete deleted linked nodes edges closed start _ (linked_node n c) = start n c
IsClosed-complete deleted linked nodes edges closed start _ (by_source n e m d c) =
    AllIn-contains nodes e.nodes n
      (All-mem (λ f. touches deleted nodes f ≡ true → AllIn nodes f.nodes) edges e closed m
        (rw d refl))
      c
IsClosed-complete deleted linked nodes edges closed start _ (by_node n k e m r in_edge c) =
    let met =
      any-meets nodes e.nodes k (IsClosed-complete deleted linked nodes edges closed start k r)
        in_edge in
    AllIn-contains nodes e.nodes n
      (All-mem (λ f. touches deleted nodes f ≡ true → AllIn nodes f.nodes) edges e closed m
        (ground (arith, met)))
      c

-- The loop collects the reached nodes: all of them, and no other.
pub walk_from-exact :
    (deleted linked : List ℕ) (edges : List Edge) (n : ℕ)
    → (contains (walk_from deleted linked edges).nodes n ≡ true) ↔ IsReached deleted linked edges n
unfolding walk_from
walk_from-exact deleted linked edges n = (
  walk-reached deleted linked edges (suc (length edges)) linked (map unaffected edges)
      (All-members edges edges (λ e m. m)) (λ k c. linked_node k c) n,
  IsClosed-complete deleted linked (walk_from deleted linked edges).nodes edges
      (subst (λ es. IsClosed deleted (walk_from deleted linked edges).nodes es)
        (edges-unaffected edges)
        (walk-IsClosed (suc (length edges)) deleted linked (map unaffected edges)
          (walk_from-ends deleted linked edges)))
      (walk-keeps (suc (length edges)) deleted linked (map unaffected edges)) n,
)

-- ===== src/Erasure/Walk/Ends.antt =====
-- The loop ends.
use assistant_memory.Prelude.{
  ◌≡◌, refl, ℕ, zero, suc, ◌+◌, ◌≤◌, ◌<◌, true, false, ◌||◌, List, [], ◌∷◌, contains, length,
  if◌then◌else◌, map, arith, All, Bool-cases, inl, inr, ==_refl,
}
use assistant_memory.Erasure.Walk.{
  Edge, Flagged, touches, add_nodes, has_new, pass, walk, unaffected, walk_from,
}

abbrev pub AllIn : List ℕ → List ℕ → Type 0
AllIn nodes ns = All (λ n. contains nodes n ≡ true) ns

-- The nodes of an affected edge are in the set.
abbrev pub IsHeld : List ℕ → List Flagged → Type 0
IsHeld nodes fs = All (λ f. f.affected ≡ true → AllIn nodes f.edge.nodes) fs

contains-if :
    (nodes : List ℕ) (m n : ℕ)
    → contains nodes n ≡ true
    → contains (if contains nodes m then nodes else m ∷ nodes) n ≡ true
unfolding contains
contains-if nodes m n h = ground arith

contains-if_self :
    (nodes : List ℕ) (n : ℕ) → contains (if contains nodes n then nodes else n ∷ nodes) n ≡ true
unfolding contains
contains-if_self nodes n = ground (arith, ==_refl n)

pub add_nodes-keeps :
    (nodes ns : List ℕ) (n : ℕ) → contains nodes n ≡ true → contains (add_nodes nodes ns) n ≡ true
unfolding add_nodes
add_nodes-keeps nodes [] n h = h
add_nodes-keeps nodes (m ∷ ns) n h =
    add_nodes-keeps (if contains nodes m then nodes else m ∷ nodes) ns n (contains-if nodes m n h)

pub add_nodes-AllIn : (nodes ns : List ℕ) → AllIn (add_nodes nodes ns) ns
unfolding add_nodes
add_nodes-AllIn nodes [] = tt
add_nodes-AllIn nodes (n ∷ ns) = (
  add_nodes-keeps (if contains nodes n then nodes else n ∷ nodes) ns n (contains-if_self nodes n),
  add_nodes-AllIn (if contains nodes n then nodes else n ∷ nodes) ns,
)

-- Adding what is there changes nothing.
pub add_nodes-same : (nodes ns : List ℕ) → has_new nodes ns ≡ false → add_nodes nodes ns ≡ nodes
unfolding add_nodes
add_nodes-same nodes [] h = refl
add_nodes-same nodes (n ∷ ns) h = elim (Bool-cases (contains nodes n)) [
  | inl old ↦ rw old (add_nodes-same nodes ns (rw old at h))
  | inr new ↦ cc (rw new at h)
]

pub has_new-AllIn : (nodes ns : List ℕ) → AllIn nodes ns → has_new nodes ns ≡ false
has_new-AllIn nodes [] h = refl
has_new-AllIn nodes (n ∷ ns) (p, h) = rw p (has_new-AllIn nodes ns h)

pub AllIn-has_new : (nodes ns : List ℕ) → has_new nodes ns ≡ false → AllIn nodes ns
AllIn-has_new nodes [] h = tt
AllIn-has_new nodes (n ∷ ns) h = elim (Bool-cases (contains nodes n)) [
  | inl old ↦ (old, AllIn-has_new nodes ns (rw old at h))
  | inr new ↦ cc (rw new at h)
]

-- The set with which a round goes on after one edge.
abbrev pub after_edge : List ℕ → List ℕ → Edge → List ℕ
after_edge deleted nodes e = if touches deleted nodes e then add_nodes nodes e.nodes else nodes

pub after_edge-keeps :
    (deleted nodes : List ℕ) (e : Edge) (n : ℕ)
    → contains nodes n ≡ true
    → contains (after_edge deleted nodes e) n ≡ true
after_edge-keeps deleted nodes e n h = elim (Bool-cases (touches deleted nodes e)) [
  | inl hit ↦ rw hit (add_nodes-keeps nodes e.nodes n h)
  | inr miss ↦ rw miss h
]

pub pass-keeps :
    (deleted nodes : List ℕ) (fs : List Flagged) (n : ℕ)
    → contains nodes n ≡ true
    → contains (pass deleted nodes fs).nodes n ≡ true
unfolding pass
pass-keeps deleted nodes [] n h = h
pass-keeps deleted nodes (f ∷ fs) n h =
    pass-keeps deleted (after_edge deleted nodes f.edge) fs n
      (after_edge-keeps deleted nodes f.edge n h)

pub AllIn-after :
    (deleted nodes : List ℕ) (e : Edge) (ns : List ℕ)
    → AllIn nodes ns
    → AllIn (after_edge deleted nodes e) ns
AllIn-after deleted nodes e [] h = tt
AllIn-after deleted nodes e (n ∷ ns) (p, h) =
    (after_edge-keeps deleted nodes e n p, AllIn-after deleted nodes e ns h)

pub AllIn-pass :
    (deleted nodes : List ℕ) (fs : List Flagged) (ns : List ℕ)
    → AllIn nodes ns
    → AllIn (pass deleted nodes fs).nodes ns
AllIn-pass deleted nodes fs [] h = tt
AllIn-pass deleted nodes fs (n ∷ ns) (p, h) =
    (pass-keeps deleted nodes fs n p, AllIn-pass deleted nodes fs ns h)

-- An edge that is affected after its turn is held by the set.
AllIn-after_affected :
    (deleted nodes : List ℕ) (f : Flagged)
    → (f.affected ≡ true → AllIn nodes f.edge.nodes)
    → (f.affected || touches deleted nodes f.edge) ≡ true
    → AllIn (after_edge deleted nodes f.edge) f.edge.nodes
AllIn-after_affected deleted nodes f p a = elim (Bool-cases (touches deleted nodes f.edge)) [
  | inl hit ↦ rw hit (add_nodes-AllIn nodes f.edge.nodes)
  | inr miss ↦ AllIn-after deleted nodes f.edge f.edge.nodes (p (ground arith))
]

IsHeld-after :
    (deleted nodes : List ℕ) (e : Edge) (fs : List Flagged)
    → IsHeld nodes fs
    → IsHeld (after_edge deleted nodes e) fs
IsHeld-after deleted nodes e [] h = tt
IsHeld-after deleted nodes e (f ∷ fs) (p, h) =
    (λ a. AllIn-after deleted nodes e f.edge.nodes (p a), IsHeld-after deleted nodes e fs h)

pub pass-IsHeld :
    (deleted nodes : List ℕ) (fs : List Flagged)
    → IsHeld nodes fs
    → IsHeld (pass deleted nodes fs).nodes (pass deleted nodes fs).edges
unfolding pass
pass-IsHeld deleted nodes [] h = tt
pass-IsHeld deleted nodes (f ∷ fs) (p, h) = (
  (λ a.
      AllIn-pass deleted (after_edge deleted nodes f.edge) fs f.edge.nodes
        (AllIn-after_affected deleted nodes f p a)),
  pass-IsHeld deleted (after_edge deleted nodes f.edge) fs (IsHeld-after deleted nodes f.edge fs h),
)

abbrev pub pending : List Flagged → ℕ
pending [] = 0
pending (f ∷ fs) = (if f.affected then 0 else 1) + pending fs

pass-pending_le :
    (deleted nodes : List ℕ) (fs : List Flagged)
    → pending (pass deleted nodes fs).edges ≤ pending fs
unfolding pass
pass-pending_le deleted nodes [] = omega arith
pass-pending_le deleted nodes (f ∷ fs) =
    ground (arith, pass-pending_le deleted (after_edge deleted nodes f.edge) fs)

-- A round that changes something affects an edge that was not affected.
pass-pending_lt :
    (deleted nodes : List ℕ) (fs : List Flagged)
    → IsHeld nodes fs
    → (pass deleted nodes fs).changed ≡ true
    → pending (pass deleted nodes fs).edges < pending fs
unfolding pass
pass-pending_lt deleted nodes [] h c = cc
pass-pending_lt deleted nodes (f ∷ fs) (p, h) c =
    let next =
      pass-pending_lt deleted (after_edge deleted nodes f.edge) fs
        (IsHeld-after deleted nodes f.edge fs h) in
    let below = pass-pending_le deleted (after_edge deleted nodes f.edge) fs in
    elim (Bool-cases f.affected) [
      | inl old ↦ ground (arith, next, has_new-AllIn nodes f.edge.nodes (p old))
      | inr fresh ↦ elim (Bool-cases (touches deleted nodes f.edge)) [
        | inl hit ↦ ground (arith, below)
        | inr miss ↦ ground (arith, next)
      ]
    ]

walk_settles :
    (fuel : ℕ) (deleted nodes : List ℕ) (fs : List Flagged)
    → pending fs < fuel
    → IsHeld nodes fs
    → (walk fuel deleted nodes fs).changed ≡ false
unfolding walk
walk_settles zero deleted nodes fs l h = absurd (omega arith)
walk_settles (suc fuel) deleted nodes fs l h = elim (Bool-cases (pass deleted nodes fs).changed) [
  | inl more ↦
      rw (more, walk)
        (walk_settles fuel deleted (pass deleted nodes fs).nodes (pass deleted nodes fs).edges
          (ground (arith, pass-pending_lt deleted nodes fs h more))
          (pass-IsHeld deleted nodes fs h))
  | inr done ↦ rw (done, walk) done
]

none_pending : (edges : List Edge) (nodes : List ℕ) → IsHeld nodes (map unaffected edges)
none_pending [] nodes = tt
none_pending (e ∷ es) nodes = (λ a. absurd (cc), none_pending es nodes)

pending-unaffected : (edges : List Edge) → pending (map unaffected edges) ≡ length edges
pending-unaffected [] = refl
pending-unaffected (e ∷ es) = omega (arith, pending-unaffected es)

-- With a round for every edge and one more, the loop has ended: its last round changed nothing.
pub walk_from-ends :
    (deleted linked : List ℕ) (edges : List Edge) → (walk_from deleted linked edges).changed ≡ false
unfolding walk_from
walk_from-ends deleted linked edges =
    walk_settles (suc (length edges)) deleted linked (map unaffected edges)
      (omega (arith, pending-unaffected edges)) (none_pending edges linked)

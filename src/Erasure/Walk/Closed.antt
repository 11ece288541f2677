-- ===== src/Erasure/Walk/Closed.antt =====
-- What the last round leaves: a set that every edge it touches stays within.
use assistant_memory.Prelude.{
  ◌≡◌, refl, ◌∙◌, subst, ℕ, zero, suc, true, false, List, [], ◌∷◌, contains, map, arith, All,
  Bool-cases, inl, inr,
}
use assistant_memory.Erasure.Walk.{Edge, Flagged, touches, has_new, pass, walk}
use assistant_memory.Erasure.Walk.Ends.{
  AllIn, AllIn-has_new, add_nodes-same, after_edge, pass-keeps,
}

abbrev pub edges_of : List Flagged → List Edge
edges_of fs = map (λ f. f.edge) fs

abbrev pub IsClosed : List ℕ → List ℕ → List Edge → Type 0
IsClosed deleted nodes es = All (λ e. touches deleted nodes e ≡ true → AllIn nodes e.nodes) es

-- A round that changes nothing leaves the set, and finds it closed.
pass-same :
    (deleted nodes : List ℕ) (fs : List Flagged)
    → (pass deleted nodes fs).changed ≡ false
    → ((pass deleted nodes fs).nodes ≡ nodes) × IsClosed deleted nodes (edges_of fs)
unfolding pass
pass-same deleted nodes [] c = (refl, tt)
pass-same deleted nodes (f ∷ fs) c = elim (Bool-cases (touches deleted nodes f.edge)) [
  | inl hit ↦
      let none_new : has_new nodes f.edge.nodes ≡ false = ground arith in
      let same = add_nodes-same nodes f.edge.nodes none_new in
      let (e, h) = pass-same deleted nodes fs (ground (arith, same)) in
      (rw (hit, same) e, ((λ t. AllIn-has_new nodes f.edge.nodes none_new), h))
  | inr miss ↦
      let (e, h) = pass-same deleted nodes fs (rw miss at c) in
      (rw miss e, ((λ t. absurd (cc (rw miss at t))), h))
]

pass-edges :
    (deleted nodes : List ℕ) (fs : List Flagged)
    → edges_of (pass deleted nodes fs).edges ≡ edges_of fs
unfolding pass
pass-edges deleted nodes [] = refl
pass-edges deleted nodes (f ∷ fs) = rw (pass-edges deleted (after_edge deleted nodes f.edge) fs)

-- When the loop has ended, its set has what it started with and is closed.
pub walk-IsClosed :
    (fuel : ℕ) (deleted nodes : List ℕ) (fs : List Flagged)
    → (walk fuel deleted nodes fs).changed ≡ false
    → IsClosed deleted (walk fuel deleted nodes fs).nodes (edges_of fs)
unfolding walk
walk-IsClosed zero deleted nodes fs c = cc
walk-IsClosed (suc fuel) deleted nodes fs c = elim (Bool-cases (pass deleted nodes fs).changed) [
  | inl more ↦
      let p = pass deleted nodes fs in
      let h = walk-IsClosed fuel deleted p.nodes p.edges (rw (more, walk) at c) in
      subst (λ es. IsClosed deleted (walk (suc fuel) deleted nodes fs).nodes es)
        (pass-edges deleted nodes fs) (rw (more, walk) h)
  | inr done ↦ let (e, h) = pass-same deleted nodes fs done in rw (done, walk, e) h
]

pub walk-keeps :
    (fuel : ℕ) (deleted nodes : List ℕ) (fs : List Flagged) (n : ℕ)
    → contains nodes n ≡ true
    → contains (walk fuel deleted nodes fs).nodes n ≡ true
unfolding walk
walk-keeps zero deleted nodes fs n h = h
walk-keeps (suc fuel) deleted nodes fs n h = elim (Bool-cases (pass deleted nodes fs).changed) [
  | inl more ↦
      rw (more, walk)
        (walk-keeps fuel deleted (pass deleted nodes fs).nodes (pass deleted nodes fs).edges n
          (pass-keeps deleted nodes fs n h))
  | inr done ↦ rw (done, walk) (pass-keeps deleted nodes fs n h)
]

-- Every edge that the set touches is affected.
abbrev pub IsMarked : List ℕ → List ℕ → List Flagged → Type 0
IsMarked deleted nodes fs = All (λ f. touches deleted nodes f.edge ≡ true → f.affected ≡ true) fs

pass-IsMarked :
    (deleted nodes : List ℕ) (fs : List Flagged)
    → (pass deleted nodes fs).changed ≡ false
    → IsMarked deleted nodes (pass deleted nodes fs).edges
unfolding pass
pass-IsMarked deleted nodes [] c = tt
pass-IsMarked deleted nodes (f ∷ fs) c = elim (Bool-cases (touches deleted nodes f.edge)) [
  | inl hit ↦
      let none_new : has_new nodes f.edge.nodes ≡ false = ground arith in
      let same = add_nodes-same nodes f.edge.nodes none_new in
      let h = pass-IsMarked deleted nodes fs (ground (arith, same)) in
      rw (hit, same) ((λ t. ground arith), h)
  | inr miss ↦
      let h = pass-IsMarked deleted nodes fs (rw miss at c) in rw miss ((λ t. absurd (cc t)), h)
]

pub walk-IsMarked :
    (fuel : ℕ) (deleted nodes : List ℕ) (fs : List Flagged)
    → (walk fuel deleted nodes fs).changed ≡ false
    → IsMarked deleted (walk fuel deleted nodes fs).nodes (walk fuel deleted nodes fs).edges
unfolding walk
walk-IsMarked zero deleted nodes fs c = cc
walk-IsMarked (suc fuel) deleted nodes fs c = elim (Bool-cases (pass deleted nodes fs).changed) [
  | inl more ↦
      let p = pass deleted nodes fs in
      rw (more, walk) (walk-IsMarked fuel deleted p.nodes p.edges (rw (more, walk) at c))
  | inr done ↦
      let (e, h) = pass-same deleted nodes fs done in
      rw (done, walk, e) (pass-IsMarked deleted nodes fs done)
]

-- The rounds keep the edges.
pub walk-edges :
    (fuel : ℕ) (deleted nodes : List ℕ) (fs : List Flagged)
    → edges_of (walk fuel deleted nodes fs).edges ≡ edges_of fs
unfolding walk
walk-edges zero deleted nodes fs = refl
walk-edges (suc fuel) deleted nodes fs = elim (Bool-cases (pass deleted nodes fs).changed) [
  | inl more ↦
      let p = pass deleted nodes fs in
      rw (more, walk) (walk-edges fuel deleted p.nodes p.edges ∙ pass-edges deleted nodes fs)
  | inr done ↦ rw (done, walk) (pass-edges deleted nodes fs)
]

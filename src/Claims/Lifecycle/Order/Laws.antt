-- ===== src/Claims/Lifecycle/Order/Laws.antt =====
-- What the order of the claims guarantees, and what it does not.
use Prim.Native.Nat.{compare, Ordering}
use assistant_memory.Prelude.{
  ◌≡◌, ◌<◌, ◌≤◌, ℕ, true, false, none, some, List, [], ◌∷◌, arith, Bool-cases, inl, inr, All,
}
use assistant_memory.Claims.Rows.{Claim, EmailThread}
use assistant_memory.Claims.Lifecycle.Order.{
  compare_lifecycle_order, email_thread_of, insert_claim, sort_claims, is_lt, or_else,
}

-- The claims stand in the order in which they were stated.
abbrev pub IsStatedInOrder : List Claim → Type 0
IsStatedInOrder [] = Unit
IsStatedInOrder (c ∷ cs) = All (λ d. c.stated_at ≤ d.stated_at) cs × IsStatedInOrder cs

not-lt_first : (x y : ℕ) (o : Ordering) → is_lt (or_else (compare x y) o) ≡ false → y ≤ x
not-lt_first x y o h = ground arith

lt_first : (x y : ℕ) (o : Ordering) → is_lt (or_else (compare x y) o) ≡ true → x ≤ y
lt_first x y o h = ground arith

not-lt_stated :
    (a b : Claim) → is_lt (compare_lifecycle_order a b) ≡ false → b.stated_at ≤ a.stated_at
unfolding compare_lifecycle_order
not-lt_stated a b h = not-lt_first a.stated_at b.stated_at _ h

lt_stated : (a b : Claim) → is_lt (compare_lifecycle_order a b) ≡ true → a.stated_at ≤ b.stated_at
unfolding compare_lifecycle_order
lt_stated a b h = lt_first a.stated_at b.stated_at _ h

-- Two claims with an email thread and one without, all stated at one time, are ordered in a circle
-- whenever the messages and the times of creation disagree.
pub compare-circular :
    (a b c : Claim) (s t : EmailThread)
    → email_thread_of a ≡ some s
    → email_thread_of b ≡ some t
    → email_thread_of c ≡ none
    → a.stated_at ≡ b.stated_at
    → b.stated_at ≡ c.stated_at
    → s.message_id < t.message_id
    → b.created_at < c.created_at
    → c.created_at < a.created_at
    → (compare_lifecycle_order a b ≡ Ordering.lt)
      × (compare_lifecycle_order b c ≡ Ordering.lt)
      × (compare_lifecycle_order c a ≡ Ordering.lt)
unfolding compare_lifecycle_order
compare-circular a b c s t ha hb hc e f m p q = rw (ha, hb, hc) (ground arith)

pub All-insert :
    (P : Claim → Type 0) (c : Claim) (ds : List Claim) → P c → All P ds → All P (insert_claim c ds)
unfolding insert_claim
All-insert P c [] p h = (p, tt)
All-insert P c (d ∷ ds) p (q, h) = elim (Bool-cases (is_lt (compare_lifecycle_order d c))) [
  | inl later ↦ rw later (q, All-insert P c ds p h)
  | inr here ↦ rw here (p, (q, h))
]

All-le :
    (ds : List Claim) (m n : ℕ)
    → m ≤ n
    → All (λ d. n ≤ d.stated_at) ds
    → All (λ d. m ≤ d.stated_at) ds
All-le [] m n l h = tt
All-le (d ∷ ds) m n l (q, h) = (omega arith, All-le ds m n l h)

insert-IsStatedInOrder :
    (c : Claim) (ds : List Claim) → IsStatedInOrder ds → IsStatedInOrder (insert_claim c ds)
unfolding insert_claim
insert-IsStatedInOrder c [] h = (tt, tt)
insert-IsStatedInOrder c (d ∷ ds) (q, h) = elim (Bool-cases (is_lt (compare_lifecycle_order d c))) [
  | inl later ↦ rw later (
    All-insert (λ x. d.stated_at ≤ x.stated_at) c ds (lt_stated d c later) q,
    insert-IsStatedInOrder c ds h,
  )
  | inr here ↦ rw here (
    (not-lt_stated d c here, All-le ds c.stated_at d.stated_at (not-lt_stated d c here) q),
    (q, h),
  )
]

-- Sorting puts the claims in the order in which they were stated, whatever else they carry.
pub sort-IsStatedInOrder : (cs : List Claim) → IsStatedInOrder (sort_claims cs)
unfolding sort_claims
sort-IsStatedInOrder [] = tt
sort-IsStatedInOrder (c ∷ cs) = insert-IsStatedInOrder c (sort_claims cs) (sort-IsStatedInOrder cs)

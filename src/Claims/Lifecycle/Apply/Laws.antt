-- ===== src/Claims/Lifecycle/Apply/Laws.antt =====
-- A recomputation from the rows as they are read.
use assistant_memory.Prelude.{ℕ, ◌≢◌, refl, ◌≤◌, Option, List, [], ◌∷◌, map, All}
use assistant_memory.Claims.Rows.{Claim}
use assistant_memory.Claims.Lifecycle.Order.{sort_claims}
use assistant_memory.Claims.Lifecycle.Order.Laws.{All-insert, IsStatedInOrder, sort-IsStatedInOrder}
use assistant_memory.Claims.Lifecycle.Settle.{row, Successor, carry, carry_from, carry_progress}
use assistant_memory.Claims.Lifecycle.Settle.Carry.{carry-KeepsKeys, carry_from-All}
use assistant_memory.Claims.Lifecycle.Settle.Intervals.{
  IsOrdered, IsCarried, IsLater, Spans, settle_rows-Spans,
}
use assistant_memory.Claims.Lifecycle.Apply.{recompute_rows}

-- The ids of the claims differ from one another, as `claims.id` is a primary key.
abbrev pub HasDistinctIds : List Claim → Type 0
HasDistinctIds [] = Unit
HasDistinctIds (c ∷ cs) = All (λ d. d.id ≢ c.id) cs × HasDistinctIds cs

pub sort-All : (P : Claim → Type 0) (cs : List Claim) → All P cs → All P (sort_claims cs)
unfolding sort_claims
sort-All P [] h = tt
sort-All P (c ∷ cs) (p, h) = All-insert P c (sort_claims cs) p (sort-All P cs h)

from-IsOrdered :
    (previous : Claim) (cs : List Claim)
    → IsStatedInOrder cs
    → IsOrdered (carry_from previous (map row cs))
unfolding carry_from
from-IsOrdered previous [] h = tt
from-IsOrdered previous (c ∷ cs) (p, h) =
    let d = carry previous c in
    (
      carry_from-All (λ id t. d.stated_at ≤ t) d cs (rw ((carry-KeepsKeys previous c).same_time) p),
      from-IsOrdered d cs h,
    )

from-IsCarried :
    (previous : Claim) (cs : List Claim) → All IsCarried (carry_from previous (map row cs))
unfolding carry_from
from-IsCarried previous [] = tt
from-IsCarried previous (c ∷ cs) =
    let k = carry-KeepsKeys previous c in
    (
      record { same_start = k.same_start; same_time = k.same_time; same_id = k.same_id },
      from-IsCarried (carry previous c) cs,
    )

carried-IsOrdered : (cs : List Claim) → IsStatedInOrder cs → IsOrdered (carry_progress (map row cs))
unfolding carry_progress
carried-IsOrdered [] h = tt
carried-IsOrdered (c ∷ cs) (p, h) =
    (carry_from-All (λ id t. c.stated_at ≤ t) c cs p, from-IsOrdered c cs h)

carry_progress-IsCarried : (cs : List Claim) → All IsCarried (carry_progress (map row cs))
unfolding carry_progress
carry_progress-IsCarried [] = tt
carry_progress-IsCarried (c ∷ cs) =
    (record { same_start = refl; same_time = refl; same_id = refl }, from-IsCarried c cs)

carry_progress-All :
    (P : ℕ → ℕ → Type 0) (cs : List Claim)
    → All (λ c. P c.id c.stated_at) cs
    → All (λ r. P r.current.id r.current.stated_at) (carry_progress (map row cs))
unfolding carry_progress
carry_progress-All P [] h = tt
carry_progress-All P (c ∷ cs) (p, h) = (p, carry_from-All P c cs h)

-- If a removal never stands before the claim that it is looked up for, every claim that a recomputation
-- settles has its interval.
pub recompute_rows-Spans :
    (P : ℕ → ℕ → Type 0) (find_removal : Option Claim → Option Successor) (cs : List Claim)
    → IsLater P find_removal
    → All (λ c. P c.id c.stated_at) cs
    → All
        (Spans find_removal (carry_progress (map row (sort_claims cs))))
        (recompute_rows find_removal cs)
unfolding recompute_rows
recompute_rows-Spans P find_removal cs later h =
    settle_rows-Spans P find_removal _ later
      (carry_progress-All P (sort_claims cs) (sort-All (λ c. P c.id c.stated_at) cs h))
      (carried-IsOrdered (sort_claims cs) (sort-IsStatedInOrder cs))
      (carry_progress-IsCarried (sort_claims cs))

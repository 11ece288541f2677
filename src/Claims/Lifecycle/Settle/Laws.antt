-- ===== src/Claims/Lifecycle/Settle/Laws.antt =====
-- What holds of the rows that a recomputation settles.
use assistant_memory.Prelude.{
  ◌≡◌, ◌≢◌, refl, ℕ, suc, ◌+◌, Bool, true, false, Option, none, some, List, [], ◌∷◌, ◌++◌, map,
  arith, All, contains, if◌then◌else◌,
}
use assistant_memory.Claims.Rows.{Claim, is_active}
use assistant_memory.Claims.Lifecycle.Settle.{
  Row, Settled, Successor, settle, settle_chain, settle_demoted, settle_demoted_row, settle_rows,
  ordered_chain, demoted_ids, latest_active,
}

abbrev pub active_count : List Settled → ℕ
active_count [] = 0
active_count (s ∷ ss) =
    let rest = active_count ss in if is_active s.result.status then suc rest else rest

active_count-append :
    (xs ys : List Settled) → active_count (xs ++ ys) ≡ active_count xs + active_count ys
active_count-append [] ys = omega arith
active_count-append (x ∷ xs) ys = ground (arith, active_count-append xs ys)

active_count-demoted :
    (latest : Option Claim) (rows : List Row)
    → active_count (map (settle_demoted_row latest) rows) ≡ 0
unfolding settle_demoted
active_count-demoted latest [] = refl
active_count-demoted latest (r ∷ rs) = active_count-demoted latest rs

abbrev pub one_unless_removed : Option Successor → ℕ
one_unless_removed none = 1
one_unless_removed (some s) = 0

active_count-chain :
    (removal : Option Successor) (r : Row) (rs : List Row)
    → active_count (settle_chain removal (r ∷ rs)) ≡ one_unless_removed removal
unfolding settle_chain settle
active_count-chain none r [] = refl
active_count-chain (some n) r [] = refl
active_count-chain removal r (s ∷ rs) = active_count-chain removal s rs

active_count-both :
    (removal : Option Successor) (r : Row) (rs : List Row) (latest : Option Claim) (ds : List Row)
    → active_count (settle_chain removal (r ∷ rs) ++ map (settle_demoted_row latest) ds)
      ≡ one_unless_removed removal
active_count-both removal r rs latest ds = omega (
  arith,
  active_count-append (settle_chain removal (r ∷ rs)) (map (settle_demoted_row latest) ds),
  active_count-chain removal r rs,
  active_count-demoted latest ds,
)

-- The ids of the claims differ from one another.
abbrev pub IsDistinct : List Row → Type 0
IsDistinct [] = Unit
IsDistinct (r ∷ rs) = All (λ s. s.current.id ≢ r.current.id) rs × IsDistinct rs

not-demoted :
    (trusted : Bool) (a : ℕ) (rs : List Row)
    → All (λ s. s.current.id ≢ a) rs
    → contains (demoted_ids trusted rs) a ≡ false
unfolding demoted_ids contains
not-demoted trusted a [] h = refl
not-demoted trusted a (r ∷ rs) (p, h) =
    ground (arith, not-demoted true a rs h, not-demoted trusted a rs h)

-- The first claim has no user claim before it.
first-not_demoted :
    (r : Row) (rs : List Row)
    → All (λ s. s.current.id ≢ r.current.id) rs
    → contains (demoted_ids false (r ∷ rs)) r.current.id ≡ false
unfolding demoted_ids
first-not_demoted r rs h =
    ground (arith, not-demoted true r.current.id rs h, not-demoted false r.current.id rs h)

-- After a recomputation of at least one claim, with distinct ids, exactly one is active, or none if
-- a removal of the deadline follows the last claim of the chain.
pub settle_rows-active_count :
    (find_removal : Option Claim → Option Successor) (r : Row) (rs : List Row)
    → IsDistinct (r ∷ rs)
    → active_count (settle_rows find_removal (r ∷ rs))
      ≡ one_unless_removed (find_removal (latest_active (ordered_chain (r ∷ rs))))
unfolding settle_rows ordered_chain
settle_rows-active_count find_removal r rs (h, _) =
    rw (first-not_demoted r rs h) (active_count-both _ r _ _ _)

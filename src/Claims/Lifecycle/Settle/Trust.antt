-- ===== src/Claims/Lifecycle/Settle/Trust.antt =====
-- The trust rule, `trustRuleDemotedClaimIds`.
use assistant_memory.Prelude.{◌≡◌, true, false, List, ◌∷◌}
use mathlib.Core.List.{Memᴰ}
use assistant_memory.Claims.Lifecycle.Settle.{Row, is_demotable, is_trusted_user_kind}

-- `r` stands after a claim of a trusted user kind, is inferred by the assistant, and carries no
-- explicit email progress.
pub data IsOverruled (r : Row) : List Row → Type 0 where
  after :
      {u : Row} {rs : List Row}
      → is_trusted_user_kind u.current.asserted_by_kind ≡ true
      → Memᴰ r rs
      → is_trusted_user_kind r.current.asserted_by_kind ≡ false
      → is_demotable r.current ≡ true
      → IsOverruled r (u ∷ rs)
  later : {s : Row} {rs : List Row} → IsOverruled r rs → IsOverruled r (s ∷ rs)

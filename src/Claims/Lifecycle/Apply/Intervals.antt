-- ===== src/Claims/Lifecycle/Apply/Intervals.antt =====
-- The validity intervals that a recomputation over the table leaves.
use assistant_memory.Prelude.{◌≡◌, ℕ, Option, List, All}
use assistant_memory.Claims.Rows.{Claim}

-- Every claim with the id was stated at the time.
abbrev IsTimeOf : List Claim → ℕ → ℕ → Type 0
IsTimeOf cs id at = All (λ d. d.id ≡ id → d.stated_at ≡ at) cs

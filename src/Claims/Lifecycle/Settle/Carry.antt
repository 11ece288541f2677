-- ===== src/Claims/Lifecycle/Settle/Carry.antt =====
-- Carrying the progress of a task along its email thread.
use assistant_memory.Prelude.{
  ◌≡◌, refl, ℕ, false, Option, some, List, [], ◌∷◌, arith, All, map, Bool, none, true, is_some,
  Option-cases, inl, inr,
}
use assistant_memory.Claims.Rows.{Claim, RequestEvidence, EmailThread, LifecycleEvidence}
use assistant_memory.Claims.Lifecycle.Order.{email_lifecycle_evidence}
use assistant_memory.Claims.Lifecycle.Settle.{
  Row, carry, carry_from, carry_progress, is_email_progress, carry_value, row,
  explicit_email_progress, progress_of, carry_evidence,
}

-- An email that asks or clarifies, and reports no progress of its own.
pub record IsClarification (c : Claim) : Type 0 where
  pub evidence : RequestEvidence
  pub thread : EmailThread
  pub read : email_lifecycle_evidence c ≡ some evidence
  pub threaded : evidence.email_thread ≡ some thread
  pub no_progress : is_email_progress evidence.lifecycle_evidence ≡ false

abbrev pub has_thread : Option RequestEvidence → Bool
has_thread none = false
has_thread (some e) = is_some e.email_thread

abbrev pub is_threaded : Claim → Bool
is_threaded c = has_thread (email_lifecycle_evidence c)

carry-value :
    (previous c : Claim)
    → IsClarification c
    → (carry previous c).object_value ≡ previous.object_value
unfolding carry
carry-value previous c h = rw (h.read, h.threaded, h.no_progress)

-- The value of a claim after the one before it: that of the other if it only clarifies, and else its own.
pub record Follows (previous read carried : Claim) : Type 0 where
  pub on_clarification : IsClarification read → carried.object_value ≡ previous.object_value
  pub on_other : explicit_email_progress read ≡ true → carried.object_value ≡ read.object_value
  pub unthreaded : is_threaded read ≡ false → carried ≡ read

-- Row by row, what was read and what it was carried to.
abbrev pub AllFollow : Claim → List Row → List Row → Type 0
AllFollow previous [] [] = Unit
AllFollow previous (r ∷ rs) (s ∷ ss) =
    Follows previous r.current s.current × AllFollow s.current rs ss
AllFollow previous _ _ = ⊥

other-value :
    (previous c : Claim) (o : Option RequestEvidence)
    → progress_of o ≡ true
    → (carry_evidence previous c o).object_value ≡ c.object_value
other-value previous c none h = refl
other-value previous c (some e) h = elim (Option-cases e.email_thread) [
  | inl missing ↦ rw missing refl
  | inr (t, there) ↦
      let progress : is_email_progress e.lifecycle_evidence ≡ true = rw there at h in
      rw (there, progress) refl
]

unthreaded-same :
    (previous c : Claim) (o : Option RequestEvidence)
    → has_thread o ≡ false
    → carry_evidence previous c o ≡ c
unthreaded-same previous c none h = refl
unthreaded-same previous c (some e) h = elim (Option-cases e.email_thread) [
  | inl missing ↦ rw missing refl
  | inr (t, there) ↦ absurd (ground (arith, rw there at h))
]

carry-Follows : (previous c : Claim) → Follows previous c (carry previous c)
unfolding explicit_email_progress carry
carry-Follows previous c = record {
  on_clarification = carry-value previous c;
  on_other = other-value previous c (email_lifecycle_evidence c);
  unthreaded = unthreaded-same previous c (email_lifecycle_evidence c);
}

carry_from-AllFollow :
    (previous : Claim) (rs : List Row) → AllFollow previous rs (carry_from previous rs)
unfolding carry_from
carry_from-AllFollow previous [] = tt
carry_from-AllFollow previous (r ∷ rs) =
    (carry-Follows previous r.current, carry_from-AllFollow (carry previous r.current) rs)

-- The first claim stays as it is. Of every later one, whatever stands around it: a clarification takes the
-- value that the claim just before it ended up with, so that a question in the thread cannot reopen work
-- that was reported as done; one with explicit progress keeps its own value; and one without an email
-- thread stays as it is.
pub carry_progress-follows :
    (r : Row) (rs : List Row)
    → (ss : List Row) × (carry_progress (r ∷ rs) ≡ r ∷ ss) × AllFollow r.current rs ss
unfolding carry_progress
carry_progress-follows r rs = (carry_from r.current rs, refl, carry_from-AllFollow r.current rs)

-- What the carrying leaves alone.
pub record KeepsKeys (c d : Claim) : Type 0 where
  pub same_id : d.id ≡ c.id
  pub same_time : d.stated_at ≡ c.stated_at
  pub same_start : d.valid_from ≡ c.valid_from

carry_value-KeepsKeys :
    (previous c : Claim) (l : LifecycleEvidence) → KeepsKeys c (carry_value previous c l)
carry_value-KeepsKeys previous c l = ground arith

pub carry-KeepsKeys : (previous c : Claim) → KeepsKeys c (carry previous c)
unfolding carry
carry-KeepsKeys previous c = ground arith

module _ (P : ℕ → ℕ → Type 0) where
  pub carry_from-All :
      (previous : Claim) (cs : List Claim)
      → All (λ c. P c.id c.stated_at) cs
      → All (λ r. P r.current.id r.current.stated_at) (carry_from previous (map row cs))
  unfolding carry_from
  carry_from-All previous [] h = tt
  carry_from-All previous (c ∷ cs) (p, h) =
      let k = carry-KeepsKeys previous c in
      (rw (k.same_id, k.same_time) p, carry_from-All (carry previous c) cs h)

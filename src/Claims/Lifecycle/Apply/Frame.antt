-- ===== src/Claims/Lifecycle/Apply/Frame.antt =====
-- What `applyClaimLifecycle` leaves alone.
use assistant_memory.Prelude.{
  ◌≡◌, ◌≢◌, refl, sym, ap, ◌∙◌, ℕ, Bool, true, false, not, ◌==◌, ==→eq, Option, none, some, List,
  [], ◌∷◌, map, arith, filter, All, All-append, All-filter, Bool-cases, inl, inr, ◌⊎◌,
}
use mathlib.Core.List.{Memᴰ}
use assistant_memory.Graph.{NodeType, same_predicate, same_predicate→eq}
use assistant_memory.Claims.Policies.{supersedes}
use assistant_memory.Claims.Rows.{Claim, same_claim, is_current_or_superseded}
use assistant_memory.Claims.Lifecycle.Order.{sort_claims}
use assistant_memory.Claims.Lifecycle.Settle.{
  Row, row, Settled, Successor, carry, carry_from, carry_progress, settle, settle_chain,
  settle_demoted, settle_demoted_row, settle_rows, ordered_chain, demoted_claims, demoted_ids,
  is_demoted, updates,
}
use assistant_memory.Claims.Lifecycle.Settle.Carry.{carry-KeepsKeys}
use assistant_memory.Claims.Lifecycle.Apply.{
  Database, SingleValuedSubject, recompute_rows, is_claim_of, write_row, write_rows,
  deadline_removal, recompute, recompute_each, apply_claim_lifecycle, single_current_value_subjects,
  is_due,
}
use assistant_memory.Claims.Lifecycle.Apply.Laws.{sort-All}

-- The claim is contradicted or retracted, or its predicate supersedes on no subject type.
abbrev pub IsUntouched : Claim → Type 0
IsUntouched c =
    (is_current_or_superseded c.status ≡ false)
    ⊎ ((t : NodeType) → supersedes c.predicate t ≡ false)

-- The table has the claim, and no other claim with its id.
pub record IsStored (c : Claim) (cs : List Claim) : Type 0 where
  pub stored : Memᴰ c cs
  pub alone : All (λ d. d.id ≡ c.id → d ≡ c) cs

module _ (n : ℕ) where
  abbrev IsOther : Row → Type 0
  IsOther r = (r.current.id ≢ n) × (r.persisted.id ≢ n)

  carry_from-IsOther :
      (previous : Claim) (cs : List Claim)
      → All (λ c. c.id ≢ n) cs
      → All IsOther (carry_from previous (map row cs))
  unfolding carry_from
  carry_from-IsOther previous [] h = tt
  carry_from-IsOther previous (c ∷ cs) (p, h) = (
    (λ e. p (sym ((carry-KeepsKeys previous c).same_id) ∙ e), p),
    carry_from-IsOther (carry previous c) cs h,
  )

  carry_progress-IsOther :
      (cs : List Claim) → All (λ c. c.id ≢ n) cs → All IsOther (carry_progress (map row cs))
  unfolding carry_progress
  carry_progress-IsOther [] h = tt
  carry_progress-IsOther (c ∷ cs) (p, h) = ((p, p), carry_from-IsOther c cs h)

  settle-id : (next : Option Successor) (c : Claim) → (settle next c).id ≡ c.id
  unfolding settle
  settle-id none c = refl
  settle-id (some s) c = refl

  settle_chain-id :
      (removal : Option Successor) (rows : List Row)
      → All IsOther rows
      → All (λ s. s.result.id ≢ n) (settle_chain removal rows)
  unfolding settle_chain
  settle_chain-id removal [] h = tt
  settle_chain-id removal (r ∷ rs) (p, h) =
      ((λ e. p.0 (sym (settle-id _ r.current) ∙ e)), settle_chain-id removal rs h)

  settle_demoted-id :
      (latest : Option Claim) (rows : List Row)
      → All IsOther rows
      → All (λ s. s.result.id ≢ n) (map (settle_demoted_row latest) rows)
  unfolding settle_demoted
  settle_demoted-id latest [] h = tt
  settle_demoted-id latest (r ∷ rs) (p, h) = (p.1, settle_demoted-id latest rs h)

  recompute_rows-id :
      (find_removal : Option Claim → Option Successor) (cs : List Claim)
      → All (λ c. c.id ≢ n) cs
      → All (λ s. s.result.id ≢ n) (recompute_rows find_removal cs)
  unfolding recompute_rows settle_rows ordered_chain demoted_claims
  recompute_rows-id find_removal cs h =
      let rows = carry_progress (map row (sort_claims cs)) in
      let others : All IsOther rows =
        carry_progress-IsOther (sort_claims cs) (sort-All (λ c. c.id ≢ n) cs h) in
      All-append _ _ _
        (settle_chain-id _ _
          (All-filter IsOther (λ r. not (is_demoted (demoted_ids false rows) r)) rows others))
        (settle_demoted-id _ _
          (All-filter IsOther (is_demoted (demoted_ids false rows)) rows others))

  updates-id :
      (now : ℕ) (ss : List Settled)
      → All (λ s. s.result.id ≢ n) ss
      → All (λ u. u.id ≢ n) (updates now ss)
  unfolding updates
  updates-id now [] h = tt
  updates-id now (s ∷ ss) (p, h) = elim (Bool-cases (same_claim s.persisted s.result)) [
    | inl same ↦ rw same (updates-id now ss h)
    | inr changed ↦ rw changed (p, updates-id now ss h)
  ]

module _ (c : Claim) where
  write_row-mem : (u : Claim) (cs : List Claim) → u.id ≢ c.id → Memᴰ c cs → Memᴰ c (write_row u cs)
  unfolding write_row
  write_row-mem u [] other m = elim m [ ]
  write_row-mem u (d ∷ ds) other (Memᴰ.head e) = elim (Bool-cases (d.id == u.id)) [
    | inl hit ↦ absurd (other (sym (==→eq d.id u.id hit) ∙ ap (λ (x : Claim). x.id) (sym e)))
    | inr miss ↦ rw miss (Memᴰ.head e)
  ]
  write_row-mem u (d ∷ ds) other (Memᴰ.tail m) = Memᴰ.tail (write_row-mem u ds other m)

  write_row-alone :
      (u : Claim) (cs : List Claim)
      → u.id ≢ c.id
      → All (λ d. d.id ≡ c.id → d ≡ c) cs
      → All (λ d. d.id ≡ c.id → d ≡ c) (write_row u cs)
  unfolding write_row
  write_row-alone u [] other h = tt
  write_row-alone u (d ∷ ds) other (p, h) = elim (Bool-cases (d.id == u.id)) [
    | inl hit ↦ rw hit ((λ e. absurd (other e)), write_row-alone u ds other h)
    | inr miss ↦ rw miss (p, write_row-alone u ds other h)
  ]

  write_rows-IsStored :
      (us cs : List Claim)
      → All (λ u. u.id ≢ c.id) us
      → IsStored c cs
      → IsStored c (write_rows us cs)
  unfolding write_rows
  write_rows-IsStored [] cs h s = s
  write_rows-IsStored (u ∷ us) cs (p, h) s =
      write_rows-IsStored us (write_row u cs) h
        (record { stored = write_row-mem u cs p s.stored; alone = write_row-alone u cs p s.alone })

  claim_of-parts :
      (s : SingleValuedSubject)
      → is_claim_of s c ≡ true
      → (same_predicate c.predicate s.predicate ≡ true) × (is_current_or_superseded c.status ≡ true)
  claim_of-parts s h = ground arith

  untouched-not_claim_of :
      (s : SingleValuedSubject)
      → IsUntouched c
      → supersedes s.predicate s.subject_type ≡ true
      → is_claim_of s c ≡ false
  untouched-not_claim_of s u h = elim (Bool-cases (is_claim_of s c)) [
    | inr other ↦ other
    | inl claim_of ↦
        let (same, current) = claim_of-parts s claim_of in
        elim u [
          | inl closed ↦ absurd (cc)
          | inr multi ↦
              let p = same_predicate→eq c.predicate s.predicate same in
              let never = multi s.subject_type in
              absurd (cc (h, never, ap (λ q. supersedes q s.subject_type) p))
        ]
  ]

  selected-other :
      (s : SingleValuedSubject) (cs : List Claim)
      → is_claim_of s c ≡ false
      → All (λ d. d.id ≡ c.id → d ≡ c) cs
      → All (λ d. d.id ≢ c.id) (filter (is_claim_of s) cs)
  selected-other s [] not_of alone = tt
  selected-other s (d ∷ ds) not_of (p, alone) = elim (Bool-cases (is_claim_of s d)) [
    | inl kept ↦
        rw kept (
          (λ same. cc (kept, not_of, ap (is_claim_of s) (p same))),
          selected-other s ds not_of alone,
        )
    | inr dropped ↦ rw dropped (selected-other s ds not_of alone)
  ]

module _ (has_removal_evidence : ℕ → Bool) (now : ℕ) (c : Claim) (untouched : IsUntouched c) where
  recompute-IsStored :
      (db : Database) (s : SingleValuedSubject)
      → IsStored c db.claims
      → IsStored c (recompute has_removal_evidence now db s).claims
  unfolding recompute
  recompute-IsStored db s h = elim (Bool-cases (supersedes s.predicate s.subject_type)) [
    | inl superseding ↦ rw superseding (
        write_rows-IsStored c _ db.claims
          (updates-id c.id now _ (
            recompute_rows-id c.id (deadline_removal has_removal_evidence now db s) _ (
              selected-other c s db.claims (untouched-not_claim_of c s untouched superseding)
                h.alone)))
          h)
    | inr free ↦ rw free h
  ]

  recompute_each-IsStored :
      (ss : List SingleValuedSubject) (db : Database)
      → IsStored c db.claims
      → IsStored c (recompute_each has_removal_evidence now db ss).claims
  unfolding recompute_each
  recompute_each-IsStored [] db h = h
  recompute_each-IsStored (s ∷ ss) db h =
      recompute_each-IsStored ss (recompute has_removal_evidence now db s)
        (recompute-IsStored db s h)

-- Whatever claims changed, `applyClaimLifecycle` leaves every claim in the table, and as it was, that is
-- contradicted or retracted or whose predicate supersedes on no subject type, if no other claim has its
-- id.
pub apply_claim_lifecycle-IsStored :
    (has_removal_evidence : ℕ → Bool) (now : ℕ) (db : Database) (changed : List Claim) (c : Claim)
    → IsUntouched c
    → IsStored c db.claims
    → IsStored c (apply_claim_lifecycle has_removal_evidence now db changed).claims
unfolding apply_claim_lifecycle
apply_claim_lifecycle-IsStored has_removal_evidence now db changed c u h =
    let subjects = single_current_value_subjects db changed in
    recompute_each-IsStored has_removal_evidence now c u (filter is_due subjects) _ (
      recompute_each-IsStored has_removal_evidence now c u (filter (λ s. not (is_due s)) subjects)
        db h)

-- ===== src/Claims/Lifecycle/Settle/Intervals.antt =====
-- The validity intervals of the settled claims.
use mathlib.Core.Option.{some-injective}
use mathlib.Core.List.{append_assoc}
use assistant_memory.Prelude.{
  true, ◌++◌, ◌∙◌, contains, All-filter_self, ◌≡◌, refl, sym, subst, ◌≤◌, ℕ, Bool, false, Option,
  none, some, List, [], ◌∷◌, map, arith, All, All-append, All-filter, filter, not, Bool-cases, inl,
  inr, All-impl,
}
use assistant_memory.Graph.{ClaimStatus}
use assistant_memory.Claims.Rows.{Claim}
use assistant_memory.Claims.Lifecycle.Settle.{
  Row, Settled, Successor, settle, settle_chain, settle_demoted, settle_demoted_row, settle_rows,
  ordered_chain, latest_active, is_demoted, demoted_ids, demoted_claims, next_in, id_of,
}

-- The claims stand in the order in which they were stated.
abbrev pub IsOrdered : List Row → Type 0
IsOrdered [] = Unit
IsOrdered (r ∷ rs) = All (λ s. r.current.stated_at ≤ s.current.stated_at) rs × IsOrdered rs

-- Where the interval of a claim of the chain ends: at the time of the claim that stands next to it in the
-- chain or, for the last one, of the removal that was found, and the claim names it.
pub record EndsAt (removal : Option Successor) (chain : List Row) (c : Claim) : Type 0 where
  pub before : List Row
  pub here : Row
  pub behind : List Row
  pub in_chain : chain ≡ before ++ (here ∷ behind)
  pub same_id : here.current.id ≡ c.id
  pub end : Successor
  pub next : next_in removal behind ≡ some end
  pub named : c.superseded_by_claim_id ≡ some end.id
  pub ended : c.valid_to ≡ some end.stated_at
  pub later : c.stated_at ≤ end.stated_at

-- The interval of a settled claim: it begins with the statement, if it had no start of its own. A
-- demoted claim ends where it begins and names the latest claim of the chain; another ends at the time
-- of the claim or the removal that it names.
pub record Spans (find_removal : Option Claim → Option Successor) (rows : List Row) (s : Settled)
    : Type 0 where
  pub begun : s.persisted.valid_from ≡ none → s.result.valid_from ≡ some s.result.stated_at
  pub demoted :
      contains (demoted_ids false rows) s.result.id ≡ true
      → (s.result.status ≡ ClaimStatus.superseded)
        × (s.result.valid_to ≡ some s.result.stated_at)
        × (s.result.superseded_by_claim_id ≡ id_of (latest_active (ordered_chain rows)))
  pub of_chain :
      s.result.status ≡ ClaimStatus.superseded
      → contains (demoted_ids false rows) s.result.id ≡ false
      → EndsAt (find_removal (latest_active (ordered_chain rows))) (ordered_chain rows) s.result

-- What the carrying of progress leaves alone.
pub record IsCarried (r : Row) : Type 0 where
  pub same_start : r.current.valid_from ≡ r.persisted.valid_from
  pub same_time : r.current.stated_at ≡ r.persisted.stated_at
  pub same_id : r.current.id ≡ r.persisted.id

abbrev pub NotBefore : ℕ → Option Successor → Type 0
NotBefore n none = Unit
NotBefore n (some s) = n ≤ s.stated_at

next-NotBefore :
    (removal : Option Successor) (n : ℕ) (rs : List Row)
    → NotBefore n removal
    → All (λ s. n ≤ s.current.stated_at) rs
    → NotBefore n (next_in removal rs)
next-NotBefore removal n [] b h = b
next-NotBefore removal n (r ∷ rs) b (p, h) = p

settled-EndsAt :
    (removal : Option Successor) (chain before : List Row) (r : Row) (rs : List Row)
    (n : Option Successor)
    → chain ≡ before ++ (r ∷ rs)
    → next_in removal rs ≡ n
    → NotBefore r.current.stated_at n
    → (settle n r.current).status ≡ ClaimStatus.superseded
    → EndsAt removal chain (settle n r.current)
unfolding settle
settled-EndsAt removal chain before r rs none split e b h = absurd (cc)
settled-EndsAt removal chain before r rs (some n) split e b h = record {
  before = before;
  here = r;
  behind = rs;
  in_chain = split;
  same_id = refl;
  end = n;
  next = e;
  named = refl;
  ended = refl;
  later = b;
}

settled-begun :
    (n : Option Successor) (r : Row)
    → IsCarried r
    → r.persisted.valid_from ≡ none
    → (settle n r.current).valid_from ≡ some (settle n r.current).stated_at
unfolding settle
settled-begun none r c e = rw (c.same_start, e) refl
settled-begun (some n) r c e = rw (c.same_start, e) refl

settled-id : (n : Option Successor) (c : Claim) → (settle n c).id ≡ c.id
unfolding settle
settled-id none c = refl
settled-id (some n) c = refl

module _ (find_removal : Option Claim → Option Successor) (rows : List Row) where
  abbrev removal : Option Successor
  removal = find_removal (latest_active (ordered_chain rows))

  abbrev HasSpan : Settled → Type 0
  HasSpan s = Spans find_removal rows s

  chain-Spans :
      (before rs : List Row)
      → ordered_chain rows ≡ before ++ rs
      → IsOrdered rs
      → All IsCarried rs
      → All (λ r. contains (demoted_ids false rows) r.current.id ≡ false) rs
      → All (λ r. NotBefore r.current.stated_at removal) rs
      → All HasSpan (settle_chain removal rs)
  unfolding settle_chain
  chain-Spans before [] split o c k b = tt
  chain-Spans before (r ∷ rs) split (o, os) (c, cs) (k, ks) (b, bs) = (
    record {
      begun = λ e. settled-begun (next_in removal rs) r c e;
      demoted =
          λ h. absurd (ground (arith, rw (settled-id (next_in removal rs) r.current) at h, k));
      of_chain = λ h e.
          settled-EndsAt removal (ordered_chain rows) before r rs (next_in removal rs) split refl
            (next-NotBefore removal r.current.stated_at rs b o) h;
    },
    chain-Spans (before ++ (r ∷ [])) rs (split ∙ sym (append_assoc before (r ∷ []) rs)) os cs ks bs,
  )

  demoted-Spans :
      (rs : List Row)
      → All IsCarried rs
      → All (λ r. contains (demoted_ids false rows) r.current.id ≡ true) rs
      → All HasSpan (map (settle_demoted_row (latest_active (ordered_chain rows))) rs)
  unfolding settle_demoted
  demoted-Spans [] c k = tt
  demoted-Spans (r ∷ rs) (c, cs) (k, ks) = (
    record {
      begun = λ e. rw e refl;
      demoted = λ h. (refl, refl, refl);
      of_chain = λ h e. absurd (ground (arith, rw c.same_id at k, e));
    },
    demoted-Spans rs cs ks,
  )

IsOrdered-filter : (p : Row → Bool) (rs : List Row) → IsOrdered rs → IsOrdered (filter p rs)
IsOrdered-filter p [] o = tt
IsOrdered-filter p (r ∷ rs) (o, os) = elim (Bool-cases (p r)) [
  | inl kept ↦ rw kept (All-filter _ p rs o, IsOrdered-filter p rs os)
  | inr dropped ↦ rw dropped (IsOrdered-filter p rs os)
]

-- A removal stands after the claim that it was looked up for, if `P` holds of its id and its time.
abbrev pub IsLater : (ℕ → ℕ → Type 0) → (Option Claim → Option Successor) → Type 0
IsLater P find_removal =
    (c : Claim) (s : Successor)
    → P c.id c.stated_at
    → find_removal (some c) ≡ some s
    → c.stated_at ≤ s.stated_at

latest-All :
    (P : ℕ → ℕ → Type 0) (rs : List Row) (c : Claim)
    → latest_active rs ≡ some c
    → All (λ r. P r.current.id r.current.stated_at) rs
    → P c.id c.stated_at
unfolding latest_active
latest-All P [] c e h = cc
latest-All P (r ∷ []) c e (p, h) =
    subst (λ (x : Claim). P x.id x.stated_at) (some-injective _ _ e) p
latest-All P (r ∷ s ∷ rs) c e (p, h) = latest-All P (s ∷ rs) c e h

latest-last :
    (rs : List Row) (c : Claim)
    → IsOrdered rs
    → latest_active rs ≡ some c
    → All (λ r. r.current.stated_at ≤ c.stated_at) rs
unfolding latest_active
latest-last [] c o e = tt
latest-last (r ∷ []) c o e = (ground arith, tt)
latest-last (r ∷ s ∷ rs) c ((p, ps), os) e =
    let rest = latest-last (s ∷ rs) c os e in (omega (arith, rest.0), rest)

latest-some : (r : Row) (rs : List Row) → (c : Claim) × (latest_active (r ∷ rs) ≡ some c)
unfolding latest_active
latest-some r [] = (r.current, refl)
latest-some r (s ∷ rs) = latest-some s rs

bounded-NotBefore :
    (removal : Option Successor) (c : Claim) (rs : List Row)
    → ((s : Successor) → removal ≡ some s → c.stated_at ≤ s.stated_at)
    → All (λ r. r.current.stated_at ≤ c.stated_at) rs
    → All (λ r. NotBefore r.current.stated_at removal) rs
bounded-NotBefore none c rs l h = All-impl (λ r p. tt) rs h
bounded-NotBefore (some s) c rs l h = All-impl (λ r p. omega (arith, l s refl)) rs h

removal-NotBefore :
    (P : ℕ → ℕ → Type 0) (find_removal : Option Claim → Option Successor) (rs : List Row)
    → IsLater P find_removal
    → All (λ r. P r.current.id r.current.stated_at) rs
    → IsOrdered rs
    → All (λ r. NotBefore r.current.stated_at (find_removal (latest_active rs))) rs
removal-NotBefore P find_removal [] l h o = tt
removal-NotBefore P find_removal (r ∷ rs) l h o =
    let (c, e) = latest-some r rs in
    subst
      (λ (latest : Option Claim).
        All (λ s. NotBefore s.current.stated_at (find_removal latest)) (r ∷ rs))
      (sym e)
      (bounded-NotBefore (find_removal (some c)) c (r ∷ rs)
        (λ s. l c s (latest-All P (r ∷ rs) c e h)) (latest-last (r ∷ rs) c o e))

kept-not_demoted :
    (demoted : List ℕ) (rows : List Row)
    → All
        (λ r. contains demoted r.current.id ≡ false)
        (filter (λ r. not (is_demoted demoted r)) rows)
kept-not_demoted demoted rows =
    All-impl (λ r h. ground (arith, h)) (filter (λ r. not (is_demoted demoted r)) rows)
      (All-filter_self (λ r. not (is_demoted demoted r)) rows)

-- Of claims in the order in which they were stated, every settled one has its interval.
pub settle_rows-Spans :
    (P : ℕ → ℕ → Type 0) (find_removal : Option Claim → Option Successor) (rows : List Row)
    → IsLater P find_removal
    → All (λ r. P r.current.id r.current.stated_at) rows
    → IsOrdered rows
    → All IsCarried rows
    → All (Spans find_removal rows) (settle_rows find_removal rows)
unfolding settle_rows ordered_chain demoted_claims
settle_rows-Spans P find_removal rows l h o c =
    let keep = λ (r : Row). not (is_demoted (demoted_ids false rows) r) in
    let chain = filter keep rows in
    All-append (Spans find_removal rows) _ _
      (chain-Spans find_removal rows [] chain refl (IsOrdered-filter keep rows o)
        (All-filter IsCarried keep rows c) (kept-not_demoted (demoted_ids false rows) rows)
        (removal-NotBefore P find_removal chain l
          (All-filter (λ (r : Row). P r.current.id r.current.stated_at) keep rows h)
          (IsOrdered-filter keep rows o)))
      (demoted-Spans find_removal rows (filter (is_demoted (demoted_ids false rows)) rows)
        (All-filter IsCarried (is_demoted (demoted_ids false rows)) rows c)
        (All-filter_self (is_demoted (demoted_ids false rows)) rows))

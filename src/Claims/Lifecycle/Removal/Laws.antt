-- ===== src/Claims/Lifecycle/Removal/Laws.antt =====
-- What counts as the removal of a deadline.
use assistant_memory.Prelude.{
  ◌≡◌, refl, ◌≤◌, ◌<◌, ℕ, Bool, true, Option, none, some, List, [], ◌∷◌, arith, All, Bool-cases,
  inl, inr, Option-cases, leb, subst, All-impl,
}
use mathlib.Core.Option.{some-injective}
use assistant_memory.Claims.Rows.{Claim}
use assistant_memory.Claims.Lifecycle.Removal.{
  SourceContext, Source, Joined, joined_rows, find_deadline, is_removal, removals, earliest,
  earlier, removal_in, find_email_deadline_removal,
}

earlier-P :
    (P : Claim → Type 0) (d : Claim) (o : Option Claim)
    → P d
    → ((x : Claim) → o ≡ some x → P x)
    → P (earlier d o)
earlier-P P d none p f = p
earlier-P P d (some x) p f = elim (Bool-cases (leb d.stated_at x.stated_at)) [
  | inl first ↦ rw first p
  | inr second ↦ rw second (f x refl)
]

earliest-All :
    (P : Claim → Type 0) (cs : List Claim) (c : Claim) → earliest cs ≡ some c → All P cs → P c
unfolding earliest
earliest-All P [] c e h = cc
earliest-All P (d ∷ cs) c e (p, h) =
    subst P (some-injective _ _ e) (earlier-P P d (earliest cs) p (λ x f. earliest-All P cs x f h))

-- Every claim of the list is stated at `n` or later.
abbrev NotBefore : ℕ → List Claim → Type 0
NotBefore n cs = All (λ d. n ≤ d.stated_at) cs

earliest-none : (n : ℕ) (cs : List Claim) → earliest cs ≡ none → NotBefore n cs
unfolding earliest
earliest-none n [] e = tt
earliest-none n (c ∷ cs) e = cc

earlier-le :
    (d x : Claim)
    → ((earlier d (some x)).stated_at ≤ d.stated_at)
      × ((earlier d (some x)).stated_at ≤ x.stated_at)
earlier-le d x = ground arith

earlier-NotBefore :
    (d : Claim) (cs : List Claim) (o : Option Claim)
    → (o ≡ none → (n : ℕ) → NotBefore n cs)
    → ((x : Claim) → o ≡ some x → NotBefore x.stated_at cs)
    → NotBefore (earlier d o).stated_at (d ∷ cs)
earlier-NotBefore d cs none f g = (omega arith, f refl d.stated_at)
earlier-NotBefore d cs (some x) f g =
    let (a, b) = earlier-le d x in (a, All-impl (λ y p. omega (arith, b, p)) cs (g x refl))

earliest-NotBefore : (cs : List Claim) (c : Claim) → earliest cs ≡ some c → NotBefore c.stated_at cs
unfolding earliest
earliest-NotBefore [] c e = tt
earliest-NotBefore (d ∷ cs) c e =
    subst (λ (x : Claim). NotBefore x.stated_at (d ∷ cs)) (some-injective _ _ e)
      (earlier-NotBefore d cs (earliest cs) (λ f n. earliest-none n cs f)
        (λ x f. earliest-NotBefore cs x f))

module _ (has_removal_evidence : ℕ → Bool) (context : SourceContext) (deadline : Claim) where
  removals-All :
      (rows : List Joined)
      → All
          (λ c. is_removal has_removal_evidence context deadline c ≡ true)
          (removals has_removal_evidence context deadline rows)
  unfolding removals
  removals-All [] = tt
  removals-All (r ∷ rs) =
      elim (Bool-cases (is_removal has_removal_evidence context deadline r.claim)) [
        | inl e ↦ rw e (e, removals-All rs)
        | inr e ↦ rw e (removals-All rs)
      ]

  removals-min :
      (n : ℕ) (rows : List Joined)
      → All (λ d. n ≤ d.stated_at) (removals has_removal_evidence context deadline rows)
      → All
          (λ r.
            is_removal has_removal_evidence context deadline r.claim ≡ true → n ≤ r.claim.stated_at)
          rows
  unfolding removals
  removals-min n [] h = tt
  removals-min n (r ∷ rs) h =
      elim (Bool-cases (is_removal has_removal_evidence context deadline r.claim)) [
        | inl e ↦ let (p, ps) = rw e at h in (λ _. p, removals-min n rs ps)
        | inr e ↦ (λ x. cc, removals-min n rs (rw e at h))
      ]

  removal-later :
      (c : Claim)
      → is_removal has_removal_evidence context deadline c ≡ true
      → deadline.stated_at < c.stated_at
  unfolding is_removal
  removal-later c h = ground arith

-- What `findEmailDeadlineRemoval` returns: a removal in the thread of the deadline's own email, and
-- no removal in it was stated before.
pub record IsFirstRemoval (has_removal_evidence : ℕ → Bool) (rows : List Joined) (deadline_id : ℕ)
    (c : Claim) : Type 0 where
  pub deadline : Claim
  pub context : SourceContext
  pub found :
      find_deadline deadline_id rows ≡ some (record { claim = deadline; context = some context })
  pub removes : is_removal has_removal_evidence context deadline c ≡ true
  pub later : deadline.stated_at < c.stated_at
  pub first :
      All
        (λ r.
          is_removal has_removal_evidence context deadline r.claim ≡ true
          → c.stated_at ≤ r.claim.stated_at)
        rows

in_sound :
    (has_removal_evidence : ℕ → Bool) (rows : List Joined) (id : ℕ) (c deadline : Claim)
    (context : Option SourceContext)
    → find_deadline id rows ≡ some (record { claim = deadline; context = context })
    → removal_in has_removal_evidence context deadline rows ≡ some c
    → IsFirstRemoval has_removal_evidence rows id c
in_sound has rows id c deadline none f e = cc
in_sound has rows id c deadline (some context) f e =
    let e' : earliest (removals has context deadline rows) ≡ some c = ground arith in
    let removes =
      earliest-All (λ x. is_removal has context deadline x ≡ true) _ c e'
        (removals-All has context deadline rows) in
    record {
      deadline = deadline;
      context = context;
      found = f;
      removes = removes;
      later = removal-later has context deadline c removes;
      first = removals-min has context deadline c.stated_at rows (earliest-NotBefore _ c e');
    }

-- A removal that is found stands in the email thread of the deadline, is stated after it, and is
-- the first such one.
pub find_email_deadline_removal-first :
    (has_removal_evidence : ℕ → Bool) (sources : List Source) (claims : List Claim)
    (user_id task_id deadline_id : ℕ) (c : Claim)
    → find_email_deadline_removal has_removal_evidence sources claims user_id task_id deadline_id
      ≡ some c
    → IsFirstRemoval has_removal_evidence (joined_rows user_id task_id sources claims) deadline_id c
unfolding find_email_deadline_removal
find_email_deadline_removal-first has sources claims user_id task_id id c e =
    let rows = joined_rows user_id task_id sources claims in
    elim (Option-cases (find_deadline id rows)) [
      | inl missing ↦ absurd (ground arith)
      | inr (d, f) ↦ in_sound has rows id c d.claim d.context f (rw f at e)
    ]

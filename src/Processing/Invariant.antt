-- ===== src/Processing/Invariant.antt =====
-- The validity of a receipt, and the writes of one receipt.
use assistant_memory.Prelude.{
  ◌≡◌, refl, sym, subst, ℕ, Bool, true, false, not, ◌==◌, Option, none, some, List, [], ◌∷◌, arith,
  Bool-cases, inl, inr, is_some, All, if◌then◌else◌,
}
use mathlib.Core.Option.{some-injective}
use assistant_memory.Partition.Tables.{SourceStatus, Error, Result, ok, err, ensure, ◌>>=◌, ◌>>◌}
use assistant_memory.Processing.Receipts.{
  Status, completed, purged, source_purged, Stage, Operation, Store, find_where, put_operation,
}
use assistant_memory.Processing.Accept.{is_open, is_failed, set_source_status, reopened}
use assistant_memory.Processing.Work.{
  Outcome, Finish, write_operation, overtaken, begun, finished, purged_operation,
}

abbrev pub is_purged : Status → Bool
is_purged purged = true
is_purged _ = false

abbrev pub is_completed : Status → Bool
is_completed completed = true
is_completed _ = false

-- An open receipt has no error and no end; a closed one has an end; a completed one has no error and
-- a failed one has one; a purged one has no identity and no content hash.
pub record IsValid (o : Operation) : Type 0 where
  pub open_error : is_open o.status ≡ true → o.error_code ≡ none
  pub open_end : is_open o.status ≡ true → o.completed_at ≡ none
  pub closed_end : is_open o.status ≡ false → is_some o.completed_at ≡ true
  pub completed_error : is_completed o.status ≡ true → o.error_code ≡ none
  pub failed_error : is_failed o.status ≡ true → is_some o.error_code ≡ true
  pub purged_id : is_purged o.status ≡ true → o.external_id ≡ none
  pub purged_hash : is_purged o.status ≡ true → o.content_hash ≡ none
  pub purged_error : is_purged o.status ≡ true → o.error_code ≡ some source_purged

pub overtaken-IsValid : (now : ℕ) (o : Operation) → IsValid (overtaken now o)
overtaken-IsValid now o = ground arith

pub begun-IsValid :
    (now version : ℕ) (o : Operation)
    → is_open o.status ≡ true
    → IsValid o
    → IsValid (begun now version o)
begun-IsValid now version o h v = ground arith

pub staged-IsValid :
    (now : ℕ) (o : Operation)
    → IsValid o
    → IsValid (record o { stage = Stage.extraction; updated_at = now })
staged-IsValid now o v = ground arith

pub reopened-IsValid : (now version : ℕ) (o : Operation) → IsValid (reopened now version o)
reopened-IsValid now version o = ground arith

pub finished-IsValid :
    (now version : ℕ) (f : Finish) (stage : Option Stage) (o : Operation)
    → is_open o.status ≡ true
    → IsValid o
    → IsValid (finished now f stage version o)
finished-IsValid now version Finish.complete stage o h v = ground arith
finished-IsValid now version (Finish.fail code) stage o h v = ground arith

pub purged-IsValid : (now : ℕ) (o : Operation) → IsValid (purged_operation now o)
purged-IsValid now o = ground arith

module _ (P : Operation → Type 0) where
  pub put-All : (u : Operation) (os : List Operation) → P u → All P os → All P (put_operation u os)
  unfolding put_operation
  put-All u [] p h = tt
  put-All u (o ∷ os) p (q, h) = elim (Bool-cases (o.operation_id == u.operation_id)) [
    | inl same ↦ rw same (p, put-All u os p h)
    | inr other ↦ rw other (q, put-All u os p h)
  ]

  pub find-All :
      (test : Operation → Bool) (os : List Operation) (o : Operation)
      → find_where test os ≡ some o
      → All P os
      → P o
  unfolding find_where
  find-All test [] o e h = cc
  find-All test (x ∷ os) o e (p, h) = elim (Bool-cases (test x)) [
    | inl found ↦ subst P (some-injective _ _ (rw found at e)) p
    | inr missed ↦ find-All test os o (rw missed at e) h
  ]

-- All receipts in the store are valid.
abbrev pub AllValid : Store → Type 0
AllValid s = All IsValid s.operations

-- A handler that returns leaves all receipts valid.
abbrev pub Keeps : Outcome → Type 0
Keeps (ok p) = AllValid p.0
Keeps (err e) = Unit

pub write-Keeps : (o : Operation) (s : Store) → IsValid o → AllValid s → Keeps (write_operation o s)
write-Keeps o s v h = put-All IsValid o s.operations v h

pub bind-Keeps {ℓ} :
    {A : Type ℓ} (m : Result A) (f : A → Outcome)
    → ((a : A) → m ≡ ok a → Keeps (f a))
    → Keeps (m >>= f)
bind-Keeps (ok a) f h = h a refl
bind-Keeps (err e) f h = tt

set_status-operations :
    (user_id source_id : ℕ) (status : SourceStatus) (s s' : Store) (version : ℕ)
    → set_source_status user_id source_id status s ≡ ok (s', version)
    → s'.operations ≡ s.operations
unfolding set_source_status
set_status-operations user_id source_id status s s' version h = ground arith

pub set_status-AllValid :
    (user_id source_id : ℕ) (status : SourceStatus) (s : Store) (p : Store × ℕ)
    → set_source_status user_id source_id status s ≡ ok p
    → AllValid s
    → AllValid p.0
set_status-AllValid user_id source_id status s (s', version) e h =
    subst (All IsValid) (sym (set_status-operations user_id source_id status s s' version e)) h

pub ensure-Keeps : (b : Bool) (e : Error) (m : Outcome) → Keeps m → Keeps (ensure b e >> m)
ensure-Keeps true e m k = k
ensure-Keeps false e m k = tt

pub if-Keeps :
    (b : Bool) (x y : Outcome)
    → (b ≡ true → Keeps x)
    → (b ≡ false → Keeps y)
    → Keeps (if b then x else y)
if-Keeps true x y f g = f refl
if-Keeps false x y f g = g refl

pub not-false : (b : Bool) → not b ≡ false → b ≡ true
not-false true h = refl
not-false false h = cc

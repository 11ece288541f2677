-- ===== src/Identity/Resolve/Laws.antt =====
-- Which node a decision names.
use assistant_memory.Partition.Tables.{bind-ok, ok-injective, Tables, ok, partition}
use mathlib.Core.Option.{some-injective}
use assistant_memory.Prelude.{
  All-impl, subst, ℕ, ◌≡◌, refl, ap, ◌∙◌, inl, inr, Option, none, some, List, [], ◌∷◌, All,
  Bool-cases, arith,
}
use assistant_memory.Partition.Access.{assert_partition_read_allowed}
use assistant_memory.Identity.Rows.{
  Graph, Score, Candidate, Signal, canonical_label, alias, profile_compat, SignalCandidate,
  SignalTrace, IdentityResolution, Similar,
}
use assistant_memory.Identity.Profile.{signal_profile_compat}
use assistant_memory.Identity.Signals.{signal_canonical_label, signal_alias, signal_embedding_sim}
use assistant_memory.Identity.Signals.Scoped.{
  IsAllowed, IsScoped, label-IsScoped, alias-IsScoped, embedding-IsScoped, profile-IsScoped,
  filter_trace-IsAllowed,
}
use assistant_memory.Identity.Resolve.{
  single, first, only_candidate, best_candidate, resolved_or, canonical_trace, alias_trace,
  embedding_trace, profile_trace, decide, resolve_identity,
}

module _ {κ} (P : SignalCandidate → Type κ) (k : SignalCandidate) where
  only_candidate-All : (t : SignalTrace) → All P t.candidates → only_candidate t ≡ some k → P k
  unfolding only_candidate
  only_candidate-All t h e = elim (Bool-cases t.fired) [
    | inl fired ↦ of_single t.candidates h (rw fired at e)
    | inr quiet ↦ absurd (ground (arith, rw quiet at e))
  ]
    where
      of_single : (ks : List SignalCandidate) → All P ks → single ks ≡ some k → P k
      of_single [] q f = absurd (ground (arith, f))
      of_single (d ∷ []) (q, r) f = subst P (some-injective _ _ f) q
      of_single (d ∷ e ∷ es) q f = absurd (ground (arith, f))

  pub best_candidate-All : (t : SignalTrace) → All P t.candidates → best_candidate t ≡ some k → P k
  unfolding best_candidate
  best_candidate-All t h e = elim (Bool-cases t.fired) [
    | inl fired ↦ of_first t.candidates h (rw fired at e)
    | inr quiet ↦ absurd (ground (arith, rw quiet at e))
  ]
    where
      of_first : (ks : List SignalCandidate) → All P ks → first ks ≡ some k → P k
      of_first [] q f = absurd (ground (arith, f))
      of_first (d ∷ ds) (q, r) f = subst P (some-injective _ _ f) q

module _ {κ} (Q : ℕ → Type κ) (n : ℕ) where
  resolved_or-holds :
      (by : Signal) (w : Option SignalCandidate) (trace : List SignalTrace)
      (rest : IdentityResolution)
      → ((k : SignalCandidate) → w ≡ some k → Q k.node_id)
      → (rest.resolved_node_id ≡ some n → Q n)
      → (resolved_or by w trace rest).resolved_node_id ≡ some n
      → Q n
  unfolding resolved_or
  resolved_or-holds by none trace rest f r e = r e
  resolved_or-holds by (some k) trace rest f r e = subst Q (some-injective _ _ e) (f k refl)

  decide-holds :
      (label by_alias embedding profile : SignalTrace)
      → All (λ k. Q k.node_id) label.candidates
      → All (λ k. Q k.node_id) by_alias.candidates
      → All (λ k. Q k.node_id) profile.candidates
      → (decide label by_alias embedding profile).resolved_node_id ≡ some n
      → Q n
  unfolding decide
  decide-holds label by_alias embedding profile p q r =
      resolved_or-holds canonical_label (only_candidate label) _ _
        (λ k. only_candidate-All (λ k. Q k.node_id) k label p)
        (resolved_or-holds alias (only_candidate by_alias) _ _
          (λ k. only_candidate-All (λ k. Q k.node_id) k by_alias q)
          (resolved_or-holds profile_compat (best_candidate profile) _ _
            (λ k. best_candidate-All (λ k. Q k.node_id) k profile r)
            (λ e. absurd (ground (arith, e)))))

forget_excluded :
    (user_id : ℕ) (c : Candidate) (g : Graph) (ks : List SignalCandidate)
    → All (λ k. IsAllowed user_id c g k.node_id) ks
    → All (IsScoped user_id c g) ks
forget_excluded user_id c g ks h = All-impl (λ k p. let (out, scoped) = p in scoped) ks h

decision-IsAllowed :
    (threshold : Score) (user_id : ℕ) (c : Candidate) (g : Graph) (similar : List Similar) (n : ℕ)
    → (decide
        (canonical_trace user_id c g)
        (alias_trace user_id c g)
        (embedding_trace user_id c g similar)
        (profile_trace threshold user_id c g similar)).resolved_node_id
      ≡ some n
    → IsAllowed user_id c g n
unfolding canonical_trace alias_trace embedding_trace profile_trace
decision-IsAllowed threshold user_id c g similar n =
    decide-holds (IsAllowed user_id c g) n (canonical_trace user_id c g) (alias_trace user_id c g)
      (embedding_trace user_id c g similar) (profile_trace threshold user_id c g similar)
      (filter_trace-IsAllowed user_id c g (signal_canonical_label user_id c g)
        (label-IsScoped user_id c g))
      (filter_trace-IsAllowed user_id c g (signal_alias user_id c g) (alias-IsScoped user_id c g))
      (filter_trace-IsAllowed user_id c g
        (signal_profile_compat threshold user_id c g
          (embedding_trace user_id c g similar).candidates)
        (profile-IsScoped user_id c g threshold (embedding_trace user_id c g similar).candidates (
          forget_excluded user_id c g (embedding_trace user_id c g similar).candidates (
            filter_trace-IsAllowed user_id c g (signal_embedding_sim user_id c g similar)
              (embedding-IsScoped user_id c g similar)))))

pub decided :
    (t : Tables) (threshold : Score) (user_id : ℕ) (c : Candidate) (g : Graph)
    (similar : List Similar) (r : IdentityResolution)
    → resolve_identity t threshold user_id c g similar ≡ ok r
    → decide
        (canonical_trace user_id c g)
        (alias_trace user_id c g)
        (embedding_trace user_id c g similar)
        (profile_trace threshold user_id c g similar)
      ≡ r
unfolding resolve_identity
decided t threshold user_id c g similar r e =
    let (s, read, f) =
      bind-ok (assert_partition_read_allowed t user_id c.partition_key partition) _ r e in
    ok-injective f

-- A candidate resolves to a node only if the node is not one of the excluded ones and it has the
-- candidate's scope: one of its links or active claims has it, or it has none at all and the scope is
-- the personal one.
pub resolves-IsAllowed :
    (t : Tables) (threshold : Score) (user_id : ℕ) (c : Candidate) (g : Graph)
    (similar : List Similar) (r : IdentityResolution) (n : ℕ)
    → resolve_identity t threshold user_id c g similar ≡ ok r
    → r.resolved_node_id ≡ some n
    → IsAllowed user_id c g n
resolves-IsAllowed t threshold user_id c g similar r n e f =
    decision-IsAllowed threshold user_id c g similar n
      (ap (λ d. d.resolved_node_id) (decided t threshold user_id c g similar r e) ∙ f)

-- ===== src/Identity/Resolve/Label.antt =====
-- The decisions by the canonical label.
use assistant_memory.Identity.Profile.{silent, is_any}
use mathlib.Core.Option.{some-injective}
use assistant_memory.Prelude.{
  if◌then◌else◌, ℕ, true, false, ◌≡◌, ◌≢◌, refl, sym, ap, ◌∙◌, inl, inr, Option, none, some, List,
  [], ◌∷◌, Bool-cases, ◌==◌, arith, ◌↔◌,
}
use assistant_memory.Partition.Tables.{Tables, ok}
use assistant_memory.Identity.Rows.{
  Graph, Score, Candidate, canonical_label, alias, profile_compat, SignalCandidate, SignalTrace,
  IdentityResolution, Similar,
}
use assistant_memory.Identity.Signals.{
  certainly, signal_canonical_label, filter_trace_candidates, find_nodes_by_canonical_label,
}
use assistant_memory.Identity.Signals.Scoped.{allowed, candidates-allowed, fired-allowed}
use assistant_memory.Identity.Resolve.{
  unresolved, single, only_candidate, best_candidate, mark_ambiguous, resolved_or, canonical_trace,
  alias_trace, embedding_trace, profile_trace, decide, resolve_identity,
}
use assistant_memory.Identity.Resolve.Laws.{decided}

only_candidate-allowed :
    (user_id : ℕ) (c : Candidate) (g : Graph)
    → (c.normalized_label == 0) ≡ false
    → only_candidate (canonical_trace user_id c g)
      ≡ single (certainly (allowed user_id c g (find_nodes_by_canonical_label user_id c g)))
unfolding only_candidate canonical_trace signal_canonical_label
only_candidate-allowed user_id c g given =
    rw
      (
        given,
        candidates-allowed canonical_label user_id c g (find_nodes_by_canonical_label user_id c g),
        fired-allowed canonical_label user_id c g (find_nodes_by_canonical_label user_id c g),
      )
      (of_list (certainly (allowed user_id c g (find_nodes_by_canonical_label user_id c g))))
  where
    of_list : (ks : List SignalCandidate) → (if is_any ks then single ks else none) ≡ single ks
    of_list [] = refl
    of_list (k ∷ ks) = refl

only_candidate-empty :
    (user_id : ℕ) (c : Candidate) (g : Graph)
    → (c.normalized_label == 0) ≡ true
    → only_candidate (canonical_trace user_id c g) ≡ none
unfolding only_candidate canonical_trace signal_canonical_label filter_trace_candidates
only_candidate-empty user_id c g empty = rw empty (fired-none c.exclude_node_ids)
  where
    fired-none :
        (excluded : List ℕ)
        → only_candidate (filter_trace_candidates (silent canonical_label none) excluded) ≡ none
    fired-none [] = refl
    fired-none (x ∷ xs) = refl

single-certainly :
    (ids : List ℕ) (n : ℕ)
    → (k : SignalCandidate) × (single (certainly ids) ≡ some k) × (k.node_id ≡ n)
    → ids ≡ n ∷ []
single-certainly [] n (k, e, f) = absurd (ground (arith, e))
single-certainly (a ∷ []) n (k, e, f) =
    ap (λ m. m ∷ []) (ap (λ w. w.node_id) (some-injective _ _ e) ∙ f)
single-certainly (a ∷ b ∷ ids) n (k, e, f) = absurd (ground (arith, e))

abbrev IsOther : IdentityResolution → Type 0
IsOther r = r.signal ≢ canonical_label

-- Without a single candidate, the label does not decide.
decide-IsOther :
    (label by_alias embedding profile : SignalTrace)
    → only_candidate label ≡ none
    → IsOther (decide label by_alias embedding profile)
unfolding decide resolved_or
decide-IsOther label by_alias embedding profile e =
    rw e (later (only_candidate by_alias) (best_candidate profile))
  where
    later :
        (v w : Option SignalCandidate)
        → IsOther (
            resolved_or alias v (mark_ambiguous label ∷ by_alias ∷ []) (
              resolved_or profile_compat w
                (mark_ambiguous label ∷ mark_ambiguous by_alias ∷ embedding ∷ profile ∷ [])
                (unresolved
                  (mark_ambiguous label ∷ mark_ambiguous by_alias ∷ embedding ∷ profile ∷ []))))
    later (some k) w = λ e. ground (arith, e)
    later none (some k) = λ e. ground (arith, e)
    later none none = λ e. ground (arith, e)

with_single :
    (label by_alias embedding profile : SignalTrace) (w : Option SignalCandidate)
    → only_candidate label ≡ w
    → (decide label by_alias embedding profile).signal ≡ canonical_label
    → (k : SignalCandidate) × (only_candidate label ≡ some k)
      × ((decide label by_alias embedding profile).resolved_node_id ≡ some k.node_id)
unfolding decide resolved_or
with_single label by_alias embedding profile none e f =
    absurd (decide-IsOther label by_alias embedding profile e f)
with_single label by_alias embedding profile (some k) e f = (k, e, rw e refl)

-- The label decides for the node n exactly if it is not empty and, of the nodes of the user, the
-- partition and the type that carry it, n is the only one that has the candidate's scope and is not
-- excluded.
pub label_iff :
    (t : Tables) (threshold : Score) (user_id : ℕ) (c : Candidate) (g : Graph)
    (similar : List Similar) (r : IdentityResolution) (n : ℕ)
    → resolve_identity t threshold user_id c g similar ≡ ok r
    → ((r.signal ≡ canonical_label) × (r.resolved_node_id ≡ some n)) ↔ (
        ((c.normalized_label == 0) ≡ false)
        × (allowed user_id c g (find_nodes_by_canonical_label user_id c g) ≡ n ∷ []))
unfolding decide resolved_or
label_iff t threshold user_id c g similar r n e = (forth, back)
  where
    d :
        decide
          (canonical_trace user_id c g)
          (alias_trace user_id c g)
          (embedding_trace user_id c g similar)
          (profile_trace threshold user_id c g similar)
        ≡ r
    d = decided t threshold user_id c g similar r e

    forth :
        (r.signal ≡ canonical_label) × (r.resolved_node_id ≡ some n)
        → ((c.normalized_label == 0) ≡ false)
          × (allowed user_id c g (find_nodes_by_canonical_label user_id c g) ≡ n ∷ [])
    forth (by_label, named) =
        let (k, only, found) =
          with_single (canonical_trace user_id c g) (alias_trace user_id c g)
            (embedding_trace user_id c g similar) (profile_trace threshold user_id c g similar)
            (only_candidate (canonical_trace user_id c g)) refl (ap (λ x. x.signal) d ∙ by_label) in
        let same : k.node_id ≡ n =
          some-injective _ _ (sym found ∙ ap (λ x. x.resolved_node_id) d ∙ named) in
        elim (Bool-cases (c.normalized_label == 0)) [
          | inl empty ↦ absurd (ground (arith, sym (only_candidate-empty user_id c g empty) ∙ only))
          | inr given ↦ (
            given,
            single-certainly (allowed user_id c g (find_nodes_by_canonical_label user_id c g)) n
                (k, sym (only_candidate-allowed user_id c g given) ∙ only, same),
          )
        ]

    back :
        ((c.normalized_label == 0) ≡ false)
          × (allowed user_id c g (find_nodes_by_canonical_label user_id c g) ≡ n ∷ [])
        → (r.signal ≡ canonical_label) × (r.resolved_node_id ≡ some n)
    back (given, alone) =
        let only =
          only_candidate-allowed user_id c g given ∙ ap (λ ids. single (certainly ids)) alone in
        (
          ap (λ x. x.signal) (sym d) ∙ rw only refl,
          ap (λ x. x.resolved_node_id) (sym d) ∙ rw only refl,
        )

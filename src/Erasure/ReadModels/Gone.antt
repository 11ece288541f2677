-- ===== src/Erasure/ReadModels/Gone.antt =====
-- What the erasure takes out of each table.
use assistant_memory.Prelude.{
  ◌≡◌, refl, ℕ, true, false, arith, ◌&&◌, ◌||◌, ◌==◌, List, [], ◌∷◌, contains, All-impl, Bool-cases,
  inl, inr, ap, ==→eq,
}
use assistant_memory.Erasure.Rows.{Graph}
use assistant_memory.Erasure.Walk.Exact.{IsReached, walk_from-exact}
use assistant_memory.Erasure.Derivatives.{edges, erase_partition_derivatives}
use assistant_memory.Erasure.ReadModels.{
  linked_nodes, erase_observations, erase_evidence, erase_source_read_models,
}
use assistant_memory.Erasure.ReadModels.Deleted.{
  IsErased, IsSilent, observations_gone, erase_evidence-IsErased, erase_nodes-gone,
}

apart_one :
    (ids : List ℕ) (n k : ℕ)
    → contains ids n ≡ true
    → contains ids k ≡ false
    → contains (n ∷ []) k ≡ false
unfolding contains
apart_one ids n k h out = elim (Bool-cases (n == k)) [
  | inl same ↦ absurd (ground (arith, h, out, ap (contains ids) (==→eq n k same)))
  | inr other ↦ rw other refl
]

IsSilent-one :
    (user_id : ℕ) (ids : List ℕ) (n : ℕ) (g : Graph)
    → contains ids n ≡ true
    → IsSilent user_id ids g
    → IsSilent user_id (n ∷ []) g
IsSilent-one user_id ids n g c h = record {
  no_metadata =
      All-impl {Q = λ k. contains (n ∷ []) k ≡ false} (λ k. apart_one ids n k c) g.metadata
        h.no_metadata;
  no_embedding =
      All-impl {Q = λ k. contains (n ∷ []) k ≡ false} (λ k. apart_one ids n k c) g.embeddings
        h.no_embedding;
  no_alias =
      All-impl {Q = λ a. (a.user_id == user_id && contains (n ∷ []) a.canonical_node_id) ≡ false}
        (λ a h. ground (arith, apart_one ids n a.canonical_node_id c)) g.aliases h.no_alias;
  no_redirect =
      All-impl
        {Q = λ r.
          (r.user_id == user_id
            && (contains (n ∷ []) r.to_node_id || contains (n ∷ []) r.from_node_id))
          ≡ false}
        (λ r h. ground (arith, apart_one ids n r.to_node_id c, apart_one ids n r.from_node_id c))
        g.redirects h.no_redirect;
}

pub collected :
    (user_id : ℕ) (source_ids linked : List ℕ) (g : Graph) (n : ℕ)
    → IsReached source_ids linked (edges user_id g) n
    → contains (erase_partition_derivatives user_id source_ids linked g).1 n ≡ true
unfolding erase_partition_derivatives
collected user_id source_ids linked g n reached =
    let (sound, complete) = walk_from-exact source_ids linked (edges user_id g) n in
    complete reached

erase_source_read_models-both :
    (user_id : ℕ) (source_ids : List ℕ) (g : Graph)
    → IsErased user_id source_ids (erase_source_read_models user_id source_ids g)
      × IsSilent user_id
          (erase_partition_derivatives user_id source_ids (linked_nodes user_id source_ids g) g).1
          (erase_source_read_models user_id source_ids g)
unfolding erase_source_read_models
erase_source_read_models-both user_id source_ids g =
    let p = erase_partition_derivatives user_id source_ids (linked_nodes user_id source_ids g) g in
    let observed = erase_observations user_id source_ids p.0 in
    let (erased, silent) =
      erase_nodes-gone user_id source_ids p.1 (erase_evidence user_id source_ids observed) (
        erase_evidence-IsErased user_id source_ids observed
          (observations_gone user_id source_ids p.0)) in
    (
      record {
        no_link = erased.no_link;
        no_claim = erased.no_claim;
        no_observation = erased.no_observation;
        no_presentation = erased.no_presentation;
      },
      record {
        no_metadata = silent.no_metadata;
        no_embedding = silent.no_embedding;
        no_alias = silent.no_alias;
        no_redirect = silent.no_redirect;
      },
    )

pub erase_source_read_models-IsErased :
    (user_id : ℕ) (source_ids : List ℕ) (g : Graph)
    → IsErased user_id source_ids (erase_source_read_models user_id source_ids g)
erase_source_read_models-IsErased user_id source_ids g =
    (erase_source_read_models-both user_id source_ids g).0

-- The erasure leaves no row of the sources and, for a node that they reach, no description of it.
pub erase_source_read_models-gone :
    (user_id : ℕ) (source_ids : List ℕ) (g : Graph) (n : ℕ)
    → IsReached source_ids (linked_nodes user_id source_ids g) (edges user_id g) n
    → IsErased user_id source_ids (erase_source_read_models user_id source_ids g)
      × IsSilent user_id (n ∷ []) (erase_source_read_models user_id source_ids g)
erase_source_read_models-gone user_id source_ids g n reached =
    let linked = linked_nodes user_id source_ids g in
    let (erased, silent) = erase_source_read_models-both user_id source_ids g in
    (
      erased,
      IsSilent-one user_id (erase_partition_derivatives user_id source_ids linked g).1 n
          (erase_source_read_models user_id source_ids g)
          (collected user_id source_ids linked g n reached) silent,
    )

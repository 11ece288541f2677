-- ===== src/Redirects/Laws.antt =====
-- The shape of the redirects after a merge.
use assistant_memory.Prelude.{
  ◌≡◌, ◌≢◌, sym, ap, ◌∙◌, ℕ, true, false, ◌==◌, ==_refl, Option, List, [], ◌∷◌, map, arith,
  Bool-cases, inl, inr, any, contains, contains-distinct, distinct, All, All-impl, All-append,
  if◌then◌else◌,
}
use assistant_memory.Partition.Tables.{same_key}
use assistant_memory.Redirects.{
  Redirect, points_to, repoint, has_key, upsert, upsert_all, write_node_redirects,
}

-- No redirect of the user starts at `n`.
abbrev pub IsNotSource : ℕ → List Redirect → ℕ → Type 0
IsNotSource user_id rows n = All (λ q. q.user_id ≡ user_id → q.from_node_id ≢ n) rows

-- No redirect of the user leads to the start of another.
abbrev pub IsFlat : ℕ → List Redirect → Type 0
IsFlat user_id rows = All (λ r. r.user_id ≡ user_id → IsNotSource user_id rows r.to_node_id) rows

-- Where a redirect may lead: not to a consumed node, and not to the start of an old redirect.
record IsTarget (user_id : ℕ) (ids : List ℕ) (rows : List Redirect) (n : ℕ) : Type 0 where
  alive : contains ids n ≡ false
  end : IsNotSource user_id rows n

-- Every redirect of the user leads to a target.
abbrev Leads : ℕ → (ℕ → Type 0) → List Redirect → Type 0
Leads user_id P rows = All (λ r. r.user_id ≡ user_id → P r.to_node_id) rows

module _ (user_id survivor : ℕ) (key : Option ℕ) (P : ℕ → Type 0) (good : P survivor) where
  upsert-row :
      (id : ℕ) (r : Redirect)
      → (r.user_id ≡ user_id → P r.to_node_id)
      → (let q : Redirect =
            if has_key user_id id r
            then record r { to_node_id = survivor; partition_key = key }
            else r in
          q.user_id ≡ user_id → P q.to_node_id)
  upsert-row id r h = elim (Bool-cases (has_key user_id id r)) [
    | inl hit ↦ rw hit (λ e. good)
    | inr miss ↦ rw miss h
  ]

  upserted-Leads :
      (id : ℕ) (rows : List Redirect)
      → Leads user_id P rows
      → Leads user_id P (
          map
            (λ r.
              if has_key user_id id r
              then record r { to_node_id = survivor; partition_key = key }
              else r)
            rows)
  upserted-Leads id [] h = tt
  upserted-Leads id (r ∷ rs) (p, h) = (upsert-row id r p, upserted-Leads id rs h)

  upsert-Leads :
      (id : ℕ) (rows : List Redirect)
      → Leads user_id P rows
      → Leads user_id P (upsert user_id survivor key id rows)
  unfolding upsert
  upsert-Leads id rows h = elim (Bool-cases (any (has_key user_id id) rows)) [
    | inl found ↦ rw found (upserted-Leads id rows h)
    | inr missing ↦ rw missing (All-append _ rows _ h ((λ e. good), tt))
  ]

  upsert_all-Leads :
      (ids : List ℕ) (rows : List Redirect)
      → Leads user_id P rows
      → Leads user_id P (upsert_all user_id survivor key ids rows)
  unfolding upsert_all
  upsert_all-Leads [] rows h = h
  upsert_all-Leads (id ∷ ids) rows h = upsert_all-Leads ids _ (upsert-Leads id rows h)

module _ (user_id survivor : ℕ) (key : Option ℕ) (n : ℕ) where
  updated-IsNotSource :
      (id : ℕ) (rows : List Redirect)
      → IsNotSource user_id rows n
      → IsNotSource user_id
          (map
            (λ r.
              if has_key user_id id r
              then record r { to_node_id = survivor; partition_key = key }
              else r)
            rows)
          n
  updated-IsNotSource id [] h = tt
  updated-IsNotSource id (r ∷ rs) (p, h) = elim (Bool-cases (has_key user_id id r)) [
    | inl hit ↦ rw hit (p, updated-IsNotSource id rs h)
    | inr miss ↦ rw miss (p, updated-IsNotSource id rs h)
  ]

  upsert-IsNotSource :
      (id : ℕ) (rows : List Redirect)
      → (id == n) ≡ false
      → IsNotSource user_id rows n
      → IsNotSource user_id (upsert user_id survivor key id rows) n
  unfolding upsert
  upsert-IsNotSource id rows other h = elim (Bool-cases (any (has_key user_id id) rows)) [
    | inl found ↦ rw found (updated-IsNotSource id rows h)
    | inr missing ↦ rw missing (
        All-append _ rows _ h
          ((λ e same. cc (other, ap (λ m. id == m) (sym same), ==_refl id)), tt))
  ]

  upsert_all-IsNotSource :
      (ids : List ℕ) (rows : List Redirect)
      → contains ids n ≡ false
      → IsNotSource user_id rows n
      → IsNotSource user_id (upsert_all user_id survivor key ids rows) n
  unfolding upsert_all contains
  upsert_all-IsNotSource [] rows absent h = h
  upsert_all-IsNotSource (id ∷ ids) rows absent h =
      upsert_all-IsNotSource ids _ (ground arith) (upsert-IsNotSource id rows (ground arith) h)

  repoint-IsNotSource :
      (ids : List ℕ) (rows : List Redirect)
      → IsNotSource user_id rows n
      → IsNotSource user_id (repoint user_id survivor key ids rows) n
  unfolding repoint
  repoint-IsNotSource ids [] h = tt
  repoint-IsNotSource ids (r ∷ rs) (p, h) = elim (Bool-cases (points_to user_id key ids r)) [
    | inl hit ↦ rw hit (p, repoint-IsNotSource ids rs h)
    | inr miss ↦ rw miss (p, repoint-IsNotSource ids rs h)
  ]

-- The redirects of the user that lead to a consumed node are of the partition of the merge.
abbrev pub IsInPartition : ℕ → Option ℕ → List ℕ → List Redirect → Type 0
IsInPartition user_id key ids rows =
    All
      (λ r.
        r.user_id ≡ user_id
        → contains ids r.to_node_id ≡ true
        → same_key r.partition_key key ≡ true)
      rows

missed :
    (user_id : ℕ) (key : Option ℕ) (ids : List ℕ) (r : Redirect)
    → points_to user_id key ids r ≡ false
    → r.user_id ≡ user_id
    → (contains ids r.to_node_id ≡ true → same_key r.partition_key key ≡ true)
    → contains ids r.to_node_id ≡ false
missed user_id key ids r miss e q = elim (Bool-cases (contains ids r.to_node_id)) [
  | inl inside ↦
      let mine : (r.user_id == user_id) ≡ true = ap (λ u. u == user_id) e ∙ ==_refl user_id in
      absurd (cc (rw (mine, q inside, inside) at miss))
  | inr outside ↦ outside
]

repoint-Leads :
    (user_id survivor : ℕ) (key : Option ℕ) (ids : List ℕ) (P : ℕ → Type 0) (rows : List Redirect)
    → P survivor
    → All (λ r. r.user_id ≡ user_id → contains ids r.to_node_id ≡ false → P r.to_node_id) rows
    → IsInPartition user_id key ids rows
    → Leads user_id P (repoint user_id survivor key ids rows)
unfolding repoint
repoint-Leads user_id survivor key ids P [] good h i = tt
repoint-Leads user_id survivor key ids P (r ∷ rs) good (p, h) (q, i) =
    let rest = repoint-Leads user_id survivor key ids P rs good h i in
    elim (Bool-cases (points_to user_id key ids r)) [
      | inl hit ↦ rw hit ((λ e. good), rest)
      | inr miss ↦ rw miss ((λ e. p e (missed user_id key ids r miss e (q e))), rest)
    ]

flat-IsTarget :
    (user_id : ℕ) (ids : List ℕ) (rows : List Redirect)
    → IsFlat user_id rows
    → All
        (λ r.
          r.user_id ≡ user_id
          → contains ids r.to_node_id ≡ false
          → IsTarget user_id ids rows r.to_node_id)
        rows
flat-IsTarget user_id ids rows flat =
    All-impl (λ r h e away. record { alive = away; end = h e }) rows flat

-- A merge keeps redirects flat: if none of a user's redirects leads to the start of another, and the
-- survivor is neither consumed nor the start of a redirect, and the redirects to the consumed nodes are
-- of the partition of the merge, then still none leads to the start of another.
pub write_node_redirects-IsFlat :
    (user_id survivor : ℕ) (consumed : List ℕ) (key : Option ℕ) (rows : List Redirect)
    → IsFlat user_id rows
    → contains consumed survivor ≡ false
    → IsNotSource user_id rows survivor
    → IsInPartition user_id key consumed rows
    → IsFlat user_id (write_node_redirects user_id survivor consumed key rows)
unfolding write_node_redirects
write_node_redirects-IsFlat user_id survivor consumed key rows flat apart fresh inside =
    let ids = distinct consumed in
    let alive : contains ids survivor ≡ false = contains-distinct survivor consumed ∙ apart in
    let survives : IsTarget user_id ids rows survivor = record { alive = alive; end = fresh } in
    let in_partition : IsInPartition user_id key ids rows =
      All-impl (λ r h e c. h e (sym (contains-distinct r.to_node_id consumed) ∙ c)) rows inside in
    All-impl
      (λ r h e.
        upsert_all-IsNotSource user_id survivor key r.to_node_id ids _ ((h e).alive)
          (repoint-IsNotSource user_id survivor key r.to_node_id ids rows ((h e).end)))
      _
      (upsert_all-Leads user_id survivor key (IsTarget user_id ids rows) survives ids _ (
        repoint-Leads user_id survivor key ids (IsTarget user_id ids rows) rows survives
          (flat-IsTarget user_id ids rows flat) in_partition))

-- ===== src/Sources/Unsettled.antt =====
-- An upload whose bytes may still arrive, and the tombstone that waits for it.
pub mod Uploading
pub mod Putting
pub mod Sweeping
pub mod Commanded
pub mod Reached
use assistant_memory.Prelude.{
  ◌≡◌, refl, sym, ap, ◌∙◌, subst, ==→eq, ==_refl, ℕ, Bool, true, false, not, ◌&&◌, ◌||◌, ◌==◌,
  Option, none, some, List, [], ◌∷◌, map, any, All, All-map, All-impl, arith, Bool-cases, inl, inr,
  if◌then◌else◌,
}
use assistant_memory.Sources.Rows.{
  upload_unknown, Tombstone, Upload, Store, is_tombstone, is_present, find_first,
}
use assistant_memory.Sources.Uploads.{same_upload_state, is_upload, update_uploads}
use assistant_memory.Sources.Cleanup.{is_done, is_unacknowledged, complete_tombstones}

-- If the upload is of the source, nobody knows how it ended, and it was not acknowledged.
abbrev pub is_unsettled : ℕ → ℕ → Upload → Bool
is_unsettled user_id id u =
    not (is_upload user_id id u)
    || same_upload_state u.state upload_unknown && not (is_present u.uploaded_at)

-- If the tombstone is of the source, its storage is not cleaned up.
abbrev pub is_open_tombstone : ℕ → ℕ → Tombstone → Bool
is_open_tombstone user_id id t = not (is_tombstone user_id id t && is_done t.storage_cleanup_state)

pub record IsUnsettled (user_id id : ℕ) (s : Store) : Type 0 where
  pub there : any (is_upload user_id id) s.uploads ≡ true
  pub unsettled : All (λ u. is_unsettled user_id id u ≡ true) s.uploads
  pub waiting : All (λ t. is_open_tombstone user_id id t ≡ true) s.tombstones

module _ (user_id id : ℕ) where
  -- An update that leaves the upload of the source unsettled.
  pub update-unsettled :
      (p : Upload → Bool) (f : Upload → Upload) (us : List Upload)
      → ((u : Upload)
          → is_unsettled user_id id u ≡ true
          → p u ≡ true
          → is_unsettled user_id id (f u) ≡ true)
      → All (λ u. is_unsettled user_id id u ≡ true) us
      → All (λ u. is_unsettled user_id id u ≡ true) (update_uploads p f us)
  update-unsettled p f [] k h = tt
  update-unsettled p f (u ∷ us) k (q, h) = elim (Bool-cases (p u)) [
    | inl hit ↦ rw hit (k u q hit, update-unsettled p f us k h)
    | inr miss ↦ rw miss (q, update-unsettled p f us k h)
  ]

  pub update-there :
      (p : Upload → Bool) (f : Upload → Upload) (us : List Upload)
      → ((u : Upload) → is_upload user_id id (f u) ≡ is_upload user_id id u)
      → any (is_upload user_id id) us ≡ true
      → any (is_upload user_id id) (update_uploads p f us) ≡ true
  update-there p f [] k h = cc
  update-there p f (u ∷ us) k h = elim (Bool-cases (p u)) [
    | inl hit ↦
        rw (hit, k u)
          (elim (Bool-cases (is_upload user_id id u)) [
            | inl here ↦ rw here
            | inr there ↦ rw there (update-there p f us k (rw there at h))
          ])
    | inr miss ↦ rw miss (elim (Bool-cases (is_upload user_id id u)) [
      | inl here ↦ rw here
      | inr there ↦ rw there (update-there p f us k (rw there at h))
    ])
  ]

  -- The query finds the unsettled upload.
  pub found-unsettled :
      (us : List Upload)
      → any (is_upload user_id id) us ≡ true
      → All (λ u. is_unsettled user_id id u ≡ true) us
      → (u : Upload) × (find_first (is_upload user_id id) us ≡ some u)
        × (same_upload_state u.state upload_unknown ≡ true)
  unfolding find_first
  found-unsettled [] h k = cc
  found-unsettled (u ∷ us) h (q, k) = elim (Bool-cases (is_upload user_id id u)) [
    | inl here ↦ (u, rw here, ground arith)
    | inr there ↦ let (v, e, f) = found-unsettled us (rw there at h) k in (v, rw there e, f)
  ]

  -- A tombstone of the source sees its upload.
  pub seen-unsettled :
      (t : Tombstone) (us : List Upload)
      → is_tombstone user_id id t ≡ true
      → any (is_upload user_id id) us ≡ true
      → All (λ u. is_unsettled user_id id u ≡ true) us
      → any (is_unacknowledged t) us ≡ true
  seen-unsettled t [] mine h k = cc
  seen-unsettled t (u ∷ us) mine h (q, k) = elim (Bool-cases (is_upload user_id id u)) [
    | inl here ↦ ground (arith, ==→eq t.user_id user_id, ==→eq t.source_id id)
    | inr there ↦ ground (arith, seen-unsettled t us mine (rw there at h) k)
  ]

  pub complete-waiting :
      (now : ℕ) (p : Tombstone → Bool) (ts : List Tombstone)
      → ((t : Tombstone) → is_tombstone user_id id t ≡ true → p t ≡ false)
      → All (λ t. is_open_tombstone user_id id t ≡ true) ts
      → All (λ t. is_open_tombstone user_id id t ≡ true) (complete_tombstones now p ts)
  complete-waiting now p [] k h = tt
  complete-waiting now p (t ∷ ts) k (q, h) = elim (Bool-cases (is_tombstone user_id id t)) [
    | inl mine ↦ rw (k t mine) (q, complete-waiting now p ts k h)
    | inr other ↦ elim (Bool-cases (p t)) [
      | inl hit ↦ rw hit (ground arith, complete-waiting now p ts k h)
      | inr miss ↦ rw miss (q, complete-waiting now p ts k h)
    ]
  ]

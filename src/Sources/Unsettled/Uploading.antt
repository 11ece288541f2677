-- ===== src/Sources/Unsettled/Uploading.antt =====
-- What uploaders do leaves an unsettled upload as it is.
use assistant_memory.Prelude.{
  ◌≡◌, refl, sym, ap, subst, ==→eq, ℕ, Bool, true, false, ◌&&◌, ◌==◌, Option, none, some, List, any,
  All, arith, Bool-cases, inl, inr,
}
use assistant_memory.Partition.Tables.{bind-ok, Tables, Result, ok}
use assistant_memory.Partition.Fence.{FenceInput, Version, fence, with_source_write_fence}
use assistant_memory.Sources.Rows.{Upload, upload_unknown, reserved, uploading, find_first}
use assistant_memory.Sources.Uploads.{
  Blob, RootFence, Reservation, Blobs, same_upload_state, is_upload, update_uploads, may_reserve,
  reserve_again, write_reservation, reserve_found, reserve_source_blob_upload, begin_found,
  begin_source_blob_upload,
}
use assistant_memory.Sources.Unsettled.{
  is_unsettled, update-unsettled, update-there, found-unsettled,
}

fenced-ok {ℓ} :
    {A : Type ℓ} (before t : Tables) (gate : Tables → Result (Unit {0})) (input : FenceInput)
    (write : Tables → List Version → Result A) {a : A}
    → with_source_write_fence before t gate input write ≡ ok a
    → (versions : List Version) × (write t versions ≡ ok a)
unfolding with_source_write_fence
fenced-ok before t gate input write h =
    let (versions, e, f) = bind-ok (fence before t gate input) (write t) _ h in (versions, f)

-- The uploads, of which that of the source is there and unsettled.
abbrev pub HasUnsettled : ℕ → ℕ → List Upload → Type 0
HasUnsettled user_id id us =
    (any (is_upload user_id id) us ≡ true) × All (λ u. is_unsettled user_id id u ≡ true) us

module _ (user_id id : ℕ) where
  pub update-HasUnsettled :
      (p : Upload → Bool) (f : Upload → Upload) (us : List Upload)
      → ((u : Upload) → is_upload user_id id (f u) ≡ is_upload user_id id u)
      → ((u : Upload)
          → is_unsettled user_id id u ≡ true
          → p u ≡ true
          → is_upload user_id id u ≡ false)
      → HasUnsettled user_id id us
      → HasUnsettled user_id id (update_uploads p f us)
  update-HasUnsettled p f us same other (here, h) = (
    update-there user_id id p f us same here,
    update-unsettled user_id id p f us (λ u q hit. ground (arith, same u, other u q hit)) h,
  )

  -- The uploads of another source.
  pub other-upload :
      (b_user b_id : ℕ) (u : Upload)
      → (b_user == user_id && b_id == id) ≡ false
      → is_upload b_user b_id u ≡ true
      → is_upload user_id id u ≡ false
  other-upload b_user b_id u other hit =
      ground (arith, ==→eq u.user_id b_user, ==→eq u.source_id b_id)

  -- The upload that the query finds for the source is unsettled.
  pub own-unsettled :
      (b : Blob) (us : List Upload)
      → (b.user_id == user_id && b.source_id == id) ≡ true
      → HasUnsettled user_id id us
      → (u : Upload) × (find_first (is_upload b.user_id b.source_id) us ≡ some u)
        × (same_upload_state u.state upload_unknown ≡ true)
  own-unsettled b us same (here, h) =
      let e : b.user_id ≡ user_id = ==→eq b.user_id user_id (ground arith) in
      let f : b.source_id ≡ id = ==→eq b.source_id id (ground arith) in
      rw (e, f) (found-unsettled user_id id us here h)

  reserve_found-ok :
      (now : ℕ) (b : Blob) (allow : Bool) (hash : Option ℕ) (s : Blobs) (o : Option Upload)
      {us : List Upload} {r : Reservation}
      → reserve_found now b allow hash s o ≡ ok (us, r)
      → (may_reserve allow o ≡ true) × (us ≡ write_reservation now b o s.uploads)
  reserve_found-ok now b allow hash s o h = ground arith

  reserve_found-keeps :
      (now : ℕ) (b : Blob) (allow : Bool) (hash : Option ℕ) (s : Blobs) (o : Option Upload)
      {us : List Upload} {r : Reservation}
      → find_first (is_upload b.user_id b.source_id) s.uploads ≡ o
      → reserve_found now b allow hash s o ≡ ok (us, r)
      → HasUnsettled user_id id s.uploads
      → HasUnsettled user_id id us
  reserve_found-keeps now b allow hash s none e h k =
      elim (Bool-cases (b.user_id == user_id && b.source_id == id)) [
        | inl own ↦ let (u, f, g) = own-unsettled b s.uploads own k in absurd (cc)
        | inr other ↦ ground (arith, other, h, k)
      ]
  reserve_found-keeps now b allow hash s (some x) e h k =
      let (may, written) = reserve_found-ok now b allow hash s (some x) h in
      elim (Bool-cases (b.user_id == user_id && b.source_id == id)) [
        | inl own ↦
            let (u, f, g) = own-unsettled b s.uploads own k in
            let same : x ≡ u = cc in
            absurd (ground (arith, ap (λ (y : Upload). y.state) same, g, may))
        | inr other ↦ subst (HasUnsettled user_id id) (sym written) (
            update-HasUnsettled _ (reserve_again now) s.uploads (λ u. refl)
              (λ u q hit. other-upload b.user_id b.source_id u other (ground arith)) k)
      ]

  pub reserve-keeps :
      (before : Tables) (now : ℕ) (b : Blob) (root : Option RootFence) (allow : Bool)
      (hash : Option ℕ) (s : Blobs) {us : List Upload} {r : Reservation}
      → reserve_source_blob_upload before now b root allow hash s ≡ ok (us, r)
      → HasUnsettled user_id id s.uploads
      → HasUnsettled user_id id us
  unfolding reserve_source_blob_upload
  reserve-keeps before now b root allow hash s h k =
      let (versions, e) = fenced-ok before s.tables _ _ _ h in
      reserve_found-keeps now b allow hash s
        (find_first (is_upload b.user_id b.source_id) s.uploads) refl e k

  begin_found-ok :
      (now : ℕ) (b : Blob) (s : Blobs) (x : Upload) {us : List Upload} {at : ℕ}
      → begin_found now b s (some x) ≡ ok (us, at)
      → (same_upload_state x.state reserved ≡ true)
        × (us
            ≡ update_uploads
                (λ u. is_upload b.user_id b.source_id u && same_upload_state u.state reserved)
                (λ u. record u { state = uploading; updated_at = now })
                s.uploads)
  begin_found-ok now b s x h = ground arith

  begin_found-keeps :
      (now : ℕ) (b : Blob) (s : Blobs) (o : Option Upload) {us : List Upload} {at : ℕ}
      → find_first (is_upload b.user_id b.source_id) s.uploads ≡ o
      → begin_found now b s o ≡ ok (us, at)
      → HasUnsettled user_id id s.uploads
      → HasUnsettled user_id id us
  begin_found-keeps now b s none e h k = cc
  begin_found-keeps now b s (some x) e h k =
      let (may, same) = begin_found-ok now b s x h in
      elim (Bool-cases (b.user_id == user_id && b.source_id == id)) [
        | inl own ↦
            let (u, f, g) = own-unsettled b s.uploads own k in
            let same : x ≡ u = cc in
            absurd (ground (arith, ap (λ (y : Upload). y.state) same, g, may))
        | inr other ↦ subst (HasUnsettled user_id id) (sym same) (
            update-HasUnsettled _ (λ u. record u { state = uploading; updated_at = now }) s.uploads
              (λ u. refl) (λ u q hit. other-upload b.user_id b.source_id u other (ground arith)) k)
      ]

  pub begin-keeps :
      (before : Tables) (now : ℕ) (b : Blob) (root : Option RootFence) (s : Blobs)
      {us : List Upload} {at : ℕ}
      → begin_source_blob_upload before now b root s ≡ ok (us, at)
      → HasUnsettled user_id id s.uploads
      → HasUnsettled user_id id us
  unfolding begin_source_blob_upload
  begin-keeps before now b root s h k =
      let (versions, e) = fenced-ok before s.tables _ _ _ h in
      begin_found-keeps now b s (find_first (is_upload b.user_id b.source_id) s.uploads) refl e k

-- ===== src/Sources/Unsettled/Putting.antt =====
-- What the put of the bytes and the ends of a failed upload keep of an unsettled one.
use assistant_memory.Prelude.{
  ◌≡◌, refl, sym, subst, ℕ, Bool, true, false, not, ◌&&◌, ◌==◌, Option, none, some, List, [], ◌∷◌,
  filter, any, All, All-filter, arith, Bool-cases, inl, inr,
}
use assistant_memory.Partition.Tables.{bind-ok, ok, Source, find_source}
use assistant_memory.Sources.Rows.{uploaded, Upload, UploadState, uploading, find_first}
use assistant_memory.Sources.Uploads.{
  Blob, Reservation, Blobs, same_upload_state, is_upload, update_uploads,
}
use assistant_memory.Sources.Uploads.Put.{
  Put, PutEnd, acknowledged, put_rejected, unsettled, may_put, check_put, put_ended, put_done,
  put_unsettled, put_source, update_source, put_source_blob_with_fence,
}
use assistant_memory.Sources.Uploads.Release.{
  is_live, is_settled, is_owned, undo_reservation, cancel_source_blob_upload_before_put,
  record_failed_source_blob_upload,
}
use assistant_memory.Sources.Unsettled.{is_unsettled}
use assistant_memory.Sources.Unsettled.Uploading.{
  update-HasUnsettled, other-upload, own-unsettled, HasUnsettled,
}

module _ (user_id id : ℕ) where
  check_put-may :
      (p : Put) (s : Blobs)
      → check_put p s ≡ ok tt
      → may_put p.reserved_at (find_first (is_upload p.blob.user_id p.blob.source_id) s.uploads)
        ≡ true
  unfolding check_put
  check_put-may p s h = ground arith

  put_done-keeps :
      (now : ℕ) (p : Put) (s : Blobs) (o : Option Source) {s' : Blobs} {done : Bool}
      → (p.blob.user_id == user_id && p.blob.source_id == id) ≡ false
      → put_done now p s o ≡ ok (s', done)
      → HasUnsettled user_id id s.uploads
      → HasUnsettled user_id id s'.uploads
  put_done-keeps now p s none other h k = cc
  put_done-keeps now p s (some x) {s'} other h k =
      let e : s'.uploads
          ≡ update_uploads
              (λ u.
                is_upload p.blob.user_id p.blob.source_id u && same_upload_state u.state uploading)
              (λ u. record u { state = uploaded; uploaded_at = some now; updated_at = now })
              s.uploads =
        ground arith in
      subst (HasUnsettled user_id id) (sym e) (
        update-HasUnsettled user_id id _ _ s.uploads (λ u. refl)
          (λ u q hit.
            other-upload user_id id p.blob.user_id p.blob.source_id u other (ground arith))
          k)

  put_ended-keeps :
      (now : ℕ) (p : Put) (end : PutEnd) (s : Blobs) {s' : Blobs} {done : Bool}
      → (p.blob.user_id == user_id && p.blob.source_id == id) ≡ false
      → put_ended now p end s ≡ ok (s', done)
      → HasUnsettled user_id id s.uploads
      → HasUnsettled user_id id s'.uploads
  put_ended-keeps now p put_rejected s other h k = cc
  put_ended-keeps now p unsettled s {s'} other h k =
      let e : s'.uploads ≡ (put_unsettled now p s).uploads = ground arith in
      subst (HasUnsettled user_id id) (sym e) (
        update-HasUnsettled user_id id (is_upload p.blob.user_id p.blob.source_id) _ s.uploads
          (λ u. refl)
          (λ u q hit. other-upload user_id id p.blob.user_id p.blob.source_id u other hit) k)
  put_ended-keeps now p acknowledged s other h k =
      put_done-keeps now p s
        (find_source p.blob.user_id p.blob.source_id
          (update_source p.blob.user_id p.blob.source_id (put_source p) s.tables.sources))
        other h k

  pub put-keeps :
      (now : ℕ) (p : Put) (end : PutEnd) (s : Blobs) {s' : Blobs} {done : Bool}
      → put_source_blob_with_fence now p end s ≡ ok (s', done)
      → HasUnsettled user_id id s.uploads
      → HasUnsettled user_id id s'.uploads
  unfolding put_source_blob_with_fence
  put-keeps now p end s h k =
      let (u, checked, ended) = bind-ok (check_put p s) (λ _. put_ended now p end s) _ h in
      elim (Bool-cases (p.blob.user_id == user_id && p.blob.source_id == id)) [
        | inl own ↦
            let (x, f, g) = own-unsettled user_id id p.blob s.uploads own k in
            absurd (ground (arith, f, g, check_put-may p s checked))
        | inr other ↦ put_ended-keeps now p end s other ended k
      ]

  filter-there :
      (p : Upload → Bool) (us : List Upload)
      → ((u : Upload)
          → is_unsettled user_id id u ≡ true
          → is_upload user_id id u ≡ true
          → p u ≡ true)
      → any (is_upload user_id id) us ≡ true
      → All (λ u. is_unsettled user_id id u ≡ true) us
      → any (is_upload user_id id) (filter p us) ≡ true
  filter-there p [] keep here h = here
  filter-there p (u ∷ us) keep here (q, h) = elim (Bool-cases (is_upload user_id id u)) [
    | inl mine ↦ rw (keep u q mine) (rw mine)
    | inr other ↦ elim (Bool-cases (p u)) [
      | inl kept ↦ rw (kept, other) (filter-there p us keep (rw other at here) h)
      | inr dropped ↦ rw dropped (filter-there p us keep (rw other at here) h)
    ]
  ]

  filter-HasUnsettled :
      (p : Upload → Bool) (us : List Upload)
      → ((u : Upload)
          → is_unsettled user_id id u ≡ true
          → is_upload user_id id u ≡ true
          → p u ≡ true)
      → HasUnsettled user_id id us
      → HasUnsettled user_id id (filter p us)
  filter-HasUnsettled p us keep (here, h) =
      (filter-there p us keep here h, All-filter (λ u. is_unsettled user_id id u ≡ true) p us h)

  cancel-found :
      (b : Blob) (r : Reservation) (o : Option Upload) (us : List Upload)
      → HasUnsettled user_id id us
      → HasUnsettled user_id id (undo_reservation b r o us)
  cancel-found b r none us k =
      filter-HasUnsettled (λ u. not (is_owned b r u)) us (λ u q mine. ground arith) k
  cancel-found b r (some e) us k =
      update-HasUnsettled user_id id (is_owned b r) _ us (λ u. refl) (λ u q hit. ground arith) k

  pub cancel-keeps :
      (b : Blob) (r : Reservation) (s : Blobs)
      → HasUnsettled user_id id s.uploads
      → HasUnsettled user_id id (cancel_source_blob_upload_before_put b r s)
  unfolding cancel_source_blob_upload_before_put
  cancel-keeps b r s k =
      elim (Bool-cases (is_live (find_source b.user_id b.source_id s.tables.sources))) [
        | inl live ↦ rw live (cancel-found b r r.previous s.uploads k)
        | inr gone ↦ rw gone k
      ]

  pub record_failed-keeps :
      (now : ℕ) (b : Blob) (state : UploadState) (s : Blobs)
      → HasUnsettled user_id id s.uploads
      → HasUnsettled user_id id (record_failed_source_blob_upload now b state s).uploads
  unfolding record_failed_source_blob_upload
  record_failed-keeps now b state s k =
      elim (Bool-cases (is_settled (find_first (is_upload b.user_id b.source_id) s.uploads))) [
        | inl settled ↦ rw settled k
        | inr unended ↦ rw unended (
            update-HasUnsettled user_id id (is_upload b.user_id b.source_id) _ s.uploads (λ u. refl)
              (λ u q hit. elim (Bool-cases (b.user_id == user_id && b.source_id == id)) [
                | inl own ↦
                    let (x, f, g) = own-unsettled user_id id b s.uploads own k in
                    absurd (ground (arith, f, g, unended))
                | inr other ↦ other-upload user_id id b.user_id b.source_id u other hit
              ])
              k)
      ]

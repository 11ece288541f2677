-- ===== src/Sources/Uploads/Accepted.antt =====
-- Which bytes of a source count as accepted after an upload.
use assistant_memory.Prelude.{
  ◌≡◌, refl, ap, sym, ◌∙◌, ℕ, Bool, true, false, ◌==◌, ==_refl, Option, none, some, List, [], ◌∷◌,
  arith, Bool-cases, Option-cases, inl, inr,
}
use assistant_memory.Partition.Tables.{Source, ok, ok-injective, bind-ok, find_source}
use assistant_memory.Processing.Receipts.{Operation}
use assistant_memory.Processing.Elsewhere.{is_receipt_of, invalidate_source_extraction_revision}
use assistant_memory.Sources.Uploads.{Blob, Blobs, is_accepted}
use assistant_memory.Sources.Uploads.Put.{
  Put, Revision, acknowledged, check_put, put_source_blob_with_fence, put_ended, put_done,
  put_source, update_source, accept_operation, replace_revision,
}

-- The content hash of the receipt that comes with a revision, if one does.
abbrev pub is_hash_of : Option (ℕ × ℕ) → ℕ → Bool
is_hash_of none h = false
is_hash_of (some (external_id, content_hash)) h = content_hash == h

-- After the invalidation no bytes of the source are accepted.
invalidated-forgets :
    (b : Blob) (h : ℕ) (os : List Operation)
    → is_accepted b (some h) (invalidate_source_extraction_revision b.user_id b.source_id os)
      ≡ false
invalidated-forgets b h [] = refl
invalidated-forgets b h (o ∷ os) =
    let rest = invalidated-forgets b h os in
    elim (Bool-cases (is_receipt_of b.user_id b.source_id o)) [
      | inl own ↦ rw own (ground (arith, rest))
      | inr other ↦ rw other (ground (arith, rest, other))
    ]

replaced-same :
    (p : Put) (v : Revision) (os : List Operation)
    → p.revision ≡ some v
    → v.replace_derived_links ≡ true
    → replace_revision p os
      ≡ invalidate_source_extraction_revision p.blob.user_id p.blob.source_id os
replaced-same p v os e replaces = rw e (rw replaces refl)

-- If no bytes were accepted, those of the new receipt are the only ones.
inserted-accepts :
    (now : ℕ) (p : Put) (v : Revision) (version h : ℕ) (os : List Operation)
    → p.revision ≡ some v
    → is_accepted p.blob (some h) os ≡ false
    → is_accepted p.blob (some h) (accept_operation now p version os) ≡ is_hash_of v.operation h
inserted-accepts now p v version h os e none_left = elim (Option-cases v.operation) [
  | inl missing ↦ rw e (rw missing none_left)
  | inr (o, there) ↦
      rw e (rw there (ground (arith, none_left, ==_refl p.blob.user_id, ==_refl p.blob.source_id)))
]

replaced-accepts :
    (now : ℕ) (p : Put) (v : Revision) (version h : ℕ) (os : List Operation)
    → p.revision ≡ some v
    → v.replace_derived_links ≡ true
    → is_accepted p.blob (some h) (accept_operation now p version (replace_revision p os))
      ≡ is_hash_of v.operation h
replaced-accepts now p v version h os e replaces =
    inserted-accepts now p v version h (replace_revision p os) e (
      ap (is_accepted p.blob (some h)) (replaced-same p v os e replaces)
      ∙ invalidated-forgets p.blob h os)

put_done-accepts :
    (now : ℕ) (p : Put) (v : Revision) (h : ℕ) (s s' : Blobs) (done : Bool) (found : Option Source)
    → put_done now p s found ≡ ok (s', done)
    → p.revision ≡ some v
    → v.replace_derived_links ≡ true
    → is_accepted p.blob (some h) s'.operations ≡ is_hash_of v.operation h
put_done-accepts now p v h s s' done none ended e replaces = absurd (cc)
put_done-accepts now p v h s s' done (some k) ended e replaces =
    ap (λ (q : Blobs × Bool). is_accepted p.blob (some h) q.0.operations) (sym (ok-injective ended))
    ∙ replaced-accepts now p v k.version h s.operations e replaces

-- After an acknowledged upload of a revision that replaces what was extracted from its source, the bytes
-- that count as accepted for the source are those of the receipt that came with the revision, and no
-- others: earlier bytes, sent again, are not refused as accepted, whatever receipts there were.
pub put-accepts :
    (now : ℕ) (p : Put) (v : Revision) (h : ℕ) (s s' : Blobs) (done : Bool)
    → put_source_blob_with_fence now p acknowledged s ≡ ok (s', done)
    → p.revision ≡ some v
    → v.replace_derived_links ≡ true
    → is_accepted p.blob (some h) s'.operations ≡ is_hash_of v.operation h
unfolding put_source_blob_with_fence
put-accepts now p v h s s' done put e replaces =
    let (u, checked, ended) =
      bind-ok (check_put p s) (λ _. put_ended now p acknowledged s) (s', done) put in
    put_done-accepts now p v h s s' done
      (find_source p.blob.user_id p.blob.source_id
        (update_source p.blob.user_id p.blob.source_id (put_source p) s.tables.sources))
      ended e replaces

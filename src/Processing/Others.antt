-- ===== src/Processing/Others.antt =====
-- The writes of receipts by other files keep them valid.
use assistant_memory.Prelude.{
  ◌≡◌, Option-cases, ℕ, Bool, false, ◌&&◌, ◌==◌, not, is_some, Option, none, some, List, [], ◌∷◌,
  arith, Bool-cases, inl, inr, All, subst,
}
use assistant_memory.Partition.Tables.{Source, find_source, ok, ok-injective, bind-ok}
use assistant_memory.Processing.Receipts.{Operation, Store}
use assistant_memory.Processing.Accept.{is_open}
use assistant_memory.Processing.Invariant.{IsValid, AllValid, is_purged}
use assistant_memory.Processing.Handled.{map-IsValid}
use assistant_memory.Processing.Elsewhere.{
  is_receipt_of, follow_version, invalidate_source_extraction_revision, reclassified_version,
  reclassify_receipts, partition_or, assign_receipts,
}
use assistant_memory.Sources.Rows.{Upload}
use assistant_memory.Sources.Uploads.{Blobs}
use assistant_memory.Sources.Uploads.Put.{
  Put, PutEnd, acknowledged, put_rejected, unsettled, put_source_blob_with_fence, check_put,
  put_ended, put_done, update_source, put_source, accept_operation, accepted_operation,
  replace_revision,
}

followed-IsValid :
    (now version : ℕ) (o : Operation)
    → IsValid o
    → IsValid (record o { source_version = version; updated_at = now })
followed-IsValid now version o v = ground arith

pub follow-All :
    (now user_id source_id current updated : ℕ) (os : List Operation)
    → All IsValid os
    → All IsValid (follow_version now user_id source_id current updated os)
follow-All now user_id source_id current updated os h =
    map-IsValid _
      (λ o v.
        elim (Bool-cases
          (is_receipt_of user_id source_id o && o.source_version == current && is_open o.status)) [
            | inl hit ↦ rw hit (followed-IsValid now updated o v)
            | inr miss ↦ rw miss v
          ])
      _ h

invalidated-IsValid : (o : Operation) → IsValid o → IsValid (record o { content_hash = none })
invalidated-IsValid o v = ground arith

pub invalidate-All :
    (user_id source_id : ℕ) (os : List Operation)
    → All IsValid os
    → All IsValid (invalidate_source_extraction_revision user_id source_id os)
invalidate-All user_id source_id os h =
    map-IsValid _
      (λ o v. elim (Bool-cases (is_receipt_of user_id source_id o)) [
        | inl hit ↦ rw hit (invalidated-IsValid o v)
        | inr miss ↦ rw miss v
      ])
      _ h

reclassified-IsValid :
    (now version target external_id : ℕ) (o : Operation)
    → is_purged o.status ≡ false
    → IsValid o
    → IsValid (record o {
      partition_key = some target;
      external_id = some external_id;
      source_version = version;
      updated_at = now;
    })
reclassified-IsValid now version target external_id o live v = ground arith

pub reclassify-All :
    (now user_id source_id target external_id current updated : ℕ) (os : List Operation)
    → All (λ o. (is_receipt_of user_id source_id o && is_purged o.status) ≡ false) os
    → All IsValid os
    → All IsValid (reclassify_receipts now user_id source_id target external_id current updated os)
reclassify-All now user_id source_id target external_id current updated [] live h = tt
reclassify-All now user_id source_id target external_id current updated (o ∷ os) (l, live) (v, h) =
    let rest = reclassify-All now user_id source_id target external_id current updated os live h in
    elim (Bool-cases (is_receipt_of user_id source_id o)) [
      | inl hit ↦ rw hit (
        reclassified-IsValid now (reclassified_version current updated o) target external_id o
            (rw hit at l) v,
        rest,
      )
      | inr miss ↦ rw miss (v, rest)
    ]

assigned-IsValid :
    (now : ℕ) (key : Option ℕ) (o : Operation)
    → IsValid o
    → IsValid (record o { partition_key = key; updated_at = now })
assigned-IsValid now key o v = ground arith

pub assign-All :
    (now user_id unassigned : ℕ) (rows : List Source) (os : List Operation)
    → All IsValid os
    → All IsValid (assign_receipts now user_id unassigned rows os)
assign-All now user_id unassigned rows os h =
    map-IsValid _
      (λ o v. elim (Bool-cases (o.user_id == user_id && not (is_some o.partition_key))) [
        | inl hit ↦ rw hit (
            assigned-IsValid now (partition_or unassigned (find_source o.user_id o.source_id rows))
              o v)
        | inr miss ↦ rw miss v
      ])
      _ h

-- The store of the receipts beside the uploads.
abbrev pub with_uploads : List Upload → Store → Blobs
with_uploads us s = record { tables = s.tables; uploads = us; operations = s.operations }

abbrev pub receipts_of : Blobs → Store
receipts_of b = record { tables = b.tables; operations = b.operations }

accepted-IsValid :
    (now : ℕ) (p : Put) (version : ℕ) (o : ℕ × ℕ) → IsValid (accepted_operation now p version o)
accepted-IsValid now p version o = ground arith

replace-All : (p : Put) (os : List Operation) → All IsValid os → All IsValid (replace_revision p os)
replace-All p os h = elim (Option-cases p.revision) [
  | inl missing ↦ rw missing h
  | inr (v, e) ↦ elim (Bool-cases v.replace_derived_links) [
    | inl replaces ↦ rw (e, replaces) (invalidate-All p.blob.user_id p.blob.source_id os h)
    | inr keeps ↦ rw (e, keeps) h
  ]
]

accept-All :
    (now : ℕ) (p : Put) (version : ℕ) (os : List Operation)
    → All IsValid os
    → All IsValid (accept_operation now p version os)
accept-All now p version os h = elim (Option-cases p.revision) [
  | inl missing ↦ rw missing h
  | inr (v, e) ↦ elim (Option-cases v.operation) [
    | inl missing ↦ rw (e, missing) h
    | inr (o, f) ↦ rw (e, f) (accepted-IsValid now p version o, h)
  ]
]

put_done-All :
    (now : ℕ) (p : Put) (s b : Blobs) (settled : Bool) (found : Option Source)
    → put_done now p s found ≡ ok (b, settled)
    → All IsValid s.operations
    → All IsValid b.operations
put_done-All now p s b settled none e h = absurd (cc)
put_done-All now p s b settled (some k) e h =
    subst (λ (q : Blobs × Bool). All IsValid q.0.operations) (ok-injective e)
      (accept-All now p k.version (replace_revision p s.operations) (replace-All p s.operations h))

put_ended-All :
    (now : ℕ) (p : Put) (end : PutEnd) (s b : Blobs) (settled : Bool)
    → put_ended now p end s ≡ ok (b, settled)
    → All IsValid s.operations
    → All IsValid b.operations
put_ended-All now p put_rejected s b settled e h = absurd (cc)
put_ended-All now p unsettled s b settled e h =
    subst (λ (q : Blobs × Bool). All IsValid q.0.operations) (ok-injective e) h
put_ended-All now p acknowledged s b settled e h =
    put_done-All now p s b settled
      (find_source p.blob.user_id p.blob.source_id
        (update_source p.blob.user_id p.blob.source_id (put_source p) s.tables.sources))
      e h

pub put-All :
    (now : ℕ) (p : Put) (end : PutEnd) (us : List Upload) (s : Store) (b : Blobs) (settled : Bool)
    → put_source_blob_with_fence now p end (with_uploads us s) ≡ ok (b, settled)
    → AllValid s
    → AllValid (receipts_of b)
unfolding put_source_blob_with_fence
put-All now p end us s b settled e h =
    let (u, checked, rest) = bind-ok (check_put p (with_uploads us s)) _ (b, settled) e in
    put_ended-All now p end (with_uploads us s) b settled rest h

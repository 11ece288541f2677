-- ===== src/Partition/Retirement/Laws.antt =====
-- What a write behind the identity gate finds after a command.
use assistant_memory.Prelude.{
  ℕ, Bool, true, false, not, ◌&&◌, ◌≡◌, refl, ap, ◌∙◌, inl, inr, Option, List, [], ◌∷◌, map, any,
  filter, contains, ◌==◌, ==→eq, ==_refl, All, All-impl, All-filter_self, Bool-cases, arith,
}
use assistant_memory.Partition.Tables.{
  ensure-ok, ok-injective, source_identity_retired, partition_unauthorized, ok, err, SourceIdentity,
  Source,
}
use assistant_memory.Partition.Access.{error}
use assistant_memory.Partition.Fence.{
  same_identity, has_identity, may_be_retired, assert_source_identities_active,
}
use assistant_memory.Partition.Retirement.{
  own_sources, own_retirements, source_matches, identities, IdentityTombstone, retire, restore,
  IdentityInput, IdentityStore, requested, insert_identity, insert_identities, is_deleted,
  delete_identities, written, apply_source_identity_lifecycle, tables_of,
}

same_identity→eq : (a b : SourceIdentity) → same_identity a b ≡ true → a ≡ b
same_identity→eq a b h =
    ap (λ u. record { user_id = u; source_type = a.source_type; external_id = a.external_id })
      (==→eq a.user_id b.user_id (ground (arith, h)))
    ∙ ap (λ u. record { user_id = b.user_id; source_type = u; external_id = a.external_id })
        (==→eq a.source_type b.source_type (ground (arith, h)))
    ∙ ap (λ u. record { user_id = b.user_id; source_type = b.source_type; external_id = u })
        (==→eq a.external_id b.external_id (ground (arith, h)))

-- Whether an identity has a tombstone.
abbrev pub is_retired : List IdentityTombstone → SourceIdentity → Bool
is_retired ts r = any (λ t. same_identity t.identity r) ts

insert_identity-keeps :
    (key : Option ℕ) (q r : SourceIdentity) (ts : List IdentityTombstone)
    → is_retired ts r ≡ true
    → is_retired (insert_identity key q ts) r ≡ true
insert_identity-keeps key q r ts h = elim (Bool-cases (is_retired ts q)) [
  | inl there ↦ rw there h
  | inr new ↦ rw new (ground (arith, h))
]

insert_identity-adds :
    (key : Option ℕ) (r : SourceIdentity) (ts : List IdentityTombstone)
    → is_retired (insert_identity key r ts) r ≡ true
insert_identity-adds key r ts = elim (Bool-cases (is_retired ts r)) [
  | inl there ↦ rw there there
  | inr new ↦ rw (new, ==_refl r.user_id, ==_refl r.source_type, ==_refl r.external_id) refl
]

insert_identities-keeps :
    (key : Option ℕ) (rs : List SourceIdentity) (r : SourceIdentity) (ts : List IdentityTombstone)
    → is_retired ts r ≡ true
    → is_retired (insert_identities key rs ts) r ≡ true
unfolding insert_identities
insert_identities-keeps key [] r ts h = h
insert_identities-keeps key (q ∷ qs) r ts h =
    insert_identities-keeps key qs r (insert_identity key q ts) (insert_identity-keeps key q r ts h)

insert_identities-adds :
    (key : Option ℕ) (rs : List SourceIdentity) (r : SourceIdentity) (ts : List IdentityTombstone)
    → has_identity rs r ≡ true
    → is_retired (insert_identities key rs ts) r ≡ true
unfolding insert_identities
insert_identities-adds key [] r ts h = absurd (ground (arith, h))
insert_identities-adds key (q ∷ qs) r ts h = elim (Bool-cases (same_identity r q)) [
  | inl same ↦
      insert_identities-keeps key qs r (insert_identity key q ts)
        (rw (same_identity→eq r q same) (insert_identity-adds key q ts))
  | inr other ↦ insert_identities-adds key qs r (insert_identity key q ts) (rw other at h)
]

-- An identity of a list passes the test that each of its parts is in the list.
has_identity-may_be_retired :
    (l : List SourceIdentity) (r : SourceIdentity)
    → has_identity l r ≡ true
    → may_be_retired l r ≡ true
unfolding contains
has_identity-may_be_retired [] r h = absurd (ground (arith, h))
has_identity-may_be_retired (q ∷ qs) r h = elim (Bool-cases (same_identity r q)) [
  | inl same ↦
      rw
        (same_identity→eq r q same, ==_refl q.user_id, ==_refl q.source_type, ==_refl q.external_id)
        refl
  | inr other ↦
      let inside = has_identity-may_be_retired qs r (rw other at h) in ground (arith, inside)
]

found : List SourceIdentity → List IdentityTombstone → Bool
found l ts = any (has_identity l) (filter (may_be_retired l) (map (λ t. t.identity) ts))

found-shared :
    (l : List SourceIdentity) (r : SourceIdentity) (ts : List IdentityTombstone)
    → has_identity l r ≡ true
    → is_retired ts r ≡ true
    → found l ts ≡ true
unfolding found
found-shared l r [] h k = absurd (ground (arith, k))
found-shared l r (t ∷ ts) h k = elim (Bool-cases (same_identity t.identity r)) [
  | inl same ↦ rw (same_identity→eq t.identity r same, has_identity-may_be_retired l r h, h) refl
  | inr other ↦
      let later = found-shared l r ts h (rw other at k) in
      elim (Bool-cases (may_be_retired l t.identity)) [
        | inl maybe ↦ rw maybe (ground (arith, later))
        | inr sure ↦ rw sure later
      ]
]

requested-user :
    (i : IdentityInput) (ps : List (ℕ × ℕ)) (r : SourceIdentity)
    → has_identity
        (map (λ p. record { user_id = i.user_id; source_type = p.0; external_id = p.1 }) ps)
        r
      ≡ true
    → (r.user_id == i.user_id) ≡ true
requested-user i [] r h = absurd (ground (arith, h))
requested-user i (p ∷ ps) r h = elim (Bool-cases (r.user_id == i.user_id)) [
  | inl same ↦ same
  | inr other ↦ requested-user i ps r (rw other at h)
]

found-none :
    (l : List SourceIdentity) (ts : List IdentityTombstone)
    → All (λ t. has_identity l t.identity ≡ false) ts
    → found l ts ≡ false
unfolding found
found-none l [] h = refl
found-none l (t ∷ ts) (p, h) = elim (Bool-cases (may_be_retired l t.identity)) [
  | inl maybe ↦ rw (maybe, p) (found-none l ts h)
  | inr sure ↦ rw sure (found-none l ts h)
]

kept-unasked :
    (i : IdentityInput) (r : SourceIdentity)
    → not (is_deleted i r) ≡ true
    → has_identity (requested i) r ≡ false
kept-unasked i r h =
    with_answer (has_identity (requested i) r) (requested-user i (identities i) r) h
  where
    with_answer :
        (b : Bool)
        → (b ≡ true → (r.user_id == i.user_id) ≡ true)
        → not (r.user_id == i.user_id && b) ≡ true
        → b ≡ false
    with_answer true f k = absurd (ground (arith, k, f refl))
    with_answer false f k = refl

found-deleted :
    (i : IdentityInput) (ts : List IdentityTombstone)
    → found (requested i) (delete_identities i ts) ≡ false
unfolding delete_identities
found-deleted i ts = found-none (requested i) (delete_identities i ts) (
    All-impl (λ t. kept-unasked i t.identity) (delete_identities i ts)
      (All-filter_self (λ t. not (is_deleted i t.identity)) ts))

after : IdentityInput → IdentityStore → IdentityStore
after i s = record s { tombstones = written i.action i s.tombstones }

-- What a command that returns has done.
applied :
    (i : IdentityInput) (s s' : IdentityStore) (sources : List Source)
    → apply_source_identity_lifecycle i s ≡ ok (s', sources)
    → after i s ≡ s'
unfolding apply_source_identity_lifecycle after
applied i s s' sources e =
    let (theirs, rest) =
      ensure-ok (own_sources i s.tables.sources) (error partition_unauthorized) _ _ e in
    let (own, last) =
      ensure-ok (own_retirements i s.tombstones) (error partition_unauthorized) _ _ rest in
    ap (λ p. p.0)
      (ok-injective {a = (after i s, source_matches i s.tables.sources)} {b = (s', sources)} last)

-- Once a retirement has returned, a write that names one of its identities among others throws that
-- the identity is retired.
pub retire-closes :
    (i : IdentityInput) (s s' : IdentityStore) (sources : List Source) (l : List SourceIdentity)
    (r : SourceIdentity)
    → i.action ≡ retire
    → apply_source_identity_lifecycle i s ≡ ok (s', sources)
    → has_identity (requested i) r ≡ true
    → has_identity l r ≡ true
    → assert_source_identities_active (tables_of s') l ≡ err (error source_identity_retired)
unfolding assert_source_identities_active written found after
retire-closes i s s' sources l r closes e asked named =
    let shared : found l s'.tombstones ≡ true = rw⁻¹ (applied i s s' sources e) (
      rw closes (
        found-shared l r (insert_identities i.partition_key (requested i) s.tombstones) named
          (insert_identities-adds i.partition_key (requested i) r s.tombstones asked))) in
    rw shared refl

-- Once a restoration has returned, the gate of its identities is open.
pub restore-opens :
    (i : IdentityInput) (s s' : IdentityStore) (sources : List Source)
    → i.action ≡ restore
    → apply_source_identity_lifecycle i s ≡ ok (s', sources)
    → assert_source_identities_active (tables_of s') (requested i) ≡ ok tt
unfolding assert_source_identities_active written found after
restore-opens i s s' sources opens e =
    let none_left : found (requested i) s'.tombstones ≡ false =
      rw⁻¹ (applied i s s' sources e) (rw opens (found-deleted i s.tombstones)) in
    rw none_left refl

-- ===== src/Sources/Commands/Final.antt =====
-- A source that was restored or purged.
use assistant_memory.Prelude.{
  ◌∙◌, Bool, map, if◌then◌else◌, ◌≡◌, refl, ap, ==→eq, ℕ, true, false, not, ◌&&◌, ◌==◌, none, some,
  List, [], ◌∷◌, filter, any, contains, arith, Bool-cases, inl, inr,
}
use assistant_memory.Sources.Rows.{
  is_tombstone, Tombstone, SourceRow, Request, Command, Response, Store, answered, refused,
  source_not_found, returned, is_source, is_tombstoned, find_first,
}
use assistant_memory.Sources.Tree.{find_source_tree_ids, load_and_lock_source_tree}
use assistant_memory.Sources.Actions.{ids_of, erase_row, close_restored, close_purged}
use assistant_memory.Sources.Commands.{load_command, apply_locked, apply_source_lifecycle_command}
use assistant_memory.Sources.Commands.Cases.{apply-Returns}
use assistant_memory.Sources.Commands.Tombstoned.{insert_tombstones-keeps}
use assistant_memory.Sources.Commands.Reached.{
  close-any, IsEdit, Step, command, insert_source, edit_sources, delete_sources, Reach, here, next,
}

nobody :
    (user_id : ℕ) (rows : List SourceRow)
    → filter (λ s. s.user_id == user_id && contains [] s.id) rows ≡ []
unfolding contains
nobody user_id [] = refl
nobody user_id (s ∷ ss) = ground (arith, nobody user_id ss)

-- Without its row, a source has no tree, and every new command for it fails.
missing_source :
    (before : List Command) (now : ℕ) (r : Request) (s : Store)
    → any (is_source r.user_id r.source_id) s.sources ≡ false
    → load_command r.user_id r.command_id before ≡ none
    → apply_source_lifecycle_command before now r s ≡ refused source_not_found
unfolding apply_source_lifecycle_command load_and_lock_source_tree find_source_tree_ids apply_locked
    find_first
missing_source before now r s gone e = rw (e, gone) (rw (nobody r.user_id s.sources) refl)

-- The root of a tree is among its ids.
root_id :
    (id : ℕ) (tree : List SourceRow) (source : SourceRow)
    → find_first (λ k. k.id == id) tree ≡ some source
    → contains (ids_of tree) id ≡ true
unfolding find_first contains
root_id id [] source e = cc
root_id id (s ∷ ss) source e = elim (Bool-cases (s.id == id)) [
  | inl same ↦ rw same refl
  | inr other ↦ rw other (root_id id ss source (rw other at e))
]

deleted_root :
    (user_id id : ℕ) (ids : List ℕ) (rows : List SourceRow)
    → contains ids id ≡ true
    → any
        (is_source user_id id)
        (filter (λ k. not (k.user_id == user_id && contains ids k.id)) rows)
      ≡ false
deleted_root user_id id ids [] h = refl
deleted_root user_id id ids (s ∷ ss) h =
    let rest = deleted_root user_id id ids ss h in
    elim (Bool-cases (s.id == id)) [
      | inl same ↦
          ground (arith, rest, ==→eq s.id id same, ap (contains ids) (==→eq s.id id same), h)
      | inr other ↦ ground (arith, rest)
    ]

-- The source has no row, and a tombstone keeps its id.
pub record IsGone (user_id id : ℕ) (s : Store) : Type 0 where
  pub no_row : any (is_source user_id id) s.sources ≡ false
  pub buried : any (is_tombstone user_id id) s.tombstones ≡ true

found-any :
    (p : Tombstone → Bool) (ts : List Tombstone) (t : Tombstone)
    → find_first p ts ≡ some t
    → any p ts ≡ true
unfolding find_first
found-any p [] t e = absurd (ground (arith, e))
found-any p (x ∷ xs) t e = elim (Bool-cases (p x)) [
  | inl hit ↦ rw hit refl
  | inr miss ↦ rw miss (found-any p xs t (rw miss at e))
]

module _ (r : Request) where
  -- The response is new, and it ends the source.
  abbrev Ends : Store × Response → Type 0
  Ends d = d.1.replayed ≡ false → is_tombstoned d.1.state ≡ false → IsGone r.user_id r.source_id d.0

  source-Ends :
      (before : List Command) (now : ℕ) (s s' : Store) (p : Response)
      → apply_source_lifecycle_command before now r s ≡ answered (s', p)
      → Ends (s', p)
  source-Ends before now s s' p e =
      returned Ends (apply_source_lifecycle_command before now r s) (s', p)
        (apply-Returns Ends now r s before (λ c seen same new ended. absurd (cc))
          (λ c seen same new ended. absurd (cc))
          (λ tree source d root unseen key version. record {
            on_tombstone = λ a live fresh updated f new ended. absurd (cc);
            on_restore = λ t a f h k l new ended. record {
              no_row =
                  deleted_root r.user_id r.source_id (ids_of tree) s.sources
                    (root_id r.source_id tree source root);
              buried =
                  close-any (close_restored now) (λ t u id. refl) r.user_id (ids_of tree) r.user_id
                    r.source_id s.tombstones
                  ∙ found-any (is_tombstone r.user_id r.source_id) s.tombstones t f;
            };
            on_purge = λ t a f h new ended. record {
              no_row =
                  deleted_root r.user_id r.source_id (ids_of tree) s.sources
                    (root_id r.source_id tree source root);
              buried =
                  close-any (close_purged now) (λ t u id. refl) r.user_id (ids_of tree) r.user_id
                    r.source_id s.tombstones
                  ∙ found-any (is_tombstone r.user_id r.source_id) s.tombstones t f;
            };
          }))
        e

module _ (user_id id : ℕ) where
  -- Edits that keep the keys bring no row.
  map-no_row :
      (f : SourceRow → SourceRow) (rows : List SourceRow)
      → ((k : SourceRow) → is_source user_id id (f k) ≡ is_source user_id id k)
      → any (is_source user_id id) rows ≡ false
      → any (is_source user_id id) (map f rows) ≡ false
  map-no_row f [] same h = refl
  map-no_row f (k ∷ ks) same h = ground (arith, same k, map-no_row f ks same (ground (arith, h)), h)

  filter-no_row :
      (p : SourceRow → Bool) (rows : List SourceRow)
      → any (is_source user_id id) rows ≡ false
      → any (is_source user_id id) (filter p rows) ≡ false
  filter-no_row p [] h = refl
  filter-no_row p (k ∷ ks) h =
      let rest = filter-no_row p ks (ground (arith, h)) in
      elim (Bool-cases (p k)) [
        | inl kept ↦ rw kept (ground (arith, rest, h))
        | inr dropped ↦ rw dropped rest
      ]

  erased-same :
      (now : ℕ) (b : Bool) (k : SourceRow)
      → is_source user_id id (if b then erase_row now k else k) ≡ is_source user_id id k
  erased-same now true k = refl
  erased-same now false k = refl

  command-IsGone :
      (before : List Command) (now : ℕ) (r : Request) (s s' : Store) (p : Response)
      → apply_source_lifecycle_command before now r s ≡ answered (s', p)
      → IsGone user_id id s
      → IsGone user_id id s'
  command-IsGone before now r s s' p e h =
      returned (λ d. IsGone user_id id d.0) (apply_source_lifecycle_command before now r s) (s', p)
        (apply-Returns (λ d. IsGone user_id id d.0) now r s before (λ c seen same. h)
          (λ c seen same. h)
          (λ tree source d root unseen key version. record {
            on_tombstone = λ a live fresh updated f. record {
              no_row = map-no_row _ s.sources (λ k. erased-same now _ k) h.no_row;
              buried = insert_tombstones-keeps now r.user_id user_id id tree s.tombstones h.buried;
            };
            on_restore = λ t a f k l m. record {
              no_row = filter-no_row _ s.sources h.no_row;
              buried =
                  close-any (close_restored now) (λ t u i. refl) r.user_id (ids_of tree) user_id id
                    s.tombstones
                  ∙ h.buried;
            };
            on_purge = λ t a f k. record {
              no_row = filter-no_row _ s.sources h.no_row;
              buried =
                  close-any (close_purged now) (λ t u i. refl) r.user_id (ids_of tree) user_id id
                    s.tombstones
                  ∙ h.buried;
            };
          }))
        e

  edited-same :
      (f : SourceRow → SourceRow) (k : SourceRow)
      → IsEdit f
      → is_source user_id id (f k) ≡ is_source user_id id k
  edited-same f k e = rw (e.same_user k, e.same_id k) refl

  fresh-no_row :
      (k : SourceRow) (ts : List Tombstone)
      → any (is_tombstone k.user_id k.id) ts ≡ false
      → any (is_tombstone user_id id) ts ≡ true
      → is_source user_id id k ≡ false
  fresh-no_row k ts fresh there = elim (Bool-cases (is_source user_id id k)) [
    | inr other ↦ other
    | inl own ↦ absurd (
        ground (
          arith,
          ap (λ u. any (is_tombstone u k.id) ts) (==→eq k.user_id user_id (ground (arith, own))),
          ap (λ i. any (is_tombstone user_id i) ts) (==→eq k.id id (ground (arith, own))),
          fresh,
          there,
        ))
  ]

  Step-IsGone : {s t : Store} → Step s t → IsGone user_id id s → IsGone user_id id t
  Step-IsGone {s} {t} (command before now r p e) h = command-IsGone before now r s t p e h
  Step-IsGone {s} (insert_source k fresh) h = record {
    no_row = ground (arith, fresh-no_row k s.tombstones fresh h.buried, h.no_row);
    buried = h.buried;
  }
  Step-IsGone {s} (edit_sources f e) h = record {
    no_row = map-no_row f s.sources (λ k. edited-same f k e) h.no_row;
    buried = h.buried;
  }
  Step-IsGone {s} (delete_sources p) h = record {
    no_row = filter-no_row p s.sources h.no_row;
    buried = h.buried;
  }

  Reach-IsGone : {s t : Store} → Reach s t → IsGone user_id id s → IsGone user_id id t
  Reach-IsGone here h = h
  Reach-IsGone (next r step) h = Step-IsGone step (Reach-IsGone r h)

-- After a command that is no replay and is answered with another state than tombstoned, and then any
-- sequence of lifecycle commands, insertions under ids without a tombstone, edits that keep the keys of
-- the rows and restore nothing, and deletions, a command of the user for the source, under an id that
-- its first read does not find, is refused because the source is not found.
pub apply_source_lifecycle_command-ends :
    (before before' : List Command) (now now' : ℕ) (r r' : Request) (s s' t : Store) (p : Response)
    → apply_source_lifecycle_command before now r s ≡ answered (s', p)
    → p.replayed ≡ false
    → is_tombstoned p.state ≡ false
    → Reach s' t
    → r'.user_id ≡ r.user_id
    → r'.source_id ≡ r.source_id
    → load_command r'.user_id r'.command_id before' ≡ none
    → apply_source_lifecycle_command before' now' r' t ≡ refused source_not_found
apply_source_lifecycle_command-ends before before' now now' r r' s s' t p e new ended later user id
      unseen =
    let gone =
      Reach-IsGone r.user_id r.source_id later (source-Ends r before now s s' p e new ended) in
    missing_source before' now' r' t (rw (user, id) gone.no_row) unseen

-- ===== src/Chunking/Kept.antt =====
-- What the chunks keep of a text.
use assistant_memory.Prelude.{
  ℕ, true, ◌==◌, ◌≡◌, refl, sym, ap, ◌∙◌, inl, inr, List, [], ◌∷◌, ◌++◌, Bool-cases, ltb, length,
  arith, ==→eq,
}
use mathlib.Core.List.{append_assoc, append-nil}
use assistant_memory.Chunking.{
  Text, newline, is_space, is_empty, trim_end, trim, join, separator, unless_empty,
  split_into_sections, Scan, stays_in_gap, step, found, pieces, start, trimmed,
  split_into_paragraphs, is_heading_only_paragraph, merge_headings_into_next, Buffer, empty_buffer,
  flush, overflows, given, filled, pack, whole, units, sub_split_oversized_section, chunk_markdown,
}
use assistant_memory.Chunking.Content.{
  content, content_all, content-append, content-cons, content_all-append, content-trim,
  content-trim_end, content_all-unless_empty, content-join, content_all-split_into_sections,
}

content_all-trimmed : (ts : List Text) → content_all (trimmed ts) ≡ content_all ts
unfolding trimmed content_all
content_all-trimmed [] = refl
content_all-trimmed (t ∷ ts) =
    content_all-append (unless_empty (trim t)) (trimmed ts)
    ∙ ap (λ x. x ++ content_all (trimmed ts)) (content_all-unless_empty (trim t) ∙ content-trim t)
    ∙ ap (λ x. content t ++ x) (content_all-trimmed ts)

content_nil : content [] ≡ []
unfolding content
content_nil = refl

stays-blank : (s : Scan) (c : ℕ) → stays_in_gap s c ≡ true → content (c ∷ []) ≡ []
unfolding content
stays-blank s c stays = elim (Bool-cases (is_space c)) [
  | inl blank ↦ rw blank
  | inr mark ↦ elim (Bool-cases (c == newline)) [
    | inl line ↦ rw (==→eq c newline line)
    | inr other ↦ absurd (ground (arith, rw (mark, other) at stays))
  ]
]

-- A step moves a character from the text that is left to the text before the scan.
step-keeps :
    (s : Scan) (c : ℕ)
    → content s.gap ≡ []
    → (content (step s c).gap ≡ [])
      × (content_all (found s c) ++ content (step s c).before
          ≡ content s.before ++ content (c ∷ []))
unfolding content_all
step-keeps s c e = elim (Bool-cases (stays_in_gap s c)) [
  | inl stays ↦
      let blank = stays-blank s c stays in
      (
        rw stays (content-append s.gap (c ∷ []) ∙ ap (λ x. x ++ content (c ∷ [])) e ∙ blank),
        none_found stays
            (sym (append-nil (content s.before)) ∙ ap (λ x. content s.before ++ x) (sym blank)),
      )
  | inr on ↦ elim (Bool-cases s.seen) [
    | inl seen ↦ (
      rw on content_nil,
      rw (on, seen) (ap (λ x. x ++ content (c ∷ [])) (append-nil (content s.before))),
    )
    | inr unseen ↦ (
      rw on content_nil,
      rw (on, unseen)
          (content-append (s.before ++ s.gap) (c ∷ [])
            ∙ ap (λ x. x ++ content (c ∷ []))
                (content-append s.before s.gap
                  ∙ ap (λ x. content s.before ++ x) e
                  ∙ append-nil (content s.before))),
    )
  ]
]
  where
    none_found :
        stays_in_gap s c ≡ true
        → content s.before ≡ content s.before ++ content (c ∷ [])
        → content_all (found s c) ++ content (step s c).before
          ≡ content s.before ++ content (c ∷ [])
    none_found stays h = elim (Bool-cases s.seen) [
      | inl seen ↦ rw (stays, seen) h
      | inr unseen ↦ rw (stays, unseen) h
    ]

-- The text before the scan, and what is left of it.
content_all-pieces :
    (s : Scan) (cs : Text)
    → content s.gap ≡ []
    → content_all (pieces s cs) ≡ content s.before ++ content cs
unfolding pieces content_all
content_all-pieces s [] e =
    append-nil (content s.before)
    ∙ sym (ap (λ x. content s.before ++ x) content_nil ∙ append-nil (content s.before))
content_all-pieces s (c ∷ cs) e =
    let (blank, moved) = step-keeps s c e in
    content_all-append (found s c) (pieces (step s c) cs)
    ∙ ap (λ x. content_all (found s c) ++ x) (content_all-pieces (step s c) cs blank)
    ∙ sym (append_assoc (content_all (found s c)) (content (step s c).before) (content cs))
    ∙ ap (λ x. x ++ content cs) moved
    ∙ append_assoc (content s.before) (content (c ∷ [])) (content cs)
    ∙ ap (λ x. content s.before ++ x) (sym (content-cons c cs))

content_all-merge : (ps : List Text) → content_all (merge_headings_into_next ps) ≡ content_all ps
unfolding merge_headings_into_next content_all content
content_all-merge [] = refl
content_all-merge (p ∷ []) = refl
content_all-merge (p ∷ q ∷ qs) = elim (Bool-cases (is_heading_only_paragraph p)) [
  | inl heading ↦ rw heading (
      ap (λ x. x ++ content_all (merge_headings_into_next qs))
        (content-append (p ++ separator) q
          ∙ ap (λ x. x ++ content q) (content-append p separator ∙ append-nil (content p)))
      ∙ append_assoc (content p) (content q) (content_all (merge_headings_into_next qs))
      ∙ ap (λ x. content p ++ (content q ++ x)) (content_all-merge qs))
  | inr other ↦ rw other (ap (λ x. content p ++ x) (content_all-merge (q ∷ qs)))
]

content_all-flush : (b : Buffer) → content_all (flush b) ≡ content_all b.texts
unfolding flush content
content_all-flush b =
    content_all-unless_empty (trim_end (join separator b.texts))
    ∙ content-trim_end (join separator b.texts)
    ∙ content-join separator b.texts refl

module _ (max_chars : ℕ) (split : Text → List Text)
    (keeps : (t : Text) → content_all (split t) ≡ content t) where
  content_all-given :
      (b : Buffer) (t : Text)
      → content_all (given max_chars split b t) ++ content_all (filled max_chars b t).texts
        ≡ content_all b.texts ++ content t
  unfolding content_all
  content_all-given b t = elim (Bool-cases (ltb max_chars (length t))) [
    | inl long ↦ rw long (
        append-nil (content_all (flush b ++ split t))
        ∙ content_all-append (flush b) (split t)
        ∙ ap (λ x. x ++ content_all (split t)) (content_all-flush b)
        ∙ ap (λ x. content_all b.texts ++ x) (keeps t))
    | inr fits ↦ elim (Bool-cases (overflows max_chars b t)) [
      | inl full ↦
          rw (fits, full)
            (ap (λ x. x ++ (content t ++ [])) (content_all-flush b)
              ∙ ap (λ x. content_all b.texts ++ x) (append-nil (content t)))
      | inr room ↦
          rw (fits, room)
            (content_all-append b.texts (t ∷ [])
              ∙ ap (λ x. content_all b.texts ++ x) (append-nil (content t)))
    ]
  ]

  content_all-pack :
      (b : Buffer) (ts : List Text)
      → content_all (pack max_chars split b ts) ≡ content_all b.texts ++ content_all ts
  unfolding pack content_all
  content_all-pack b [] = content_all-flush b ∙ sym (append-nil (content_all b.texts))
  content_all-pack b (t ∷ ts) =
      content_all-append (given max_chars split b t)
        (pack max_chars split (filled max_chars b t) ts)
      ∙ ap (λ x. content_all (given max_chars split b t) ++ x)
          (content_all-pack (filled max_chars b t) ts)
      ∙ sym (
          append_assoc (content_all (given max_chars split b t))
            (content_all (filled max_chars b t).texts) (content_all ts))
      ∙ ap (λ x. x ++ content_all ts) (content_all-given b t)
      ∙ append_assoc (content_all b.texts) (content t) (content_all ts)

content_all-units : (t : Text) → content_all (units t) ≡ content t
unfolding units split_into_paragraphs content
content_all-units t =
    content_all-merge (split_into_paragraphs t)
    ∙ content_all-trimmed (pieces start t)
    ∙ content_all-pieces start t refl

content_all-whole : (t : Text) → content_all (whole t) ≡ content t
unfolding content_all
content_all-whole t = append-nil (content (trim_end t)) ∙ content-trim_end t

content_all-sub_split :
    (max_chars : ℕ) (t : Text) → content_all (sub_split_oversized_section max_chars t) ≡ content t
unfolding sub_split_oversized_section content_all
content_all-sub_split max_chars t =
    content_all-pack max_chars whole content_all-whole empty_buffer (units t) ∙ content_all-units t

-- Whatever the bound is, the chunks carry all of the text and nothing else, in its order, but for
-- white space.
pub chunk_markdown-keeps :
    (markdown : Text) (max_chars : ℕ)
    → content_all (chunk_markdown markdown max_chars) ≡ content markdown
unfolding chunk_markdown content_all content
chunk_markdown-keeps markdown max_chars = elim (Bool-cases (is_empty (trim markdown))) [
  | inl blank ↦ rw blank (sym (of_empty (trim markdown) blank) ∙ content-trim markdown)
  | inr text ↦ rw text (
      content_all-pack max_chars (sub_split_oversized_section max_chars)
        (content_all-sub_split max_chars) empty_buffer (split_into_sections markdown)
      ∙ content_all-split_into_sections markdown)
]
  where
    of_empty : (t : Text) → is_empty t ≡ true → content t ≡ []
    of_empty [] e = refl
    of_empty (c ∷ cs) e = absurd (ground (arith, e))

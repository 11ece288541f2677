-- ===== src/Chunking/Fits.antt =====
-- Which chunks are longer than the bound.
use assistant_memory.Prelude.{
  All-both, ℕ, ◌≤◌, ◌<◌, false, not, ◌&&◌, ◌≡◌, refl, ◌⊎◌, inl, inr, List, [], ◌∷◌, ◌++◌, length,
  All, All-append, All-impl, Bool-cases, arith,
}
use mathlib.Core.List.{Memᴰ}
use assistant_memory.Chunking.{
  Text, newline, is_empty, trim_end, trim, join, separator, unless_empty, is_heading, section_of,
  sections_from, split_into_sections, pieces, start, trimmed, split_into_paragraphs,
  is_heading_only_paragraph, merge_headings_into_next, empty_buffer, whole, units,
  sub_split_oversized_section, chunk_markdown, split_lines,
}
use assistant_memory.Chunking.Bounds.{IsPacked, IsSplit, pack-All}

abbrev IsText : Text → Type 0
IsText t = is_empty t ≡ false

unless_empty-IsText : (t : Text) → All IsText (unless_empty t)
unless_empty-IsText [] = tt
unless_empty-IsText (c ∷ cs) = (refl, tt)

trimmed-IsText : (ts : List Text) → All IsText (trimmed ts)
unfolding trimmed
trimmed-IsText [] = tt
trimmed-IsText (t ∷ ts) =
    All-append IsText (unless_empty (trim t)) (trimmed ts) (unless_empty-IsText (trim t))
      (trimmed-IsText ts)

glued-IsText : (p q : Text) → IsText p → IsText (p ++ separator ++ q)
glued-IsText [] q h = absurd (ground (arith, h))
glued-IsText (c ∷ cs) q h = refl

merge-IsText : (ps : List Text) → All IsText ps → All IsText (merge_headings_into_next ps)
unfolding merge_headings_into_next
merge-IsText [] h = tt
merge-IsText (p ∷ []) h = h
merge-IsText (p ∷ q ∷ qs) (h, (k, l)) = elim (Bool-cases (is_heading_only_paragraph p)) [
  | inl heading ↦ rw heading (glued-IsText p q h, merge-IsText qs l)
  | inr other ↦ rw other (h, merge-IsText (q ∷ qs) (k, l))
]

sections_from-IsText : (current ls : List Text) → All IsText (sections_from current ls)
unfolding sections_from section_of
sections_from-IsText current [] = unless_empty-IsText (trim (join (newline ∷ []) current))
sections_from-IsText current (l ∷ ls) =
    elim (Bool-cases (is_heading 2 l && not (is_empty current))) [
      | inl cut ↦ rw cut (
          All-append IsText (section_of current) (sections_from (l ∷ []) ls)
            (unless_empty-IsText (trim (join (newline ∷ []) current)))
            (sections_from-IsText (l ∷ []) ls))
      | inr on ↦ rw on (sections_from-IsText (current ++ (l ∷ [])) ls)
    ]

All-members {ℓ} : {A : Type ℓ} → (xs : List A) → All (λ x. Memᴰ x xs) xs
All-members [] = tt
All-members (x ∷ xs) = (Memᴰ.head refl, All-impl (λ y m. Memᴰ.tail m) xs (All-members xs))

empty-IsPacked : (max_chars : ℕ) → IsPacked max_chars empty_buffer
unfolding join
empty-IsPacked max_chars = record { counted = refl; bounded = ground arith; filled_up = refl }

-- A chunk that is one paragraph, or a heading with the paragraph after it, which was too long.
pub record IsLongUnit (markdown : Text) (max_chars : ℕ) (chunk : Text) : Type 0 where
  pub section : Text
  pub paragraph : Text
  pub of_text : Memᴰ section (split_into_sections markdown)
  pub of_section : Memᴰ paragraph (units section)
  pub is_long : max_chars < length paragraph
  pub is_whole : chunk ≡ trim_end paragraph

abbrev pub IsFitting : Text → ℕ → Text → Type 0
IsFitting markdown max_chars chunk =
    (length chunk ≤ max_chars) ⊎ IsLongUnit markdown max_chars chunk

module _ (markdown : Text) (max_chars : ℕ) where
  sub_split-IsFitting :
      (s : Text)
      → Memᴰ s (split_into_sections markdown)
      → All (IsFitting markdown max_chars) (sub_split_oversized_section max_chars s)
  unfolding sub_split_oversized_section units split_into_paragraphs
  sub_split-IsFitting s m =
      pack-All max_chars whole (IsFitting markdown max_chars) (λ t h. inl h) empty_buffer (units s)
        (empty-IsPacked max_chars)
        (All-both IsText (λ p. Memᴰ p (units s))
          (IsSplit max_chars whole (IsFitting markdown max_chars) (λ t h. inl h))
          (λ p some_text inside. (
            some_text,
            λ long. (
              inr record {
                section = s;
                paragraph = p;
                of_text = m;
                of_section = inside;
                is_long = long;
                is_whole = refl;
              },
              tt,
            ),
          ))
          (units s) (merge-IsText (split_into_paragraphs s) (trimmed-IsText (pieces start s)))
          (All-members (units s)))

  -- Every chunk is within the bound, or it is a single paragraph of a section, with its heading where it
  -- follows one, that is longer than the bound itself, without the white space at its end.
  pub chunk_markdown-IsFitting :
      All (IsFitting markdown max_chars) (chunk_markdown markdown max_chars)
  unfolding chunk_markdown split_into_sections
  chunk_markdown-IsFitting = elim (Bool-cases (is_empty (trim markdown))) [
    | inl blank ↦ rw blank tt
    | inr text ↦ rw text (
        pack-All max_chars (sub_split_oversized_section max_chars) (IsFitting markdown max_chars)
          (λ t h. inl h) empty_buffer (split_into_sections markdown) (empty-IsPacked max_chars)
          (All-both IsText (λ s. Memᴰ s (split_into_sections markdown))
            (IsSplit max_chars (sub_split_oversized_section max_chars)
              (IsFitting markdown max_chars) (λ t h. inl h))
            (λ s some_text inside. (some_text, λ long. sub_split-IsFitting s inside))
            (split_into_sections markdown) (sections_from-IsText [] (split_lines markdown))
            (All-members (split_into_sections markdown))))
  ]

-- ===== src/Tests/Chunking.antt =====
-- A heading with two paragraphs, and a second heading.
use assistant_memory.Prelude.{◌≡◌, refl, [], ◌∷◌, All, contains}
use assistant_memory.Chunking.{
  Text, hash, newline, is_space, trim_start, trim_end, join, split_lines, is_heading, section_of,
  sections_from, split_into_sections, pieces, trimmed, split_into_paragraphs,
  is_heading_only_paragraph, merge_headings_into_next, flush, pack, units,
  sub_split_oversized_section, chunk_markdown,
}
use assistant_memory.Chunking.Content.{content, content_all}
use assistant_memory.Chunking.Kept.{chunk_markdown-keeps}
use assistant_memory.Chunking.Fits.{IsFitting, chunk_markdown-IsFitting}

abbrev a_text : Text
a_text =
    hash ∷ 32 ∷ 65 ∷ newline ∷ newline ∷ 98 ∷ 98 ∷ newline ∷ 32 ∷ newline ∷ 99 ∷ newline ∷ hash ∷ 32
    ∷ 68 ∷ []

-- The heading stays with its paragraph, though the two are too long.
a_text-chunks :
    chunk_markdown a_text 5
    ≡ (hash ∷ 32 ∷ 65 ∷ newline ∷ newline ∷ 98 ∷ 98 ∷ []) ∷ (99 ∷ []) ∷ (hash ∷ 32 ∷ 68 ∷ []) ∷ []
unfolding chunk_markdown is_space trim_start trim_end join split_lines is_heading section_of
    sections_from split_into_sections pieces trimmed split_into_paragraphs is_heading_only_paragraph
    merge_headings_into_next flush pack units sub_split_oversized_section contains
a_text-chunks = refl

chunk_markdown-keeps_example : content_all (chunk_markdown a_text 5) ≡ content a_text
chunk_markdown-keeps_example = chunk_markdown-keeps a_text 5

chunk_markdown-IsFitting_example : All (IsFitting a_text 5) (chunk_markdown a_text 5)
chunk_markdown-IsFitting_example = chunk_markdown-IsFitting a_text 5

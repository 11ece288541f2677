-- ===== src/Chunking.antt =====
-- src/lib/ingestion/chunk-markdown.ts: cutting a text at its headings and paragraphs.
pub mod Content
pub mod Kept
pub mod Bounds
pub mod Fits
use assistant_memory.Prelude.{
  ℕ, suc, zero, ◌+◌, Bool, true, false, not, ◌&&◌, ◌||◌, ◌==◌, ltb, leb, List, [], ◌∷◌, ◌++◌, map,
  filter, any, length, if◌then◌else◌, contains,
}

-- A string is the list of its UTF-16 code units.
abbrev pub Text : Type 0
Text = List ℕ

abbrev pub newline : ℕ
newline = 10

abbrev pub hash : ℕ
hash = 35

-- `\s`, which is also what `trim` takes away.
unfoldable pub is_space : ℕ → Bool
unfolding contains
is_space c =
    leb 9 c && leb c 13
    || leb 8192 c && leb c 8202
    || contains (32 ∷ 160 ∷ 5760 ∷ 8232 ∷ 8233 ∷ 8239 ∷ 8287 ∷ 12288 ∷ 65279 ∷ []) c

abbrev pub is_empty {ℓ} : {A : Type ℓ} → List A → Bool
is_empty [] = true
is_empty (x ∷ xs) = false

unfoldable pub trim_start : Text → Text
unfolding is_space
trim_start [] = []
trim_start (c ∷ cs) = let rest = trim_start cs in if is_space c then rest else c ∷ cs

unfoldable pub trim_end : Text → Text
unfolding is_space
trim_end [] = []
trim_end (c ∷ cs) = let rest = trim_end cs in if is_space c && is_empty rest then [] else c ∷ rest

abbrev pub trim : Text → Text
trim t = trim_start (trim_end t)

unfoldable pub join : Text → List Text → Text
join separator [] = []
join separator (t ∷ []) = t
join separator (t ∷ u ∷ us) = t ++ separator ++ join separator (u ∷ us)

abbrev pub separator : Text
separator = newline ∷ newline ∷ []

abbrev pub unless_empty : Text → List Text
unless_empty [] = []
unless_empty (c ∷ cs) = (c ∷ cs) ∷ []

abbrev pub on_first : ℕ → List Text → List Text
on_first c [] = (c ∷ []) ∷ []
on_first c (l ∷ ls) = (c ∷ l) ∷ ls

-- `split("\n")`.
unfoldable pub split_lines : Text → List Text
split_lines [] = [] ∷ []
split_lines (c ∷ cs) =
    let rest = split_lines cs in if c == newline then [] ∷ rest else on_first c rest

-- `/^#{1,n}\s/`.
unfoldable pub is_heading : ℕ → Text → Bool
unfolding is_space
is_heading zero t = false
is_heading (suc n) [] = false
is_heading (suc n) (c ∷ []) = false
is_heading (suc n) (c ∷ d ∷ ds) = c == hash && (is_space d || is_heading n (d ∷ ds))

-- `pushCurrent`.
unfoldable pub section_of : List Text → List Text
unfolding join trim_start trim_end
section_of current = unless_empty (trim (join (newline ∷ []) current))

-- The loop of `splitIntoSections`.
unfoldable pub sections_from : List Text → List Text → List Text
unfolding section_of is_heading
sections_from current [] = section_of current
sections_from current (l ∷ ls) =
    let cut = is_heading 2 l && not (is_empty current) in
    (if cut then section_of current else [])
    ++ sections_from (if cut then l ∷ [] else current ++ (l ∷ [])) ls

-- `splitIntoSections`.
unfoldable pub split_into_sections : Text → List Text
unfolding sections_from split_lines
split_into_sections markdown = sections_from [] (split_lines markdown)

-- The search for `/\n\s*\n+/`: the text before, the white space since its last newline that may begin a
-- match, and whether that has a second newline.
pub record Scan : Type 0 where
  pub before : Text
  pub gap : Text
  pub seen : Bool

abbrev pub stays_in_gap : Scan → ℕ → Bool
stays_in_gap s c = c == newline || is_space c && not (is_empty s.gap)

abbrev pub step : Scan → ℕ → Scan
step s c =
    if stays_in_gap s c
    then record {
      before = s.before;
      gap = s.gap ++ (c ∷ []);
      seen = s.seen || c == newline && not (is_empty s.gap);
    }
    else record {
      before = if s.seen then c ∷ [] else s.before ++ s.gap ++ (c ∷ []);
      gap = [];
      seen = false;
    }

-- A match ends where other text begins. The white space around it is trimmed away in any case.
abbrev pub found : Scan → ℕ → List Text
found s c = if s.seen && not (stays_in_gap s c) then s.before ∷ [] else []

unfoldable pub pieces : Scan → Text → List Text
unfolding is_space
pieces s [] = s.before ∷ []
pieces s (c ∷ cs) = found s c ++ pieces (step s c) cs

abbrev pub start : Scan
start = record { before = []; gap = []; seen = false }

-- `map` and `filter` of `splitIntoParagraphs`.
unfoldable pub trimmed : List Text → List Text
unfolding trim_start trim_end
trimmed [] = []
trimmed (t ∷ ts) = unless_empty (trim t) ++ trimmed ts

-- `splitIntoParagraphs`.
unfoldable pub split_into_paragraphs : Text → List Text
unfolding trimmed pieces
split_into_paragraphs t = trimmed (pieces start t)

-- `isHeadingOnlyParagraph`.
unfoldable pub is_heading_only_paragraph : Text → Bool
unfolding is_heading contains
is_heading_only_paragraph p = not (contains p newline) && is_heading 6 p

-- `mergeHeadingsIntoNext`.
unfoldable pub merge_headings_into_next : List Text → List Text
unfolding is_heading_only_paragraph
merge_headings_into_next [] = []
merge_headings_into_next (p ∷ []) = p ∷ []
merge_headings_into_next (p ∷ q ∷ qs) =
    let skip = merge_headings_into_next qs in
    let next = merge_headings_into_next (q ∷ qs) in
    if is_heading_only_paragraph p then (p ++ separator ++ q) ∷ skip else p ∷ next

-- The buffer of a packing loop, and the length that the loop counts.
pub record Buffer : Type 0 where
  pub texts : List Text
  pub count : ℕ

abbrev pub empty_buffer : Buffer
empty_buffer = record { texts = []; count = 0 }

-- `flush`; that of an empty buffer gives nothing.
unfoldable pub flush : Buffer → List Text
unfolding join trim_end
flush b = unless_empty (trim_end (join separator b.texts))

abbrev pub projected : Buffer → Text → ℕ
projected b t = if b.count == 0 then length t else b.count + length separator + length t

-- Whether the next text does not fit into the buffer.
abbrev pub overflows : ℕ → Buffer → Text → Bool
overflows max_chars b t = ltb max_chars (projected b t) && not (is_empty b.texts)

abbrev pub given : ℕ → (Text → List Text) → Buffer → Text → List Text
given max_chars split b t =
    if ltb max_chars (length t)
    then flush b ++ split t
    else if overflows max_chars b t
    then flush b
    else []

abbrev pub filled : ℕ → Buffer → Text → Buffer
filled max_chars b t =
    if ltb max_chars (length t)
    then empty_buffer
    else if overflows max_chars b t
    then record { texts = t ∷ []; count = length t }
    else record { texts = b.texts ++ (t ∷ []); count = projected b t }

-- The two packing loops, which differ in what they do with a text that is too long.
unfoldable pub pack : ℕ → (Text → List Text) → Buffer → List Text → List Text
unfolding flush
pack max_chars split b [] = flush b
pack max_chars split b (t ∷ ts) =
    given max_chars split b t ++ pack max_chars split (filled max_chars b t) ts

abbrev pub whole : Text → List Text
whole p = trim_end p ∷ []

unfoldable pub units : Text → List Text
unfolding merge_headings_into_next split_into_paragraphs
units section = merge_headings_into_next (split_into_paragraphs section)

-- `subSplitOversizedSection`.
unfoldable pub sub_split_oversized_section : ℕ → Text → List Text
unfolding pack units trim_end
sub_split_oversized_section max_chars section = pack max_chars whole empty_buffer (units section)

-- `chunkMarkdown`.
unfoldable pub chunk_markdown : Text → ℕ → List Text
unfolding pack split_into_sections sub_split_oversized_section trim_start trim_end
chunk_markdown markdown max_chars =
    if is_empty (trim markdown)
    then []
    else pack max_chars (sub_split_oversized_section max_chars) empty_buffer
        (split_into_sections markdown)

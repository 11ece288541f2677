-- ===== src/Chunking/Content.antt =====
-- What the steps of the cutting keep of a text.
use assistant_memory.Prelude.{
  ℕ, true, not, ◌&&◌, ◌==◌, ◌≡◌, refl, sym, ap, ◌∙◌, inl, inr, List, [], ◌∷◌, ◌++◌, Bool-cases,
  if◌then◌else◌, ==→eq,
}
use mathlib.Core.List.{append_assoc, append-nil}
use assistant_memory.Chunking.{
  Text, newline, is_space, is_empty, trim_start, trim_end, trim, join, unless_empty, on_first,
  split_lines, is_heading, section_of, sections_from, split_into_sections,
}

-- The characters of a text that are no white space.
unfoldable pub content : Text → Text
unfolding is_space
content [] = []
content (c ∷ cs) = if is_space c then content cs else c ∷ content cs

unfoldable pub content_all : List Text → Text
unfolding content
content_all [] = []
content_all (t ∷ ts) = content t ++ content_all ts

pub content-append : (t u : Text) → content (t ++ u) ≡ content t ++ content u
unfolding content
content-append [] u = refl
content-append (c ∷ cs) u = elim (Bool-cases (is_space c)) [
  | inl blank ↦ rw blank (content-append cs u)
  | inr mark ↦ rw mark (ap (λ l. c ∷ l) (content-append cs u))
]

pub content_all-append :
    (ts us : List Text) → content_all (ts ++ us) ≡ content_all ts ++ content_all us
unfolding content_all
content_all-append [] us = refl
content_all-append (t ∷ ts) us =
    ap (λ l. content t ++ l) (content_all-append ts us)
    ∙ sym (append_assoc (content t) (content_all ts) (content_all us))

content-trim_start : (t : Text) → content (trim_start t) ≡ content t
unfolding content trim_start
content-trim_start [] = refl
content-trim_start (c ∷ cs) = elim (Bool-cases (is_space c)) [
  | inl blank ↦ rw blank (content-trim_start cs)
  | inr mark ↦ rw mark (rw mark refl)
]

pub content-trim_end : (t : Text) → content (trim_end t) ≡ content t
unfolding content trim_end
content-trim_end [] = refl
content-trim_end (c ∷ cs) = elim (Bool-cases (is_space c)) [
  | inr mark ↦ rw mark (rw mark (ap (λ l. c ∷ l) (content-trim_end cs)))
  | inl blank ↦ rw blank (of_rest blank (trim_end cs) (content-trim_end cs))
]
  where
    of_rest :
        is_space c ≡ true
        → (rest : Text) → content rest ≡ content cs
        → content (if is_empty rest then [] else c ∷ rest) ≡ content cs
    of_rest blank [] e = e
    of_rest blank (d ∷ ds) e = rw blank e

pub content-trim : (t : Text) → content (trim t) ≡ content t
content-trim t = content-trim_start (trim_end t) ∙ content-trim_end t

pub content_all-unless_empty : (t : Text) → content_all (unless_empty t) ≡ content t
unfolding content_all content
content_all-unless_empty [] = refl
content_all-unless_empty (c ∷ cs) = append-nil (content (c ∷ cs))

pub content-join :
    (between : Text) (ts : List Text)
    → content between ≡ []
    → content (join between ts) ≡ content_all ts
unfolding join content_all content
content-join between [] e = refl
content-join between (t ∷ []) e = sym (append-nil (content t))
content-join between (t ∷ u ∷ us) e =
    content-append (t ++ between) (join between (u ∷ us))
    ∙ ap (λ l. l ++ content (join between (u ∷ us)))
        (content-append t between ∙ ap (λ l. content t ++ l) e ∙ append-nil (content t))
    ∙ ap (λ l. content t ++ l) (content-join between (u ∷ us) e)

pub content-cons : (c : ℕ) (cs : Text) → content (c ∷ cs) ≡ content (c ∷ []) ++ content cs
content-cons c cs = content-append (c ∷ []) cs

content_all-on_first :
    (c : ℕ) (ls : List Text) → content_all (on_first c ls) ≡ content (c ∷ []) ++ content_all ls
unfolding content_all
content_all-on_first c [] = refl
content_all-on_first c (l ∷ ls) =
    ap (λ x. x ++ content_all ls) (content-cons c l)
    ∙ append_assoc (content (c ∷ [])) (content l) (content_all ls)

content_all-split_lines : (t : Text) → content_all (split_lines t) ≡ content t
unfolding content_all content split_lines
content_all-split_lines [] = refl
content_all-split_lines (c ∷ cs) = elim (Bool-cases (c == newline)) [
  | inl cut ↦ rw (==→eq c newline cut) (content_all-split_lines cs)
  | inr on ↦ rw on (
      content_all-on_first c (split_lines cs)
      ∙ ap (λ l. content (c ∷ []) ++ l) (content_all-split_lines cs)
      ∙ sym (content-cons c cs))
]

content_all-section_of : (ls : List Text) → content_all (section_of ls) ≡ content_all ls
unfolding section_of content
content_all-section_of ls =
    content_all-unless_empty (trim (join (newline ∷ []) ls))
    ∙ content-trim (join (newline ∷ []) ls)
    ∙ content-join (newline ∷ []) ls refl

content_all-sections_from :
    (current ls : List Text)
    → content_all (sections_from current ls) ≡ content_all current ++ content_all ls
unfolding sections_from content_all
content_all-sections_from current [] =
    content_all-section_of current ∙ sym (append-nil (content_all current))
content_all-sections_from current (l ∷ ls) =
    elim (Bool-cases (is_heading 2 l && not (is_empty current))) [
      | inl cut ↦ rw cut (
          content_all-append (section_of current) (sections_from (l ∷ []) ls)
          ∙ ap (λ x. x ++ content_all (sections_from (l ∷ []) ls)) (content_all-section_of current)
          ∙ ap (λ x. content_all current ++ x)
              (content_all-sections_from (l ∷ []) ls
                ∙ ap (λ x. x ++ content_all ls) (append-nil (content l))))
      | inr on ↦ rw on (
          content_all-sections_from (current ++ (l ∷ [])) ls
          ∙ ap (λ x. x ++ content_all ls)
              (content_all-append current (l ∷ [])
                ∙ ap (λ x. content_all current ++ x) (append-nil (content l)))
          ∙ append_assoc (content_all current) (content l) (content_all ls))
    ]

pub content_all-split_into_sections : (t : Text) → content_all (split_into_sections t) ≡ content t
unfolding split_into_sections content_all
content_all-split_into_sections t =
    content_all-sections_from [] (split_lines t) ∙ content_all-split_lines t

-- ===== src/Chunking/Bounds.antt =====
-- The length of the chunks.
use assistant_memory.Prelude.{
  ℕ, ◌+◌, ◌≤◌, ◌<◌, false, not, ◌&&◌, ◌==◌, ltb, ◌≡◌, refl, ap, ◌∙◌, inl, inr, List, [], ◌∷◌, ◌++◌,
  length, All, All-append, Bool-cases, arith, if◌then◌else◌,
}
use assistant_memory.Chunking.{
  Text, is_space, is_empty, trim_end, join, separator, unless_empty, Buffer, flush, overflows,
  given, filled, pack,
}

length-trim_end : (t : Text) → length (trim_end t) ≤ length t
unfolding trim_end
length-trim_end [] = ground arith
length-trim_end (c ∷ cs) = elim (Bool-cases (is_space c && is_empty (trim_end cs))) [
  | inl cut ↦ rw cut (ground arith)
  | inr kept ↦ rw kept (ground (arith, length-trim_end cs))
]

length-snoc : (t u : Text) → length (t ++ u) ≡ length t + length u
length-snoc [] u = ground arith
length-snoc (c ∷ cs) u = ground (arith, length-snoc cs u)

length-join_snoc :
    (ts : List Text) (t : Text)
    → is_empty ts ≡ false
    → length (join separator (ts ++ (t ∷ []))) ≡ length (join separator ts) + 2 + length t
unfolding join
length-join_snoc [] t h = absurd (ground (arith, h))
length-join_snoc (u ∷ []) t h =
    ground (arith, length-snoc (u ++ separator) t, length-snoc u separator)
length-join_snoc (u ∷ v ∷ vs) t h = ground (
  arith,
  length-join_snoc (v ∷ vs) t refl,
  length-snoc (u ++ separator) (join separator (v ∷ vs ++ (t ∷ []))),
  length-snoc (u ++ separator) (join separator (v ∷ vs)),
)

-- A buffer counts the length of its texts, which is within the bound.
pub record IsPacked (max_chars : ℕ) (b : Buffer) : Type 0 where
  pub counted : length (join separator b.texts) ≡ b.count
  pub bounded : b.count ≤ max_chars
  pub filled_up : (b.count == 0) ≡ is_empty b.texts

-- A text that is not too long, alone in the buffer.
alone-IsPacked :
    (max_chars : ℕ) (t : Text)
    → is_empty t ≡ false
    → length t ≤ max_chars
    → IsPacked max_chars record { texts = t ∷ []; count = length t }
unfolding join
alone-IsPacked max_chars [] some_text h = absurd (ground (arith, some_text))
alone-IsPacked max_chars (c ∷ cs) some_text h = record {
  counted = refl;
  bounded = h;
  filled_up = ground arith;
}

snoc-IsPacked :
    (max_chars : ℕ) (ts : List Text) (count : ℕ) (t : Text)
    → is_empty t ≡ false
    → length t ≤ max_chars
    → IsPacked max_chars record { texts = ts; count = count }
    → (ltb max_chars (if count == 0 then length t else count + 2 + length t) && not (is_empty ts))
      ≡ false
    → IsPacked max_chars record {
      texts = ts ++ (t ∷ []);
      count = if count == 0 then length t else count + 2 + length t;
    }
snoc-IsPacked max_chars [] count t some_text fits v room =
    rw (v.filled_up) (alone-IsPacked max_chars t some_text fits)
snoc-IsPacked max_chars (u ∷ us) count t some_text fits v room = rw (v.filled_up) record {
  counted = length-join_snoc (u ∷ us) t refl ∙ ap (λ n. n + 2 + length t) v.counted;
  bounded = ground (arith, rw (v.filled_up) at room);
  filled_up = ground arith;
}

filled-IsPacked :
    (max_chars : ℕ) (b : Buffer) (t : Text)
    → IsPacked max_chars b
    → is_empty t ≡ false
    → IsPacked max_chars (filled max_chars b t)
unfolding join
filled-IsPacked max_chars b t v some_text = elim (Bool-cases (ltb max_chars (length t))) [
  | inl long ↦ rw long record { counted = refl; bounded = ground arith; filled_up = refl }
  | inr fits ↦ elim (Bool-cases (overflows max_chars b t)) [
    | inl full ↦ rw (fits, full) (alone-IsPacked max_chars t some_text (ground (arith, fits)))
    | inr room ↦
        rw (fits, room)
          (snoc-IsPacked max_chars b.texts b.count t some_text (ground (arith, fits)) v room)
  ]
]

module _ {κ} (P : Text → Type κ) where
  All-unless_empty : (t : Text) → P t → All P (unless_empty t)
  All-unless_empty [] p = tt
  All-unless_empty (c ∷ cs) p = (p, tt)

module _ {κ} (max_chars : ℕ) (split : Text → List Text) (P : Text → Type κ)
    (short : (t : Text) → length t ≤ max_chars → P t) where
  abbrev pub IsSplit : Text → Type κ
  IsSplit t = (is_empty t ≡ false) × (max_chars < length t → All P (split t))

  flush-All : (b : Buffer) → IsPacked max_chars b → All P (flush b)
  unfolding flush
  flush-All b v = All-unless_empty P (trim_end (join separator b.texts)) (
      short (trim_end (join separator b.texts))
        (ground (arith, length-trim_end (join separator b.texts), v.counted, v.bounded)))

  given-All :
      (b : Buffer) (t : Text) → IsPacked max_chars b → IsSplit t → All P (given max_chars split b t)
  given-All b t v (some_text, long_parts) = elim (Bool-cases (ltb max_chars (length t))) [
    | inl long ↦
        rw long
          (All-append P (flush b) (split t) (flush-All b v) (long_parts (ground (arith, long))))
    | inr fits ↦ elim (Bool-cases (overflows max_chars b t)) [
      | inl full ↦ rw (fits, full) (flush-All b v)
      | inr room ↦ rw (fits, room) tt
    ]
  ]

  pub pack-All :
      (b : Buffer) (ts : List Text)
      → IsPacked max_chars b
      → All IsSplit ts
      → All P (pack max_chars split b ts)
  unfolding pack
  pack-All b [] v h = flush-All b v
  pack-All b (t ∷ ts) v (p, h) =
      All-append P (given max_chars split b t) (pack max_chars split (filled max_chars b t) ts)
        (given-All b t v p)
        (pack-All (filled max_chars b t) ts (filled-IsPacked max_chars b t v (p.0)) h)

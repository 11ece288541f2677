-- ===== src/Erasure/Rows/Deletes.antt =====
-- What a deletion leaves, row by row.
use mathlib.Core.List.{Memᴰ}
use assistant_memory.Prelude.{
  ◌≡◌, refl, ℕ, Bool, true, false, not, List, [], ◌∷◌, ◌++◌, map, filter, any, contains, ◌||◌, ◌==◌,
  ==→eq, ==_refl, All, All-filter, arith, Bool-cases, inl, inr,
}
use assistant_memory.Erasure.Rows.{delete_where}

module _ {ℓ} {A : Type ℓ} where
  pub All-always {κ} : (P : A → Type κ) → ((x : A) → P x) → (xs : List A) → All P xs
  All-always P f [] = tt
  All-always P f (x ∷ xs) = (f x, All-always P f xs)

  -- The rows that a deletion leaves fail its test.
  pub All-delete_self : (p : A → Bool) (xs : List A) → All (λ x. p x ≡ false) (delete_where p xs)
  All-delete_self p [] = tt
  All-delete_self p (x ∷ xs) = elim (Bool-cases (p x)) [
    | inl gone ↦ rw gone (All-delete_self p xs)
    | inr kept ↦ rw kept (kept, All-delete_self p xs)
  ]

  -- What holds of every row still does.
  pub All-delete {κ} :
      (P : A → Type κ) (p : A → Bool) (xs : List A) → All P xs → All P (delete_where p xs)
  All-delete P p xs h = All-filter P (λ x. not (p x)) xs h

  pub filter-All : (p : A → Bool) (xs : List A) → All (λ x. p x ≡ true) xs → filter p xs ≡ xs
  filter-All p [] h = refl
  filter-All p (x ∷ xs) (q, h) = rw (q, filter-All p xs h)

  pub map_same : (f : A → A) (xs : List A) → All (λ x. f x ≡ x) xs → map f xs ≡ xs
  map_same f [] h = refl
  map_same f (x ∷ xs) (q, h) = rw (q, map_same f xs h)

  pub mem-any : (p : A → Bool) (xs : List A) (x : A) → Memᴰ x xs → p x ≡ true → any p xs ≡ true
  mem-any p [] x m h = elim m [ ]
  mem-any p (y ∷ ys) x (Memᴰ.head e) h = rw (← e, h)
  mem-any p (y ∷ ys) x (Memᴰ.tail m) h = ground (arith, mem-any p ys x m h)

  pub All-from_mem {κ} : (P : A → Type κ) (xs : List A) → ((x : A) → Memᴰ x xs → P x) → All P xs
  All-from_mem P [] f = tt
  All-from_mem P (x ∷ xs) f = (f x (Memᴰ.head refl), All-from_mem P xs (λ y m. f y (Memᴰ.tail m)))

module _ {ℓ} {A : Type ℓ} (id : A → ℕ) (p : A → Bool) where
  -- An id in the column of the rows that pass a test.
  pub contains-column :
      (xs : List A) (k : ℕ)
      → contains (map id (filter p xs)) k ≡ true
      → (x : A) × (p x ≡ true) × (id x ≡ k) × Memᴰ x xs
  unfolding contains
  contains-column [] k h = cc
  contains-column (x ∷ xs) k h = elim (Bool-cases (p x)) [
    | inl kept ↦ elim (Bool-cases (id x == k)) [
      | inl same ↦ (x, kept, ==→eq (id x) k same, Memᴰ.head refl)
      | inr other ↦
          let (m, a, b, c) = contains-column xs k (rw (kept, other) at h) in (m, a, b, Memᴰ.tail c)
    ]
    | inr dropped ↦
        let (m, a, b, c) = contains-column xs k (rw dropped at h) in (m, a, b, Memᴰ.tail c)
  ]

  pub mem-column :
      (xs : List A) (x : A) → Memᴰ x xs → p x ≡ true → contains (map id (filter p xs)) (id x) ≡ true
  unfolding contains
  mem-column [] x m h = elim m [ ]
  mem-column (y ∷ ys) x (Memᴰ.head e) h = rw (← e, h, ==_refl (id x)) refl
  mem-column (y ∷ ys) x (Memᴰ.tail m) h = ground (arith, mem-column ys x m h)

pub contains-append :
    (xs ys : List ℕ) (n : ℕ) → contains (xs ++ ys) n ≡ (contains xs n || contains ys n)
unfolding contains
contains-append [] ys n = refl
contains-append (x ∷ xs) ys n = ground (arith, contains-append xs ys n)

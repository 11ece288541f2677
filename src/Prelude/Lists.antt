-- ===== src/Prelude/Lists.antt =====
-- Lists with Boolean tests and native lengths.
use Prim.Native.Nat.{ℕ, zero, suc}
use mathlib.Core.Bool.{Bool, true, false, not, ◌||◌}
use mathlib.Core.List.{List, [], ◌∷◌, ◌++◌, map, Memᴰ}
use assistant_memory.Prelude.Tests.{◌==◌, if◌then◌else◌, Bool-cases}
use mathlib.Core.Path.{◌≡◌, refl, sym, ap, ◌∙◌, subst}
use mathlib.Core.Logic.{inl, inr}
use native.Mathlib.Omega.{arith}

module _ {ℓ} {A : Type ℓ} where
  abbrev pub length : List A → ℕ
  length [] = 0
  length (x ∷ xs) = suc (length xs)

  -- `Array.prototype.some` and `every`.
  abbrev pub any : (A → Bool) → List A → Bool
  any p [] = false
  any p (x ∷ xs) = p x || any p xs

  abbrev pub filter : (A → Bool) → List A → List A
  filter p [] = []
  filter p (x ∷ xs) = if p x then x ∷ filter p xs else filter p xs

  abbrev pub take : ℕ → List A → List A
  take zero xs = []
  take (suc n) [] = []
  take (suc n) (x ∷ xs) = x ∷ take n xs

-- `Set.has` and `includes` on ids.
unfoldable pub contains : List ℕ → ℕ → Bool
contains [] a = false
contains (x ∷ xs) a = x == a || contains xs a

-- `new Set(…)`: each number once, the first occurrence kept.
unfoldable pub distinct : List ℕ → List ℕ
distinct [] = []
distinct (x ∷ xs) = x ∷ filter (λ y. not (x == y)) (distinct xs)

contains-filter :
    (x a : ℕ) (xs : List ℕ)
    → (x == a) ≡ false
    → contains (filter (λ y. not (x == y)) xs) a ≡ contains xs a
unfolding contains
contains-filter x a [] h = refl
contains-filter x a (y ∷ ys) h = elim (Bool-cases (x == y)) [
  | inl same ↦ ground (arith, contains-filter x a ys h)
  | inr other ↦ rw (other, contains-filter x a ys h)
]

pub contains-distinct : (a : ℕ) (xs : List ℕ) → contains (distinct xs) a ≡ contains xs a
unfolding contains distinct
contains-distinct a [] = refl
contains-distinct a (x ∷ xs) = elim (Bool-cases (x == a)) [
  | inl same ↦ rw same
  | inr other ↦ rw (other, contains-filter x a (distinct xs) other, contains-distinct a xs)
]

module _ {ℓ κ} {A : Type ℓ} (P : A → Type κ) where
  abbrev pub All : List A → Type κ
  All [] = Unit
  All (x ∷ xs) = P x × All xs

  pub All-append : (xs ys : List A) → All xs → All ys → All (xs ++ ys)
  All-append [] ys h k = k
  All-append (x ∷ xs) ys (p, h) k = (p, All-append xs ys h k)

module _ {ℓ κ μ} {A : Type ℓ} {P : A → Type κ} {Q : A → Type μ} where
  pub All-impl : ((a : A) → P a → Q a) → (xs : List A) → All P xs → All Q xs
  All-impl f [] h = tt
  All-impl f (x ∷ xs) (p, h) = (f x p, All-impl f xs h)

module _ {ℓ} {A : Type ℓ} (p : A → Bool) where
  -- What a filter keeps passes its test.
  pub All-filter_self : (xs : List A) → All (λ x. p x ≡ true) (filter p xs)
  All-filter_self [] = tt
  All-filter_self (x ∷ xs) = elim (Bool-cases (p x)) [
    | inl kept ↦ rw kept (kept, All-filter_self xs)
    | inr dropped ↦ rw dropped (All-filter_self xs)
  ]

module _ {ℓ κ} {A : Type ℓ} (P : A → Type κ) (p : A → Bool) where
  pub All-filter : (xs : List A) → All P xs → All P (filter p xs)
  All-filter [] h = tt
  All-filter (x ∷ xs) (q, h) = elim (Bool-cases (p x)) [
    | inl kept ↦ rw kept (q, All-filter xs h)
    | inr dropped ↦ rw dropped (All-filter xs h)
  ]

module _ {ℓ κ μ} {A : Type ℓ} {B : Type κ} (P : B → Type μ) (f : A → B) where
  pub All-map : (xs : List A) → All (λ x. P (f x)) xs → All P (map f xs)
  All-map [] h = tt
  All-map (x ∷ xs) (p, h) = (p, All-map xs h)

module _ {ℓ} {A : Type ℓ} where
  pub All-mem {κ} : (P : A → Type κ) (xs : List A) (x : A) → All P xs → Memᴰ x xs → P x
  All-mem P [] x h m = elim m [ ]
  All-mem P (y ∷ ys) x (p, h) (Memᴰ.head e) = subst P (sym e) p
  All-mem P (y ∷ ys) x (p, h) (Memᴰ.tail m) = All-mem P ys x h m

  mem-cons_filter :
      (p : A → Bool) (y : A) (ys zs : List A) (x : A)
      → p y ≡ true
      → (Memᴰ x zs → Memᴰ x ys × (p x ≡ true))
      → Memᴰ x (y ∷ zs)
      → Memᴰ x (y ∷ ys) × (p x ≡ true)
  mem-cons_filter p y ys zs x kept f (Memᴰ.head e) = (Memᴰ.head e, ap p e ∙ kept)
  mem-cons_filter p y ys zs x kept f (Memᴰ.tail m) = let (n, e) = f m in (Memᴰ.tail n, e)

  pub mem-filter :
      (p : A → Bool) (xs : List A) (x : A) → Memᴰ x (filter p xs) → Memᴰ x xs × (p x ≡ true)
  mem-filter p [] x m = elim m [ ]
  mem-filter p (y ∷ ys) x m = elim (Bool-cases (p y)) [
    | inl kept ↦ mem-cons_filter p y ys (filter p ys) x kept (mem-filter p ys x) (rw kept at m)
    | inr dropped ↦ let (n, e) = mem-filter p ys x (rw dropped at m) in (Memᴰ.tail n, e)
  ]

  pub any-false : (p : A → Bool) (xs : List A) → any p xs ≡ false → All (λ x. p x ≡ false) xs
  any-false p [] h = tt
  any-false p (x ∷ xs) h = elim (Bool-cases (p x)) [
    | inl yes_x ↦ cc (rw yes_x at h)
    | inr no_x ↦ (no_x, any-false p xs (rw no_x at h))
  ]

module _ {ℓ κ} {A : Type ℓ} (P : A → Type κ) where
  pub All-take : (n : ℕ) (xs : List A) → All P xs → All P (take n xs)
  All-take zero xs h = tt
  All-take (suc n) [] h = tt
  All-take (suc n) (x ∷ xs) (p, h) = (p, All-take n xs h)

pub All-both {ℓ κ μ ν} :
    {A : Type ℓ}
    → (P : A → Type κ) (Q : A → Type μ) (R : A → Type ν) → ((a : A) → P a → Q a → R a)
    → (xs : List A) → All P xs
    → All Q xs
    → All R xs
All-both P Q R f [] h k = tt
All-both P Q R f (x ∷ xs) (p, h) (q, k) = (f x p q, All-both P Q R f xs h k)

-- ===== src/Prelude/Sorting.antt =====
-- `slices.Sort` and `slices.Compare(a, b) == 0` on lists of names, and what their pair decides.
use eebus_go.Prelude.Tests.{◌==◌, leb, leb→le, if◌then◌else◌, Bool-cases}
use eebus_go.Prelude.Lists.{All}
use Prim.Native.Nat.{ℕ, suc, ◌≤◌, ◌<◌}
use mathlib.Core.Path.{◌≡◌, refl, ap}
use mathlib.Core.Logic.{inl, inr}
use mathlib.Core.Bool.{Bool, true, false, ◌&&◌}
use mathlib.Core.List.{List, [], ◌∷◌}
use native.Mathlib.Omega.{arith}

unfoldable pub insert : ℕ → List ℕ → List ℕ
insert a [] = a ∷ []
insert a (x ∷ xs) = let rest = x ∷ insert a xs in if leb a x then a ∷ x ∷ xs else rest

-- Equal names cannot be told apart, so every sorting algorithm returns this list.
unfoldable pub sort : List ℕ → List ℕ
unfolding insert
sort [] = []
sort (x ∷ xs) = insert x (sort xs)

unfoldable pub compare_lists : List ℕ → List ℕ → Bool
compare_lists [] [] = true
compare_lists (x ∷ xs) (y ∷ ys) = x == y && compare_lists xs ys
compare_lists _ _ = false

abbrev pub count : ℕ → List ℕ → ℕ
count a [] = 0
count a (x ∷ xs) = let rest = count a xs in if x == a then suc rest else rest

-- Two lists hold the same names, each as often.
abbrev pub SameItems : List ℕ → List ℕ → Type 0
SameItems xs ys = (a : ℕ) → count a xs ≡ count a ys

count-insert : (a x : ℕ) (xs : List ℕ) → count a (insert x xs) ≡ count a (x ∷ xs)
unfolding insert
count-insert a x [] = refl
count-insert a x (y ∷ ys) = ground (arith, count-insert a x ys)

pub count-sort : (a : ℕ) (xs : List ℕ) → count a (sort xs) ≡ count a xs
unfolding sort
count-sort a [] = refl
count-sort a (x ∷ xs) = ground (arith, count-insert a x (sort xs), count-sort a xs)

abbrev IsSorted : List ℕ → Type 0
IsSorted [] = Unit
IsSorted (x ∷ xs) = All (λ y. x ≤ y) xs × IsSorted xs

All-insert : (b a : ℕ) (xs : List ℕ) → b ≤ a → All (λ y. b ≤ y) xs → All (λ y. b ≤ y) (insert a xs)
unfolding insert
All-insert b a [] h k = (h, tt)
All-insert b a (x ∷ xs) h k = elim (Bool-cases (leb a x)) [
  | inl e ↦ rw e (h, k)
  | inr e ↦ rw e (k.0, All-insert b a xs h k.1)
]

All-weaken : (a b : ℕ) (xs : List ℕ) → a ≤ b → All (λ y. b ≤ y) xs → All (λ y. a ≤ y) xs
All-weaken a b [] h k = tt
All-weaken a b (x ∷ xs) h k = (omega (arith, k.0), All-weaken a b xs h k.1)

insert-IsSorted : (a : ℕ) (xs : List ℕ) → IsSorted xs → IsSorted (insert a xs)
unfolding insert
insert-IsSorted a [] h = (tt, tt)
insert-IsSorted a (x ∷ xs) h = elim (Bool-cases (leb a x)) [
  | inl e ↦ rw e (((leb→le a x e), All-weaken a x xs (leb→le a x e) h.0), h)
  | inr e ↦ rw e (All-insert x a xs (ground arith) h.0, insert-IsSorted a xs h.1)
]

sort-IsSorted : (xs : List ℕ) → IsSorted (sort xs)
unfolding sort
sort-IsSorted [] = tt
sort-IsSorted (x ∷ xs) = insert-IsSorted x (sort xs) (sort-IsSorted xs)

-- A name below every element does not occur.
count-below : (a x : ℕ) (xs : List ℕ) → All (λ y. x ≤ y) xs → a < x → count a xs ≡ 0
count-below a x [] h lt = refl
count-below a x (y ∷ ys) h lt = ground (arith, h.0, count-below a x ys h.1)

-- Sorted lists with the same items have the same head.
head-le : (x y : ℕ) (xs ys : List ℕ) → All (λ z. y ≤ z) ys → SameItems (x ∷ xs) (y ∷ ys) → y ≤ x
head-le x y xs ys sy h = ground (arith, h x, count-below x y ys sy)

sorted_unique :
    (xs ys : List ℕ) → IsSorted xs → IsSorted ys → SameItems xs ys → compare_lists xs ys ≡ true
unfolding compare_lists
sorted_unique [] [] sx sy h = refl
sorted_unique [] (y ∷ ys) sx sy h = absurd (ground (arith, h y))
sorted_unique (x ∷ xs) [] sx sy h = absurd (ground (arith, h x))
sorted_unique (x ∷ xs) (y ∷ ys) sx sy h =
    let below = head-le x y xs ys sy.0 h in
    let above = head-le y x ys xs sx.0 (λ a. ground (arith, h a)) in
    let e : x ≡ y = omega arith in
    ground (arith, e, sorted_unique xs ys sx.1 sy.1 (λ a. ground (arith, e, h a)))

pub compare_lists-eq : (xs ys : List ℕ) → compare_lists xs ys ≡ true → xs ≡ ys
unfolding compare_lists
compare_lists-eq [] [] h = refl
compare_lists-eq [] (y ∷ ys) h = cc
compare_lists-eq (x ∷ xs) [] h = cc
compare_lists-eq (x ∷ xs) (y ∷ ys) h = ground (arith, compare_lists-eq xs ys)

pub compare_lists_refl : (xs : List ℕ) → compare_lists xs xs ≡ true
unfolding compare_lists
compare_lists_refl [] = refl
compare_lists_refl (x ∷ xs) = ground (arith, compare_lists_refl xs)

-- Sorting both lists and comparing them tells whether they hold the same items.
pub compare_lists-sort :
    (xs ys : List ℕ) → compare_lists (sort xs) (sort ys) ≡ true → SameItems xs ys
compare_lists-sort xs ys h a =
    omega (
      arith,
      count-sort a xs,
      count-sort a ys,
      ap (count a) (compare_lists-eq (sort xs) (sort ys) h),
    )

pub compare_lists-sort_complete :
    (xs ys : List ℕ) → SameItems xs ys → compare_lists (sort xs) (sort ys) ≡ true
compare_lists-sort_complete xs ys h =
    sorted_unique (sort xs) (sort ys) (sort-IsSorted xs) (sort-IsSorted ys)
      (λ a. omega (arith, count-sort a xs, count-sort a ys, h a))

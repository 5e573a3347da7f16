-- ===== src/Features/Filter/Keyed.antt =====
-- Reading the data of the descriptions that carry one id: the common part of the features.
use eebus_go.Prelude.{
  if◌then◌else◌, any, find?, filter, head?, Bool-cases, ◌≡◌, refl, inl, inr, Bool, true, Option,
  none, some, List, [], ◌∷◌, ◌++◌, arith,
}
use eebus_go.Features.Filter.{collect}

abbrev pub or_else {ℓ} : {A : Type ℓ} → Option A → Option A → Option A
or_else none o = o
or_else (some x) o = some x

pub head?-filter {ℓ} : {A : Type ℓ} (q : A → Bool) (xs : List A) → head? (filter q xs) ≡ find? q xs
head?-filter q [] = refl
head?-filter q (x ∷ xs) = ground (arith, head?-filter q xs)

head?-append {ℓ} : {A : Type ℓ} (xs ys : List A) → head? (xs ++ ys) ≡ or_else (head? xs) (head? ys)
head?-append [] ys = refl
head?-append (x ∷ xs) ys = refl

module _ {D X : Type 0} (p : D → Bool) (q : X → Bool) (data_list : List X) (search : D → List X)
    (agrees : (d : D) → p d ≡ true → search d ≡ filter q data_list) where
  -- The first of the data collected for the descriptions that pass `p`.
  pub head?-collect :
      (ds : List D)
      → head? (collect search (filter p ds)) ≡ (if any p ds then find? q data_list else none)
  head?-collect [] = refl
  head?-collect (d ∷ ds) = elim (Bool-cases (p d)) [
    | inl e ↦ rw (e, head?-append, agrees d e, head?-filter, head?-collect ds) (ground arith)
    | inr e ↦ rw (e, head?-collect ds)
  ]

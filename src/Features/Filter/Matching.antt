-- ===== src/Features/Filter/Matching.antt =====
-- What a search by example finds.
use eebus_go.Prelude.{
  ℕ, zero, suc, get_elem?, filter, filter-append, ◌≡◌, refl, ap, ◌↔◌, true, false, Option, none,
  some, List, [], ◌∷◌, ◌++◌, Any, Bool-cases, inl, inr, arith,
}
use eebus_go.Features.Filter.{
  Field, pointer, other, Struct, differs, match_fields, search_filter_in_item,
  search_filter_in_list,
}

-- The two lists show the same struct type: a pointer stands over a pointer.
abbrev pub SameKinds : List Field → List Field → Type 0
SameKinds [] [] = Unit
SameKinds (pointer a ∷ xs) (pointer b ∷ ys) = SameKinds xs ys
SameKinds (other ∷ xs) (other ∷ ys) = SameKinds xs ys
SameKinds _ _ = ⊥

-- Every value that the filter sets is the item's value at the same field.
abbrev pub Refines : List Field → List Field → Type 0
Refines items filters =
    (i v : ℕ)
    → get_elem? filters i ≡ some (pointer (some v))
    → get_elem? items i ≡ some (pointer (some v))

differs_sound : (f i : Option ℕ) (v : ℕ) → differs f i ≡ false → f ≡ some v → i ≡ some v
differs_sound f i v h e = ground arith

match_fields_sound :
    (items filters : List Field)
    → SameKinds items filters
    → match_fields items filters ≡ true
    → Refines items filters
unfolding match_fields
match_fields_sound [] [] k h i v e = cc
match_fields_sound [] (x ∷ ys) k h i v e = absurd k
match_fields_sound (x ∷ xs) [] k h i v e = cc
match_fields_sound (pointer a ∷ xs) (pointer b ∷ ys) k h zero v e = ground arith
match_fields_sound (pointer a ∷ xs) (pointer b ∷ ys) k h (suc i) v e =
    match_fields_sound xs ys k (ground arith) i v e
match_fields_sound (other ∷ xs) (other ∷ ys) k h zero v e = cc
match_fields_sound (other ∷ xs) (other ∷ ys) k h (suc i) v e = match_fields_sound xs ys k h i v e
match_fields_sound (pointer a ∷ xs) (other ∷ ys) k h i v e = absurd k
match_fields_sound (other ∷ xs) (pointer b ∷ ys) k h i v e = absurd k

differs_complete : (f i : Option ℕ) → ((v : ℕ) → f ≡ some v → i ≡ some v) → differs f i ≡ false
differs_complete none i h = refl
differs_complete (some v) i h = rw (h v refl) (ground arith)

pointer-injective :
    {a b : Option ℕ} → ◌≡◌ {A = Option Field} (some (pointer a)) (some (pointer b)) → a ≡ b
pointer-injective e = cc

match_fields_complete :
    (items filters : List Field)
    → SameKinds items filters
    → Refines items filters
    → match_fields items filters ≡ true
unfolding match_fields
match_fields_complete [] [] k h = refl
match_fields_complete [] (x ∷ ys) k h = absurd k
match_fields_complete (x ∷ xs) [] k h = refl
match_fields_complete (pointer a ∷ xs) (pointer b ∷ ys) k h =
    let here =
      differs_complete b a (λ v e. pointer-injective (h 0 v (ap (λ c. some (pointer c)) e))) in
    let rest = match_fields_complete xs ys k (λ i v e. h (suc i) v e) in rw (here, rest)
match_fields_complete (other ∷ xs) (other ∷ ys) k h =
    match_fields_complete xs ys k (λ i v e. h (suc i) v e)
match_fields_complete (pointer a ∷ xs) (other ∷ ys) k h = absurd k
match_fields_complete (other ∷ xs) (pointer b ∷ ys) k h = absurd k

-- Over the reflected fields of two values of one struct type, the search accepts an item exactly
-- when every value that the filter sets, at whatever field, is the item's value at that field.
pub match_fields_iff :
    (items filters : List Field)
    → SameKinds items filters
    → (match_fields items filters ≡ true) ↔ Refines items filters
match_fields_iff items filters k =
    (match_fields_sound items filters k, match_fields_complete items filters k)

module _ {T : Type 0} ⦃s : Struct T⦄ where
  -- A search is the library's `filter` by the test on one item.
  pub search_filter_in_list-filter :
      (list : List T) (f : T)
      → search_filter_in_list list f ≡ filter (λ item. search_filter_in_item item f) list
  unfolding search_filter_in_list
  search_filter_in_list-filter [] f = refl
  search_filter_in_list-filter (x ∷ xs) f = ground (arith, search_filter_in_list-filter xs f)

  pub search-append :
      (list more : List T) (f : T)
      → search_filter_in_list (list ++ more) f
        ≡ search_filter_in_list list f ++ search_filter_in_list more f
  search-append list more f =
      rw
        (
          search_filter_in_list-filter (list ++ more) f,
          search_filter_in_list-filter list f,
          search_filter_in_list-filter more f,
        )
        (filter-append (λ item. search_filter_in_item item f) list more)

  -- What a search finds passes the test on one item.
  pub search-fits :
      (list : List T) (f x : T)
      → Any (λ y. y ≡ x) (search_filter_in_list list f)
      → search_filter_in_item x f ≡ true
  unfolding search_filter_in_list
  search-fits [] f x h = absurd h
  search-fits (y ∷ ys) f x h = elim (Bool-cases (search_filter_in_item y f)) [
    | inr e ↦ search-fits ys f x (rw e at h)
    | inl e ↦ elim (rw e at h) [ inl same ↦ rw (← same) e | inr there ↦ search-fits ys f x there ]
  ]

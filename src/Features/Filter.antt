-- ===== src/Features/Filter.antt =====
-- features/internal/helper.go: copies of a feature's data, and the search by example in them.
pub mod Matching
pub mod Keyed
use eebus_go.Prelude.{
  ℕ, ◌==◌, if◌then◌else◌, Bool, true, false, ◌&&◌, Option, none, some, List, [], ◌∷◌, ◌++◌,
}
use eebus_go.Errors.{Result, ok, err, data_not_available}

-- What `DataCopyOfType` returns for a function: an error, no data set, one with no list, or a list.
pub data Copy {ℓ} (A : Type ℓ) : Type ℓ where
  failed no_data no_list : Copy A
  listed : List A → Copy A

-- A feature helper has a local or a remote feature; `S` is the data of a feature.
pub record Common (S : Type 0) : Type 0 where
  pub feature_local : Option S
  pub feature_remote : Option S

-- The local feature is read if there is one, else the remote. (A helper with neither is never
-- made: the constructors set one of them.)
unfoldable pub feature_data_copy_of_type : {S A : Type 0} → Common S → (S → Copy A) → Copy A
feature_data_copy_of_type c function = elim c.feature_local [
  | some s ↦ function s
  | none ↦ elim c.feature_remote [ some s ↦ function s | none ↦ failed ]
]

-- NewLocal… and NewRemote… of each feature
abbrev pub new_local : {S : Type 0} → S → Common S
new_local s = record { feature_local = some s; feature_remote = none }

abbrev pub new_remote : {S : Type 0} → S → Common S
new_remote s = record { feature_local = none; feature_remote = some s }

-- `if err != nil || data == nil || data.List == nil { return nil, api.ErrDataNotAvailable }`
abbrev pub available : {A : Type 0} → Copy A → Result (List A)
available (listed xs) = ok xs
available _ = err data_not_available

-- A struct field as Go's reflection shows it: a pointer, or a field of another kind.
pub data Field : Type 0 where
  pointer : Option ℕ → Field
  other : Field

-- A struct type, with the fields of its values in order.
pub record Struct (T : Type 0) : Type 0 where
  pub fields : T → List Field

-- The test on one field, where both are pointers.
abbrev pub differs : Option ℕ → Option ℕ → Bool
differs none item = false
differs (some v) none = true
differs (some v) (some w) = if v == w then false else true

-- The loop over the fields: the first that differs ends it.
unfoldable pub match_fields : List Field → List Field → Bool
match_fields [] filter = true
match_fields (item ∷ items) [] = true
match_fields (pointer item ∷ items) (pointer filter ∷ filters) =
    let rest = match_fields items filters in if differs filter item then false else rest
match_fields (pointer item ∷ items) (other ∷ filters) = match_fields items filters
match_fields (other ∷ items) (filter ∷ filters) = match_fields items filters

module _ {T : Type 0} ⦃s : Struct T⦄ where
  unfoldable pub search_filter_in_item : T → T → Bool
  unfolding match_fields
  search_filter_in_item item filter = match_fields (s.fields item) (s.fields filter)

  unfoldable pub search_filter_in_list : List T → T → List T
  unfolding search_filter_in_item
  search_filter_in_list [] filter = []
  search_filter_in_list (item ∷ list) filter =
      let rest = search_filter_in_list list filter in
      if search_filter_in_item item filter then item ∷ rest else rest

-- `for _, d := range ds { result = append(result, f(d)...) }`
abbrev pub collect : {D X : Type 0} → (D → List X) → List D → List X
collect f [] = []
collect f (d ∷ ds) = f d ++ collect f ds

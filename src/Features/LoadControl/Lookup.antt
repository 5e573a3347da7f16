-- ===== src/Features/LoadControl/Lookup.antt =====
-- Which limit a read by its id returns.
use eebus_go.Prelude.{
  ℕ, if◌then◌else◌, any, find?, filter, holds, head?, ◌≡◌, refl, ap, ◌∙◌, Bool, true, Option, none,
  some, List, [], ◌∷◌, arith,
}
use eebus_go.Spine.{LimitDescription, LimitData}
use eebus_go.Errors.{Result, ok, err, data_not_available}
use eebus_go.Features.Filter.{listed, feature_data_copy_of_type, search_filter_in_list, collect}
use eebus_go.Features.Structs.{limit_description_struct, limit_data_struct}
use eebus_go.Features.Filter.Keyed.{head?-collect}
use eebus_go.Features.LoadControl.{
  LoadControlCommon, limit_id_filter, limit_data_filter, get_limit_descriptions_for_filter,
  get_limit_data_for_filter, get_limit_data_for_id,
}

-- Whether a description or a limit carries the id.
abbrev pub describes : ℕ → LimitDescription → Bool
describes id d = holds d.limit_id id

abbrev pub carries : ℕ → LimitData → Bool
carries id x = holds x.limit_id id

abbrev pub or_not_available : {A : Type 0} → Option A → Result A
or_not_available none = err data_not_available
or_not_available (some a) = ok a

pub search_descriptions :
    (id : ℕ) (ds : List LimitDescription)
    → search_filter_in_list ds (limit_id_filter (some id)) ≡ filter (describes id) ds
unfolding search_filter_in_list
search_descriptions id [] = refl
search_descriptions id (d ∷ ds) = ground (arith, search_descriptions id ds)

search_limits :
    (id : ℕ) (xs : List LimitData)
    → search_filter_in_list xs (limit_data_filter (some id)) ≡ filter (carries id) xs
unfolding search_filter_in_list
search_limits id [] = refl
search_limits id (x ∷ xs) = ground (arith, search_limits id xs)

pub search_described :
    (id : ℕ) (xs : List LimitData) (d : LimitDescription)
    → describes id d ≡ true
    → search_filter_in_list xs (limit_data_filter d.limit_id) ≡ filter (carries id) xs
search_described id xs d h =
    let e : d.limit_id ≡ some id = ground arith in rw e (search_limits id xs)

-- The descriptions that a read by an id finds.
pub descriptions_by_id :
    (l : LoadControlCommon) {ds : List LimitDescription}
    → feature_data_copy_of_type l (λ f. f.limit_descriptions) ≡ listed ds
    → (id : ℕ)
    → get_limit_descriptions_for_filter l (limit_id_filter (some id))
      ≡ ok (filter (describes id) ds)
unfolding get_limit_descriptions_for_filter
descriptions_by_id l {ds} ds_listed id = rw (ds_listed, search_descriptions id ds)

module _ (l : LoadControlCommon) {ds : List LimitDescription} {xs : List LimitData}
    (ds_listed : feature_data_copy_of_type l (λ f. f.limit_descriptions) ≡ listed ds)
    (xs_listed : feature_data_copy_of_type l (λ f. f.limits) ≡ listed xs) (id : ℕ) where
  first_of_collected :
      (found : List LimitDescription)
      → filter (describes id) ds ≡ found
      → get_limit_data_for_id l id
        ≡ or_not_available
            (head? (collect (λ d. search_filter_in_list xs (limit_data_filter d.limit_id)) found))
  unfolding get_limit_data_for_id get_limit_data_for_filter
  first_of_collected [] e = ground (arith, descriptions_by_id l ds_listed id, e)
  first_of_collected (d ∷ found) e = ground (arith, descriptions_by_id l ds_listed id, e, xs_listed)

  -- A read by an id returns the first limit that carries it, if a description carries it too, and
  -- an error otherwise.
  pub get_limit_data_for_id_lem :
      get_limit_data_for_id l id
      ≡ or_not_available (if any (describes id) ds then find? (carries id) xs else none)
  get_limit_data_for_id_lem =
      first_of_collected (filter (describes id) ds) refl
      ∙ ap or_not_available (
          head?-collect (describes id) (carries id) xs
            (λ d. search_filter_in_list xs (limit_data_filter d.limit_id)) (search_described id xs)
            ds)

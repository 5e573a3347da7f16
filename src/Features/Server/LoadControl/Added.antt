-- ===== src/Features/Server/LoadControl/Added.antt =====
-- Reading the limit descriptions after one is added.
use eebus_go.Prelude.{
  ℕ, ◌==◌, if◌then◌else◌, filter, filter-append, All, map, ◌≡◌, ◌≢◌, refl, Bool-cases, inl, inr,
  Option, none, some, List, [], ◌∷◌, ◌++◌, append-nil, arith,
}
use eebus_go.Spine.{LimitDescription}
use eebus_go.Errors.{Result, ok, err, data_not_available}
use eebus_go.Features.Filter.{listed, new_local, feature_data_copy_of_type, search_filter_in_list}
use eebus_go.Features.Structs.{limit_description_struct}
use eebus_go.Features.LoadControl.{
  LoadControlFeature, empty_limit_description, get_limit_descriptions_for_filter,
  get_limit_description_for_id,
}
use eebus_go.Features.LoadControl.Lookup.{describes, search_descriptions}
use eebus_go.Features.Server.{UpdateData}
use eebus_go.Features.Server.Ids.{max_id, NoLargest, AllBelow, max_id-AllBelow}
use eebus_go.Features.Server.Laws.{known, IsAppending}
use eebus_go.Features.Server.LoadControl.{or_empty, add_limit_description}

search_all : (ds : List LimitDescription) → search_filter_in_list ds empty_limit_description ≡ ds
unfolding search_filter_in_list
search_all [] = refl
search_all (d ∷ ds) = ground (arith, search_all ds)

pub all_descriptions :
    (f : LoadControlFeature)
    → or_empty (get_limit_descriptions_for_filter (new_local f) empty_limit_description)
      ≡ known f.limit_descriptions
unfolding get_limit_descriptions_for_filter feature_data_copy_of_type
all_descriptions f = ground (arith, search_all (known f.limit_descriptions))

ids_of : List LimitDescription → List (Option ℕ)
ids_of = map (λ d. d.limit_id)

-- A description as it is found under an id: there has to be exactly one.
abbrev only : List LimitDescription → Result LimitDescription
only (d ∷ []) = ok d
only _ = err data_not_available

found_by_id :
    (f : LoadControlFeature) (id : ℕ)
    → get_limit_description_for_id (new_local f) id
      ≡ only (filter (describes id) (known f.limit_descriptions))
unfolding get_limit_description_for_id get_limit_descriptions_for_filter feature_data_copy_of_type
found_by_id f id = ground (arith, search_descriptions id (known f.limit_descriptions))

-- No description carries an id above all in use, and none of them is described by it.
filter-above :
    (m : ℕ) (ds : List LimitDescription) → AllBelow m (ids_of ds) → filter (describes m) ds ≡ []
unfolding ids_of
filter-above m [] h = refl
filter-above m (d ∷ ds) h = ground (arith, filter-above m ds h.1, h.0 m)

All-new :
    (m : ℕ) (ds : List LimitDescription)
    → AllBelow m (ids_of ds)
    → All (λ (y : LimitDescription). y.limit_id ≢ some m) ds
unfolding ids_of
All-new m [] h = tt
All-new m (d ∷ ds) h = ((λ e. absurd (omega (arith, h.0 m e))), All-new m ds h.1)

module _ (update_data : UpdateData LimitDescription)
    (law : IsAppending (λ (d : LimitDescription). d.limit_id) update_data) (f : LoadControlFeature)
    (description : LimitDescription) (unset : description.limit_id ≡ none)
    (no_largest : NoLargest
      (map (λ (d : LimitDescription). d.limit_id) (known f.limit_descriptions))) where
  new_id : ℕ
  new_id = max_id (ids_of (known f.limit_descriptions)) 0

  new_description : LimitDescription
  new_description = record description { limit_id = some new_id }

  appended : LoadControlFeature
  appended = record f {
    limit_descriptions = listed (known f.limit_descriptions ++ new_description ∷ []);
  }

  below : AllBelow new_id (ids_of (known f.limit_descriptions))
  unfolding new_id ids_of
  below = (max_id-AllBelow _ 0 no_largest).1

  added : add_limit_description update_data f description ≡ (appended, some new_id)
  unfolding add_limit_description appended new_description new_id ids_of
  added = ground (
    arith,
    all_descriptions f,
    law.appends f.limit_descriptions new_description
        (All-new new_id (known f.limit_descriptions) below),
  )

  found_new : get_limit_description_for_id (new_local appended) new_id ≡ ok new_description
  unfolding appended new_description
  found_new =
      rw
        (
          found_by_id appended new_id,
          filter-append (describes new_id),
          filter-above new_id (known f.limit_descriptions) below,
        )
        (ground arith)

  found_old :
      (j : ℕ)
      → j ≢ new_id
      → get_limit_description_for_id (new_local appended) j
        ≡ get_limit_description_for_id (new_local f) j
  unfolding appended new_description
  found_old j ne =
      rw (found_by_id f j, found_by_id appended j, filter-append (describes j))
        (elim (Bool-cases (new_id == j)) [
          | inl e ↦ absurd (ground arith)
          | inr e ↦ rw (e, append-nil)
        ])

  read_by :
      (j : ℕ)
      → get_limit_description_for_id (new_local appended) j
        ≡ (if j == new_id then ok new_description else get_limit_description_for_id (new_local f) j)
  read_by j = elim (Bool-cases (j == new_id)) [
    | inl e ↦ let same : j ≡ new_id = ground arith in rw (e, same) found_new
    | inr e ↦ rw e (found_old j (λ same. absurd (ground arith)))
  ]

  -- A description that is added is appended, under the id that is next after all in use.
  pub add_limit_description_lem : add_limit_description update_data f description ≡ (
    record f {
      limit_descriptions = listed (
          known f.limit_descriptions
          ++ record description {
            limit_id = some (
                max_id (map (λ (d : LimitDescription). d.limit_id) (known f.limit_descriptions)) 0);
          }
            ∷ []);
    },
    some (max_id (map (λ (d : LimitDescription). d.limit_id) (known f.limit_descriptions)) 0),
  )
  unfolding appended new_description new_id ids_of
  add_limit_description_lem = added

  -- The one description with the next id is the new one.
  pub describes-added :
      let id = max_id (map (λ (d : LimitDescription). d.limit_id) (known f.limit_descriptions)) 0 in
      filter
        (describes id)
        (known f.limit_descriptions ++ record description { limit_id = some id } ∷ [])
      ≡ record description { limit_id = some id } ∷ []
  unfolding new_id ids_of
  describes-added =
      rw (filter-append (describes new_id), filter-above new_id (known f.limit_descriptions) below)
        (ground arith)

  -- Where no description carries the largest `uint` as its id, and `UpdateData` appends data with a
  -- new identifier, adding a description without an id returns an id. Under that id the description
  -- is found, with the id set, and a read by any other id returns what it returned before.
  pub get-add_limit_description :
      let result = add_limit_description update_data f description in
      (k : ℕ) × (result.1 ≡ some k)
      × ((j : ℕ)
          → get_limit_description_for_id (new_local result.0) j ≡ (
              if j == k
              then ok (record description { limit_id = some k })
              else get_limit_description_for_id (new_local f) j))
  unfolding new_description
  get-add_limit_description = (new_id, rw added, λ j. rw added (read_by j))

-- ===== src/Internal/Measurement/Values.antt =====
-- The values that are returned for the measurements of a filter.
use eebus_go.Prelude.{
  ℕ, ◌==◌, ◌≢◌, if◌then◌else◌, All, is_some, ◌≡◌, refl, Bool, true, false, Option, none, some, List,
  [], ◌∷◌, ◌++◌, arith,
}
use eebus_go.Prelude.Int.{ℤ}
use eebus_go.Spine.{Name, MeasurementDescription, MeasurementData, normal}
use eebus_go.Errors.{ok}
use eebus_go.Features.Filter.{new_remote}
use eebus_go.Features.Measurement.{MeasurementFeature, get_data_for_filter}
use eebus_go.Features.ElectricalConnection.{ElectricalConnectionFeature, ElectricalConnectionCommon}
use eebus_go.Internal.Measurement.{
  has_valid_phase, goes_on, returns_nil, check_direction, phase_values,
  measurement_phase_specific_data_for_filter,
}

-- The state of an item is not set or normal.
abbrev pub is_normal : MeasurementData → Bool
is_normal item = elim item.value_state [ none ↦ true | some state ↦ state == normal ]

-- The value of an item that has an id and a phase asked for, and whose direction is the one asked
-- for.
abbrev pub value_of :
    ElectricalConnectionCommon → Option Name → Option (List Name) → MeasurementData → Option ℤ
value_of ec direction phases item = elim item.measurement_id [
  | none ↦ none
  | some id ↦
      if has_valid_phase ec phases id
      then elim (check_direction ec direction id) [ goes_on ↦ item.value | _ ↦ none ]
      else none
]

abbrev pub values_of :
    ElectricalConnectionCommon → Option Name → Option (List Name) → List MeasurementData → List ℤ
values_of ec direction phases [] = []
values_of ec direction phases (item ∷ items) =
    let rest = values_of ec direction phases items in
    elim (value_of ec direction phases item) [ none ↦ rest | some value ↦ value ∷ rest ]

-- The direction of an item, if it has an id, is the one asked for or not known.
abbrev pub fits_direction : ElectricalConnectionCommon → Option Name → MeasurementData → Bool
fits_direction ec direction item = elim item.measurement_id [
  | none ↦ true
  | some id ↦ elim (check_direction ec direction id) [ returns_nil ↦ false | _ ↦ true ]
]

-- An item does not end the loop.
abbrev pub IsFine : ElectricalConnectionCommon → Option Name → MeasurementData → Type 0
IsFine ec direction item = (is_normal item ≡ true) × (fits_direction ec direction item ≡ true)

module _ (ec : ElectricalConnectionCommon) (direction : Option Name)
    (phases : Option (List Name)) where
  fine_values :
      (items : List MeasurementData)
      → All (IsFine ec direction) items
      → phase_values ec direction phases items ≡ ok (some (values_of ec direction phases items))
  unfolding phase_values
  fine_values [] h = refl
  fine_values (item ∷ items) h = ground (arith, h.0, fine_values items h.1)

  stopped :
      (before after : List MeasurementData) (item : MeasurementData) (id : ℕ)
      → All (IsFine ec direction) before
      → is_some item.value ≡ true
      → item.measurement_id ≡ some id
      → has_valid_phase ec phases id ≡ true
      → check_direction ec direction id ≡ returns_nil
      → phase_values ec direction phases (before ++ item ∷ after) ≡ ok none
  unfolding phase_values
  stopped [] after item id h value has_id phase other = ground (arith, value, has_id, phase, other)
  stopped (b ∷ before) after item id h value has_id phase other =
      ground (arith, h.0, stopped before after item id h.1 value has_id phase other)

module _ (m : MeasurementFeature) (ec : ElectricalConnectionFeature)
    (filter : MeasurementDescription) (direction : Option Name) (phases : Option (List Name)) where
  -- Where data are found and each item is in the normal state and, if its energy direction is
  -- known, has the one asked for, the values of the items with a phase and direction asked for are
  -- returned, in the order of the data.
  pub measurement_phase_specific_data_for_filter_lem :
      (x : MeasurementData) (xs : List MeasurementData)
      → get_data_for_filter (new_remote m) filter ≡ ok (x ∷ xs)
      → All (IsFine (new_remote ec) direction) (x ∷ xs)
      → measurement_phase_specific_data_for_filter (some m) (some ec) filter direction phases
        ≡ ok (values_of (new_remote ec) direction phases (x ∷ xs))
  unfolding measurement_phase_specific_data_for_filter
  measurement_phase_specific_data_for_filter_lem x xs found fine =
      ground (arith, found, fine_values (new_remote ec) direction phases (x ∷ xs) fine)

  -- The first item that would end the loop has a value and a phase asked for, but another energy
  -- direction: no error is returned and no value, whatever the items before and after it hold.
  pub measurement_direction_drops_values :
      (before after : List MeasurementData) (item : MeasurementData) (id : ℕ)
      → get_data_for_filter (new_remote m) filter ≡ ok (before ++ item ∷ after)
      → All (IsFine (new_remote ec) direction) before
      → is_some item.value ≡ true
      → item.measurement_id ≡ some id
      → has_valid_phase (new_remote ec) phases id ≡ true
      → check_direction (new_remote ec) direction id ≡ returns_nil
      → measurement_phase_specific_data_for_filter (some m) (some ec) filter direction phases
        ≡ ok []
  measurement_direction_drops_values before after item id found fine value has_id phase other =
      go (before ++ item ∷ after) found
        (stopped (new_remote ec) direction phases before after item id fine value has_id phase
          other)
        (filled_list before)
    where
      filled_list : (xs : List MeasurementData) → xs ++ item ∷ after ≢ []
      filled_list [] e = cc
      filled_list (x ∷ xs) e = cc

      go :
          (items : List MeasurementData)
          → get_data_for_filter (new_remote m) filter ≡ ok items
          → phase_values (new_remote ec) direction phases items ≡ ok none
          → items ≢ []
          → measurement_phase_specific_data_for_filter (some m) (some ec) filter direction phases
            ≡ ok []
      go [] found values filled = absurd (filled refl)
      go (x ∷ xs) found values filled =
          unfold measurement_phase_specific_data_for_filter in ground (arith, found, values)

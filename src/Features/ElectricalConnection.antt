-- ===== src/Features/ElectricalConnection.antt =====
-- features/internal/electricalconnection.go: reading electrical connection data.
pub mod Adjust
pub mod Payload
pub mod PhaseLimits
use eebus_go.Prelude.{
  ℕ, ◌==◌, if◌then◌else◌, any, is_empty, is_some, same_value, not, find?, Bool, true, false, ◌&&◌,
  Option, none, some, List, [], ◌∷◌,
}
use eebus_go.Prelude.Int.{ℤ, pos, ltb_ℤ}
use eebus_go.Spine.{
  Name, ConnectionDescription, ParameterDescription, ScaledNumberRange, ScaledNumberSet,
  PermittedValueSet, Characteristic, MeasurementDescription, PayloadData, permitted_value_sets,
  characteristics, phase_a, phase_b, phase_c,
}
use eebus_go.Errors.{Result, ok, err, data_not_available, metadata_not_available, ◌>>=◌}
use eebus_go.Features.Filter.{
  Copy, Common, feature_data_copy_of_type, available, search_filter_in_list,
}
use eebus_go.Features.Structs.{
  connection_description_struct, parameter_description_struct, permitted_value_set_struct,
  characteristic_struct,
}

-- The data of an ElectricalConnection feature.
pub record ElectricalConnectionFeature : Type 0 where
  pub descriptions : Copy ConnectionDescription
  pub parameters : Copy ParameterDescription
  pub permitted_values : Copy PermittedValueSet
  pub characteristics : Copy Characteristic

abbrev pub ElectricalConnectionCommon : Type 0
ElectricalConnectionCommon = Common ElectricalConnectionFeature

abbrev pub empty_connection_description : ConnectionDescription
empty_connection_description = record {
  electrical_connection_id = none;
  power_supply_type = none;
  ac_connected_phases = none;
  positive_energy_direction = none;
}

abbrev pub empty_parameter_description : ParameterDescription
empty_parameter_description = record {
  electrical_connection_id = none;
  parameter_id = none;
  measurement_id = none;
  voltage_type = none;
  ac_measured_phases = none;
  ac_measurement_type = none;
  scope_type = none;
}

abbrev pub parameter_filter : Option ℕ → PermittedValueSet
parameter_filter id = record {
  electrical_connection_id = none;
  parameter_id = id;
  permitted_value_set = none;
}

abbrev pub phase_filter : Name → ParameterDescription
phase_filter phase = record empty_parameter_description { ac_measured_phases = some phase }

unfoldable pub get_descriptions_for_filter :
    ElectricalConnectionCommon → ConnectionDescription → Result (List ConnectionDescription)
get_descriptions_for_filter e filter = do
  data_list ← available (feature_data_copy_of_type e (λ f. f.descriptions))
  ok (search_filter_in_list data_list filter)

unfoldable pub get_parameter_descriptions_for_filter :
    ElectricalConnectionCommon → ParameterDescription → Result (List ParameterDescription)
get_parameter_descriptions_for_filter e filter = do
  data_list ← available (feature_data_copy_of_type e (λ f. f.parameters))
  ok (search_filter_in_list data_list filter)

unfoldable pub get_permitted_value_set_for_filter :
    ElectricalConnectionCommon → PermittedValueSet → Result (List PermittedValueSet)
get_permitted_value_set_for_filter e filter = do
  data_list ← available (feature_data_copy_of_type e (λ f. f.permitted_values))
  ok (search_filter_in_list data_list filter)

unfoldable pub get_characteristics_for_filter :
    ElectricalConnectionCommon → Characteristic → Result (List Characteristic)
get_characteristics_for_filter e filter = do
  data_list ← available (feature_data_copy_of_type e (λ f. f.characteristics))
  ok (search_filter_in_list data_list filter)

-- `ok none` is the pair `nil, nil` of a filter that no parameter description fits.
unfoldable pub get_description_for_parameter_description_filter :
    ElectricalConnectionCommon → ParameterDescription → Result (Option ConnectionDescription)
get_description_for_parameter_description_filter e filter = do
  params ← get_parameter_descriptions_for_filter e filter
  elim params [
    | [] ↦ ok none
    | param ∷ rest ↦ do
      descriptions ← get_descriptions_for_filter e empty_connection_description
      elim (find? (λ item. same_value item.electrical_connection_id param.electrical_connection_id)
          descriptions) [ none ↦ err metadata_not_available | some item ↦ ok (some item) ]
  ]

-- A pointer to a number, if it is set, overwrites a result.
abbrev pub overwrite : Option ℤ → ℤ → ℤ
overwrite none old = old
overwrite (some v) old = v

-- Minimum, maximum and default, updated by the ranges of one set.
abbrev pub read_ranges : List ScaledNumberRange → ℤ × ℤ × ℤ → ℤ × ℤ × ℤ
read_ranges [] r = r
read_ranges (item ∷ items) (lo, hi, default) =
    read_ranges items (overwrite item.min lo, overwrite item.max hi, default)

abbrev pub read_default : List ℤ → ℤ → ℤ
read_default [] old = old
read_default (v ∷ vs) old = v

abbrev pub read_sets : List ScaledNumberSet → ℤ × ℤ × ℤ → ℤ × ℤ × ℤ
read_sets [] r = r
read_sets (set ∷ sets) (lo, hi, default) =
    read_sets sets (read_ranges set.range (lo, hi, read_default set.value default))

unfoldable pub get_permitted_value_data_for_filter :
    ElectricalConnectionCommon → PermittedValueSet → Result (ℤ × ℤ × ℤ)
get_permitted_value_data_for_filter e filter = elim (get_permitted_value_set_for_filter e filter) [
  | ok (data_set ∷ []) ↦ elim data_set.electrical_connection_id [
    | none ↦ err data_not_available
    | some id ↦ elim data_set.permitted_value_set [
      | none ↦ err data_not_available
      | some sets ↦ ok (read_sets sets (pos 0, pos 0, pos 0))
    ]
  ]
  | _ ↦ err data_not_available
]

abbrev pub phase_name_mapping : List Name
phase_name_mapping = phase_a ∷ phase_b ∷ phase_c ∷ []

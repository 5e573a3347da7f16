-- ===== src/Internal/Measurement.antt =====
-- usecases/internal/measurement.go
pub mod Values
use eebus_go.Prelude.{
  ℕ, ◌==◌, if◌then◌else◌, any, is_some, holds, not, Bool, true, false, ◌&&◌, Option, none, some,
  List, [], ◌∷◌,
}
use eebus_go.Prelude.Int.{ℤ}
use eebus_go.Spine.{
  Name, MeasurementDescription, MeasurementData, ParameterDescription, power, electricity, watt,
  ac_power_total, normal,
}
use eebus_go.Errors.{
  Result, ok, err, panic, data_not_available, metadata_not_available, data_invalid,
}
use eebus_go.Features.Filter.{new_local, new_remote}
use eebus_go.Features.Measurement.{MeasurementFeature, MeasurementCommon, get_data_for_filter}
use eebus_go.Features.Measurement
use eebus_go.Features.ElectricalConnection.{
  ElectricalConnectionFeature, ElectricalConnectionCommon, empty_parameter_description,
  get_parameter_descriptions_for_filter, get_description_for_parameter_description_filter,
}
use eebus_go.Internal.LocalEntity.{LocalEntity}

abbrev pub default_power_total_measurement_id : ℕ
default_power_total_measurement_id = 50

-- GetPowerTotalMeasurementId, for a local entity that is not nil: the id of the one description of
-- the total AC power, or 50.
unfoldable pub get_power_total_measurement_id : LocalEntity → ℕ
get_power_total_measurement_id entity = elim entity.measurement [
  | none ↦ default_power_total_measurement_id
  | some f ↦
      elim (Measurement.get_descriptions_for_filter (new_local f) (record {
        measurement_id = none;
        measurement_type = some power;
        commodity_type = some electricity;
        unit = some watt;
        scope_type = some ac_power_total;
      })) [
        | ok (d ∷ []) ↦ elim d.measurement_id [
          | none ↦ default_power_total_measurement_id
          | some id ↦ id
        ]
        | _ ↦ default_power_total_measurement_id
      ]
]

abbrev pub measured_filter : ℕ → ParameterDescription
measured_filter id = record empty_parameter_description { measurement_id = some id }

-- Whether the first parameter of a measurement has one of the phases; no list admits all.
unfoldable pub has_valid_phase : ElectricalConnectionCommon → Option (List Name) → ℕ → Bool
has_valid_phase ec none id = true
has_valid_phase ec (some phases) id =
    elim (get_parameter_descriptions_for_filter ec (measured_filter id)) [
      | ok (param ∷ params) ↦ elim param.ac_measured_phases [
        | none ↦ false
        | some phase ↦ any (λ p. p == phase) phases
      ]
      | _ ↦ false
    ]

-- What the energy direction does to a turn of the loop. A direction that does not fit returns nil
-- and the error of the last call, which is none.
pub data Direction : Type 0 where
  goes_on skips returns_nil : Direction

unfoldable pub check_direction : ElectricalConnectionCommon → Option Name → ℕ → Direction
check_direction ec none id = goes_on
check_direction ec (some direction) id =
    elim (get_description_for_parameter_description_filter ec (measured_filter id)) [
      | ok (some desc) ↦
          if holds desc.positive_energy_direction direction then goes_on else returns_nil
      | _ ↦ skips
    ]

-- The loop over the measurements; `ok none` where it returns nil and no error.
unfoldable pub phase_values :
    ElectricalConnectionCommon
    → Option Name
    → Option (List Name)
    → List MeasurementData
    → Result (Option (List ℤ))
unfolding has_valid_phase check_direction
phase_values ec direction phases [] = ok (some [])
phase_values ec direction phases (item ∷ items) =
    let rest = phase_values ec direction phases items in
    elim item.value [
      | none ↦ rest
      | some value ↦ elim item.measurement_id [
        | none ↦ rest
        | some id ↦
            if not (has_valid_phase ec phases id)
            then rest
            else elim (check_direction ec direction id) [
              | skips ↦ rest
              | returns_nil ↦ ok none
              | goes_on ↦
                  if is_some item.value_state && not (holds item.value_state normal)
                  then err data_invalid
                  else elim rest [ ok (some values) ↦ ok (some (value ∷ values)) | other ↦ other ]
            ]
      ]
    ]

-- MeasurementPhaseSpecificDataForFilter. The loop returns at the first item that is invalid or has
-- another direction, so the values that it found before are dropped. An empty direction is none.
unfoldable pub measurement_phase_specific_data_for_filter :
    Option MeasurementFeature
    → Option ElectricalConnectionFeature
    → MeasurementDescription
    → Option Name
    → Option (List Name)
    → Result (List ℤ)
unfolding phase_values
measurement_phase_specific_data_for_filter measurement electrical_connection filter direction
      phases =
    elim measurement [
      | none ↦ err metadata_not_available
      | some m ↦ elim electrical_connection [
        | none ↦ err metadata_not_available
        | some ec ↦ elim (get_data_for_filter (new_remote m) filter) [
          | ok (x ∷ xs) ↦ elim (phase_values (new_remote ec) direction phases (x ∷ xs)) [
            | ok none ↦ ok []
            | ok (some values) ↦ ok values
            | err e ↦ err e
            | panic ↦ panic
          ]
          | _ ↦ err data_not_available
        ]
      ]
    ]

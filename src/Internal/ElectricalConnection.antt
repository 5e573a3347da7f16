-- ===== src/Internal/ElectricalConnection.antt =====
-- usecases/internal/electricalConnection.go, for a local entity that is not nil
use eebus_go.Prelude.{ℕ, none, some, [], ◌∷◌}
use eebus_go.Spine.{ac, real, consume}
use eebus_go.Errors.{ok}
use eebus_go.Features.Filter.{new_local}
use eebus_go.Features.ElectricalConnection.{
  get_descriptions_for_filter, get_parameter_descriptions_for_filter,
}
use eebus_go.Internal.LocalEntity.{LocalEntity}

-- The id of the one AC connection that consumes, or 0.
unfoldable pub get_electrical_connection_id : LocalEntity → ℕ
get_electrical_connection_id entity = elim entity.electrical_connection [
  | none ↦ 0
  | some f ↦
      elim (get_descriptions_for_filter (new_local f) (record {
        electrical_connection_id = none;
        power_supply_type = some ac;
        ac_connected_phases = none;
        positive_energy_direction = some consume;
      })) [ ok (d ∷ []) ↦ elim d.electrical_connection_id [ none ↦ 0 | some id ↦ id ] | _ ↦ 0 ]
]

unfoldable pub get_parameter_id_for_ac_power_total_measurement : LocalEntity → ℕ → ℕ → ℕ
get_parameter_id_for_ac_power_total_measurement entity electrical_connection_id measurement_id =
    elim entity.electrical_connection [
      | none ↦ 0
      | some f ↦
          elim (get_parameter_descriptions_for_filter (new_local f) (record {
            electrical_connection_id = some electrical_connection_id;
            parameter_id = none;
            measurement_id = some measurement_id;
            voltage_type = some ac;
            ac_measured_phases = none;
            ac_measurement_type = some real;
            scope_type = none;
          })) [ ok (d ∷ []) ↦ elim d.parameter_id [ none ↦ 0 | some id ↦ id ] | _ ↦ 0 ]
    ]

-- ===== src/Cs/NominalMax.antt =====
-- The nominal maximum: ConsumptionNominalMax, SetConsumptionNominalMax and characteristicType of
-- usecases/cs/lpc and lpp, public.go, and the characteristic that AddFeatures of usecase.go adds.
pub mod Ids
use eebus_go.Prelude.{ℕ, ◌==◌, if◌then◌else◌, Bool, Option, none, some, List, [], ◌∷◌}
use eebus_go.Prelude.Int.{ℤ}
use eebus_go.Spine.{Name, Characteristic, entity_context, energy_management_system, watt}
use eebus_go.Errors.{Result, ok, err, panic, data_not_available}
use eebus_go.Features.Filter.{new_local}
use eebus_go.Features.ElectricalConnection.{
  ElectricalConnectionFeature, get_characteristics_for_filter,
}
use eebus_go.Features.Server.{UpdateData}
use eebus_go.Features.Server.ElectricalConnection.{add_characteristic, update_characteristic}
use eebus_go.Internal.LocalEntity.{LocalEntity, new_feature}
use eebus_go.Internal.ElectricalConnection.{
  get_electrical_connection_id, get_parameter_id_for_ac_power_total_measurement,
}
use eebus_go.Cs.State.{Variant}

-- A device of unknown type and an energy management system have the contractual value.
unfoldable pub characteristic_type : Variant → LocalEntity → Name
characteristic_type v entity = elim entity.device_type [
  | none ↦ v.contractual_nominal_max
  | some t ↦ if t == energy_management_system then v.contractual_nominal_max else v.nominal_max
]

-- The filter of both operations: the ids 0 are fixed.
abbrev pub nominal_max_filter : Variant → LocalEntity → Characteristic
nominal_max_filter v entity = record {
  electrical_connection_id = some 0;
  parameter_id = some 0;
  characteristic_id = none;
  characteristic_context = some entity_context;
  characteristic_type = some (characteristic_type v entity);
  unit = none;
  value = none;
}

-- ConsumptionNominalMax, ProductionNominalMax
unfoldable pub get_nominal_max : Variant → LocalEntity → Result ℤ
unfolding characteristic_type
get_nominal_max v entity = elim (new_feature entity.electrical_connection) [
  | ok f ↦ elim (get_characteristics_for_filter (new_local f) (nominal_max_filter v entity)) [
    | ok (c ∷ cs) ↦ elim c.characteristic_id [
      | none ↦ err data_not_available
      | some id ↦ elim c.value [ none ↦ err data_not_available | some x ↦ ok x ]
    ]
    | _ ↦ err data_not_available
  ]
  | err e ↦ err e
  | panic ↦ panic
]

-- SetConsumptionNominalMax, SetProductionNominalMax
unfoldable pub set_nominal_max :
    Variant
    → (ℤ → ℤ)
    → UpdateData Characteristic
    → LocalEntity
    → ℤ
    → LocalEntity × Result (Unit {0})
unfolding characteristic_type
set_nominal_max v new_scaled_number update_data entity value =
    elim (new_feature entity.electrical_connection) [
      | ok f ↦ elim (get_characteristics_for_filter (new_local f) (nominal_max_filter v entity)) [
        | ok (c ∷ cs) ↦
            let (f', result) =
              update_characteristic update_data f
                (record {
                  electrical_connection_id = some 0;
                  parameter_id = some 0;
                  characteristic_id = c.characteristic_id;
                  characteristic_context = none;
                  characteristic_type = none;
                  unit = none;
                  value = some (new_scaled_number value);
                })
                none in
            (record entity { electrical_connection = some f' }, result)
        | _ ↦ (entity, err data_not_available)
      ]
      | err e ↦ (entity, err e)
      | panic ↦ (entity, panic)
    ]

-- The last part of AddFeatures: the characteristic stands under the ids of the connection and
-- the parameter that are found.
unfoldable pub add_nominal_max :
    Variant → UpdateData Characteristic → LocalEntity → ℕ → LocalEntity × Result ℕ
unfolding characteristic_type
add_nominal_max v update_data entity measurement_id =
    elim (new_feature entity.electrical_connection) [
      | ok f ↦
          let connection = get_electrical_connection_id entity in
          let parameter =
            get_parameter_id_for_ac_power_total_measurement entity connection measurement_id in
          let (f', result) = add_characteristic update_data f (record {
            electrical_connection_id = some connection;
            parameter_id = some parameter;
            characteristic_id = none;
            characteristic_context = some entity_context;
            characteristic_type = some (characteristic_type v entity);
            unit = some watt;
            value = none;
          }) in
          (record entity { electrical_connection = some f' }, result)
      | err e ↦ (entity, err e)
      | panic ↦ (entity, panic)
    ]

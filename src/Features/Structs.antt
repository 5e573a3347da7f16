-- ===== src/Features/Structs.antt =====
-- The struct types that the program searches by example, as reflection shows their fields. Fields
-- that point to structs (values and time periods) are set in no filter of the program, and a
-- filter field that is not set matches anything; they are left out.
use eebus_go.Prelude.{Bool, true, false, Option, none, some, [], ◌∷◌}
use eebus_go.Spine.{
  LimitDescription, LimitData, MeasurementDescription, MeasurementData, ConnectionDescription,
  ParameterDescription, PermittedValueSet, Characteristic, KeyValueDescription, Identification,
}
use eebus_go.Features.Filter.{Field, pointer, other, Struct}

abbrev pub flag : Option Bool → Field
flag none = pointer none
flag (some true) = pointer (some 1)
flag (some false) = pointer (some 0)

instance abbrev pub limit_description_struct : Struct LimitDescription
limit_description_struct = record {
  fields = λ d.
      pointer d.limit_id
      ∷ pointer d.limit_type
      ∷ pointer d.limit_category
      ∷ pointer d.limit_direction
      ∷ pointer d.measurement_id
      ∷ pointer d.unit
      ∷ pointer d.scope_type
      ∷ [];
}

instance abbrev pub limit_data_struct : Struct LimitData
limit_data_struct = record {
  fields = λ d. pointer d.limit_id ∷ flag d.is_limit_changeable ∷ flag d.is_limit_active ∷ [];
}

instance abbrev pub measurement_description_struct : Struct MeasurementDescription
measurement_description_struct = record {
  fields = λ d.
      pointer d.measurement_id
      ∷ pointer d.measurement_type
      ∷ pointer d.commodity_type
      ∷ pointer d.unit
      ∷ pointer d.scope_type
      ∷ [];
}

instance abbrev pub measurement_data_struct : Struct MeasurementData
measurement_data_struct = record {
  fields = λ d. pointer d.measurement_id ∷ pointer d.value_state ∷ [];
}

instance abbrev pub connection_description_struct : Struct ConnectionDescription
connection_description_struct = record {
  fields = λ d.
      pointer d.electrical_connection_id
      ∷ pointer d.power_supply_type
      ∷ pointer d.ac_connected_phases
      ∷ pointer d.positive_energy_direction
      ∷ [];
}

instance abbrev pub parameter_description_struct : Struct ParameterDescription
parameter_description_struct = record {
  fields = λ d.
      pointer d.electrical_connection_id
      ∷ pointer d.parameter_id
      ∷ pointer d.measurement_id
      ∷ pointer d.voltage_type
      ∷ pointer d.ac_measured_phases
      ∷ pointer d.ac_measurement_type
      ∷ pointer d.scope_type
      ∷ [];
}

-- `PermittedValueSet` is a slice, a field of another kind.
instance abbrev pub permitted_value_set_struct : Struct PermittedValueSet
permitted_value_set_struct = record {
  fields = λ d. pointer d.electrical_connection_id ∷ pointer d.parameter_id ∷ other ∷ [];
}

instance abbrev pub characteristic_struct : Struct Characteristic
characteristic_struct = record {
  fields = λ d.
      pointer d.electrical_connection_id
      ∷ pointer d.parameter_id
      ∷ pointer d.characteristic_id
      ∷ pointer d.characteristic_context
      ∷ pointer d.characteristic_type
      ∷ pointer d.unit
      ∷ [];
}

instance abbrev pub key_value_description_struct : Struct KeyValueDescription
key_value_description_struct = record {
  fields = λ d. pointer d.key_id ∷ pointer d.key_name ∷ pointer d.value_type ∷ pointer d.unit ∷ [];
}

instance abbrev pub identification_struct : Struct Identification
identification_struct = record {
  fields = λ d.
      pointer d.identification_id
      ∷ pointer d.identification_type
      ∷ pointer d.identification_value
      ∷ [];
}

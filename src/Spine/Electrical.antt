-- ===== src/Spine/Electrical.antt =====
-- Electrical connection data sets of spine-go.
use eebus_go.Prelude.{ℕ, Option, List}
use eebus_go.Prelude.Int.{ℤ}
use eebus_go.Spine.Names.{Name}

-- model.ElectricalConnectionDescriptionDataType
pub record ConnectionDescription : Type 0 where
  pub electrical_connection_id : Option ℕ
  pub power_supply_type : Option Name
  pub ac_connected_phases : Option ℕ
  pub positive_energy_direction : Option Name

-- model.ElectricalConnectionParameterDescriptionDataType
pub record ParameterDescription : Type 0 where
  pub electrical_connection_id : Option ℕ
  pub parameter_id : Option ℕ
  pub measurement_id : Option ℕ
  pub voltage_type : Option Name
  pub ac_measured_phases : Option Name
  pub ac_measurement_type : Option Name
  pub scope_type : Option Name

-- model.ScaledNumberRangeType
pub record ScaledNumberRange : Type 0 where
  pub min : Option ℤ
  pub max : Option ℤ

-- model.ScaledNumberSetType
pub record ScaledNumberSet : Type 0 where
  pub value : List ℤ
  pub range : List ScaledNumberRange

-- model.ElectricalConnectionPermittedValueSetDataType
pub record PermittedValueSet : Type 0 where
  pub electrical_connection_id : Option ℕ
  pub parameter_id : Option ℕ
  pub permitted_value_set : Option (List ScaledNumberSet)

-- model.ElectricalConnectionCharacteristicDataType
pub record Characteristic : Type 0 where
  pub electrical_connection_id : Option ℕ
  pub parameter_id : Option ℕ
  pub characteristic_id : Option ℕ
  pub characteristic_context : Option Name
  pub characteristic_type : Option Name
  pub unit : Option Name
  pub value : Option ℤ

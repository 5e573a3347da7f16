-- ===== src/Spine/Events.antt =====
-- Events and messages of spine-go. Devices, entities and features are known by numbers.
use eebus_go.Prelude.{ℕ, Option, List}
use eebus_go.Spine.LoadControl.{LimitData, MeasurementData}
use eebus_go.Spine.Electrical.{ConnectionDescription, PermittedValueSet, Characteristic}
use eebus_go.Spine.EnergyManagement.{EnergyData}
use eebus_go.Spine.Configuration.{KeyValueData}
use eebus_go.Spine.Diagnosis.{Identification}

-- spineapi.EventPayload.Data
pub data PayloadData : Type 0 where
  nil : PayloadData
  load_control_limits : List LimitData → PayloadData
  key_values : List KeyValueData → PayloadData
  measurements : List MeasurementData → PayloadData
  permitted_value_sets : List PermittedValueSet → PayloadData
  characteristics : List Characteristic → PayloadData
  connection_descriptions : List ConnectionDescription → PayloadData
  energy_management_data : EnergyData → PayloadData
  heartbeat : PayloadData
  use_case_data : PayloadData
  detailed_discovery : PayloadData
  limit_description_data key_value_description_data measurement_description_data : PayloadData
  parameter_description_data manufacturer_data diagnosis_state_data operating_state : PayloadData
  identifications : List Identification → PayloadData
  other_data : ℕ → PayloadData

-- spineapi.Message: `RequestHeader`, with its `MsgCounter`, the lists of `Cmd`, and the sender
pub record Message : Type 0 where
  pub request_header : Option (Option ℕ)
  pub load_control_limit_list_data : Option (List LimitData)
  pub key_value_list_data : Option (List KeyValueData)
  pub device_remote : ℕ
  pub entity_remote : ℕ

-- ===== src/Examples/Data.antt =====
-- Local and remote data sets, and an entity with both limitation use cases.
use eebus_go.Prelude.{ℕ, true, false, none, some, List, [], ◌∷◌}
use eebus_go.Prelude.Int.{ℤ, pos}
use eebus_go.Spine.{
  Name, LimitDescription, LimitData, TimePeriod, KeyValueDescription, KeyValueData, Message,
  ConnectionDescription, sign_dependent_abs_value_limit, obligation, active_power_limit, consume,
  produce, watt, ac, failsafe_consumption_active_power_limit, failsafe_duration_minimum,
}
use eebus_go.Features.Filter.{listed, failed}
use eebus_go.Features.LoadControl.{LoadControlFeature}
use eebus_go.Features.DeviceConfiguration.{DeviceConfigurationFeature}
use eebus_go.Features.ElectricalConnection.{ElectricalConnectionFeature}
use eebus_go.Internal.LocalEntity.{LocalEntity}
use eebus_go.UseCase.Limits.{LoadLimit}
use eebus_go.Cs.State.{Limitation}

abbrev pub limit_description : ℕ → Name → LimitDescription
limit_description id direction = record {
  limit_id = some id;
  limit_type = some sign_dependent_abs_value_limit;
  limit_category = some obligation;
  limit_direction = some direction;
  measurement_id = some 50;
  unit = some watt;
  scope_type = some active_power_limit;
}

abbrev pub stored_limit : ℕ → ℕ → LimitData
stored_limit id value = record {
  limit_id = some id;
  is_limit_changeable = some true;
  is_limit_active = some false;
  time_period = none;
  value = some (pos value);
}

abbrev pub descriptions : List LimitDescription
descriptions = limit_description 3 consume ∷ limit_description 4 produce ∷ []

abbrev pub load_control : LoadControlFeature
load_control = record {
  limit_descriptions = listed descriptions;
  limits = listed (stored_limit 4 9000 ∷ stored_limit 3 4200 ∷ []);
}

abbrev pub key_description : ℕ → Name → KeyValueDescription
key_description id name = record {
  key_id = some id;
  key_name = some name;
  value_type = none;
  unit = none;
}

abbrev pub stored_duration : ℕ → KeyValueData
stored_duration duration = record {
  key_id = some 1;
  value = some (record {
    boolean = none;
    string = none;
    scaled_number = none;
    duration = some (some (pos duration));
  });
  is_value_changeable = some true;
}

abbrev pub device_configuration : DeviceConfigurationFeature
device_configuration = record {
  descriptions = listed (
      key_description 0 failsafe_consumption_active_power_limit
      ∷ key_description 1 failsafe_duration_minimum
      ∷ []);
  values = listed (stored_duration 0 ∷ []);
}

-- The consuming AC connection has the id 1.
abbrev pub connection : ConnectionDescription
connection = record {
  electrical_connection_id = some 1;
  power_supply_type = some ac;
  ac_connected_phases = none;
  positive_energy_direction = some consume;
}

abbrev pub electrical_connection : ElectricalConnectionFeature
electrical_connection = record {
  descriptions = listed (connection ∷ []);
  parameters = failed;
  permitted_values = failed;
  characteristics = listed [];
}

abbrev pub entity : LocalEntity
entity = record {
  load_control = some load_control;
  device_configuration = some device_configuration;
  electrical_connection = some electrical_connection;
  measurement = none;
  device_type = none;
}

abbrev pub use_case : Limitation
use_case = record {
  entity = entity;
  event_cb = true;
  pending_limits = [];
  pending_device_configs = [];
  heartbeat_diag = none;
  heartbeat_keo_workaround = false;
}

-- A write of the consumption limit.
abbrev pub limit_write : ℕ → ℕ → Message
limit_write counter device = record {
  request_header = some (some counter);
  load_control_limit_list_data = some (stored_limit 3 1000 ∷ []);
  key_value_list_data = none;
  device_remote = device;
  entity_remote = 1;
}

-- A write of the minimum failsafe duration.
abbrev pub configuration_write : ℕ → ℕ → Message
configuration_write counter device = record {
  request_header = some (some counter);
  load_control_limit_list_data = none;
  key_value_list_data = some (stored_duration 7200000000000 ∷ []);
  device_remote = device;
  entity_remote = 1;
}

abbrev pub same_number : ℤ → ℤ
same_number x = x

abbrev pub period : ℤ → TimePeriod
period x = record { end_time = true; duration = some x }

abbrev pub asked_limit : LoadLimit
asked_limit = record {
  duration = pos 3600;
  is_changeable = true;
  is_active = true;
  value = pos 2000;
  delete_duration = false;
}

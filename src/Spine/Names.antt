-- ===== src/Spine/Names.antt =====
-- The constants of spine-go that the program names, each with a number of its own.
use eebus_go.Prelude.{ℕ}

abbrev pub Name : Type 0
Name = ℕ

-- model.LoadControlLimitType, model.LoadControlCategoryType, model.EnergyDirectionType
abbrev pub sign_dependent_abs_value_limit : Name
sign_dependent_abs_value_limit = 1

abbrev pub max_value_limit : Name
max_value_limit = 2

abbrev pub obligation : Name
obligation = 1

abbrev pub recommendation : Name
recommendation = 2

abbrev pub consume : Name
consume = 1

abbrev pub produce : Name
produce = 2

-- model.ScopeType
abbrev pub active_power_limit : Name
active_power_limit = 1

abbrev pub ac_power_total : Name
ac_power_total = 2

abbrev pub ac_power : Name
ac_power = 3

abbrev pub ac_energy_consumed : Name
ac_energy_consumed = 4

abbrev pub ac_energy_produced : Name
ac_energy_produced = 5

abbrev pub ac_current : Name
ac_current = 6

abbrev pub ac_voltage : Name
ac_voltage = 7

abbrev pub ac_frequency : Name
ac_frequency = 8

abbrev pub grid_feed_in : Name
grid_feed_in = 9

abbrev pub grid_consumption : Name
grid_consumption = 10

abbrev pub charge : Name
charge = 11

abbrev pub discharge : Name
discharge = 12

abbrev pub state_of_charge : Name
state_of_charge = 13

abbrev pub ac_yield_total : Name
ac_yield_total = 14

abbrev pub overload_protection : Name
overload_protection = 15

abbrev pub self_consumption : Name
self_consumption = 16

-- model.UnitOfMeasurementType
abbrev pub watt : Name
watt = 1

abbrev pub ampere : Name
ampere = 2

-- model.MeasurementType, model.CommodityType, model.MeasurementValueStateType
abbrev pub power : Name
power = 1

abbrev pub energy : Name
energy = 2

abbrev pub current : Name
current = 3

abbrev pub voltage : Name
voltage = 4

abbrev pub frequency : Name
frequency = 5

abbrev pub percentage : Name
percentage = 6

abbrev pub electricity : Name
electricity = 1

abbrev pub normal : Name
normal = 1

-- model.ElectricalConnectionPhaseNameType, model.ElectricalConnectionVoltageTypeType,
-- model.ElectricalConnectionAcMeasurementTypeType
abbrev pub phase_a : Name
phase_a = 1

abbrev pub phase_b : Name
phase_b = 2

abbrev pub phase_c : Name
phase_c = 3

abbrev pub ac : Name
ac = 1

abbrev pub real : Name
real = 1

-- model.ElectricalConnectionCharacteristicContextType and
-- model.ElectricalConnectionCharacteristicTypeType
abbrev pub entity_context : Name
entity_context = 1

abbrev pub power_consumption_nominal_max : Name
power_consumption_nominal_max = 1

abbrev pub contractual_consumption_nominal_max : Name
contractual_consumption_nominal_max = 2

abbrev pub power_production_nominal_max : Name
power_production_nominal_max = 3

abbrev pub contractual_production_nominal_max : Name
contractual_production_nominal_max = 4

-- model.DeviceConfigurationKeyNameType
abbrev pub failsafe_consumption_active_power_limit : Name
failsafe_consumption_active_power_limit = 1

abbrev pub failsafe_production_active_power_limit : Name
failsafe_production_active_power_limit = 2

abbrev pub failsafe_duration_minimum : Name
failsafe_duration_minimum = 3

abbrev pub pv_curtailment_limit_factor : Name
pv_curtailment_limit_factor = 4

abbrev pub peak_power_of_pv_system : Name
peak_power_of_pv_system = 5

abbrev pub communications_standard : Name
communications_standard = 6

abbrev pub asymmetric_charging_supported : Name
asymmetric_charging_supported = 7

-- model.DeviceTypeType, model.EntityTypeType, model.UseCaseActorType
abbrev pub energy_management_system : Name
energy_management_system = 1

abbrev pub grid_guard : Name
grid_guard = 1

abbrev pub cem : Name
cem = 2

abbrev pub energy_guard : Name
energy_guard = 1

abbrev pub ev : Name
ev = 2

abbrev pub compressor : Name
compressor = 3

abbrev pub evse : Name
evse = 4

abbrev pub heat_pump_appliance : Name
heat_pump_appliance = 5

abbrev pub inverter : Name
inverter = 6

abbrev pub smart_energy_appliance : Name
smart_energy_appliance = 7

abbrev pub sub_meter_electricity : Name
sub_meter_electricity = 8

abbrev pub ev_entity : Name
ev_entity = 9

abbrev pub electrical_immersion_heater : Name
electrical_immersion_heater = 10

abbrev pub battery_system_entity : Name
battery_system_entity = 11

abbrev pub pv_system_entity : Name
pv_system_entity = 12

abbrev pub grid_connection_point_entity : Name
grid_connection_point_entity = 13

abbrev pub controllable_system : Name
controllable_system = 3

abbrev pub monitored_unit : Name
monitored_unit = 4

abbrev pub grid_connection_point : Name
grid_connection_point = 5

abbrev pub battery_system : Name
battery_system = 6

abbrev pub pv_system : Name
pv_system = 7

abbrev pub compressor_actor : Name
compressor_actor = 8

abbrev pub evse_actor : Name
evse_actor = 9

-- model.RoleType, model.FeatureTypeType
abbrev pub server_role : Name
server_role = 1

abbrev pub client_role : Name
client_role = 2

abbrev pub load_control : Name
load_control = 1

abbrev pub device_diagnosis : Name
device_diagnosis = 2

abbrev pub device_configuration : Name
device_configuration = 3

abbrev pub electrical_connection : Name
electrical_connection = 4

abbrev pub measurement : Name
measurement = 5

abbrev pub generic : Name
generic = 6

abbrev pub energy_management_ps : Name
energy_management_ps = 7

abbrev pub device_classification : Name
device_classification = 8

abbrev pub identification : Name
identification = 9

-- model.FunctionType, model.CmdClassifierType
abbrev pub load_control_limit_list_data : Name
load_control_limit_list_data = 1

abbrev pub device_configuration_key_value_list_data : Name
device_configuration_key_value_list_data = 2

abbrev pub device_diagnosis_heartbeat_data : Name
device_diagnosis_heartbeat_data = 3

abbrev pub load_control_limit_description_list_data : Name
load_control_limit_description_list_data = 4

abbrev pub load_control_limit_constraints_list_data : Name
load_control_limit_constraints_list_data = 13

abbrev pub device_configuration_key_value_description_list_data : Name
device_configuration_key_value_description_list_data = 5

abbrev pub electrical_connection_characteristic_list_data : Name
electrical_connection_characteristic_list_data = 6

abbrev pub electrical_connection_description_list_data : Name
electrical_connection_description_list_data = 7

abbrev pub electrical_connection_parameter_description_list_data : Name
electrical_connection_parameter_description_list_data = 8

abbrev pub electrical_connection_permitted_value_set_list_data : Name
electrical_connection_permitted_value_set_list_data = 9

abbrev pub measurement_description_list_data : Name
measurement_description_list_data = 10

abbrev pub measurement_constraints_list_data : Name
measurement_constraints_list_data = 11

abbrev pub measurement_list_data : Name
measurement_list_data = 12

abbrev pub energy_management_ps_data : Name
energy_management_ps_data = 13

abbrev pub device_classification_manufacturer_data : Name
device_classification_manufacturer_data = 14

abbrev pub device_diagnosis_state_data : Name
device_diagnosis_state_data = 15

abbrev pub identification_list_data : Name
identification_list_data = 16

abbrev pub write_classifier : Name
write_classifier = 1

abbrev pub notify_classifier : Name
notify_classifier = 2

-- model.DeviceConfigurationKeyValueTypeType
abbrev pub scaled_number_type : Name
scaled_number_type = 1

abbrev pub duration_type : Name
duration_type = 2

abbrev pub string_type : Name
string_type = 3

abbrev pub boolean_type : Name
boolean_type = 4

-- model.UseCaseNameType, model.UseCaseActorType
abbrev pub limitation_of_power_consumption : Name
limitation_of_power_consumption = 1

abbrev pub limitation_of_power_production : Name
limitation_of_power_production = 2

abbrev pub monitoring_of_power_consumption : Name
monitoring_of_power_consumption = 3

abbrev pub monitoring_of_grid_connection_point : Name
monitoring_of_grid_connection_point = 4

abbrev pub visualization_of_aggregated_battery_data : Name
visualization_of_aggregated_battery_data = 5

abbrev pub visualization_of_aggregated_photovoltaic_data : Name
visualization_of_aggregated_photovoltaic_data = 6

abbrev pub ev_state_of_charge : Name
ev_state_of_charge = 7

abbrev pub measurement_of_electricity_during_ev_charging : Name
measurement_of_electricity_during_ev_charging = 8

abbrev pub overload_protection_by_ev_charging_current_curtailment : Name
overload_protection_by_ev_charging_current_curtailment = 9

abbrev pub optimization_of_self_consumption_during_ev_charging : Name
optimization_of_self_consumption_during_ev_charging = 10

abbrev pub optimization_by_heat_pump_compressor : Name
optimization_by_heat_pump_compressor = 11

abbrev pub ev_commissioning_and_configuration : Name
ev_commissioning_and_configuration = 12

abbrev pub evse_commissioning_and_configuration : Name
evse_commissioning_and_configuration = 13

-- the element `TimePeriod` of model.LoadControlLimitDataElementsType
abbrev pub time_period_element : Name
time_period_element = 1

-- ===== src/Examples/Adjustments.antt =====
-- Adjusting values, the limits of the phases, searches and updates by key.
use eebus_go.Prelude.{Any, ◌≡◌, ◌↔◌, refl, true, none, some, List, [], ◌∷◌, ◌++◌}
use eebus_go.Prelude.Int.{pos}
use eebus_go.Features.ElectricalConnection.Payload
use eebus_go.Spine.{
  permitted_value_sets, phase_a, ParameterDescription, MeasurementDescription, key_values,
  failsafe_consumption_active_power_limit,
}
use eebus_go.Errors.{ok}
use eebus_go.Features.Filter.{
  pointer, other, match_fields, new_local, new_remote, search_filter_in_list,
  feature_data_copy_of_type,
}
use eebus_go.Features.Filter.Matching.{Refines, match_fields_iff}
use eebus_go.Features.DeviceConfiguration.{
  key_filter, get_key_value_descriptions_for_filter, check_event_payload_data_for_filter,
}
use eebus_go.Features.DeviceConfiguration.Payload.{check_reports_any_value}
use eebus_go.Features.ElectricalConnection.{
  parameter_filter, phase_filter, get_parameter_descriptions_for_filter,
  get_permitted_value_set_for_filter, get_permitted_value_data_for_filter,
}
use eebus_go.Features.ElectricalConnection.PhaseLimits.{CurrentLimits, get_phase_current_limits}
use eebus_go.Examples.Data.{device_configuration, key_description, stored_duration}
use eebus_go.Examples.RemoteData.{range, permitted, parameter, remote_connection}

found_second :
    get_permitted_value_set_for_filter (new_remote remote_connection) (parameter_filter (some 2))
    ≡ ok (permitted 2 (range (some (pos 6)) none ∷ []) ∷ [])
unfolding get_permitted_value_set_for_filter feature_data_copy_of_type search_filter_in_list
found_second = refl

abbrev measured : List MeasurementDescription
measured =
    record {
      measurement_id = some 50;
      measurement_type = none;
      commodity_type = none;
      unit = none;
      scope_type = none;
    }
    ∷ []

abbrev limits_found : CurrentLimits
limits_found = record {
  result_min = pos 6 ∷ [];
  result_max = pos 16 ∷ [];
  result_default = pos 0 ∷ [];
}

measured_limits : get_phase_current_limits (new_remote remote_connection) measured ≡ ok limits_found
unfolding get_phase_current_limits get_parameter_descriptions_for_filter
    get_permitted_value_data_for_filter get_permitted_value_set_for_filter feature_data_copy_of_type
    search_filter_in_list
measured_limits = refl

match_fields_iff_example :
    (match_fields (pointer (some 3) ∷ other ∷ []) (pointer none ∷ other ∷ []) ≡ true)
    ↔ Refines (pointer (some 3) ∷ other ∷ []) (pointer none ∷ other ∷ [])
match_fields_iff_example =
    match_fields_iff (pointer (some 3) ∷ other ∷ []) (pointer none ∷ other ∷ []) tt

-- A value of the key 1, where the consumption limit is the key 0.
reported_key :
    get_key_value_descriptions_for_filter
      (new_local device_configuration)
      (key_filter none (some failsafe_consumption_active_power_limit))
    ≡ ok ([] ++ key_description 0 failsafe_consumption_active_power_limit ∷ [])
unfolding get_key_value_descriptions_for_filter feature_data_copy_of_type search_filter_in_list
reported_key = refl

check_reports_any_value_example :
    check_event_payload_data_for_filter
      (new_local device_configuration)
      (key_values (stored_duration 1 ∷ []))
      (key_filter none (some failsafe_consumption_active_power_limit))
    ≡ true
check_reports_any_value_example =
    check_reports_any_value (new_local device_configuration)
      (key_filter none (some failsafe_consumption_active_power_limit))
      (key_description 0 failsafe_consumption_active_power_limit) [] [] [] [] (stored_duration 1)
      reported_key refl refl

phase_a_found :
    get_parameter_descriptions_for_filter (new_remote remote_connection) (phase_filter phase_a)
    ≡ ok (parameter 1 50 phase_a ∷ [])
unfolding get_parameter_descriptions_for_filter feature_data_copy_of_type search_filter_in_list
phase_a_found = refl

check_event_payload_data_for_filter_iff_example :
    (Payload.check_event_payload_data_for_filter
        (new_remote remote_connection)
        (permitted_value_sets (permitted 1 [] ∷ []))
        (phase_filter phase_a)
      ≡ true)
    ↔ Any
        (λ (desc : ParameterDescription). Any (Payload.IsPermittedFor desc) (permitted 1 [] ∷ []))
        (parameter 1 50 phase_a ∷ [])
check_event_payload_data_for_filter_iff_example =
    Payload.check_event_payload_data_for_filter_iff (new_remote remote_connection)
      (permitted 1 [] ∷ []) (phase_filter phase_a) (parameter 1 50 phase_a ∷ []) phase_a_found

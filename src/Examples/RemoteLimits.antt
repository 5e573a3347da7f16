-- ===== src/Examples/RemoteLimits.antt =====
-- Reading and writing the limits of a remote entity, and reading its measurements.
use eebus_go.Prelude.{ℕ, All, Any, ◌≡◌, ◌↔◌, refl, true, none, some, [], ◌∷◌}
use eebus_go.Prelude.Int.{pos}
use eebus_go.Spine.{Name, MeasurementDescription, LimitData, phase_a, phase_b, phase_c, consume}
use eebus_go.Errors.{ok, err, data_not_available}
use eebus_go.Features.Filter.{listed, new_remote, search_filter_in_list, feature_data_copy_of_type}
use eebus_go.Features.LoadControl.{
  LoadControlFeature, get_limit_descriptions_for_filter, get_limit_data_for_filter,
  get_limit_data_for_id, empty_limit_description,
}
use eebus_go.Features.ElectricalConnection.{
  ElectricalConnectionFeature, empty_parameter_description, parameter_filter, phase_filter,
  get_parameter_descriptions_for_filter, get_permitted_value_set_for_filter,
  get_permitted_value_data_for_filter,
}
use eebus_go.Features.ElectricalConnection.Adjust.{
  adjust_value_to_be_within_permitted_values_for_parameter_id,
}
use eebus_go.Features.Client.{LimitCommand, RemoteLimits, write_limit_data}
use eebus_go.UseCase.Limits.{LoadLimitsPhase}
use eebus_go.Internal.LoadControl.{
  RemoteData, match_descriptions, new_limit, load_control_limits, write_load_control_limit,
  phase_write, phase_writes, write_load_control_phase_limits,
}
use eebus_go.Internal.LoadControl.Phases.{load_control_limits_unmatched}
use eebus_go.Internal.LoadControl.Writes.{
  IsPermittedWrite, IsChangeableLimit, write_load_control_limit_iff,
  write_load_control_phase_limits_lem,
}
use eebus_go.Examples.Data.{limit_description, stored_limit, same_number, period, asked_limit}
use eebus_go.Examples.RemoteData.{parameter, remote_connection}
use eebus_go.Features.ElectricalConnection
use eebus_go.Features.ElectricalConnection.{get_description_for_parameter_description_filter}
use eebus_go.Features.Measurement.{
  MeasurementFeature, get_descriptions_for_filter, get_data_for_filter,
}
use eebus_go.Internal.Measurement.{
  has_valid_phase, returns_nil, check_direction, measurement_phase_specific_data_for_filter,
}
use eebus_go.Internal.Measurement.Values.{
  fits_direction, measurement_phase_specific_data_for_filter_lem,
  measurement_direction_drops_values,
}
use eebus_go.Spine.{MeasurementData, ConnectionDescription, ac, produce}

abbrev partial : RemoteLimits
partial = record { write_partial = true; update_data = λ xs d. none }

-- The limits of the phases a and b have the measurements 50 and 51; b has the parameter of the
-- measurement 60 alone.
abbrev remote_limits : LoadControlFeature
remote_limits = record {
  limit_descriptions = listed (
      limit_description 3 consume
      ∷ record (limit_description 4 consume) { measurement_id = some 51 }
      ∷ []);
  limits = listed (stored_limit 3 4200 ∷ stored_limit 4 9000 ∷ []);
}

abbrev remote_data : RemoteData
remote_data = record {
  load_control = some remote_limits;
  electrical_connection = some remote_connection;
  limits = partial;
}

described :
    get_limit_descriptions_for_filter (new_remote remote_limits) empty_limit_description
    ≡ ok (
        limit_description 3 consume
        ∷ record (limit_description 4 consume) { measurement_id = some 51 }
        ∷ [])
unfolding get_limit_descriptions_for_filter feature_data_copy_of_type search_filter_in_list
described = refl

phase_b_found :
    get_parameter_descriptions_for_filter (new_remote remote_connection) (phase_filter phase_b)
    ≡ ok (parameter 2 60 phase_b ∷ [])
unfolding get_parameter_descriptions_for_filter feature_data_copy_of_type search_filter_in_list
phase_b_found = refl

load_control_limits_unmatched_example :
    load_control_limits remote_data empty_limit_description ≡ err data_not_available
unfolding match_descriptions
load_control_limits_unmatched_example =
    load_control_limits_unmatched remote_data empty_limit_description remote_limits
      remote_connection
      (limit_description 3 consume
        ∷ record (limit_description 4 consume) { measurement_id = some 51 }
        ∷ [])
      (phase_a ∷ []) (phase_c ∷ []) phase_b (parameter 2 60 phase_b) [] refl refl described refl
      phase_b_found refl

abbrev limit_command : LimitCommand
limit_command = record {
  limits = new_limit same_number period (some 3) asked_limit ∷ [];
  filters = some none;
}

write_load_control_limit_iff_example :
    (write_load_control_limit same_number period remote_data
        (limit_description 3 consume)
        asked_limit
      ≡ ok limit_command)
    ↔ ((id : ℕ) × IsChangeableLimit (new_remote remote_limits) (limit_description 3 consume) id
        × (limit_command ≡ record {
          limits = new_limit same_number period (some id) asked_limit ∷ [];
          filters = some none;
        }))
write_load_control_limit_iff_example =
    write_load_control_limit_iff same_number period remote_data (limit_description 3 consume)
      asked_limit remote_limits limit_command refl refl

abbrev phase_limit : LoadLimitsPhase
phase_limit = record { phase = phase_a; is_changeable = true; is_active = true; value = pos 32 }

abbrev phase_command : LimitCommand
phase_command = record {
  limits =
      record {
        limit_id = some 3;
        is_limit_changeable = none;
        is_limit_active = some true;
        time_period = none;
        value = some (pos 16);
      }
      ∷ [];
  filters = some none;
}

phase_sent :
    write_load_control_phase_limits same_number remote_data empty_limit_description
      (phase_limit ∷ [])
    ≡ ok phase_command
unfolding write_load_control_phase_limits write_limit_data phase_writes phase_write
    match_descriptions adjust_value_to_be_within_permitted_values_for_parameter_id
    get_permitted_value_set_for_filter get_parameter_descriptions_for_filter
    get_limit_descriptions_for_filter get_limit_data_for_id get_limit_data_for_filter
    feature_data_copy_of_type search_filter_in_list
phase_sent = refl

write_load_control_phase_limits_lem_example :
    All
      (λ (x : LimitData).
        Any
          (λ (l : LoadLimitsPhase).
            IsPermittedWrite same_number
              (new_remote remote_limits)
              (new_remote remote_connection)
              empty_limit_description
              l
              x)
          (phase_limit ∷ []))
      phase_command.limits
write_load_control_phase_limits_lem_example =
    write_load_control_phase_limits_lem same_number remote_data empty_limit_description
      (phase_limit ∷ []) remote_limits remote_connection phase_command refl refl refl phase_sent

abbrev measurement_filter : MeasurementDescription
measurement_filter = record {
  measurement_id = none;
  measurement_type = none;
  commodity_type = none;
  unit = none;
  scope_type = none;
}

abbrev reading : ℕ → ℕ → MeasurementData
reading id value = record { measurement_id = some id; value = some (pos value); value_state = none }

-- The measurements 50 and 60 of the phases a and b.
abbrev remote_measurements : MeasurementFeature
remote_measurements = record {
  descriptions = listed (
      record measurement_filter { measurement_id = some 50 }
      ∷ record measurement_filter { measurement_id = some 60 }
      ∷ []);
  measurements = listed (reading 50 230 ∷ reading 60 231 ∷ []);
}

read_measurements :
    get_data_for_filter (new_remote remote_measurements) measurement_filter
    ≡ ok (reading 50 230 ∷ reading 60 231 ∷ [])
unfolding get_data_for_filter get_descriptions_for_filter feature_data_copy_of_type
    search_filter_in_list
read_measurements = refl

measurement_phase_specific_data_for_filter_lem_example :
    measurement_phase_specific_data_for_filter
      (some remote_measurements)
      (some remote_connection)
      measurement_filter
      none
      (some (phase_a ∷ []))
    ≡ ok (pos 230 ∷ [])
unfolding has_valid_phase check_direction get_parameter_descriptions_for_filter
    feature_data_copy_of_type search_filter_in_list
measurement_phase_specific_data_for_filter_lem_example =
    measurement_phase_specific_data_for_filter_lem remote_measurements remote_connection
      measurement_filter none (some (phase_a ∷ [])) (reading 50 230) (reading 60 231 ∷ [])
      read_measurements ((refl, refl), ((refl, refl), tt))

-- The measurement 50 is of a connection that consumes, the measurement 60 of one that produces.
abbrev direction_of : ℕ → Name → ConnectionDescription
direction_of id direction = record {
  electrical_connection_id = some id;
  power_supply_type = some ac;
  ac_connected_phases = none;
  positive_energy_direction = some direction;
}

abbrev two_directions : ElectricalConnectionFeature
two_directions = record remote_connection {
  descriptions = listed (direction_of 1 consume ∷ direction_of 2 produce ∷ []);
  parameters = listed (
      record (parameter 1 50 phase_a) { electrical_connection_id = some 1 }
      ∷ record (parameter 2 60 phase_b) { electrical_connection_id = some 2 }
      ∷ []);
}

first_fits : fits_direction (new_remote two_directions) (some consume) (reading 50 230) ≡ true
unfolding check_direction get_description_for_parameter_description_filter
    get_parameter_descriptions_for_filter ElectricalConnection.get_descriptions_for_filter
    feature_data_copy_of_type search_filter_in_list
first_fits = refl

second_produces : check_direction (new_remote two_directions) (some consume) 60 ≡ returns_nil
unfolding check_direction get_description_for_parameter_description_filter
    get_parameter_descriptions_for_filter ElectricalConnection.get_descriptions_for_filter
    feature_data_copy_of_type search_filter_in_list
second_produces = refl

measurement_direction_drops_values_example :
    measurement_phase_specific_data_for_filter
      (some remote_measurements)
      (some two_directions)
      measurement_filter
      (some consume)
      none
    ≡ ok []
unfolding has_valid_phase
measurement_direction_drops_values_example =
    measurement_direction_drops_values remote_measurements two_directions measurement_filter
      (some consume) none (reading 50 230 ∷ []) [] (reading 60 231) 60 read_measurements
      ((refl, first_fits), tt) refl refl refl second_produces

-- ===== src/Examples/Monitoring.antt =====
-- The voltage of a heat pump.
use eebus_go.Prelude.{ℕ, All, ◌≡◌, refl, true, none, some, [], ◌∷◌}
use eebus_go.Prelude.Int.{pos}
use eebus_go.Spine.{
  Name, MeasurementDescription, voltage, frequency, ac_voltage, ac_frequency, normal,
}
use eebus_go.Errors.{ok}
use eebus_go.Features.Filter.{listed, search_filter_in_list, feature_data_copy_of_type}
use eebus_go.Features.Measurement.{
  MeasurementFeature, get_descriptions_for_filter, get_data_for_filter,
}
use eebus_go.Features.ElectricalConnection.{get_parameter_descriptions_for_filter}
use eebus_go.UseCase.Remote.{RemoteEntity}
use eebus_go.UseCase.Base.{is_compatible_entity_type}
use eebus_go.Internal.Clients.{Remote}
use eebus_go.Internal.Measurement.{
  has_valid_phase, check_direction, phase_values, measurement_phase_specific_data_for_filter,
}
use eebus_go.Internal.Readers.{measured}
use eebus_go.Internal.Readers.Validity.{IsReading}
use eebus_go.Ma.Mpc.{new_mpc, mpc_voltage_per_phase}
use eebus_go.Ma.Readings.{monitoring_sound}
use eebus_go.Examples.RemoteData.{remote_connection}
use eebus_go.Examples.GuardData.{heat_pump, remotes}

abbrev described : ℕ → Name → Name → MeasurementDescription
described id type scope = record (measured type scope) { measurement_id = some id }

-- The voltages of the phases a and b, and the frequency.
abbrev readings : MeasurementFeature
readings = record {
  descriptions = listed (
      described 50 voltage ac_voltage
      ∷ described 60 voltage ac_voltage
      ∷ described 70 frequency ac_frequency
      ∷ []);
  measurements = listed (
      record { measurement_id = some 50; value = some (pos 230); value_state = some normal }
      ∷ record { measurement_id = some 60; value = some (pos 231); value_state = none }
      ∷ record { measurement_id = some 70; value = some (pos 50); value_state = none }
      ∷ []);
}

abbrev measured_remotes : RemoteEntity → Remote
measured_remotes e = record (remotes e) {
  measurement = some readings;
  remote_data = record (remotes e).remote_data { electrical_connection = some remote_connection };
}

voltages :
    mpc_voltage_per_phase (new_mpc true) measured_remotes (some heat_pump)
    ≡ ok (pos 230 ∷ pos 231 ∷ [])
unfolding mpc_voltage_per_phase is_compatible_entity_type measurement_phase_specific_data_for_filter
    phase_values has_valid_phase check_direction get_data_for_filter get_descriptions_for_filter
    get_parameter_descriptions_for_filter feature_data_copy_of_type search_filter_in_list
voltages = refl

monitoring_sound_example :
    All (IsReading readings (measured voltage ac_voltage)) (pos 230 ∷ pos 231 ∷ [])
monitoring_sound_example =
    (monitoring_sound (new_mpc true) measured_remotes heat_pump readings refl).0.5
      (pos 230 ∷ pos 231 ∷ []) voltages

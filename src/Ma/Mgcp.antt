-- ===== src/Ma/Mgcp.antt =====
-- usecases/ma/mgcp: monitoring of the grid connection point, by a monitoring appliance.
use eebus_go.Prelude.{Bool, true, false, Option, none, some, List, [], ◌∷◌, ◌++◌, map}
use eebus_go.Prelude.Int.{ℤ}
use eebus_go.Spine.{
  Name, PayloadData, consume, power, energy, current, voltage, frequency, ac_power_total,
  grid_feed_in, grid_consumption, ac_current, ac_voltage, ac_frequency,
  measurement_description_data, key_value_description_data, key_values, measurements,
  electrical_connection, measurement, device_configuration, monitoring_of_grid_connection_point,
  grid_connection_point, grid_connection_point_entity, pv_curtailment_limit_factor,
}
use eebus_go.Errors.{Result}
use eebus_go.Features.Requests.{Call}
use eebus_go.UseCase.Remote.{RemoteEntity, EventPayload}
use eebus_go.UseCase.Base.{UseCaseBase}
use eebus_go.UseCase.Features.{add_client_features}
use eebus_go.Internal.Clients.{Remote, ClientEffect, call, with_compatible, handle_client_event}
use eebus_go.Internal.Readers.{
  measured, first_value, values_of_phases, single, scaled_value, connect_configuration,
  connect_measurement, request_key_values, request_measurements, measurement_data_update,
  key_data_update,
}
use eebus_go.Features.ElectricalConnection.{phase_name_mapping}

-- The events of types.go that the handlers report.
pub data MgcpEvent : Type 0 where
  mgcp_power_limitation_factor_updated mgcp_power_updated mgcp_energy_feed_in_updated
        mgcp_energy_consumed_updated mgcp_currents_updated mgcp_voltages_updated
        mgcp_frequency_updated :
      MgcpEvent

-- NewMGCP: `event_cb` says whether a callback is given.
abbrev pub new_mgcp : Bool → UseCaseBase
new_mgcp event_cb = record {
  use_case_name = monitoring_of_grid_connection_point;
  use_case_scenarios =
      record { scenario = 1; server_features = device_configuration ∷ [] }
      ∷ record { scenario = 2; server_features = measurement ∷ electrical_connection ∷ [] }
      ∷ record { scenario = 3; server_features = measurement ∷ electrical_connection ∷ [] }
      ∷ record { scenario = 4; server_features = measurement ∷ electrical_connection ∷ [] }
      ∷ record { scenario = 5; server_features = measurement ∷ electrical_connection ∷ [] }
      ∷ record { scenario = 6; server_features = measurement ∷ electrical_connection ∷ [] }
      ∷ record { scenario = 7; server_features = measurement ∷ electrical_connection ∷ [] }
      ∷ [];
  event_cb = event_cb;
  available_entity_scenarios = [];
  valid_actor_types = grid_connection_point ∷ [];
  valid_entity_types = grid_connection_point_entity ∷ [];
  all_entity_types_valid = false;
}

-- AddFeatures
abbrev pub mgcp_add_features : (Name → Name → Bool) → Result (Unit {0})
mgcp_add_features can_add =
    (add_client_features can_add
      (device_configuration ∷ electrical_connection ∷ measurement ∷ [])).1

-- PowerLimitationFactor
unfoldable pub mgcp_power_limitation_factor :
    UseCaseBase → (RemoteEntity → Remote) → Option RemoteEntity → Result ℤ
mgcp_power_limitation_factor u remotes entity =
    with_compatible u remotes entity
      (λ e r. scaled_value r.missing_error r pv_curtailment_limit_factor)

-- Power
unfoldable pub mgcp_power : UseCaseBase → (RemoteEntity → Remote) → Option RemoteEntity → Result ℤ
mgcp_power u remotes entity =
    with_compatible u remotes entity
      (λ e r. single (values_of_phases r (measured power ac_power_total) (some consume) none))

-- EnergyFeedIn
unfoldable pub mgcp_energy_feed_in :
    UseCaseBase → (RemoteEntity → Remote) → Option RemoteEntity → Result ℤ
mgcp_energy_feed_in u remotes entity =
    with_compatible u remotes entity
      (λ e r. first_value true r.missing_error r.measurement (measured energy grid_feed_in))

-- EnergyConsumed
unfoldable pub mgcp_energy_consumed :
    UseCaseBase → (RemoteEntity → Remote) → Option RemoteEntity → Result ℤ
mgcp_energy_consumed u remotes entity =
    with_compatible u remotes entity
      (λ e r. first_value true r.missing_error r.measurement (measured energy grid_consumption))

-- CurrentPerPhase
unfoldable pub mgcp_current_per_phase :
    UseCaseBase → (RemoteEntity → Remote) → Option RemoteEntity → Result (List ℤ)
mgcp_current_per_phase u remotes entity = with_compatible u remotes entity (λ e r.
    values_of_phases r (measured current ac_current) (some consume) (some phase_name_mapping))

-- VoltagePerPhase
unfoldable pub mgcp_voltage_per_phase :
    UseCaseBase → (RemoteEntity → Remote) → Option RemoteEntity → Result (List ℤ)
mgcp_voltage_per_phase u remotes entity =
    with_compatible u remotes entity
      (λ e r. values_of_phases r (measured voltage ac_voltage) none (some phase_name_mapping))

-- Frequency
unfoldable pub mgcp_frequency :
    UseCaseBase → (RemoteEntity → Remote) → Option RemoteEntity → Result ℤ
mgcp_frequency u remotes entity =
    with_compatible u remotes entity
      (λ e r. first_value true r.missing_error r.measurement (measured frequency ac_frequency))

-- gridMeasurementDataUpdate
unfoldable pub mgcp_measurement_data_update :
    UseCaseBase → Remote → EventPayload → List (ClientEffect MgcpEvent)
mgcp_measurement_data_update u r payload = measurement_data_update u r payload (
    (ac_power_total, mgcp_power_updated)
    ∷ (grid_feed_in, mgcp_energy_feed_in_updated)
    ∷ (grid_consumption, mgcp_energy_consumed_updated)
    ∷ (ac_current, mgcp_currents_updated)
    ∷ (ac_voltage, mgcp_voltages_updated)
    ∷ (ac_frequency, mgcp_frequency_updated)
    ∷ [])

-- gridConnected
abbrev pub mgcp_grid_connected : RemoteEntity → Remote → List Call
mgcp_grid_connected entity r = connect_configuration r ++ connect_measurement r

-- The switch over the type of the data.
unfoldable pub mgcp_handle_data :
    UseCaseBase → Remote → EventPayload → PayloadData → List (ClientEffect MgcpEvent)
unfolding mgcp_measurement_data_update
mgcp_handle_data u r payload key_value_description_data = map call (request_key_values r)
mgcp_handle_data u r payload (key_values _) =
    key_data_update u r payload pv_curtailment_limit_factor none
      mgcp_power_limitation_factor_updated
mgcp_handle_data u r payload measurement_description_data = map call (request_measurements r)
mgcp_handle_data u r payload (measurements _) = mgcp_measurement_data_update u r payload
mgcp_handle_data u r payload _ = []

-- HandleEvent
unfoldable pub mgcp_handle_event :
    UseCaseBase → (RemoteEntity → Remote) → EventPayload → List (ClientEffect MgcpEvent)
unfolding mgcp_handle_data
mgcp_handle_event u remotes payload =
    handle_client_event u remotes mgcp_grid_connected (λ r p. mgcp_handle_data u r p p.content)
      payload

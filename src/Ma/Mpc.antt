-- ===== src/Ma/Mpc.antt =====
-- usecases/ma/mpc: monitoring of power consumption, by a monitoring appliance.
use eebus_go.Prelude.{Bool, true, false, Option, none, some, List, [], ◌∷◌, map}
use eebus_go.Prelude.Int.{ℤ}
use eebus_go.Spine.{
  Name, PayloadData, consume, power, energy, current, voltage, frequency, ac_power_total, ac_power,
  ac_energy_consumed, ac_energy_produced, ac_current, ac_voltage, ac_frequency,
  measurement_description_data, measurements, electrical_connection, measurement,
  monitoring_of_power_consumption, monitored_unit, compressor, electrical_immersion_heater, evse,
  heat_pump_appliance, inverter, smart_energy_appliance, sub_meter_electricity,
}
use eebus_go.Errors.{Result}
use eebus_go.Features.Requests.{Call}
use eebus_go.UseCase.Remote.{RemoteEntity, EventPayload}
use eebus_go.UseCase.Base.{UseCaseBase}
use eebus_go.UseCase.Features.{add_client_features}
use eebus_go.Internal.Clients.{Remote, ClientEffect, call, with_compatible, handle_client_event}
use eebus_go.Internal.Readers.{
  measured, first_value, values_of_phases, single, connect_measurement, request_measurements,
  measurement_data_update,
}
use eebus_go.Features.ElectricalConnection.{phase_name_mapping}

-- The events of types.go that the handlers report.
pub data MpcEvent : Type 0 where
  mpc_power_updated mpc_power_per_phase_updated mpc_energy_consumed_updated
        mpc_energy_produced_updated mpc_currents_updated mpc_voltages_updated
        mpc_frequency_updated :
      MpcEvent

-- NewMPC: `event_cb` says whether a callback is given.
abbrev pub new_mpc : Bool → UseCaseBase
new_mpc event_cb = record {
  use_case_name = monitoring_of_power_consumption;
  use_case_scenarios =
      record { scenario = 1; server_features = electrical_connection ∷ measurement ∷ [] }
      ∷ record { scenario = 2; server_features = electrical_connection ∷ measurement ∷ [] }
      ∷ record { scenario = 3; server_features = electrical_connection ∷ measurement ∷ [] }
      ∷ record { scenario = 4; server_features = electrical_connection ∷ measurement ∷ [] }
      ∷ record { scenario = 5; server_features = electrical_connection ∷ measurement ∷ [] }
      ∷ [];
  event_cb = event_cb;
  available_entity_scenarios = [];
  valid_actor_types = monitored_unit ∷ [];
  valid_entity_types =
      compressor ∷ electrical_immersion_heater ∷ evse ∷ heat_pump_appliance ∷ inverter
      ∷ smart_energy_appliance ∷ sub_meter_electricity ∷ [];
  all_entity_types_valid = false;
}

-- AddFeatures
abbrev pub mpc_add_features : (Name → Name → Bool) → Result (Unit {0})
mpc_add_features can_add =
    (add_client_features can_add (electrical_connection ∷ measurement ∷ [])).1

-- Power
unfoldable pub mpc_power : UseCaseBase → (RemoteEntity → Remote) → Option RemoteEntity → Result ℤ
mpc_power u remotes entity =
    with_compatible u remotes entity
      (λ e r. single (values_of_phases r (measured power ac_power_total) (some consume) none))

-- PowerPerPhase
unfoldable pub mpc_power_per_phase :
    UseCaseBase → (RemoteEntity → Remote) → Option RemoteEntity → Result (List ℤ)
mpc_power_per_phase u remotes entity =
    with_compatible u remotes entity
      (λ e r. values_of_phases r (measured power ac_power) (some consume) (some phase_name_mapping))

-- EnergyConsumed
unfoldable pub mpc_energy_consumed :
    UseCaseBase → (RemoteEntity → Remote) → Option RemoteEntity → Result ℤ
mpc_energy_consumed u remotes entity =
    with_compatible u remotes entity
      (λ e r. first_value true r.missing_error r.measurement (measured energy ac_energy_consumed))

-- EnergyProduced
unfoldable pub mpc_energy_produced :
    UseCaseBase → (RemoteEntity → Remote) → Option RemoteEntity → Result ℤ
mpc_energy_produced u remotes entity =
    with_compatible u remotes entity
      (λ e r. first_value true r.missing_error r.measurement (measured energy ac_energy_produced))

-- CurrentPerPhase
unfoldable pub mpc_current_per_phase :
    UseCaseBase → (RemoteEntity → Remote) → Option RemoteEntity → Result (List ℤ)
mpc_current_per_phase u remotes entity = with_compatible u remotes entity (λ e r.
    values_of_phases r (measured current ac_current) (some consume) (some phase_name_mapping))

-- VoltagePerPhase
unfoldable pub mpc_voltage_per_phase :
    UseCaseBase → (RemoteEntity → Remote) → Option RemoteEntity → Result (List ℤ)
mpc_voltage_per_phase u remotes entity =
    with_compatible u remotes entity
      (λ e r. values_of_phases r (measured voltage ac_voltage) none (some phase_name_mapping))

-- Frequency
unfoldable pub mpc_frequency :
    UseCaseBase → (RemoteEntity → Remote) → Option RemoteEntity → Result ℤ
mpc_frequency u remotes entity =
    with_compatible u remotes entity
      (λ e r. first_value true r.missing_error r.measurement (measured frequency ac_frequency))

-- deviceMeasurementDataUpdate
unfoldable pub mpc_measurement_data_update :
    UseCaseBase → Remote → EventPayload → List (ClientEffect MpcEvent)
mpc_measurement_data_update u r payload = measurement_data_update u r payload (
    (ac_power_total, mpc_power_updated)
    ∷ (ac_power, mpc_power_per_phase_updated)
    ∷ (ac_energy_consumed, mpc_energy_consumed_updated)
    ∷ (ac_energy_produced, mpc_energy_produced_updated)
    ∷ (ac_current, mpc_currents_updated)
    ∷ (ac_voltage, mpc_voltages_updated)
    ∷ (ac_frequency, mpc_frequency_updated)
    ∷ [])

-- deviceConnected
abbrev pub mpc_device_connected : RemoteEntity → Remote → List Call
mpc_device_connected entity r = connect_measurement r

-- The switch over the type of the data.
unfoldable pub mpc_handle_data :
    UseCaseBase → Remote → EventPayload → PayloadData → List (ClientEffect MpcEvent)
unfolding mpc_measurement_data_update
mpc_handle_data u r payload measurement_description_data = map call (request_measurements r)
mpc_handle_data u r payload (measurements _) = mpc_measurement_data_update u r payload
mpc_handle_data u r payload _ = []

-- HandleEvent
unfoldable pub mpc_handle_event :
    UseCaseBase → (RemoteEntity → Remote) → EventPayload → List (ClientEffect MpcEvent)
unfolding mpc_handle_data
mpc_handle_event u remotes payload =
    handle_client_event u remotes mpc_device_connected (λ r p. mpc_handle_data u r p p.content)
      payload

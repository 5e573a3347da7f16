-- ===== src/Cem/Vabd.antt =====
-- usecases/cem/vabd: visualization of aggregated battery data.
use eebus_go.Prelude.{Bool, false, Option, List, [], ◌∷◌, map}
use eebus_go.Prelude.Int.{ℤ}
use eebus_go.Spine.{
  Name, PayloadData, power, energy, percentage, ac_power_total, charge, discharge, state_of_charge,
  measurement_description_data, measurements, electrical_connection, measurement,
  device_configuration, visualization_of_aggregated_battery_data, battery_system,
  battery_system_entity,
}
use eebus_go.Errors.{Result, function_not_supported}
use eebus_go.Features.Requests.{Call}
use eebus_go.UseCase.Remote.{RemoteEntity, EventPayload}
use eebus_go.UseCase.Base.{UseCaseBase}
use eebus_go.UseCase.Features.{add_client_features}
use eebus_go.Internal.Clients.{Remote, ClientEffect, call, with_compatible, handle_client_event}
use eebus_go.Internal.Readers.{
  measured, first_value, connect_measurement, request_measurements, measurement_data_update,
}

-- The events of types.go that the handlers report.
pub data VabdEvent : Type 0 where
  vabd_power_updated vabd_energy_charged_updated vabd_energy_discharged_updated
        vabd_state_of_charge_updated :
      VabdEvent

-- NewVABD: `event_cb` says whether a callback is given.
abbrev pub new_vabd : Bool → UseCaseBase
new_vabd event_cb = record {
  use_case_name = visualization_of_aggregated_battery_data;
  use_case_scenarios =
      record { scenario = 1; server_features = measurement ∷ electrical_connection ∷ [] }
      ∷ record { scenario = 2; server_features = measurement ∷ electrical_connection ∷ [] }
      ∷ record { scenario = 3; server_features = measurement ∷ electrical_connection ∷ [] }
      ∷ record { scenario = 4; server_features = measurement ∷ electrical_connection ∷ [] }
      ∷ [];
  event_cb = event_cb;
  available_entity_scenarios = [];
  valid_actor_types = battery_system ∷ [];
  valid_entity_types = battery_system_entity ∷ [];
  all_entity_types_valid = false;
}

-- AddFeatures
abbrev pub vabd_add_features : (Name → Name → Bool) → Result (Unit {0})
vabd_add_features can_add =
    (add_client_features can_add
      (device_configuration ∷ electrical_connection ∷ measurement ∷ [])).1

-- Power, with getValuesFoFilter: the state of a value is not read.
unfoldable pub vabd_power : UseCaseBase → (RemoteEntity → Remote) → Option RemoteEntity → Result ℤ
vabd_power u remotes entity =
    with_compatible u remotes entity (λ e r.
      first_value false function_not_supported r.measurement (measured power ac_power_total))

-- EnergyCharged
unfoldable pub vabd_energy_charged :
    UseCaseBase → (RemoteEntity → Remote) → Option RemoteEntity → Result ℤ
vabd_energy_charged u remotes entity =
    with_compatible u remotes entity
      (λ e r. first_value false function_not_supported r.measurement (measured energy charge))

-- EnergyDischarged
unfoldable pub vabd_energy_discharged :
    UseCaseBase → (RemoteEntity → Remote) → Option RemoteEntity → Result ℤ
vabd_energy_discharged u remotes entity =
    with_compatible u remotes entity
      (λ e r. first_value false function_not_supported r.measurement (measured energy discharge))

-- StateOfCharge
unfoldable pub vabd_state_of_charge :
    UseCaseBase → (RemoteEntity → Remote) → Option RemoteEntity → Result ℤ
vabd_state_of_charge u remotes entity = with_compatible u remotes entity (λ e r.
    first_value false function_not_supported r.measurement (measured percentage state_of_charge))

-- inverterMeasurementDataUpdate
unfoldable pub vabd_measurement_data_update :
    UseCaseBase → Remote → EventPayload → List (ClientEffect VabdEvent)
vabd_measurement_data_update u r payload = measurement_data_update u r payload (
    (ac_power_total, vabd_power_updated)
    ∷ (charge, vabd_energy_charged_updated)
    ∷ (discharge, vabd_energy_discharged_updated)
    ∷ (state_of_charge, vabd_state_of_charge_updated)
    ∷ [])

-- inverterConnected
abbrev pub vabd_inverter_connected : RemoteEntity → Remote → List Call
vabd_inverter_connected entity r = connect_measurement r

-- The switch over the type of the data.
unfoldable pub vabd_handle_data :
    UseCaseBase → Remote → EventPayload → PayloadData → List (ClientEffect VabdEvent)
unfolding vabd_measurement_data_update
vabd_handle_data u r payload measurement_description_data = map call (request_measurements r)
vabd_handle_data u r payload (measurements _) = vabd_measurement_data_update u r payload
vabd_handle_data u r payload _ = []

-- HandleEvent
unfoldable pub vabd_handle_event :
    UseCaseBase → (RemoteEntity → Remote) → EventPayload → List (ClientEffect VabdEvent)
unfolding vabd_handle_data
vabd_handle_event u remotes payload =
    handle_client_event u remotes vabd_inverter_connected (λ r p. vabd_handle_data u r p p.content)
      payload

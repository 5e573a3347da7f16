-- ===== src/Cem/Vapd.antt =====
-- usecases/cem/vapd: visualization of aggregated photovoltaic data.
use eebus_go.Prelude.{Bool, false, Option, some, List, [], ◌∷◌, ◌++◌, map}
use eebus_go.Prelude.Int.{ℤ}
use eebus_go.Spine.{
  Name, PayloadData, power, energy, ac_power_total, ac_yield_total, measurement_description_data,
  key_value_description_data, key_values, measurements, electrical_connection, measurement,
  device_configuration, visualization_of_aggregated_photovoltaic_data, pv_system, pv_system_entity,
  peak_power_of_pv_system, scaled_number_type,
}
use eebus_go.Errors.{Result, function_not_supported}
use eebus_go.Features.Requests.{Call}
use eebus_go.UseCase.Remote.{RemoteEntity, EventPayload}
use eebus_go.UseCase.Base.{UseCaseBase}
use eebus_go.UseCase.Features.{add_client_features}
use eebus_go.Internal.Clients.{Remote, ClientEffect, call, with_compatible, handle_client_event}
use eebus_go.Internal.Readers.{
  measured, first_value, scaled_value, connect_configuration, connect_measurement,
  request_key_values, request_measurements, measurement_data_update, key_data_update,
}

-- The events of types.go that the handlers report.
pub data VapdEvent : Type 0 where
  vapd_power_nominal_peak_updated vapd_power_updated vapd_pv_yield_total_updated : VapdEvent

-- NewVAPD: `event_cb` says whether a callback is given.
abbrev pub new_vapd : Bool → UseCaseBase
new_vapd event_cb = record {
  use_case_name = visualization_of_aggregated_photovoltaic_data;
  use_case_scenarios =
      record { scenario = 1; server_features = device_configuration ∷ [] }
      ∷ record { scenario = 2; server_features = measurement ∷ electrical_connection ∷ [] }
      ∷ record { scenario = 3; server_features = measurement ∷ electrical_connection ∷ [] }
      ∷ [];
  event_cb = event_cb;
  available_entity_scenarios = [];
  valid_actor_types = pv_system ∷ [];
  valid_entity_types = pv_system_entity ∷ [];
  all_entity_types_valid = false;
}

-- AddFeatures
abbrev pub vapd_add_features : (Name → Name → Bool) → Result (Unit {0})
vapd_add_features can_add =
    (add_client_features can_add
      (device_configuration ∷ electrical_connection ∷ measurement ∷ [])).1

-- Power, with getValuesFoFilter: the state of a value is not read.
unfoldable pub vapd_power : UseCaseBase → (RemoteEntity → Remote) → Option RemoteEntity → Result ℤ
vapd_power u remotes entity =
    with_compatible u remotes entity (λ e r.
      first_value false function_not_supported r.measurement (measured power ac_power_total))

-- PowerNominalPeak
unfoldable pub vapd_power_nominal_peak :
    UseCaseBase → (RemoteEntity → Remote) → Option RemoteEntity → Result ℤ
vapd_power_nominal_peak u remotes entity =
    with_compatible u remotes entity
      (λ e r. scaled_value function_not_supported r peak_power_of_pv_system)

-- PVYieldTotal
unfoldable pub vapd_pv_yield_total :
    UseCaseBase → (RemoteEntity → Remote) → Option RemoteEntity → Result ℤ
vapd_pv_yield_total u remotes entity =
    with_compatible u remotes entity (λ e r.
      first_value false function_not_supported r.measurement (measured energy ac_yield_total))

-- inverterMeasurementDataUpdate
unfoldable pub vapd_measurement_data_update :
    UseCaseBase → Remote → EventPayload → List (ClientEffect VapdEvent)
vapd_measurement_data_update u r payload =
    measurement_data_update u r payload
      ((ac_power_total, vapd_power_updated) ∷ (ac_yield_total, vapd_pv_yield_total_updated) ∷ [])

-- inverterConnected
abbrev pub vapd_inverter_connected : RemoteEntity → Remote → List Call
vapd_inverter_connected entity r = connect_configuration r ++ connect_measurement r

-- The switch over the type of the data.
unfoldable pub vapd_handle_data :
    UseCaseBase → Remote → EventPayload → PayloadData → List (ClientEffect VapdEvent)
unfolding vapd_measurement_data_update
vapd_handle_data u r payload key_value_description_data = map call (request_key_values r)
vapd_handle_data u r payload (key_values _) =
    key_data_update u r payload peak_power_of_pv_system (some scaled_number_type)
      vapd_power_nominal_peak_updated
vapd_handle_data u r payload measurement_description_data = map call (request_measurements r)
vapd_handle_data u r payload (measurements _) = vapd_measurement_data_update u r payload
vapd_handle_data u r payload _ = []

-- HandleEvent
unfoldable pub vapd_handle_event :
    UseCaseBase → (RemoteEntity → Remote) → EventPayload → List (ClientEffect VapdEvent)
unfolding vapd_handle_data
vapd_handle_event u remotes payload =
    handle_client_event u remotes vapd_inverter_connected (λ r p. vapd_handle_data u r p p.content)
      payload

-- ===== src/Examples/Vehicles.antt =====
-- An EV with a diagnosis state, and what is reported of it.
use eebus_go.Prelude.{All, ◌≡◌, refl, true, some, none, []}
use eebus_go.Spine.{ev_entity, standby, diagnosis_state_data}
use eebus_go.Errors.{ok}
use eebus_go.Features.Filter.{no_data}
use eebus_go.UseCase.Remote.{RemoteEntity, EventPayload, data_change}
use eebus_go.UseCase.Base.{is_compatible_entity_type}
use eebus_go.Cem.Commissioning.{RemoteVehicle}
use eebus_go.Cem.Evcc.{new_evcc, charge_state, charge_paused, is_in_sleep_mode}
use eebus_go.Cem.Evcc.Events.{evcc_handle_event}
use eebus_go.Cem.Evcc.Silent.{IsOther, charge_state_never_reported}
use eebus_go.Examples.GuardData.{heat_pump, remotes}
use eebus_go.Examples.Compressor.{offer}

abbrev vehicle : RemoteEntity
vehicle = record heat_pump { entity_type = ev_entity }

abbrev vehicles : RemoteEntity → RemoteVehicle
vehicles e = record {
  clients = remotes e;
  diagnosis = some (some (record { operating_state = some standby; last_error_code = none }));
  identification = some no_data;
  classification = none;
}

paused_vehicle :
    (charge_state vehicles (some vehicle) ≡ ok charge_paused)
    × (is_in_sleep_mode (new_evcc true) vehicles (some vehicle) ≡ ok true)
unfolding charge_state is_in_sleep_mode is_compatible_entity_type
paused_vehicle = (refl, refl)

abbrev falls_asleep : EventPayload
falls_asleep = record offer { entity = some vehicle; content = diagnosis_state_data }

charge_state_never_reported_example :
    All IsOther (evcc_handle_event (new_evcc true) vehicles falls_asleep)
    × (evcc_handle_event
          (new_evcc true)
          vehicles
          (record falls_asleep { event_type = data_change; content = diagnosis_state_data })
        ≡ [])
charge_state_never_reported_example =
    charge_state_never_reported (new_evcc true) vehicles falls_asleep

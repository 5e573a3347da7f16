-- ===== src/Eg/Lpp.antt =====
-- usecases/eg/lpp: LPP of the energy guard. Each operation is the one that lpc and lpp share, under
-- the names of lpp.
use eebus_go.Prelude.{ℕ, Bool, false, Option, List, [], ◌∷◌}
use eebus_go.Prelude.Int.{ℤ}
use eebus_go.Spine.{
  Name, TimePeriod, load_control, device_configuration, device_diagnosis, electrical_connection,
  server_role, controllable_system, cem, evse, inverter, smart_energy_appliance,
  sub_meter_electricity, limitation_of_power_production,
}
use eebus_go.Errors.{Result}
use eebus_go.Features.Client.{LimitCommand, KeyValueCommand}
use eebus_go.Features.Requests.{Call}
use eebus_go.UseCase.Remote.{RemoteEntity, EventPayload}
use eebus_go.UseCase.Base.{UseCaseBase}
use eebus_go.UseCase.Features.{add_client_features, add_feature_after}
use eebus_go.UseCase.Limits.{LoadLimit}
use eebus_go.Cs.Lpp.{lpp_variant}
use eebus_go.Eg.Lpc.{guard_scenarios}
use eebus_go.Internal.Clients.{Remote}
use eebus_go.Eg.Limit.{remote_limit, write_remote_limit}
use eebus_go.Eg.Failsafe.{
  remote_failsafe_limit, write_remote_failsafe_limit, remote_failsafe_duration_minimum,
  write_remote_failsafe_duration_minimum, is_remote_heartbeat_within_duration, remote_nominal_max,
  remote_characteristic_type,
}
use eebus_go.Eg.Events.{EgEffect, connected, handle_remote_event}

-- NewLPP: `event_cb` says whether a callback is given.
abbrev pub new_eg_lpp : Bool → UseCaseBase
new_eg_lpp event_cb = record {
  use_case_name = limitation_of_power_production;
  use_case_scenarios = guard_scenarios;
  event_cb = event_cb;
  available_entity_scenarios = [];
  valid_actor_types = controllable_system ∷ [];
  valid_entity_types = cem ∷ evse ∷ inverter ∷ smart_energy_appliance ∷ sub_meter_electricity ∷ [];
  all_entity_types_valid = false;
}

-- AddFeatures; the function type of the heartbeat that it adds is left out.
abbrev pub eg_lpp_add_features : (Name → Name → Bool) → Result (Unit {0})
eg_lpp_add_features can_add = add_feature_after can_add device_diagnosis server_role (
    add_client_features can_add
      (device_diagnosis ∷ load_control ∷ device_configuration ∷ electrical_connection ∷ []))

abbrev pub eg_production_limit :
    UseCaseBase → (RemoteEntity → Remote) → Option RemoteEntity → Result LoadLimit
eg_production_limit = remote_limit lpp_variant

abbrev pub write_production_limit :
    (ℤ → ℤ)
    → (ℤ → TimePeriod)
    → UseCaseBase
    → (RemoteEntity → Remote)
    → Option RemoteEntity
    → LoadLimit
    → Result LimitCommand
write_production_limit = write_remote_limit lpp_variant

abbrev pub eg_failsafe_production_active_power_limit :
    UseCaseBase → (RemoteEntity → Remote) → Option RemoteEntity → Result ℤ
eg_failsafe_production_active_power_limit = remote_failsafe_limit lpp_variant

abbrev pub write_failsafe_production_active_power_limit :
    (ℤ → ℤ)
    → UseCaseBase
    → (RemoteEntity → Remote)
    → Option RemoteEntity
    → ℤ
    → Result KeyValueCommand
write_failsafe_production_active_power_limit = write_remote_failsafe_limit lpp_variant

abbrev pub eg_lpp_failsafe_duration_minimum :
    UseCaseBase → (RemoteEntity → Remote) → Option RemoteEntity → Result ℤ
eg_lpp_failsafe_duration_minimum = remote_failsafe_duration_minimum

abbrev pub eg_lpp_write_failsafe_duration_minimum :
    (ℤ → Option ℤ)
    → UseCaseBase
    → (RemoteEntity → Remote)
    → Option RemoteEntity
    → ℤ
    → Result KeyValueCommand
eg_lpp_write_failsafe_duration_minimum = write_remote_failsafe_duration_minimum

abbrev pub eg_lpp_is_heartbeat_within_duration :
    (RemoteEntity → Remote) → Option RemoteEntity → ℕ → Bool
eg_lpp_is_heartbeat_within_duration = is_remote_heartbeat_within_duration

abbrev pub eg_production_nominal_max :
    UseCaseBase → (RemoteEntity → Remote) → Option RemoteEntity → Result ℤ
eg_production_nominal_max = remote_nominal_max lpp_variant

abbrev pub eg_lpp_characteristic_type : Option RemoteEntity → Name
eg_lpp_characteristic_type = remote_characteristic_type lpp_variant

abbrev pub eg_lpp_connected : RemoteEntity → Remote → List Call
eg_lpp_connected = connected lpp_variant

abbrev pub eg_lpp_handle_event :
    UseCaseBase → (RemoteEntity → Remote) → EventPayload → List EgEffect
eg_lpp_handle_event = handle_remote_event lpp_variant

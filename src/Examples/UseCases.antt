-- ===== src/Examples/UseCases.antt =====
-- Remote devices with their entities, and the events that they cause.
use eebus_go.Prelude.{
  ℕ, compare_lists, sort, true, false, ◌≡◌, ◌↔◌, refl, none, some, List, [], ◌∷◌,
}
use eebus_go.Spine.{
  nil, use_case_data, server_role, load_control, device_diagnosis, energy_guard, cem,
  limitation_of_power_consumption,
}
use eebus_go.Errors.{ok}
use eebus_go.UseCase.Remote.{
  RemoteDevice, RemoteFeature, RemoteEntity, DeviceView, EventPayload, device_change,
  binding_change, data_change, add, update, same_address,
}
use eebus_go.UseCase.Base.{
  UseCaseBase, Event, contains, available_scenarios_for_entity, update_remote_entity_scenarios,
  remove_device_from_available_entity_scenarios, is_compatible_entity_type,
  required_server_features_for_scenario,
}
use eebus_go.UseCase.Base.Update.{available-update_remote_entity_scenarios}
use eebus_go.UseCase.Base.Removal.{remove_device_from_available_entity_scenarios_lem}
use eebus_go.UseCase.Base.Refinement.{
  Change, updates, removes, apply_all, changed_all, no_scenarios, apply_all_refines,
}
use eebus_go.UseCase.Events.{supported_scenarios, handle_event}
use eebus_go.UseCase.Events.Support.{HasRequired, supported_scenarios_iff}
use eebus_go.UseCase.Events.Invariant.{IsWellFormed, here, next, Reach-IsWellFormed}
use eebus_go.Cs.State.{subscribe, request_heartbeat}
use eebus_go.Cs.Events
use eebus_go.Cs.Events.{DiagnosisClient}
use eebus_go.Cs.Events.Heartbeat.{heartbeat_of_binding_entity}
use eebus_go.Cs.Lpc.{lpc_variant, new_lpc}
use eebus_go.Examples.Data.{use_case}

abbrev device : RemoteDevice
device = record { ski = 7; address = some 70 }

abbrev diagnosis : RemoteFeature
diagnosis = record { role = server_role; feature_type = device_diagnosis }

-- The entity with a number, with or without a DeviceDiagnosis server.
abbrev remote : ℕ → List RemoteFeature → RemoteEntity
remote number features = record {
  address = some (record { device = some 70; entity = number ∷ [] });
  entity_type = cem;
  device = device;
  features = features;
}

abbrev guard : RemoteEntity
guard = remote 1 (diagnosis ∷ [])

abbrev known : UseCaseBase
known = record (new_lpc true) {
  available_entity_scenarios =
      record { entity = guard; scenarios = 1 ∷ 2 ∷ [] }
      ∷ record { entity = remote 2 []; scenarios = 1 ∷ [] }
      ∷ [];
}

supported_scenarios_iff_example :
    (contains
        (supported_scenarios
          (1 ∷ 2 ∷ 3 ∷ 4 ∷ [])
          (1 ∷ 3 ∷ [])
          guard
          (new_lpc true).use_case_scenarios).1
        3
      ≡ true)
    ↔ ((contains (1 ∷ 2 ∷ 3 ∷ 4 ∷ []) 3 ≡ true)
        × (contains (1 ∷ 3 ∷ []) 3 ≡ true)
        × HasRequired (new_lpc true).use_case_scenarios guard 3)
supported_scenarios_iff_example =
    supported_scenarios_iff (1 ∷ 2 ∷ 3 ∷ 4 ∷ []) (1 ∷ 3 ∷ []) guard
      (new_lpc true).use_case_scenarios 3

abbrev view : DeviceView
view = record {
  device = device;
  use_cases =
      record {
        address = none;
        actor = some energy_guard;
        use_case_support =
            record {
              use_case_name = some limitation_of_power_consumption;
              scenario_support = some (1 ∷ 3 ∷ []);
            }
            ∷ [];
      }
      ∷ [];
  entities = guard ∷ remote 2 (diagnosis ∷ []) ∷ [];
  entity_at = λ a. none;
}

abbrev announcement : EventPayload
announcement = record {
  ski = 7;
  event_type = data_change;
  change_type = update;
  device = some view;
  entity = none;
  content = use_case_data;
  local_feature = none;
  function = 0;
  cmd_classifier = none;
}

abbrev informed : UseCaseBase
informed = record (new_lpc true) {
  available_entity_scenarios =
      record { entity = guard; scenarios = 1 ∷ 3 ∷ [] }
      ∷ record { entity = remote 2 (diagnosis ∷ []); scenarios = 1 ∷ 3 ∷ [] }
      ∷ [];
}

abbrev informed_events : List Event
informed_events =
    record { device = device; entity = some guard }
    ∷ record { device = device; entity = some (remote 2 (diagnosis ∷ [])) }
    ∷ []

announced : handle_event (new_lpc true) announcement ≡ ok (informed, informed_events)
unfolding handle_event same_address compare_lists sort update_remote_entity_scenarios
    required_server_features_for_scenario
announced = refl

Reach-IsWellFormed_example : IsWellFormed informed
Reach-IsWellFormed_example =
    Reach-IsWellFormed (new_lpc true) informed refl
      (next {r = (informed, informed_events)} announcement here announced)

available-update_remote_entity_scenarios_example :
    available_scenarios_for_entity
      (update_remote_entity_scenarios known guard (1 ∷ 3 ∷ [])).0
      (some (remote 2 []))
    ≡ available_scenarios_for_entity known (some (remote 2 []))
unfolding same_address available_scenarios_for_entity compare_lists
available-update_remote_entity_scenarios_example =
    available-update_remote_entity_scenarios known guard (remote 2 []) (1 ∷ 3 ∷ [])

remove_device_from_available_entity_scenarios_lem_example :
    remove_device_from_available_entity_scenarios known device ≡ (
      record known { available_entity_scenarios = [] },
      record { device = device; entity = none } ∷ [],
    )
remove_device_from_available_entity_scenarios_lem_example =
    remove_device_from_available_entity_scenarios_lem known device

abbrev client : DiagnosisClient
client = record { has_client = true; has_subscription = λ e. false }

abbrev connecting : EventPayload
connecting = record announcement { event_type = device_change; change_type = add; content = nil }

abbrev binding : EventPayload
binding = record announcement {
  event_type = binding_change;
  change_type = add;
  entity = some guard;
  content = nil;
  local_feature =
      some (record { feature_type = load_control; role = server_role; of_entity = true });
}

connects : Events.is_device_connected connecting ≡ true
unfolding Events.is_device_connected
connects = refl

compatible : is_compatible_entity_type (new_lpc true) (some guard) ≡ true
unfolding is_compatible_entity_type
compatible = refl

two_servers :
    Events.device_diag_entities (new_lpc true) view.entities
    ≡ guard ∷ remote 2 (diagnosis ∷ []) ∷ []
unfolding Events.device_diag_entities is_compatible_entity_type
two_servers = refl

heartbeat_of_binding_entity_example :
    let (e', out) = Events.handle_event lpc_variant (new_lpc true) client use_case connecting in
    (out ≡ [])
    × (e'.heartbeat_diag ≡ none)
    × (Events.handle_event lpc_variant (new_lpc true) client e' binding ≡ (
      record e' { heartbeat_diag = some guard },
      subscribe guard ∷ request_heartbeat guard ∷ [],
    ))
heartbeat_of_binding_entity_example =
    heartbeat_of_binding_entity lpc_variant (new_lpc true) client use_case connecting binding view
      guard (remote 2 (diagnosis ∷ [])) guard [] connects refl two_servers refl refl compatible refl

abbrev changes : List Change
changes = updates guard (1 ∷ []) ∷ updates (remote 2 []) (3 ∷ []) ∷ removes guard ∷ []

apply_all_refines_example :
    available_scenarios_for_entity (apply_all (new_lpc true) changes) (some (remote 2 []))
    ≡ changed_all no_scenarios changes (remote 2 []).address
apply_all_refines_example = apply_all_refines (new_lpc true) changes (remote 2 []) refl

-- ===== src/UseCase/Events.antt =====
-- usecases/usecase/events.go: which remote entities support the use case, and IsEntityRemoved of
-- usecases/internal/helper.go.
pub mod Support
pub mod Invariant
use eebus_go.Prelude.{
  ℕ, ◌==◌, if◌then◌else◌, filter, length, is_empty, is_some, holds, sort, compare_lists, not, Bool,
  true, false, ◌&&◌, ◌||◌, Option, none, some, List, [], ◌∷◌, ◌++◌, map,
}
use eebus_go.Spine.{Name, PayloadData, use_case_data, detailed_discovery, server_role, ev}
use eebus_go.Errors.{Result, ok, panic}
use eebus_go.UseCase.Remote.{
  RemoteDevice, RemoteFeature, RemoteEntity, UseCaseSupport, UseCaseInformation, DeviceView,
  EventPayload, is_device_change, is_entity_change, is_add, is_remove,
}
use eebus_go.UseCase.Base.{
  UseCaseScenario, UseCaseBase, Event, contains, required_server_features_for_scenario,
  update_remote_entity_scenarios, remove_device_from_available_entity_scenarios,
  remove_entity_from_available_entity_scenarios,
}

-- The types of the server features of an entity that are among the required ones.
abbrev pub found_server_features : List Name → List RemoteFeature → List Name
found_server_features required [] = []
found_server_features required (feature ∷ features) =
    let rest = found_server_features required features in
    if feature.role == server_role && contains required feature.feature_type
    then feature.feature_type ∷ rest
    else rest

-- `slices.Sort` works in place, on the list of the scenario that the use case holds.
unfoldable pub sort_server_features : ℕ → List UseCaseScenario → List UseCaseScenario
sort_server_features scenario [] = []
sort_server_features scenario (s ∷ ss) =
    let rest = s ∷ sort_server_features scenario ss in
    if s.scenario == scenario
    then record s { server_features = sort s.server_features } ∷ ss
    else rest

-- The sorted lists of required and found features are equal.
unfoldable pub has_server_features : List UseCaseScenario → RemoteEntity → ℕ → Bool
has_server_features scenarios entity scenario =
    let required = required_server_features_for_scenario scenarios scenario in
    compare_lists (sort required) (sort (found_server_features required entity.features))

-- The loop over the numbers of the use case's scenarios, with the scenarios as they are sorted.
unfoldable pub supported_scenarios :
    List ℕ → List ℕ → RemoteEntity → List UseCaseScenario → List UseCaseScenario × List ℕ
unfolding has_server_features sort_server_features
supported_scenarios [] support entity scenarios = (scenarios, [])
supported_scenarios (n ∷ ns) support entity scenarios =
    let skip = supported_scenarios ns support entity scenarios in
    if contains support n
    then (let (scenarios', rest) =
          supported_scenarios ns support entity (sort_server_features n scenarios) in
        if has_server_features scenarios entity n
        then (scenarios', n ∷ rest)
        else (scenarios', rest))
    else skip

-- The loop over the entities.
unfoldable pub check_entities : List RemoteEntity → List ℕ → UseCaseBase → UseCaseBase × List Event
unfolding supported_scenarios
check_entities [] support u = (u, [])
check_entities (entity ∷ entities) support u =
    let skip = check_entities entities support u in
    if not u.all_entity_types_valid && not (contains u.valid_entity_types entity.entity_type)
    then skip
    else (let (scenarios, supported) =
          supported_scenarios (map (λ (s : UseCaseScenario). s.scenario) u.use_case_scenarios)
            support entity u.use_case_scenarios in
        let (u', events) =
          update_remote_entity_scenarios (record u { use_case_scenarios = scenarios }) entity
            supported in
        let (u'', more) = check_entities entities support u' in (u'', events ++ more))

-- The entity at the address of the use case, or the EV below the EVSE that reports for it; with
-- none, all entities of the device.
unfoldable pub entities_to_check : DeviceView → UseCaseInformation → List RemoteEntity
entities_to_check device uc = elim uc.address [
  | none ↦ device.entities
  | some address ↦
      elim (device.entity_at
        (if holds uc.actor ev && length address == 1 then address ++ 1 ∷ [] else address)) [
          | none ↦ device.entities
          | some entity ↦ entity ∷ []
        ]
]

-- The loop over the supports of one use case of the device.
unfoldable pub check_supports :
    DeviceView → UseCaseInformation → List UseCaseSupport → UseCaseBase → UseCaseBase × List Event
unfolding check_entities entities_to_check
check_supports device uc [] u = (u, [])
check_supports device uc (support ∷ supports) u =
    let skip = check_supports device uc supports u in
    elim support.scenario_support [
      | none ↦ skip
      | some scenarios ↦
          if holds support.use_case_name u.use_case_name
          then (let (u', events) = check_entities (entities_to_check device uc) scenarios u in
              let (u'', more) = check_supports device uc supports u' in (u'', events ++ more))
          else skip
    ]

abbrev pub is_valid_actor : UseCaseBase → UseCaseInformation → Bool
is_valid_actor u uc = elim uc.actor [ none ↦ false | some a ↦ contains u.valid_actor_types a ]

-- The loop over the use cases of the device.
unfoldable pub check_use_cases :
    DeviceView → List UseCaseInformation → UseCaseBase → UseCaseBase × List Event
unfolding check_supports
check_use_cases device [] u = (u, [])
check_use_cases device (uc ∷ ucs) u =
    let skip = check_use_cases device ucs u in
    if is_valid_actor u uc
    then (let (u', events) = check_supports device uc uc.use_case_support u in
        let (u'', more) = check_use_cases device ucs u' in (u'', events ++ more))
    else skip

-- A payload without a device makes the read of its use cases panic.
unfoldable pub use_case_data_update : UseCaseBase → EventPayload → Result (UseCaseBase × List Event)
unfolding check_use_cases
use_case_data_update u payload = elim payload.device [
  | none ↦ panic
  | some device ↦ ok (check_use_cases device device.use_cases u)
]

-- usecases/internal/helper.go
unfoldable pub is_entity_removed : EventPayload → Bool
is_entity_removed payload =
    is_some payload.entity && is_entity_change payload.event_type && is_remove payload.change_type

unfoldable pub is_entity_added : EventPayload → Bool
is_entity_added payload =
    is_some payload.entity && is_entity_change payload.event_type && is_add payload.change_type

-- `none` where the event is no removal.
unfoldable pub device_or_entity_removed :
    UseCaseBase → EventPayload → Option (UseCaseBase × List Event)
unfolding is_entity_removed
device_or_entity_removed u payload = elim payload.entity [
  | none ↦ elim payload.device [
    | none ↦ none
    | some device ↦
        if is_device_change payload.event_type && is_remove payload.change_type
        then some (remove_device_from_available_entity_scenarios u device.device)
        else none
  ]
  | some entity ↦
      if is_entity_removed payload
      then some (remove_entity_from_available_entity_scenarios u entity)
      else none
]

abbrev pub is_use_case_data : PayloadData → Bool
is_use_case_data use_case_data = true
is_use_case_data detailed_discovery = true
is_use_case_data _ = false

unfoldable pub handle_event : UseCaseBase → EventPayload → Result (UseCaseBase × List Event)
unfolding device_or_entity_removed use_case_data_update
handle_event u payload = elim (device_or_entity_removed u payload) [
  | some r ↦ ok r
  | none ↦ if is_use_case_data payload.content then use_case_data_update u payload else ok (u, [])
]

-- ===== src/UseCase/Base.antt =====
-- usecases/usecase/usecase.go: the list of remote entities and the scenarios they support. A lock
-- guards each access to the list, so an operation is one step.
pub mod Removal
pub mod Entries
pub mod Update
pub mod Distinct
pub mod Refinement
use eebus_go.Prelude.{
  ℕ, zero, suc, ◌==◌, if◌then◌else◌, any, is_empty, compare_lists, not, Bool, true, false, ◌&&◌,
  ◌||◌, Option, none, some, List, [], ◌∷◌, ◌++◌,
}
use eebus_go.Spine.{Name}
use eebus_go.UseCase.Remote.{RemoteDevice, RemoteEntity, same_pointee, same_address}

-- api.RemoteEntityScenarios
pub record RemoteEntityScenarios : Type 0 where
  pub entity : RemoteEntity
  pub scenarios : List ℕ

-- api.UseCaseScenario
pub record UseCaseScenario : Type 0 where
  pub scenario : ℕ
  pub server_features : List Name

-- `event_cb` says whether a callback is set.
pub record UseCaseBase : Type 0 where
  pub use_case_name : Name
  pub use_case_scenarios : List UseCaseScenario
  pub event_cb : Bool
  pub available_entity_scenarios : List RemoteEntityScenarios
  pub valid_actor_types : List Name
  pub valid_entity_types : List Name
  pub all_entity_types_valid : Bool

-- A call of `EventCB` with `useCaseUpdateEvent`: the device and the entity that it names.
pub record Event : Type 0 where
  pub device : RemoteDevice
  pub entity : Option RemoteEntity

-- slices.Contains
abbrev pub contains : List ℕ → ℕ → Bool
contains xs a = any (λ x. x == a) xs

unfoldable pub is_compatible_entity_type : UseCaseBase → Option RemoteEntity → Bool
is_compatible_entity_type u none = false
is_compatible_entity_type u (some entity) =
    if u.all_entity_types_valid then true else contains u.valid_entity_types entity.entity_type

abbrev pub is_entry_of : RemoteEntity → RemoteEntityScenarios → Bool
is_entry_of entity entry = same_address entity.address entry.entity.address

-- The loop with its index; `none` is the pair -1 and nil.
unfoldable pub index_from : ℕ → RemoteEntity → List RemoteEntityScenarios → Option (ℕ × List ℕ)
index_from i entity [] = none
index_from i entity (entry ∷ entries) =
    let rest = index_from (suc i) entity entries in
    if is_entry_of entity entry then some (i, entry.scenarios) else rest

unfoldable pub entitiy_scenario_index_of_entity :
    UseCaseBase → Option RemoteEntity → Option (ℕ × List ℕ)
unfolding index_from
entitiy_scenario_index_of_entity u none = none
entitiy_scenario_index_of_entity u (some entity) = index_from 0 entity u.available_entity_scenarios

unfoldable pub available_scenarios_for_entity : UseCaseBase → Option RemoteEntity → Option (List ℕ)
unfolding entitiy_scenario_index_of_entity
available_scenarios_for_entity u entity = elim (entitiy_scenario_index_of_entity u entity) [
  | none ↦ none
  | some r ↦ some r.1
]

unfoldable pub is_scenario_available_at_entity : UseCaseBase → Option RemoteEntity → ℕ → Bool
unfolding entitiy_scenario_index_of_entity
is_scenario_available_at_entity u entity scenario =
    elim (entitiy_scenario_index_of_entity u entity) [
      | none ↦ false
      | some r ↦ contains r.1 scenario
    ]

-- Both device addresses are there and agree.
abbrev pub is_entry_of_device : RemoteDevice → RemoteEntityScenarios → Bool
is_entry_of_device device entry = elim device.address [
  | none ↦ false
  | some a ↦ elim entry.entity.device.address [ none ↦ false | some b ↦ a == b ]
]

unfoldable pub indices_from : ℕ → RemoteDevice → List RemoteEntityScenarios → List ℕ
indices_from i device [] = []
indices_from i device (entry ∷ entries) =
    let rest = indices_from (suc i) device entries in
    if is_entry_of_device device entry then i ∷ rest else rest

unfoldable pub entity_scenario_indices_of_device : UseCaseBase → RemoteDevice → List ℕ
unfolding indices_from
entity_scenario_indices_of_device u device = indices_from 0 device u.available_entity_scenarios

-- `append(list[:index], list[index+1:]...)`
unfoldable pub remove_index : {A : Type 0} → ℕ → List A → List A
remove_index i [] = []
remove_index zero (x ∷ xs) = xs
remove_index (suc i) (x ∷ xs) = x ∷ remove_index i xs

unfoldable pub remove_entity_index_from_available_entity_scenarios : ℕ → UseCaseBase → UseCaseBase
unfolding remove_index
remove_entity_index_from_available_entity_scenarios index u = record u {
  available_entity_scenarios = remove_index index u.available_entity_scenarios;
}

-- `list[i].Scenarios = scenarios`
unfoldable pub set_scenarios : ℕ → List ℕ → List RemoteEntityScenarios → List RemoteEntityScenarios
set_scenarios i scenarios [] = []
set_scenarios zero scenarios (x ∷ xs) = record x { scenarios = scenarios } ∷ xs
set_scenarios (suc i) scenarios (x ∷ xs) = x ∷ set_scenarios i scenarios xs

-- `if u.EventCB != nil { u.EventCB(…) }`
abbrev pub notify : UseCaseBase → RemoteDevice → Option RemoteEntity → List Event
notify u device entity = if u.event_cb then record { device = device; entity = entity } ∷ [] else []

unfoldable pub update_remote_entity_scenarios :
    UseCaseBase → RemoteEntity → List ℕ → UseCaseBase × List Event
unfolding entitiy_scenario_index_of_entity set_scenarios
update_remote_entity_scenarios u entity scenarios =
    elim (entitiy_scenario_index_of_entity u (some entity)) [
      | none ↦ (
        record u {
          available_entity_scenarios =
              u.available_entity_scenarios
              ++ record { entity = entity; scenarios = scenarios } ∷ [];
        },
        notify u entity.device (some entity),
      )
      | some (i, old) ↦ if compare_lists old scenarios then (u, []) else (
        record u {
          available_entity_scenarios = set_scenarios i scenarios u.available_entity_scenarios;
        },
        notify u entity.device (some entity),
      )
    ]

-- The loop over the indices, from the last to the first.
unfoldable pub remove_indices : List ℕ → UseCaseBase → UseCaseBase
unfolding remove_entity_index_from_available_entity_scenarios
remove_indices [] u = u
remove_indices (i ∷ is) u =
    remove_entity_index_from_available_entity_scenarios i (remove_indices is u)

unfoldable pub remove_device_from_available_entity_scenarios :
    UseCaseBase → RemoteDevice → UseCaseBase × List Event
unfolding entity_scenario_indices_of_device remove_indices
remove_device_from_available_entity_scenarios u device =
    let indicies = entity_scenario_indices_of_device u device in
    (remove_indices indicies u, if is_empty indicies then [] else notify u device none)

unfoldable pub remove_entity_from_available_entity_scenarios :
    UseCaseBase → RemoteEntity → UseCaseBase × List Event
unfolding entitiy_scenario_index_of_entity remove_entity_index_from_available_entity_scenarios
remove_entity_from_available_entity_scenarios u entity =
    elim (entitiy_scenario_index_of_entity u (some entity)) [
      | none ↦ (u, [])
      | some r ↦ (
        remove_entity_index_from_available_entity_scenarios r.0 u,
        notify u entity.device (some entity),
      )
    ]

-- The first scenario with the number decides.
unfoldable pub required_server_features_for_scenario : List UseCaseScenario → ℕ → List Name
required_server_features_for_scenario [] scenario = []
required_server_features_for_scenario (s ∷ ss) scenario =
    if s.scenario == scenario
    then s.server_features
    else required_server_features_for_scenario ss scenario

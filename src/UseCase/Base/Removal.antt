-- ===== src/UseCase/Base/Removal.antt =====
-- Removing by index, from the last index to the first, against removing by a test.
use eebus_go.Prelude.{
  ℕ, suc, if◌then◌else◌, filter, is_empty, any, not, Bool-cases, ◌≡◌, refl, ap, inl, inr, none,
  List, [], ◌∷◌, map, arith,
}
use eebus_go.UseCase.Remote.{RemoteDevice}
use eebus_go.UseCase.Base.{
  RemoteEntityScenarios, UseCaseBase, is_entry_of_device, indices_from,
  entity_scenario_indices_of_device, remove_index,
  remove_entity_index_from_available_entity_scenarios, remove_indices,
  remove_device_from_available_entity_scenarios,
}

abbrev Entries : Type 0
Entries = List RemoteEntityScenarios

-- The loop of removals on the list alone.
remove_all : List ℕ → Entries → Entries
remove_all [] xs = xs
remove_all (i ∷ is) xs = remove_index i (remove_all is xs)

entries-remove_indices :
    (is : List ℕ) (u : UseCaseBase)
    → remove_indices is u
      ≡ record u { available_entity_scenarios = remove_all is u.available_entity_scenarios }
unfolding remove_indices remove_entity_index_from_available_entity_scenarios remove_all
entries-remove_indices [] u = refl
entries-remove_indices (i ∷ is) u = rw (entries-remove_indices is u)

remove_all-suc :
    (is : List ℕ) (x : RemoteEntityScenarios) (xs : Entries)
    → remove_all (map suc is) (x ∷ xs) ≡ x ∷ remove_all is xs
unfolding remove_all remove_index
remove_all-suc [] x xs = refl
remove_all-suc (i ∷ is) x xs = rw (remove_all-suc is x xs)

indices_from-suc :
    (i : ℕ) (device : RemoteDevice) (xs : Entries)
    → indices_from (suc i) device xs ≡ map suc (indices_from i device xs)
unfolding indices_from
indices_from-suc i device [] = refl
indices_from-suc i device (x ∷ xs) = elim (Bool-cases (is_entry_of_device device x)) [
  | inl e ↦ rw e (ap (λ (l : List ℕ). suc i ∷ l) (indices_from-suc (suc i) device xs))
  | inr e ↦ rw e (indices_from-suc (suc i) device xs)
]

remove_all-indices_from :
    (device : RemoteDevice) (xs : Entries)
    → remove_all (indices_from 0 device xs) xs
      ≡ filter (λ (x : RemoteEntityScenarios). not (is_entry_of_device device x)) xs
unfolding indices_from remove_all remove_index
remove_all-indices_from device [] = refl
remove_all-indices_from device (x ∷ xs) = elim (Bool-cases (is_entry_of_device device x)) [
  | inl e ↦
      rw (e, indices_from-suc 0 device xs, remove_all-suc (indices_from 0 device xs) x xs)
        (remove_all-indices_from device xs)
  | inr e ↦
      rw (e, indices_from-suc 0 device xs, remove_all-suc (indices_from 0 device xs) x xs)
        (ap (λ (l : Entries). x ∷ l) (remove_all-indices_from device xs))
]

is_empty-indices_from :
    (i : ℕ) (device : RemoteDevice) (xs : Entries)
    → is_empty (indices_from i device xs) ≡ not (any (is_entry_of_device device) xs)
unfolding indices_from
is_empty-indices_from i device [] = refl
is_empty-indices_from i device (x ∷ xs) = ground (arith, is_empty-indices_from (suc i) device xs)

-- Removing a device leaves exactly the entries of other devices, in their order, and changes
-- nothing else; with a callback set, one event that names the device is raised if there was an
-- entry of the device, and none otherwise.
pub remove_device_from_available_entity_scenarios_lem :
    (u : UseCaseBase) (device : RemoteDevice)
    → let entries = u.available_entity_scenarios in
      remove_device_from_available_entity_scenarios u device ≡ (
        record u {
          available_entity_scenarios =
              filter (λ (x : RemoteEntityScenarios). not (is_entry_of_device device x)) entries;
        },
        if any (is_entry_of_device device) entries
            then (if u.event_cb then record { device = device; entity = none } ∷ [] else [])
            else [],
      )
unfolding remove_device_from_available_entity_scenarios entity_scenario_indices_of_device
remove_device_from_available_entity_scenarios_lem u device =
    rw
      (
        entries-remove_indices (indices_from 0 device u.available_entity_scenarios) u,
        remove_all-indices_from device u.available_entity_scenarios,
        is_empty-indices_from 0 device u.available_entity_scenarios,
      )
      (ground arith)

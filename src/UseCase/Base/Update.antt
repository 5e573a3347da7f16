-- ===== src/UseCase/Base/Update.antt =====
-- What an update of the scenarios of an entity changes and reports.
use eebus_go.Prelude.{
  ℕ, if◌then◌else◌, compare_lists, compare_lists-eq, compare_lists_refl, Bool-cases, ◌≡◌, ◌↔◌, refl,
  sym, ap, ◌∙◌, inl, inr, true, Option, none, some, List, [], arith,
}
use native.Mathlib.Nat.{zero-add}
use eebus_go.UseCase.Remote.{EntityAddress, RemoteEntity, same_address}
use eebus_go.UseCase.Base.{
  UseCaseBase, Event, notify, available_scenarios_for_entity, update_remote_entity_scenarios,
  entitiy_scenario_index_of_entity,
}
use eebus_go.UseCase.Base.Entries.{
  Entries, entry_of, index_from-cases, FoundAt-entry_of, none-entry_of, entry_of-append,
  entry_of-set_scenarios, available-entry_of, same_address-eq,
}

-- The list and the events after an update, by what was known of the entity.
abbrev pub After : UseCaseBase → RemoteEntity → List ℕ → UseCaseBase × List Event → Type 0
After u e s r =
    ((a : Option EntityAddress)
      → entry_of a r.0.available_entity_scenarios
        ≡ (if same_address e.address a then some s else entry_of a u.available_entity_scenarios))
    × (r.1 ≡ elim (entry_of e.address u.available_entity_scenarios) [
      | none ↦ notify u e.device (some e)
      | some old ↦ if compare_lists old s then [] else notify u e.device (some e)
    ])

-- Where the entry is as it should be, nothing has to change.
unchanged_entry :
    (b : Option EntityAddress) (s : List ℕ) (xs : Entries)
    → entry_of b xs ≡ some s
    → (a : Option EntityAddress)
    → entry_of a xs ≡ (if same_address b a then some s else entry_of a xs)
unchanged_entry b s xs known a = elim (Bool-cases (same_address b a)) [
  | inl h ↦ rw (h, sym (same_address-eq b a h)) known
  | inr h ↦ rw h
]

pub update-After :
    (u : UseCaseBase) (e : RemoteEntity) (s : List ℕ)
    → After u e s (update_remote_entity_scenarios u e s)
unfolding update_remote_entity_scenarios entitiy_scenario_index_of_entity
update-After u e s = elim (index_from-cases 0 e u.available_entity_scenarios) [
  | inl r ↦
      let fresh = none-entry_of e u.available_entity_scenarios r.1 in
      rw (r.0, update_remote_entity_scenarios)
        ((λ a. entry_of-append e s a u.available_entity_scenarios r.1), rw fresh)
  | inr r ↦
      let known = FoundAt-entry_of r.0 e r.1 u.available_entity_scenarios r.3 in
      elim (Bool-cases (compare_lists r.1 s)) [
        | inl same ↦
            rw (r.2, update_remote_entity_scenarios, same, known, same)
              (
                unchanged_entry e.address s u.available_entity_scenarios
                    (known ∙ ap some (compare_lists-eq r.1 s same)),
                refl,
              )
        | inr differ ↦
            rw (r.2, update_remote_entity_scenarios, differ, zero-add, known, differ)
              ((λ a. entry_of-set_scenarios r.0 e r.1 s a u.available_entity_scenarios r.3), refl)
      ]
]

-- After an update of an entity with scenarios, every remote entity with the same address is
-- reported with exactly those scenarios, and every other entity as before.
pub available-update_remote_entity_scenarios :
    (u : UseCaseBase) (e other : RemoteEntity) (s : List ℕ)
    → available_scenarios_for_entity (update_remote_entity_scenarios u e s).0 (some other) ≡ (
        if same_address e.address other.address
        then some s
        else available_scenarios_for_entity u (some other))
available-update_remote_entity_scenarios u e other s =
    rw (available-entry_of, available-entry_of) ((update-After u e s).0 other.address)

reported_iff :
    (u : UseCaseBase) (e : RemoteEntity) (s : List ℕ)
    → u.event_cb ≡ true
    → (o : Option (List ℕ))
    → ((elim o [
      | none ↦ notify u e.device (some e)
      | some old ↦ if compare_lists old s then [] else notify u e.device (some e)
    ])
        ≡ [])
      ↔ (o ≡ some s)
reported_iff u e s cb none = ((λ h. ground (arith, cb)), λ h. cc)
reported_iff u e s cb (some old) = (
  (λ h. ap some (compare_lists-eq old s (ground (arith, cb)))),
  λ h. ground (arith, compare_lists_refl s),
)

-- With a callback set, an update raises no event exactly when the entity was already known with
-- those scenarios.
pub update_remote_entity_scenarios_silent :
    (u : UseCaseBase) (e : RemoteEntity) (s : List ℕ)
    → u.event_cb ≡ true
    → ((update_remote_entity_scenarios u e s).1 ≡ [])
      ↔ (available_scenarios_for_entity u (some e) ≡ some s)
update_remote_entity_scenarios_silent u e s cb =
    rw (available-entry_of u e, (update-After u e s).1)
      (reported_iff u e s cb (entry_of e.address u.available_entity_scenarios))

-- ===== src/UseCase/Base/Refinement.antt =====
-- The list of remote entities against a map from addresses to scenarios.
use eebus_go.Prelude.{
  if◌then◌else◌, filter, not, ◌≡◌, refl, ap, ◌∙◌, Option, none, some, List, [], ◌∷◌, ℕ, arith,
}
use eebus_go.UseCase.Remote.{EntityAddress, RemoteEntity, same_address}
use eebus_go.UseCase.Base.{
  RemoteEntityScenarios, UseCaseBase, Event, is_entry_of, available_scenarios_for_entity,
  update_remote_entity_scenarios, remove_entity_from_available_entity_scenarios,
}
use eebus_go.UseCase.Base.Entries.{
  Entries, entry_of, available-entry_of, same_address_sym, same_address_trans,
}
use eebus_go.UseCase.Base.Update.{update-After}
use eebus_go.UseCase.Base.Distinct.{
  IsDistinct, update_remote_entity_scenarios-IsDistinct,
  remove_entity_from_available_entity_scenarios-IsDistinct,
  remove_entity_from_available_entity_scenarios_lem,
}

-- What changes the list.
pub data Change : Type 0 where
  updates : RemoteEntity → List ℕ → Change
  removes : RemoteEntity → Change

pub apply : UseCaseBase → Change → UseCaseBase
apply u (updates e s) = (update_remote_entity_scenarios u e s).0
apply u (removes e) = (remove_entity_from_available_entity_scenarios u e).0

pub apply_all : UseCaseBase → List Change → UseCaseBase
apply_all u [] = u
apply_all u (c ∷ cs) = apply_all (apply u c) cs

-- The abstract view: the scenarios of an address. A change overrides one address.
abbrev pub ScenarioMap : Type 0
ScenarioMap = Option EntityAddress → Option (List ℕ)

abbrev pub changed : ScenarioMap → Change → ScenarioMap
changed m (updates e s) a = if same_address e.address a then some s else m a
changed m (removes e) a = if same_address e.address a then none else m a

abbrev pub changed_all : ScenarioMap → List Change → ScenarioMap
changed_all m [] = m
changed_all m (c ∷ cs) = changed_all (changed m c) cs

abbrev pub no_scenarios : ScenarioMap
no_scenarios a = none

entry_of-filter :
    (e : RemoteEntity) (a : Option EntityAddress) (xs : Entries)
    → entry_of a (filter (λ (x : RemoteEntityScenarios). not (is_entry_of e x)) xs)
      ≡ (if same_address e.address a then none else entry_of a xs)
unfolding entry_of
entry_of-filter e a [] = ground arith
entry_of-filter e a (x ∷ xs) = ground (
  arith,
  entry_of-filter e a xs,
  same_address_sym e.address a,
  same_address_sym a x.entity.address,
  same_address_sym e.address x.entity.address,
  same_address_trans x.entity.address a e.address,
  same_address_trans a e.address x.entity.address,
)

-- The list holds what the map says, under distinct addresses.
abbrev Represents : UseCaseBase → ScenarioMap → Type 0
Represents u m =
    IsDistinct u.available_entity_scenarios
    × ((a : Option EntityAddress) → entry_of a u.available_entity_scenarios ≡ m a)

apply-Represents :
    (u : UseCaseBase) (m : ScenarioMap) (c : Change)
    → Represents u m
    → Represents (apply u c) (changed m c)
unfolding apply
apply-Represents u m (updates e s) h = (
  update_remote_entity_scenarios-IsDistinct u e s h.0,
  λ a. (update-After u e s).0 a ∙ ground (arith, h.1 a),
)
apply-Represents u m (removes e) h = (
  remove_entity_from_available_entity_scenarios-IsDistinct u e h.0,
  λ a.
      ap (λ (r : UseCaseBase × List Event). entry_of a r.0.available_entity_scenarios)
        (remove_entity_from_available_entity_scenarios_lem u e h.0)
      ∙ entry_of-filter e a u.available_entity_scenarios
      ∙ ground (arith, h.1 a),
)

all-Represents :
    (u : UseCaseBase) (m : ScenarioMap) (cs : List Change)
    → Represents u m
    → Represents (apply_all u cs) (changed_all m cs)
unfolding apply_all
all-Represents u m [] h = h
all-Represents u m (c ∷ cs) h =
    all-Represents (apply u c) (changed m c) cs (apply-Represents u m c h)

-- From a use case that knows no remote entity, after any sequence of updates and removals of
-- entities, what is reported for an entity is what a map from addresses to scenarios holds for its
-- address, in which an update sets and a removal clears the one address.
pub apply_all_refines :
    (u : UseCaseBase) (cs : List Change) (e : RemoteEntity)
    → u.available_entity_scenarios ≡ []
    → available_scenarios_for_entity (apply_all u cs) (some e)
      ≡ changed_all no_scenarios cs e.address
unfolding entry_of
apply_all_refines u cs e empty =
    available-entry_of (apply_all u cs) e
    ∙ (all-Represents u no_scenarios cs (rw empty tt, λ a. rw empty refl)).1 e.address

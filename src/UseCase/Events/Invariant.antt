-- ===== src/UseCase/Events/Invariant.antt =====
-- The addresses of the entries, over the events that come in.
use mathlib.Core.Path.{subst}
use eebus_go.Prelude.{
  ℕ, holds, Bool-cases, Option-cases, ◌≡◌, inl, inr, not, ◌&&◌, some, List, [], ◌∷◌, arith,
}
use eebus_go.Errors.{ok}
use eebus_go.UseCase.Remote.{
  RemoteEntity, UseCaseSupport, UseCaseInformation, DeviceView, EventPayload,
}
use eebus_go.UseCase.Base.{
  UseCaseBase, Event, contains, remove_device_from_available_entity_scenarios,
  remove_entity_from_available_entity_scenarios,
}
use eebus_go.UseCase.Base.Distinct.{
  IsDistinct, update_remote_entity_scenarios-IsDistinct,
  remove_entity_from_available_entity_scenarios-IsDistinct,
  remove_device_from_available_entity_scenarios-IsDistinct,
}
use eebus_go.UseCase.Events.{
  check_entities, entities_to_check, check_supports, is_valid_actor, check_use_cases,
  use_case_data_update, device_or_entity_removed, is_use_case_data, handle_event,
}

abbrev pub IsWellFormed : UseCaseBase → Type 0
IsWellFormed u = IsDistinct u.available_entity_scenarios

check_entities-IsWellFormed :
    (entities : List RemoteEntity) (support : List ℕ) (u : UseCaseBase)
    → IsWellFormed u
    → IsWellFormed (check_entities entities support u).0
unfolding check_entities
check_entities-IsWellFormed [] support u h = h
check_entities-IsWellFormed (e ∷ es) support u h =
    elim (Bool-cases
      (not u.all_entity_types_valid && not (contains u.valid_entity_types e.entity_type))) [
        | inl skip ↦ rw skip (check_entities-IsWellFormed es support u h)
        | inr check ↦ rw check (
            check_entities-IsWellFormed es support _
              (update_remote_entity_scenarios-IsDistinct _ e _ h))
      ]

check_supports-IsWellFormed :
    (device : DeviceView) (uc : UseCaseInformation) (supports : List UseCaseSupport)
    (u : UseCaseBase)
    → IsWellFormed u
    → IsWellFormed (check_supports device uc supports u).0
unfolding check_supports
check_supports-IsWellFormed device uc [] u h = h
check_supports-IsWellFormed device uc (s ∷ ss) u h =
    let skip = check_supports-IsWellFormed device uc ss u h in
    elim (Option-cases s.scenario_support) [
      | inl e ↦ rw (e, check_supports) skip
      | inr r ↦ elim (Bool-cases (holds s.use_case_name u.use_case_name)) [
        | inl named ↦
            rw (r.1, check_supports, named)
              (check_supports-IsWellFormed device uc ss _
                (check_entities-IsWellFormed (entities_to_check device uc) r.0 u h))
        | inr other ↦ rw (r.1, check_supports, other) skip
      ]
    ]

check_use_cases-IsWellFormed :
    (device : DeviceView) (ucs : List UseCaseInformation) (u : UseCaseBase)
    → IsWellFormed u
    → IsWellFormed (check_use_cases device ucs u).0
unfolding check_use_cases
check_use_cases-IsWellFormed device [] u h = h
check_use_cases-IsWellFormed device (uc ∷ ucs) u h = elim (Bool-cases (is_valid_actor u uc)) [
  | inl valid ↦ rw valid (
      check_use_cases-IsWellFormed device ucs _
        (check_supports-IsWellFormed device uc uc.use_case_support u h))
  | inr invalid ↦ rw invalid (check_use_cases-IsWellFormed device ucs u h)
]

-- A result is what it was computed to be.
carried : (x r : UseCaseBase × List Event) → IsWellFormed x.0 → x ≡ r → IsWellFormed r.0
carried x r h e = subst (λ (y : UseCaseBase × List Event). IsWellFormed y.0) e h

removed-IsWellFormed :
    (u : UseCaseBase) (payload : EventPayload) {r : UseCaseBase × List Event}
    → IsWellFormed u
    → device_or_entity_removed u payload ≡ some r
    → IsWellFormed r.0
unfolding device_or_entity_removed
removed-IsWellFormed u payload {r} h e = elim (Option-cases payload.entity) [
  | inl no_entity ↦ elim (Option-cases payload.device) [
    | inl no_device ↦ ground (arith, no_entity, no_device)
    | inr d ↦
        carried (remove_device_from_available_entity_scenarios u d.0.device) r
          (remove_device_from_available_entity_scenarios-IsDistinct u d.0.device h)
          (ground (arith, no_entity, d.1))
  ]
  | inr x ↦
      carried (remove_entity_from_available_entity_scenarios u x.0) r
        (remove_entity_from_available_entity_scenarios-IsDistinct u x.0 h) (ground (arith, x.1))
]

handle_event-IsWellFormed :
    (u : UseCaseBase) (payload : EventPayload) {r : UseCaseBase × List Event}
    → IsWellFormed u
    → handle_event u payload ≡ ok r
    → IsWellFormed r.0
unfolding handle_event use_case_data_update
handle_event-IsWellFormed u payload {r} h e =
    elim (Option-cases (device_or_entity_removed u payload)) [
      | inl kept ↦ elim (Option-cases payload.device) [
        | inl no_device ↦ carried (u, []) r h (ground (arith, kept, no_device))
        | inr d ↦ elim (Bool-cases (is_use_case_data payload.content)) [
          | inl read ↦
              carried (check_use_cases d.0 d.0.use_cases u) r
                (check_use_cases-IsWellFormed d.0 d.0.use_cases u h)
                (ground (arith, kept, d.1, read))
          | inr other ↦ carried (u, []) r h (ground (arith, kept, other))
        ]
      ]
      | inr x ↦ removed-IsWellFormed u payload {r = r} h (ground (arith, x.1))
    ]

-- What a use case becomes by the events that reach it.
pub data Reach (u : UseCaseBase) : UseCaseBase → Type 0 where
  here : Reach u u
  next :
      {v : UseCaseBase} {r : UseCaseBase × List Event} (payload : EventPayload)
      → Reach u v
      → handle_event v payload ≡ ok r
      → Reach u r.0

-- From a use case that knows no remote entity, no sequence of events leads to two entries with
-- the same address.
pub Reach-IsWellFormed :
    (u v : UseCaseBase) → u.available_entity_scenarios ≡ [] → Reach u v → IsWellFormed v
Reach-IsWellFormed u v e here = rw e tt
Reach-IsWellFormed u v e (next payload r h) =
    handle_event-IsWellFormed _ payload (Reach-IsWellFormed u _ e r) h

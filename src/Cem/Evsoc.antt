-- ===== src/Cem/Evsoc.antt =====
-- usecases/cem/evsoc: the state of charge of an EV.
use eebus_go.Prelude.{Bool, false, Option, List, [], ◌∷◌}
use eebus_go.Prelude.Int.{ℤ}
use eebus_go.Spine.{
  Name, PayloadData, percentage, state_of_charge, measurements, electrical_connection, measurement,
  ev_state_of_charge, ev, ev_entity,
}
use eebus_go.Errors.{Result}
use eebus_go.UseCase.Remote.{RemoteEntity, EventPayload}
use eebus_go.UseCase.Base.{UseCaseBase}
use eebus_go.UseCase.Features.{add_client_features}
use eebus_go.Internal.Clients.{Remote, ClientEffect, with_compatible, handle_client_event}
use eebus_go.Internal.Readers.{measured, first_value, measurement_data_update}

-- The events of types.go that the handlers report.
pub data EvsocEvent : Type 0 where
  evsoc_state_of_charge_updated : EvsocEvent

-- NewEVSOC: `event_cb` says whether a callback is given.
abbrev pub new_evsoc : Bool → UseCaseBase
new_evsoc event_cb = record {
  use_case_name = ev_state_of_charge;
  use_case_scenarios = record { scenario = 1; server_features = measurement ∷ [] } ∷ [];
  event_cb = event_cb;
  available_entity_scenarios = [];
  valid_actor_types = ev ∷ [];
  valid_entity_types = ev_entity ∷ [];
  all_entity_types_valid = false;
}

-- AddFeatures
abbrev pub evsoc_add_features : (Name → Name → Bool) → Result (Unit {0})
evsoc_add_features can_add =
    (add_client_features can_add (electrical_connection ∷ measurement ∷ [])).1

-- StateOfCharge
unfoldable pub evsoc_state_of_charge :
    UseCaseBase → (RemoteEntity → Remote) → Option RemoteEntity → Result ℤ
evsoc_state_of_charge u remotes entity =
    with_compatible u remotes entity
      (λ e r. first_value false r.missing_error r.measurement (measured percentage state_of_charge))

-- The switch over the type of the data.
unfoldable pub evsoc_handle_data :
    UseCaseBase → Remote → EventPayload → PayloadData → List (ClientEffect EvsocEvent)
unfolding measurement_data_update
evsoc_handle_data u r payload (measurements _) =
    measurement_data_update u r payload ((state_of_charge, evsoc_state_of_charge_updated) ∷ [])
evsoc_handle_data u r payload _ = []

-- HandleEvent
unfoldable pub evsoc_handle_event :
    UseCaseBase → (RemoteEntity → Remote) → EventPayload → List (ClientEffect EvsocEvent)
unfolding evsoc_handle_data
evsoc_handle_event u remotes payload =
    handle_client_event u remotes (λ entity r. []) (λ r p. evsoc_handle_data u r p p.content)
      payload

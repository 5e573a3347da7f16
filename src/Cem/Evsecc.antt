-- ===== src/Cem/Evsecc.antt =====
-- usecases/cem/evsecc: the commissioning and configuration of an EVSE. ManufacturerData, which copies
-- strings, is left out.
use eebus_go.Prelude.{
  if◌then◌else◌, not, Bool, true, false, Option, none, some, List, [], ◌∷◌, ◌++◌, map,
}
use eebus_go.Spine.{
  Name, OperatingState, normal_operation, PayloadData, manufacturer_data, diagnosis_state_data,
  evse_actor, ev, evse, device_classification, device_diagnosis,
  evse_commissioning_and_configuration,
}
use eebus_go.Errors.{Result, ok}
use eebus_go.UseCase.Remote.{RemoteEntity, EventPayload, is_data_update}
use eebus_go.UseCase.Base.{UseCaseBase, is_compatible_entity_type}
use eebus_go.UseCase.Events.{is_entity_added, is_entity_removed}
use eebus_go.UseCase.Features.{add_client_features}
use eebus_go.Internal.Clients.{ClientEffect, call, report_if, with_compatible}
use eebus_go.Cem.Commissioning.{
  RemoteVehicle, of_state, manufacturer_data_update, state_data_update,
  request_manufacturer_details, request_state,
}

-- The events of types.go that the handlers report.
pub data EvseccEvent : Type 0 where
  evse_connected evse_disconnected evse_manufacturer_data_updated evse_operating_state_updated :
      EvseccEvent

-- NewEVSECC: `event_cb` says whether a callback is given.
abbrev pub new_evsecc : Bool → UseCaseBase
new_evsecc event_cb = record {
  use_case_name = evse_commissioning_and_configuration;
  use_case_scenarios =
      record { scenario = 1; server_features = device_classification ∷ [] }
      ∷ record { scenario = 2; server_features = device_diagnosis ∷ [] }
      ∷ [];
  event_cb = event_cb;
  available_entity_scenarios = [];
  valid_actor_types = evse_actor ∷ ev ∷ [];
  valid_entity_types = evse ∷ [];
  all_entity_types_valid = false;
}

-- AddFeatures
abbrev pub evsecc_add_features : (Name → Name → Bool) → Result (Unit {0})
evsecc_add_features can_add =
    (add_client_features can_add (device_classification ∷ device_diagnosis ∷ [])).1

abbrev pub operating_state_or_normal : Option OperatingState → OperatingState
operating_state_or_normal none = normal_operation
operating_state_or_normal (some state) = state

-- OperatingState, with the last error code, none where the code returns "". (With an error, it also
-- returns the normal operation.)
unfoldable pub evse_operating_state :
    UseCaseBase
    → (RemoteEntity → RemoteVehicle)
    → Option RemoteEntity
    → Result (OperatingState × Option Name)
evse_operating_state u remotes entity = with_compatible u remotes entity (λ e r.
    of_state r.clients.missing_error r.diagnosis
      (λ state. ok (operating_state_or_normal state.operating_state, state.last_error_code)))

-- evseConnected
unfoldable pub evse_connects :
    UseCaseBase → RemoteVehicle → EventPayload → List (ClientEffect EvseccEvent)
evse_connects u r payload =
    map call (request_manufacturer_details r ++ request_state r)
    ++ report_if u true evse_connected payload

-- The switch over the type of the data.
unfoldable pub evsecc_handle_data :
    UseCaseBase → RemoteVehicle → EventPayload → PayloadData → List (ClientEffect EvseccEvent)
evsecc_handle_data u r payload manufacturer_data =
    manufacturer_data_update u r payload evse_manufacturer_data_updated
evsecc_handle_data u r payload diagnosis_state_data =
    state_data_update u r payload evse_operating_state_updated
evsecc_handle_data u r payload _ = []

-- HandleEvent
unfoldable pub evsecc_handle_event :
    UseCaseBase → (RemoteEntity → RemoteVehicle) → EventPayload → List (ClientEffect EvseccEvent)
unfolding is_entity_added is_entity_removed evse_connects evsecc_handle_data
evsecc_handle_event u remotes payload = elim payload.entity [
  | none ↦ []
  | some entity ↦
      if not (is_compatible_entity_type u (some entity))
      then []
      else if is_entity_added payload
      then evse_connects u (remotes entity) payload
      else if is_entity_removed payload
      then report_if u true evse_disconnected payload
      else if is_data_update payload
      then evsecc_handle_data u (remotes entity) payload payload.content
      else []
]

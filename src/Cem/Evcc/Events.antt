-- ===== src/Cem/Evcc/Events.antt =====
-- usecases/cem/evcc/events.go, and CheckEventPayloadDataForFilter of
-- features/internal/identification.go
use eebus_go.Prelude.{
  if◌then◌else◌, not, any, is_some, ◌&&◌, Bool, true, none, some, List, [], ◌++◌, map,
}
use eebus_go.Spine.{
  Identification, PayloadData, key_value_description_data, key_values, operating_state,
  manufacturer_data, parameter_description_data, permitted_value_sets, identifications,
  ac_power_total, communications_standard, asymmetric_charging_supported, identification,
  device_classification, device_diagnosis, electrical_connection, identification_list_data,
  electrical_connection_parameter_description_list_data,
  electrical_connection_permitted_value_set_list_data,
}
use eebus_go.Features.Filter.{new_remote}
use eebus_go.Features.ElectricalConnection.{empty_parameter_description}
use eebus_go.Features.ElectricalConnection.Payload
use eebus_go.Features.Requests.{Call, subscribe_once, request_logged}
use eebus_go.UseCase.Remote.{RemoteEntity, EventPayload, is_data_update}
use eebus_go.UseCase.Base.{UseCaseBase, is_compatible_entity_type}
use eebus_go.UseCase.Events.{is_entity_added, is_entity_removed}
use eebus_go.Internal.Clients.{ClientEffect, call, report_if, where_present}
use eebus_go.Internal.Readers.{connect_configuration, request_key_values, key_data_update}
use eebus_go.Cem.Commissioning.{
  RemoteVehicle, manufacturer_data_update, state_data_update, request_manufacturer_details,
  request_state,
}

-- The events of types.go, those that no handler reports included.
pub data EvccEvent : Type 0 where
  ev_connected_event ev_disconnected_event charge_state_updated communication_standard_updated
        asymmetric_charging_support_updated identifications_updated ev_manufacturer_data_updated
        current_limits_updated is_in_sleep_mode_updated :
      EvccEvent

-- evConnected
unfoldable pub evcc_connected :
    UseCaseBase → RemoteVehicle → EventPayload → List (ClientEffect EvccEvent)
evcc_connected u r payload =
    map call (
      where_present r.classification (subscribe_once (r.clients.client device_classification))
      ++ request_manufacturer_details r
      ++ connect_configuration r.clients
      ++ where_present r.diagnosis (subscribe_once (r.clients.client device_diagnosis))
      ++ request_state r
      ++ where_present r.clients.remote_data.electrical_connection (
          subscribe_once (r.clients.client electrical_connection)
          ++ request_logged (r.clients.client electrical_connection)
              electrical_connection_parameter_description_list_data none
          ++ request_logged (r.clients.client electrical_connection)
              electrical_connection_permitted_value_set_list_data none)
      ++ where_present r.identification (
          subscribe_once (r.clients.client identification)
          ++ request_logged (r.clients.client identification) identification_list_data none))
    ++ report_if u true ev_connected_event payload

-- evConfigurationDataUpdate
unfoldable pub evcc_configuration_data_update :
    UseCaseBase → RemoteVehicle → EventPayload → List (ClientEffect EvccEvent)
evcc_configuration_data_update u r payload =
    key_data_update u r.clients payload communications_standard none communication_standard_updated
    ++ key_data_update u r.clients payload asymmetric_charging_supported none
        asymmetric_charging_support_updated

-- CheckEventPayloadDataForFilter of IdentificationCommon, at the items of a payload
abbrev pub check_identifications : List Identification → Bool
check_identifications items =
    any
      (λ (item : Identification).
        is_some item.identification_id && is_some item.identification_value)
      items

-- evIdentificationDataUpdate
abbrev pub identification_data_update :
    UseCaseBase → RemoteVehicle → EventPayload → List Identification → List (ClientEffect EvccEvent)
identification_data_update u r payload items =
    report_if u (is_some r.identification && check_identifications items) identifications_updated
      payload

-- evElectricalParamerDescriptionUpdate
abbrev pub parameter_description_update : RemoteVehicle → List Call
parameter_description_update r = where_present r.clients.remote_data.electrical_connection (
    request_logged (r.clients.client electrical_connection)
      electrical_connection_permitted_value_set_list_data none)

-- evElectricalPermittedValuesUpdate
unfoldable pub evcc_permitted_values_update :
    UseCaseBase → RemoteVehicle → EventPayload → List (ClientEffect EvccEvent)
evcc_permitted_values_update u r payload = elim r.clients.remote_data.electrical_connection [
  | none ↦ []
  | some ec ↦
      report_if u
        (Payload.check_event_payload_data_for_filter (new_remote ec) payload.content
          (record empty_parameter_description { scope_type = some ac_power_total }))
        current_limits_updated payload
]

-- The switch over the type of the data; evOperatingStateDataUpdate reports an update of the
-- identifications.
unfoldable pub evcc_handle_data :
    UseCaseBase → RemoteVehicle → EventPayload → PayloadData → List (ClientEffect EvccEvent)
unfolding evcc_configuration_data_update evcc_permitted_values_update
evcc_handle_data u r payload key_value_description_data = map call (request_key_values r.clients)
evcc_handle_data u r payload (key_values _) = evcc_configuration_data_update u r payload
evcc_handle_data u r payload operating_state = state_data_update u r payload identifications_updated
evcc_handle_data u r payload manufacturer_data =
    manufacturer_data_update u r payload ev_manufacturer_data_updated
evcc_handle_data u r payload parameter_description_data = map call (parameter_description_update r)
evcc_handle_data u r payload (permitted_value_sets _) = evcc_permitted_values_update u r payload
evcc_handle_data u r payload (identifications items) = identification_data_update u r payload items
evcc_handle_data u r payload _ = []

-- HandleEvent
unfoldable pub evcc_handle_event :
    UseCaseBase → (RemoteEntity → RemoteVehicle) → EventPayload → List (ClientEffect EvccEvent)
unfolding is_entity_added is_entity_removed evcc_connected evcc_handle_data
evcc_handle_event u remotes payload = elim payload.entity [
  | none ↦ []
  | some entity ↦
      if not (is_compatible_entity_type u (some entity))
      then []
      else if is_entity_added payload
      then evcc_connected u (remotes entity) payload
      else if is_entity_removed payload
      then report_if u true ev_disconnected_event payload
      else if is_data_update payload
      then evcc_handle_data u (remotes entity) payload payload.content
      else []
]

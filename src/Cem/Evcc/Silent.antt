-- ===== src/Cem/Evcc/Silent.antt =====
-- Updates of an EV that are not reported.
use eebus_go.Prelude.{
  if◌then◌else◌, not, All, All-append, Bool, ◌≡◌, ◌≢◌, refl, true, false, Option, none, some, List,
  [], ◌∷◌, map, arith, ◌&&◌,
}
use eebus_go.Spine.{
  Name, PayloadData, diagnosis_state_data, key_value_description_data, key_values, operating_state,
  manufacturer_data, parameter_description_data, permitted_value_sets, identifications,
  communications_standard, asymmetric_charging_supported, ac_power_total,
}
use eebus_go.Features.Requests.{Call}
use eebus_go.UseCase.Remote.{RemoteEntity, EventPayload, is_data_update, data_change}
use eebus_go.UseCase.Base.{UseCaseBase, is_compatible_entity_type}
use eebus_go.UseCase.Events.{is_entity_added, is_entity_removed}
use eebus_go.Internal.Clients.{Remote, ClientEffect, call, report, report_if}
use eebus_go.Features.Filter.{new_remote}
use eebus_go.Features.ElectricalConnection.Payload
use eebus_go.Features.DeviceConfiguration
use eebus_go.Features.DeviceConfiguration.{key_filter, DeviceConfigurationFeature}
use eebus_go.Features.ElectricalConnection.{
  empty_parameter_description, ElectricalConnectionFeature,
}
use eebus_go.Internal.Readers.{request_key_values, key_data_update}
use eebus_go.Cem.Commissioning.{RemoteVehicle}
use eebus_go.Cem.Evcc.Events.{
  EvccEvent, ev_connected_event, ev_disconnected_event, charge_state_updated,
  communication_standard_updated, asymmetric_charging_support_updated, identifications_updated,
  ev_manufacturer_data_updated, current_limits_updated, evcc_configuration_data_update,
  evcc_permitted_values_update, parameter_description_update, is_in_sleep_mode_updated,
  evcc_connected, evcc_handle_data, evcc_handle_event,
}

-- No report of the charge state or of the sleep mode.
abbrev pub IsOther : ClientEffect EvccEvent → Type 0
IsOther (call c) = Unit
IsOther (report event payload) = (event ≢ charge_state_updated) × (event ≢ is_in_sleep_mode_updated)

calls-IsOther : (calls : List Call) → All IsOther (map call calls)
calls-IsOther [] = tt
calls-IsOther (c ∷ cs) = (tt, calls-IsOther cs)

report_if-IsOther :
    (u : UseCaseBase) (test : Bool) (event : EvccEvent) (payload : EventPayload)
    → event ≢ charge_state_updated
    → event ≢ is_in_sleep_mode_updated
    → All IsOther (report_if u test event payload)
report_if-IsOther u test event payload h k = go (test && u.event_cb)
  where
    go : (b : Bool) → All IsOther (if b then report event payload ∷ [] else [])
    go true = ((h, k), tt)
    go false = tt

key_data_update-IsOther :
    (u : UseCaseBase) (r : Remote) (payload : EventPayload) (key : Name) (event : EvccEvent)
    → event ≢ charge_state_updated
    → event ≢ is_in_sleep_mode_updated
    → All IsOther (key_data_update u r payload key none event)
unfolding key_data_update
key_data_update-IsOther u r payload key event h k = go r.device_configuration refl
  where
    go :
        (dc : Option DeviceConfigurationFeature)
        → r.device_configuration ≡ dc
        → All IsOther (key_data_update u r payload key none event)
    go none e =
        let shape : key_data_update u r payload key none event ≡ [] = ground (arith, e) in
        rw shape tt
    go (some dc) e =
        let shape : key_data_update u r payload key none event
            ≡ report_if u
                (DeviceConfiguration.check_event_payload_data_for_filter (new_remote dc)
                  payload.content (key_filter none (some key)))
                event payload =
          ground (arith, e) in
        rw shape (report_if-IsOther u _ event payload h k)

module _ (u : UseCaseBase) (r : RemoteVehicle) (payload : EventPayload) where
  permitted_values_update-IsOther : All IsOther (evcc_permitted_values_update u r payload)
  unfolding evcc_permitted_values_update
  permitted_values_update-IsOther = go r.clients.remote_data.electrical_connection refl
    where
      go :
          (ec : Option ElectricalConnectionFeature)
          → r.clients.remote_data.electrical_connection ≡ ec
          → All IsOther (evcc_permitted_values_update u r payload)
      go none e =
          let shape : evcc_permitted_values_update u r payload ≡ [] = ground (arith, e) in
          rw shape tt
      go (some ec) e =
          let shape : evcc_permitted_values_update u r payload
              ≡ report_if u
                  (Payload.check_event_payload_data_for_filter (new_remote ec) payload.content
                    (record empty_parameter_description { scope_type = some ac_power_total }))
                  current_limits_updated payload =
            ground (arith, e) in
          rw shape (report_if-IsOther u _ current_limits_updated payload (λ h. cc) (λ h. cc))

  evcc_handle_data-IsOther : (d : PayloadData) → All IsOther (evcc_handle_data u r payload d)
  unfolding evcc_handle_data evcc_configuration_data_update
  evcc_handle_data-IsOther key_value_description_data = calls-IsOther (request_key_values r.clients)
  evcc_handle_data-IsOther (key_values items) =
      All-append IsOther
        (key_data_update u r.clients payload communications_standard none
          communication_standard_updated)
        (key_data_update u r.clients payload asymmetric_charging_supported none
          asymmetric_charging_support_updated)
        (key_data_update-IsOther u r.clients payload communications_standard
          communication_standard_updated (λ h. cc) (λ h. cc))
        (key_data_update-IsOther u r.clients payload asymmetric_charging_supported
          asymmetric_charging_support_updated (λ h. cc) (λ h. cc))
  evcc_handle_data-IsOther operating_state =
      report_if-IsOther u _ identifications_updated payload (λ h. cc) (λ h. cc)
  evcc_handle_data-IsOther manufacturer_data =
      report_if-IsOther u _ ev_manufacturer_data_updated payload (λ h. cc) (λ h. cc)
  evcc_handle_data-IsOther parameter_description_data =
      calls-IsOther (parameter_description_update r)
  evcc_handle_data-IsOther (permitted_value_sets sets) = permitted_values_update-IsOther
  evcc_handle_data-IsOther (identifications items) =
      report_if-IsOther u _ identifications_updated payload (λ h. cc) (λ h. cc)
  evcc_handle_data-IsOther _ = tt

  evcc_connected-IsOther : All IsOther (evcc_connected u r payload)
  unfolding evcc_connected
  evcc_connected-IsOther =
      All-append IsOther _ (report_if u true ev_connected_event payload) (calls-IsOther _)
        (report_if-IsOther u true ev_connected_event payload (λ h. cc) (λ h. cc))

chosen :
    (b : Bool) (xs ys : List (ClientEffect EvccEvent))
    → All IsOther xs
    → All IsOther ys
    → All IsOther (if b then xs else ys)
chosen true xs ys h k = h
chosen false xs ys h k = k

-- No event of any kind makes the use case report an update of the charge state or of the sleep mode,
-- and an update of the diagnosis state of an EV, which both are read from, has no effect at all.
pub charge_state_never_reported :
    (u : UseCaseBase) (remotes : RemoteEntity → RemoteVehicle) (payload : EventPayload)
    → All IsOther (evcc_handle_event u remotes payload)
      × (evcc_handle_event u remotes
            (record payload { event_type = data_change; content = diagnosis_state_data })
          ≡ [])
unfolding evcc_handle_event is_entity_added is_entity_removed evcc_handle_data
charge_state_never_reported u remotes payload = go payload.entity refl
  where
    go :
        (o : Option RemoteEntity)
        → payload.entity ≡ o
        → All IsOther (evcc_handle_event u remotes payload)
          × (evcc_handle_event u remotes
                (record payload { event_type = data_change; content = diagnosis_state_data })
              ≡ [])
    go none e =
        let shape : evcc_handle_event u remotes payload ≡ [] = ground (arith, e) in
        (rw shape tt, ground (arith, e))
    go (some x) e =
        let shape : evcc_handle_event u remotes payload ≡ (
            if not (is_compatible_entity_type u (some x))
            then []
            else if is_entity_added payload
            then evcc_connected u (remotes x) payload
            else if is_entity_removed payload
            then report_if u true ev_disconnected_event payload
            else if is_data_update payload
            then evcc_handle_data u (remotes x) payload payload.content
            else []) =
          ground (arith, e) in
        (
          rw shape (
              chosen (not (is_compatible_entity_type u (some x))) [] _ tt (
                chosen (is_entity_added payload) (evcc_connected u (remotes x) payload) _
                  (evcc_connected-IsOther u (remotes x) payload)
                  (chosen (is_entity_removed payload)
                    (report_if u true ev_disconnected_event payload) _
                    (report_if-IsOther u true ev_disconnected_event payload (λ h. cc) (λ h. cc))
                    (chosen (is_data_update payload)
                      (evcc_handle_data u (remotes x) payload payload.content) []
                      (evcc_handle_data-IsOther u (remotes x) payload payload.content) tt)))),
          ground (arith, e),
        )

-- ===== src/Eg/Events/Silent.antt =====
-- Updates of the nominal maximum that are not reported.
use eebus_go.Prelude.{◌≡◌, true, some, none, List, [], ◌∷◌, arith}
use eebus_go.Prelude.Int.{ℤ}
use eebus_go.Spine.{Characteristic, characteristics}
use eebus_go.Errors.{ok}
use eebus_go.Features.Filter.{new_remote}
use eebus_go.Features.ElectricalConnection.{
  ElectricalConnectionFeature, get_characteristics_for_filter,
}
use eebus_go.Features.ElectricalConnection.Payload.{
  check_event_payload_data_for_filter_description_list,
}
use eebus_go.UseCase.Remote.{RemoteEntity, EventPayload, data_change}
use eebus_go.UseCase.Base.{UseCaseBase, is_compatible_entity_type}
use eebus_go.UseCase.Events.{is_entity_added}
use eebus_go.Cs.Events.{is_heartbeat}
use eebus_go.Cs.State.{Variant}
use eebus_go.Internal.Clients.{Remote}
use eebus_go.Eg.Failsafe.{characteristic_filter, remote_characteristic_type, remote_nominal_max}
use eebus_go.Eg.Events.{characteristic_data_update, handle_data, handle_remote_event}

-- Where a compatible entity has the nominal maximum as a characteristic, but none of this type with
-- the electrical connection 0 and the parameter 0, the energy guard reads its value but reports none
-- of its updates: the check of an update asks for the ids 0, the read does not.
pub remote_nominal_max_not_reported :
    (v : Variant) (u : UseCaseBase) (remotes : RemoteEntity → Remote) (e : RemoteEntity)
    (ec : ElectricalConnectionFeature) (c : Characteristic) (cs xs : List Characteristic) (x : ℤ)
    (payload : EventPayload)
    → is_compatible_entity_type u (some e) ≡ true
    → (remotes e).remote_data.electrical_connection ≡ some ec
    → get_characteristics_for_filter
        (new_remote ec)
        (characteristic_filter none (remote_characteristic_type v (some e)))
      ≡ ok (c ∷ cs)
    → c.value ≡ some x
    → get_characteristics_for_filter
        (new_remote ec)
        (characteristic_filter (some 0) (remote_characteristic_type v (some e)))
      ≡ ok []
    → payload.entity ≡ some e
    → payload.event_type ≡ data_change
    → payload.content ≡ characteristics xs
    → (remote_nominal_max v u remotes (some e) ≡ ok x)
      × (handle_remote_event v u remotes payload ≡ [])
unfolding remote_nominal_max handle_remote_event is_entity_added is_heartbeat handle_data
    characteristic_data_update check_event_payload_data_for_filter_description_list
remote_nominal_max_not_reported v u remotes e ec c cs xs x payload compatible has_feature found
      has_value none_at_0 from changed update =
    (
      ground (arith, compatible, has_feature, found, has_value),
      ground (arith, compatible, has_feature, none_at_0, from, changed, update),
    )

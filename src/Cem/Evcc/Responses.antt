-- ===== src/Cem/Evcc/Responses.antt =====
-- usecases/cem/evcc/results.go: an EVSE or an EV that answers a heartbeat with an error is disconnected.
use eebus_go.Prelude.{
  ℕ, ◌==◌, if◌then◌else◌, not, ◌&&◌, ◌||◌, holds, Bool, false, Option, none, some, List, ◌∷◌,
}
use eebus_go.Spine.{Name, ev_entity, evse, device_diagnosis}

-- DeviceRemote of a response: `Ski`, and DatagramForMsgCounter of its sender, where a datagram is
-- the list of its commands, each with whether it has heartbeat data.
pub record ResponseDevice : Type 0 where
  pub ski : ℕ
  pub datagram_for_msg_counter : ℕ → Option (List Bool)

-- spineapi.ResponseMessage: the type of EntityRemote and of FeatureLocal, and `error_number`, which
-- is there if `Data` is a result, with its number.
pub record ResponseMessage : Type 0 where
  pub entity_type : Option Name
  pub feature_type : Name
  pub device_remote : Option ResponseDevice
  pub msg_counter_reference : ℕ
  pub error_number : Option (Option ℕ)

abbrev is_heartbeat_datagram : Option (List Bool) → Bool
is_heartbeat_datagram (some (heartbeat ∷ cmds)) = heartbeat
is_heartbeat_datagram _ = false

abbrev is_error : Option ℕ → Bool
is_error none = false
is_error (some number) = not (number == 0)

-- handleResultDeviceDiagnosis: the ski of the service that is disconnected, if one is
unfoldable pub handle_result_device_diagnosis : ResponseMessage → Option ℕ
handle_result_device_diagnosis msg = elim msg.device_remote [
  | none ↦ none
  | some device ↦ elim msg.error_number [
    | none ↦ none
    | some number ↦
        if is_error number
          && is_heartbeat_datagram (device.datagram_for_msg_counter msg.msg_counter_reference)
        then some device.ski
        else none
  ]
]

-- HandleResponse
unfoldable pub handle_response : ResponseMessage → Option ℕ
unfolding handle_result_device_diagnosis
handle_response msg =
    if (holds msg.entity_type ev_entity || holds msg.entity_type evse)
      && msg.feature_type == device_diagnosis
    then handle_result_device_diagnosis msg
    else none

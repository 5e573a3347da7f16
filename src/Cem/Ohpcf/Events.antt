-- ===== src/Cem/Ohpcf/Events.antt =====
-- usecases/cem/ohpcf/events.go
use eebus_go.Prelude.{
  if◌then◌else◌, is_some, not, Bool, Option, none, some, List, [], ◌∷◌, ◌++◌, map,
}
use eebus_go.Spine.{
  slot_power, slot_power_max, other_type, SlotValue, Interrupt, PowerSequence, EnergyData,
  PayloadData, energy_management_data, energy_management_ps_data,
}
use eebus_go.Features.Requests.{Call, subscribe_once, bind_once, request_logged}
use eebus_go.UseCase.Remote.{RemoteEntity, EventPayload}
use eebus_go.UseCase.Base.{UseCaseBase, is_compatible_entity_type}
use eebus_go.UseCase.Events.{is_entity_added}
use eebus_go.Internal.Clients.{ClientEffect, call, report}
use eebus_go.Cem.Ohpcf.{RemoteCompressor, slot_values}

-- The events of types.go that the handlers report.
pub data OhpcfEvent : Type 0 where
  power_estimate_updated power_max_updated is_stoppable_updated is_pausable_updated
        start_time_updated consumption_state_updated minimal_run_duration_updated
        minimal_pause_duration_updated :
      OhpcfEvent

-- The loop over the values of the slot.
unfoldable pub value_events : List SlotValue → List OhpcfEvent
value_events [] = []
value_events (x ∷ xs) = elim x.value [
  | none ↦ value_events xs
  | some v ↦ elim x.value_type [
    | none ↦ value_events xs
    | some type ↦ elim type [
      | slot_power ↦ power_estimate_updated ∷ value_events xs
      | slot_power_max ↦ power_max_updated ∷ value_events xs
      | other_type n ↦ value_events xs
    ]
  ]
]

abbrev pub event_if : Bool → OhpcfEvent → List OhpcfEvent
event_if test event = if test then event ∷ [] else []

abbrev pub interrupt_events : Option Interrupt → List OhpcfEvent
interrupt_events none = []
interrupt_events (some i) =
    event_if (is_some i.is_stoppable) is_stoppable_updated
    ++ event_if (is_some i.is_pausable) is_pausable_updated

-- The tests of a sequence, one after the other.
unfoldable pub sequence_events : PowerSequence → List OhpcfEvent
unfolding value_events
sequence_events s =
    value_events (slot_values s.slots)
    ++ interrupt_events s.interrupt
    ++ event_if (is_some s.start_time) start_time_updated
    ++ event_if (is_some s.state) consumption_state_updated
    ++ event_if (is_some s.active_duration_min) minimal_run_duration_updated
    ++ event_if (is_some s.pause_duration_min) minimal_pause_duration_updated

-- loadSmartEnergyManagementPsDataType, the events that it reports if there is a callback
unfoldable pub data_events : List (List PowerSequence) → List OhpcfEvent
unfolding sequence_events
data_events [] = consumption_state_updated ∷ []
data_events ((s ∷ []) ∷ []) = sequence_events s
data_events _ = []

unfoldable pub load_energy_management_data :
    UseCaseBase → EventPayload → EnergyData → List (ClientEffect OhpcfEvent)
unfolding data_events
load_energy_management_data u payload d =
    if u.event_cb then map (λ event. report event payload) (data_events d.alternatives) else []

-- connected
unfoldable pub ohpcf_connected : RemoteCompressor → List Call
ohpcf_connected r = elim r.client [
  | none ↦ []
  | some c ↦
      subscribe_once c.feature
      ++ bind_once c.feature
      ++ request_logged c.feature energy_management_ps_data none
]

unfoldable pub ohpcf_handle_data :
    UseCaseBase → EventPayload → PayloadData → List (ClientEffect OhpcfEvent)
unfolding load_energy_management_data
ohpcf_handle_data u payload (energy_management_data d) = load_energy_management_data u payload d
ohpcf_handle_data u payload _ = []

-- HandleEvent: the data of a payload are handled whatever its event type.
unfoldable pub ohpcf_handle_event :
    UseCaseBase → (RemoteEntity → RemoteCompressor) → EventPayload → List (ClientEffect OhpcfEvent)
unfolding is_entity_added ohpcf_connected ohpcf_handle_data
ohpcf_handle_event u remotes payload = elim payload.entity [
  | none ↦ []
  | some entity ↦
      if not (is_compatible_entity_type u (some entity))
      then []
      else (if is_entity_added payload then map call (ohpcf_connected (remotes entity)) else [])
        ++ ohpcf_handle_data u payload payload.content
]

-- ===== src/Cs/Events/Heartbeat.antt =====
-- Which DeviceDiagnosis server a limitation use case takes its heartbeats from, and what of its
-- state an event can change.
use eebus_go.Prelude.{
  if◌then◌else◌, not, Bool, Bool-cases, ◌≡◌, refl, inl, inr, true, false, ◌&&◌, Option, none, some,
  List, [], ◌∷◌, ◌++◌, arith,
}
use eebus_go.UseCase.Remote.{RemoteEntity, DeviceView, EventPayload}
use eebus_go.UseCase.Base.{UseCaseBase, is_compatible_entity_type}
use eebus_go.Cs.State.{Variant, subscribe, request_heartbeat, Limitation, Effect}
use eebus_go.Cs.Events.{
  DiagnosisClient, is_device_connected, has_diagnosis, use_diagnosis, device_diag_entities,
  device_connected, is_load_control_binding, is_heartbeat, is_write, subscribe_heartbeat_workaround,
  handle_event,
}

-- The events that HandleEvent sees leave the local data and the pending writes as they are.
abbrev pub IsUntouched : Limitation → Limitation → Type 0
IsUntouched e e' =
    (e'.entity ≡ e.entity)
    × (e'.pending_limits ≡ e.pending_limits)
    × (e'.pending_device_configs ≡ e.pending_device_configs)
    × (e'.event_cb ≡ e.event_cb)

use_diagnosis-IsUntouched :
    (c : DiagnosisClient) (e : Limitation) (entity : Option RemoteEntity)
    → IsUntouched e (use_diagnosis c e entity).0
unfolding use_diagnosis
use_diagnosis-IsUntouched c e none = (refl, refl, refl, refl)
use_diagnosis-IsUntouched c e (some x) = elim (Bool-cases (c.has_client && has_diagnosis x)) [
  | inl t ↦ rw t (refl, refl, refl, refl)
  | inr t ↦ rw t (refl, refl, refl, refl)
]

device_connected-IsUntouched :
    (u : UseCaseBase) (c : DiagnosisClient) (e : Limitation) (payload : EventPayload)
    → IsUntouched e (device_connected u c e payload).0
unfolding device_connected
device_connected-IsUntouched u c e payload = ground (arith, use_diagnosis-IsUntouched c e)

workaround-IsUntouched :
    (c : DiagnosisClient) (e : Limitation) (payload : EventPayload)
    → IsUntouched e (subscribe_heartbeat_workaround c e payload).0
unfolding subscribe_heartbeat_workaround
workaround-IsUntouched c e payload = ground (arith, use_diagnosis-IsUntouched c e payload.entity)

binding_no_connection :
    (payload : EventPayload)
    → is_load_control_binding payload ≡ true
    → is_device_connected payload ≡ false
unfolding is_device_connected
binding_no_connection payload h = ground arith

-- HandleEvent leaves the local data, the pending writes and the callback as they are, whatever
-- the event is.
pub handle_event-IsUntouched :
    (v : Variant) (u : UseCaseBase) (c : DiagnosisClient) (e : Limitation) (payload : EventPayload)
    → IsUntouched e (handle_event v u c e payload).0
unfolding handle_event
handle_event-IsUntouched v u c e payload =
    chosen (is_device_connected payload) _ _ (device_connected-IsUntouched u c e payload) (
      chosen (not (is_compatible_entity_type u payload.entity)) _ _ (refl, refl, refl, refl)
        (chosen (is_load_control_binding payload) _ _ (workaround-IsUntouched c e payload) (
          chosen (is_heartbeat payload && e.event_cb) _ _ (refl, refl, refl, refl)
            (chosen (is_write payload) _ _ (refl, refl, refl, refl) (refl, refl, refl, refl)))))
  where
    chosen :
        (b : Bool) (l r : Limitation × List Effect)
        → IsUntouched e l.0
        → IsUntouched e r.0
        → IsUntouched e (if b then l else r).0
    chosen true l r h k = h
    chosen false l r h k = k

ambiguous :
    (v : Variant) (u : UseCaseBase) (c : DiagnosisClient) (e : Limitation) (payload : EventPayload)
    (view : DeviceView) (x y : RemoteEntity) (others : List RemoteEntity)
    → is_device_connected payload ≡ true
    → payload.device ≡ some view
    → device_diag_entities u view.entities ≡ x ∷ y ∷ others
    → handle_event v u c e payload ≡ (record e { heartbeat_keo_workaround = true }, [])
unfolding handle_event device_connected
ambiguous v u c e payload view x y others connected device diag =
    ground (arith, connected, device, diag)

bound_entity :
    (v : Variant) (u : UseCaseBase) (c : DiagnosisClient) (e : Limitation) (payload : EventPayload)
    (entity : RemoteEntity)
    → e.heartbeat_keo_workaround ≡ true
    → is_load_control_binding payload ≡ true
    → payload.entity ≡ some entity
    → is_compatible_entity_type u (some entity) ≡ true
    → c.has_client && has_diagnosis entity ≡ true
    → handle_event v u c e payload ≡ (
      record e { heartbeat_diag = some entity },
      (if c.has_subscription entity then [] else subscribe entity ∷ [])
          ++ request_heartbeat entity ∷ [],
    )
unfolding handle_event subscribe_heartbeat_workaround use_diagnosis
bound_entity v u c e payload entity workaround bound from compatible available =
    rw (binding_no_connection payload bound, from, compatible, bound, workaround, available) refl

-- A device connects that has a DeviceDiagnosis server on two or more compatible entities: no
-- server is used yet. When a compatible entity with such a server then binds to the load control
-- server, its heartbeats are used: it is asked for one, after a subscription if there is none.
pub heartbeat_of_binding_entity :
    (v : Variant) (u : UseCaseBase) (c : DiagnosisClient) (e : Limitation)
    (connection binding : EventPayload) (view : DeviceView) (x y entity : RemoteEntity)
    (others : List RemoteEntity)
    → is_device_connected connection ≡ true
    → connection.device ≡ some view
    → device_diag_entities u view.entities ≡ x ∷ y ∷ others
    → is_load_control_binding binding ≡ true
    → binding.entity ≡ some entity
    → is_compatible_entity_type u (some entity) ≡ true
    → c.has_client && has_diagnosis entity ≡ true
    → let (e', out) = handle_event v u c e connection in
      (out ≡ [])
      × (e'.heartbeat_diag ≡ e.heartbeat_diag)
      × (handle_event v u c e' binding ≡ (
        record e' { heartbeat_diag = some entity },
        (if c.has_subscription entity then [] else subscribe entity ∷ [])
            ++ request_heartbeat entity ∷ [],
      ))
heartbeat_of_binding_entity v u c e connection binding view x y entity others connected device diag
      bound from compatible available =
    rw (ambiguous v u c e connection view x y others connected device diag) (
      refl,
      refl,
      bound_entity v u c (record e { heartbeat_keo_workaround = true }) binding entity refl bound
          from compatible available,
    )

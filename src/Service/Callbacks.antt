-- ===== src/Service/Callbacks.antt =====
-- service/service_hub.go: what the hub reports to the service, which hands it to the application's
-- handler. Remote services are known by numbers.
use eebus_go.Prelude.{ℕ, String, Bool, none, some, List, [], ◌∷◌}
use eebus_go.Errors.{Result, ok, panic}
use eebus_go.Service.{Service}

-- The calls of the handler, and those of the local device.
pub data HandlerCall : Type 0 where
  remote_service_connected remote_service_disconnected service_updated : ℕ → HandlerCall
  service_pairing_detail_update service_auto_trusted : ℕ → HandlerCall
  service_auto_trust_failed service_auto_trust_removed : ℕ → String → HandlerCall
  visible_remote_mdns_services_updated : List ℕ → HandlerCall
  remove_remote_device_connection setup_remote_device : ℕ → HandlerCall

-- RemoteServiceConnected
abbrev pub on_connected : ℕ → Service → List HandlerCall
on_connected identity s = remote_service_connected identity ∷ []

-- RemoteServiceDisconnected
unfoldable pub on_disconnected : ℕ → Service → List HandlerCall
on_disconnected identity s = elim s.spine_local_device [
  | none ↦ remote_service_disconnected identity ∷ []
  | some device ↦
      remove_remote_device_connection identity ∷ remote_service_disconnected identity ∷ []
]

-- SetupRemoteService
unfoldable pub on_setup : ℕ → Service → Result (List HandlerCall)
on_setup identity s = elim s.spine_local_device [
  | none ↦ panic
  | some device ↦ ok (setup_remote_device identity ∷ [])
]

-- VisibleRemoteMdnsServicesUpdated
abbrev pub on_visible : List ℕ → Service → List HandlerCall
on_visible entries s = visible_remote_mdns_services_updated entries ∷ []

-- ServiceUpdated
abbrev pub on_updated : ℕ → Service → List HandlerCall
on_updated identity s = service_updated identity ∷ []

-- ServicePairingDetailUpdate
abbrev pub on_pairing_detail : ℕ → Service → List HandlerCall
on_pairing_detail identity s = service_pairing_detail_update identity ∷ []

-- AllowWaitingForTrust
abbrev pub allow_waiting_for_trust : ℕ → Service → Bool
allow_waiting_for_trust identity s = s.is_pairing_possible

-- ServiceAutoTrusted
abbrev pub on_auto_trusted : ℕ → Service → List HandlerCall
on_auto_trusted identity s = service_auto_trusted identity ∷ []

-- ServiceAutoTrustFailed
abbrev pub on_auto_trust_failed : ℕ → String → Service → List HandlerCall
on_auto_trust_failed identity reason s = service_auto_trust_failed identity reason ∷ []

-- ServiceAutoTrustRemoved
abbrev pub on_auto_trust_removed : ℕ → String → Service → List HandlerCall
on_auto_trust_removed identity reason s = service_auto_trust_removed identity reason ∷ []

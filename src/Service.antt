-- ===== src/Service.antt =====
-- service/service.go: the life cycle of a service. Its calls of the hub (ship-go) and of the local
-- device (spine-go) are effects; what they come back with is an argument of the operation.
pub mod Callbacks
pub mod Running
pub mod Addresses
use Prim.Native.String.{len}
use Prim.Native.String
use eebus_go.Prelude.{
  ℕ, suc, String, if◌then◌else◌, ltb, length, Bool, true, false, not, Option, none, some, List, [],
  ◌∷◌, ◌++◌,
}
use eebus_go.Spine.{Name}
use eebus_go.Errors.{Error, Result, ok, err, panic, message}

-- api.Configuration, as far as Setup reads it
pub record Configuration : Type 0 where
  pub has_certificate : Bool
  pub vendor_code : String
  pub device_brand : String
  pub device_model : String
  pub device_serial_number : String
  pub identifier : String
  pub entity_types : List Name

-- spineapi.EntityLocalInterface: its type, and its address of one number
pub record Entity : Type 0 where
  pub entity_type : Name
  pub address : ℕ

-- spineapi.DeviceLocalInterface: its address and its entities
pub record LocalDevice : Type 0 where
  pub address : String
  pub entities : List Entity

-- Service: `has_local_service` and `has_hub` say whether these are set, `auto_accept` is what the
-- local service and the hub were told last; use cases are known by numbers.
pub record Service : Type 0 where
  pub configuration : Configuration
  pub has_local_service : Bool
  pub has_hub : Bool
  pub spine_local_device : Option LocalDevice
  pub usecases : List ℕ
  pub auto_accept : Bool
  pub is_pairing_possible : Bool
  pub is_running : Bool

-- NewService
abbrev pub new_service : Configuration → Service
new_service configuration = record {
  configuration = configuration;
  has_local_service = false;
  has_hub = false;
  spine_local_device = none;
  usecases = [];
  auto_accept = false;
  is_pairing_possible = false;
  is_running = false;
}

-- What Setup relies on: the error of reading the certificate, its SKI or its fingerprint, that of
-- `NewServiceDetails`, `strconv.Atoi`, the entities of a new device, and the error of `NewHub`.
pub record SetupCalls : Type 0 where
  pub certificate_error : Option Error
  pub details_error : Option Error
  pub is_number : String → Bool
  pub initial_entities : List Entity
  pub hub_error : Option Error

abbrev pub is_blank : String → Bool
is_blank String.[] = true
is_blank (String.◌∷◌ c s) = false

-- The address of the local device.
unfoldable pub device_address : (String → Bool) → Configuration → String
device_address is_number c =
    let vendor = if is_blank c.vendor_code then c.device_brand else c.vendor_code in
    let serial : String =
      if is_blank c.device_serial_number then "" else String.◌∷◌ "-" c.device_serial_number in
    let type : String = if is_number vendor then "i" else "n" in
    String.◌++◌ "d:_" (
      String.◌++◌ type
        (String.◌∷◌ ":" (String.◌++◌ vendor (String.◌∷◌ "_" (String.◌++◌ c.device_model serial)))))

-- The loop over the entity types: the address of an entity is the number of those before it.
unfoldable pub add_entities : List Name → List Entity → List Entity
add_entities [] entities = entities
add_entities (type ∷ types) entities =
    add_entities types (entities ++ record { entity_type = type; address = length entities } ∷ [])

abbrev pub or_error : {A : Type 0} → Option Error → A → Result A
or_error none a = ok a
or_error (some e) a = err e

-- Setup. Where `NewServiceDetails` or `NewHub` fails, it returns nil.
unfoldable pub setup : SetupCalls → Service → Service × Result (Unit {0})
unfolding device_address add_entities
setup calls s =
    if not s.configuration.has_certificate
    then (s, err (message "missing certificate"))
    else elim calls.certificate_error [
      | some e ↦ (s, err e)
      | none ↦ elim calls.details_error [
        | some e ↦ (record s { has_local_service = false }, err e)
        | none ↦
            let s1 = record s { has_local_service = true } in
            let address = device_address calls.is_number s.configuration in
            if ltb 256 (len address)
            then (s1, err (message "generated device address is too long"))
            else (
              record s1 {
                spine_local_device = some (record {
                  address = address;
                  entities = add_entities s.configuration.entity_types calls.initial_entities;
                });
                has_hub = elim calls.hub_error [ none ↦ true | some e ↦ false ];
              },
              or_error calls.hub_error tt,
            )
      ]
    ]

-- The calls of the hub that start and stop it; `hub_start` says whether it succeeded.
pub data HubCall : Type 0 where
  hub_start : Bool → HubCall
  hub_shutdown : HubCall

-- Start: `hub_error` is what the hub returns if it is started.
unfoldable pub start : Option Error → Service → Service × List HubCall × Result (Unit {0})
start hub_error s =
    if s.is_running
    then (s, [], ok tt)
    else if not s.has_hub
    then (s, [], panic)
    else elim hub_error [
      | some e ↦ (s, hub_start false ∷ [], err e)
      | none ↦ (record s { is_running = true }, hub_start true ∷ [], ok tt)
    ]

-- Shutdown
unfoldable pub shutdown : Service → Service × List HubCall × Result (Unit {0})
shutdown s =
    if not s.is_running
    then (s, [], ok tt)
    else if not s.has_hub
    then (s, [], panic)
    else (record s { is_running = false }, hub_shutdown ∷ [], ok tt)

-- AddUseCase: `features_error` is that of `AddFeatures`. The last result says whether the use case
-- was announced.
unfoldable pub add_use_case : ℕ → Option Error → Service → Service × Result (Unit {0}) × Bool
add_use_case use_case features_error s =
    let s1 = record s { usecases = s.usecases ++ use_case ∷ [] } in
    elim features_error [ some e ↦ (s1, err e, false) | none ↦ (s1, ok tt, true) ]

-- UserIsAbleToApproveOrCancelPairingRequests
abbrev pub user_is_able_to_approve_or_cancel_pairing_requests : Bool → Service → Service
user_is_able_to_approve_or_cancel_pairing_requests allow s = record s {
  is_pairing_possible = allow;
}

-- SetAutoAccept
unfoldable pub set_auto_accept : Bool → Service → Service × Result (Unit {0})
set_auto_accept value s =
    if not s.has_local_service
    then (s, panic)
    else if not s.has_hub
    then (record s { auto_accept = value }, panic)
    else (record s { auto_accept = value }, ok tt)

-- The calls that are handed on to the hub: PairingDetailFor, RemoteServiceFor,
-- RegisterRemoteService, UnregisterRemoteService, DisconnectService, CancelPairing.
pub data HubRequest : Type 0 where
  pairing_detail_for service_for register_remote_service : ℕ → HubRequest
  unregister_remote_service disconnect_service cancel_pairing : ℕ → HubRequest

unfoldable pub hand_on : HubRequest → Service → Result HubRequest
hand_on request s = if s.has_hub then ok request else panic

-- QRCodeText: `text` is what the hub generates.
unfoldable pub qr_code_text : Result String → Service → Result String
qr_code_text text s =
    if s.has_hub then text else err (message "service not set up, call Setup() first")

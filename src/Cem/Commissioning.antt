-- ===== src/Cem/Commissioning.antt =====
-- What the commissioning of an EV and of an EVSE share (usecases/cem/evcc, usecases/cem/evsecc; GetState
-- and GetManufacturerDetails of features/internal).
use eebus_go.Prelude.{Bool, true, false, Option, none, some, List}
use eebus_go.Spine.{
  DiagnosisState, Identification, device_diagnosis, device_classification,
  device_classification_manufacturer_data, device_diagnosis_state_data,
}
use eebus_go.Errors.{Error, Result, ok, err, panic, data_not_available}
use eebus_go.Features.Filter.{Copy}
use eebus_go.Features.Requests.{Call, request_logged}
use eebus_go.UseCase.Remote.{EventPayload}
use eebus_go.UseCase.Base.{UseCaseBase}
use eebus_go.Internal.Clients.{Remote, ClientEffect, report_if, where_present}

-- The clients of a remote entity, besides those of `clients`: `diagnosis` with the copy of its state,
-- `identification` with the copy of its list, and `classification` with whether there is a copy of
-- the manufacturer data.
pub record RemoteVehicle : Type 0 where
  pub clients : Remote
  pub diagnosis : Option (Option DiagnosisState)
  pub identification : Option (Copy Identification)
  pub classification : Option Bool

-- GetState
abbrev pub get_state : Option DiagnosisState → Result DiagnosisState
get_state none = err data_not_available
get_state (some state) = ok state

-- What is read of the state of a diagnosis client; `failure` is the error where it is not there.
abbrev pub of_state :
    {A : Type 0} → Error → Option (Option DiagnosisState) → (DiagnosisState → Result A) → Result A
of_state failure none read = err failure
of_state failure (some copy) read = elim (get_state copy) [
  | ok state ↦ read state
  | err e ↦ err e
  | panic ↦ panic
]

-- Whether GetState, or GetManufacturerDetails, of a client that is there returns no error.
abbrev pub has_state : Option (Option DiagnosisState) → Bool
has_state (some (some state)) = true
has_state _ = false

abbrev pub has_manufacturer_data : Option Bool → Bool
has_manufacturer_data none = false
has_manufacturer_data (some copy) = copy

-- The update of the manufacturer data, or of the state, as an event.
abbrev pub manufacturer_data_update :
    {E : Type 0} → UseCaseBase → RemoteVehicle → EventPayload → E → List (ClientEffect E)
manufacturer_data_update u r payload name =
    report_if u (has_manufacturer_data r.classification) name payload

abbrev pub state_data_update :
    {E : Type 0} → UseCaseBase → RemoteVehicle → EventPayload → E → List (ClientEffect E)
state_data_update u r payload name = report_if u (has_state r.diagnosis) name payload

abbrev pub request_manufacturer_details : RemoteVehicle → List Call
request_manufacturer_details r = where_present r.classification (
    request_logged (r.clients.client device_classification) device_classification_manufacturer_data
      none)

abbrev pub request_state : RemoteVehicle → List Call
request_state r =
    where_present r.diagnosis
      (request_logged (r.clients.client device_diagnosis) device_diagnosis_state_data none)

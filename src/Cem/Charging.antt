-- ===== src/Cem/Charging.antt =====
-- The limits of the charging of an EV: what usecases/cem/opev (overload protection) and oscev
-- (self consumption) share. They differ in the category and the scope of their limits. The
-- heartbeat and the operating state, single calls of spine-go, are left out.
pub mod Writing
use eebus_go.Prelude.{Bool, true, false, Option, none, some, List, [], ◌∷◌, ◌++◌, map}
use eebus_go.Prelude.Int.{ℤ}
use eebus_go.Spine.{
  Name, LimitDescription, MeasurementDescription, max_value_limit, ampere, phase_a, load_control,
  electrical_connection, device_diagnosis, server_role, ev, ev_entity,
  load_control_limit_description_list_data, load_control_limit_constraints_list_data,
  load_control_limit_list_data,
}
use eebus_go.Errors.{Result, ok, err, panic, data_not_available}
use eebus_go.Features.Filter.{new_remote}
use eebus_go.Features.LoadControl
use eebus_go.Features.LoadControl.{empty_limit_description, get_limit_descriptions_for_filter}
use eebus_go.Features.Measurement.{measurement_id_filter}
use eebus_go.Features.ElectricalConnection.{
  ElectricalConnectionFeature, empty_parameter_description, phase_filter,
  get_parameter_descriptions_for_filter,
}
use eebus_go.Features.ElectricalConnection.Payload.{check_event_payload_data_for_filter}
use eebus_go.Features.ElectricalConnection.PhaseLimits.{CurrentLimits, get_phase_current_limits}
use eebus_go.Features.Client.{LimitCommand}
use eebus_go.Features.Requests.{Call, subscribe_once, bind_once, request_logged}
use eebus_go.UseCase.Remote.{RemoteEntity, EventPayload}
use eebus_go.UseCase.Base.{UseCaseScenario, UseCaseBase}
use eebus_go.UseCase.Features.{add_client_features, add_feature_after}
use eebus_go.UseCase.Limits.{LoadLimitsPhase}
use eebus_go.Internal.LoadControl.{load_control_limits, write_load_control_phase_limits}
use eebus_go.Internal.Clients.{Remote, ClientEffect, report_if, where_present, with_compatible}

-- The events of types.go that the handlers report.
pub data ChargingEvent : Type 0 where
  charging_limit_updated current_limits_updated : ChargingEvent

pub record ChargingVariant : Type 0 where
  pub use_case : Name
  pub category : Name
  pub scope : Name

abbrev pub charging_filter : ChargingVariant → LimitDescription
charging_filter v = record empty_limit_description {
  limit_type = some max_value_limit;
  limit_category = some v.category;
  unit = some ampere;
  scope_type = some v.scope;
}

-- NewOPEV, NewOSCEV: `event_cb` says whether a callback is given.
abbrev pub new_charging : ChargingVariant → Bool → UseCaseBase
new_charging v event_cb = record {
  use_case_name = v.use_case;
  use_case_scenarios =
      record { scenario = 1; server_features = load_control ∷ electrical_connection ∷ [] }
      ∷ record { scenario = 2; server_features = [] }
      ∷ record { scenario = 3; server_features = [] }
      ∷ [];
  event_cb = event_cb;
  available_entity_scenarios = [];
  valid_actor_types = ev ∷ [];
  valid_entity_types = ev_entity ∷ [];
  all_entity_types_valid = false;
}

-- AddFeatures; the function types that it adds are left out.
abbrev pub charging_add_features : (Name → Name → Bool) → Result (Unit {0})
charging_add_features can_add =
    add_feature_after can_add device_diagnosis server_role
      (add_client_features can_add (load_control ∷ electrical_connection ∷ []))

-- The loop over the limit descriptions: each has to name a measurement.
unfoldable pub measurements_of_limits : List LimitDescription → Option (List MeasurementDescription)
measurements_of_limits [] = some []
measurements_of_limits (d ∷ ds) =
    let rest = measurements_of_limits ds in
    elim d.measurement_id [
      | none ↦ none
      | some id ↦ elim rest [
        | none ↦ none
        | some descs ↦ some (measurement_id_filter (some id) ∷ descs)
      ]
    ]

-- CurrentLimits
unfoldable pub current_limits :
    ChargingVariant
    → UseCaseBase
    → (RemoteEntity → Remote)
    → Option RemoteEntity
    → Result CurrentLimits
unfolding measurements_of_limits
current_limits v u remotes entity = with_compatible u remotes entity (λ e r.
    elim r.remote_data.electrical_connection [
      | none ↦ err r.missing_error
      | some ec ↦ elim r.remote_data.load_control [
        | none ↦ err r.missing_error
        | some lc ↦ elim (get_limit_descriptions_for_filter (new_remote lc) (charging_filter v)) [
          | ok [] ↦ err data_not_available
          | ok (d ∷ ds) ↦ elim (measurements_of_limits (d ∷ ds)) [
            | none ↦ err data_not_available
            | some descs ↦ get_phase_current_limits (new_remote ec) descs
          ]
          | err e ↦ err e
          | panic ↦ panic
        ]
      ]
    ])

-- LoadControlLimits
unfoldable pub charging_limits :
    ChargingVariant
    → UseCaseBase
    → (RemoteEntity → Remote)
    → Option RemoteEntity
    → Result (List LoadLimitsPhase)
charging_limits v u remotes entity =
    with_compatible u remotes entity (λ e r. load_control_limits r.remote_data (charging_filter v))

-- WriteLoadControlLimits
unfoldable pub write_charging_limits :
    ChargingVariant
    → (ℤ → ℤ)
    → UseCaseBase
    → (RemoteEntity → Remote)
    → Option RemoteEntity
    → List LoadLimitsPhase
    → Result LimitCommand
write_charging_limits v new_scaled_number u remotes entity limits =
    with_compatible u remotes entity (λ e r.
      write_load_control_phase_limits new_scaled_number r.remote_data (charging_filter v) limits)

-- evConnected of opev
abbrev pub ev_connected : RemoteEntity → Remote → List Call
ev_connected entity r = where_present r.remote_data.load_control (
    subscribe_once (r.client load_control)
    ++ bind_once (r.client load_control)
    ++ request_logged (r.client load_control) load_control_limit_description_list_data none
    ++ request_logged (r.client load_control) load_control_limit_constraints_list_data none)

-- evLoadControlLimitDescriptionDataUpdate of opev
abbrev pub ev_limit_description_data_update : Remote → List Call
ev_limit_description_data_update r =
    where_present r.remote_data.load_control
      (request_logged (r.client load_control) load_control_limit_list_data none)

-- evLoadControlLimitDataUpdate: no unit is asked for.
unfoldable pub ev_limit_data_update :
    ChargingVariant → UseCaseBase → Remote → EventPayload → List (ClientEffect ChargingEvent)
ev_limit_data_update v u r payload = elim r.remote_data.load_control [
  | none ↦ []
  | some lc ↦
      report_if u
        (LoadControl.check_event_payload_data_for_filter (new_remote lc) payload.content
          (record (charging_filter v) { unit = none }))
        charging_limit_updated payload
]

-- The parameter of phase a, and then the first parameter with its id.
unfoldable pub ev_permitted_values_update :
    UseCaseBase → Remote → EventPayload → List (ClientEffect ChargingEvent)
ev_permitted_values_update u r payload = elim r.remote_data.electrical_connection [
  | none ↦ []
  | some ec ↦ elim (get_parameter_descriptions_for_filter (new_remote ec) (phase_filter phase_a)) [
    | ok (p ∷ ps) ↦ elim p.parameter_id [
      | none ↦ []
      | some id ↦
          elim (get_parameter_descriptions_for_filter (new_remote ec)
            (record empty_parameter_description { parameter_id = some id })) [
              | ok (q ∷ qs) ↦
                  report_if u
                    (check_event_payload_data_for_filter (new_remote ec) payload.content
                      (record empty_parameter_description {
                        electrical_connection_id = q.electrical_connection_id;
                        parameter_id = q.parameter_id;
                      }))
                    current_limits_updated payload
              | _ ↦ []
            ]
    ]
    | _ ↦ []
  ]
]

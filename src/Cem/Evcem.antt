-- ===== src/Cem/Evcem.antt =====
-- usecases/cem/evcem: measurement of electricity during the charging of an EV.
use eebus_go.Prelude.{
  ℕ, if◌then◌else◌, ◌&&◌, any, is_some, holds, Bool, false, Option, none, some, List, [], ◌∷◌, ◌++◌,
  map,
}
use eebus_go.Prelude.Int.{ℤ}
use eebus_go.Spine.{
  Name, MeasurementData, ConnectionDescription, PayloadData, connection_descriptions, measurements,
  measurement_description_data, current, power, energy, ac_current, ac_power, charge, measurement,
  electrical_connection, ev, ev_entity, measurement_of_electricity_during_ev_charging,
}
use eebus_go.Errors.{Result, ok, err, data_not_available}
use eebus_go.Features.Filter.{new_remote}
use eebus_go.Features.Measurement.{MeasurementFeature, get_data_for_filter}
use eebus_go.Features.ElectricalConnection.{
  ElectricalConnectionFeature, ElectricalConnectionCommon, empty_connection_description,
  empty_parameter_description, phase_name_mapping, get_descriptions_for_filter,
  get_parameter_descriptions_for_filter,
}
use eebus_go.Features.Requests.{Call}
use eebus_go.UseCase.Remote.{RemoteEntity, EventPayload}
use eebus_go.UseCase.Base.{UseCaseBase}
use eebus_go.UseCase.Features.{add_client_features}
use eebus_go.Internal.Clients.{
  Remote, ClientEffect, call, report, with_compatible, handle_client_event,
}
use eebus_go.Internal.Readers.{
  measured, first_value, connect_measurement, request_measurements, measurement_data_update,
}

-- The events of types.go that the handlers report.
pub data EvcemEvent : Type 0 where
  evcem_phases_connected_updated evcem_current_per_phase_updated : EvcemEvent
  evcem_power_per_phase_updated evcem_energy_charged_updated : EvcemEvent

-- NewEVCEM: `event_cb` says whether a callback is given.
abbrev pub new_evcem : Bool → UseCaseBase
new_evcem event_cb = record {
  use_case_name = measurement_of_electricity_during_ev_charging;
  use_case_scenarios =
      record { scenario = 1; server_features = electrical_connection ∷ measurement ∷ [] }
      ∷ record { scenario = 2; server_features = electrical_connection ∷ measurement ∷ [] }
      ∷ record { scenario = 3; server_features = electrical_connection ∷ measurement ∷ [] }
      ∷ [];
  event_cb = event_cb;
  available_entity_scenarios = [];
  valid_actor_types = ev ∷ [];
  valid_entity_types = ev_entity ∷ [];
  all_entity_types_valid = false;
}

-- AddFeatures
abbrev pub evcem_add_features : (Name → Name → Bool) → Result (Unit {0})
evcem_add_features can_add =
    (add_client_features can_add (electrical_connection ∷ measurement ∷ [])).1

-- The number of phases of the first connection with an id that states it, or 0.
unfoldable pub connected_phases : List ConnectionDescription → ℕ
connected_phases [] = 0
connected_phases (item ∷ items) =
    let rest = connected_phases items in
    elim item.electrical_connection_id [
      | none ↦ rest
      | some id ↦ elim item.ac_connected_phases [ none ↦ rest | some n ↦ n ]
    ]

-- PhasesConnected
unfoldable pub phases_connected :
    UseCaseBase → (RemoteEntity → Remote) → Option RemoteEntity → Result ℕ
unfolding connected_phases
phases_connected u remotes entity = with_compatible u remotes entity (λ e r.
    elim r.remote_data.electrical_connection [
      | none ↦ err data_not_available
      | some ec ↦ elim (get_descriptions_for_filter (new_remote ec) empty_connection_description) [
        | ok (x ∷ xs) ↦ ok (connected_phases (x ∷ xs))
        | _ ↦ err data_not_available
      ]
    ])

-- Whether the first parameter of the measurement of an item has a phase.
unfoldable pub is_of_phase : ElectricalConnectionCommon → Name → MeasurementData → Bool
is_of_phase ec phase item =
    elim (get_parameter_descriptions_for_filter ec
      (record empty_parameter_description { measurement_id = item.measurement_id })) [
        | ok (param ∷ params) ↦ holds param.ac_measured_phases phase
        | _ ↦ false
      ]

-- The inner loop, over the items.
unfoldable pub values_of_phase : ElectricalConnectionCommon → Name → List MeasurementData → List ℤ
unfolding is_of_phase
values_of_phase ec phase [] = []
values_of_phase ec phase (item ∷ items) =
    let rest = values_of_phase ec phase items in
    elim item.value [
      | none ↦ rest
      | some value ↦ if is_of_phase ec phase item then value ∷ rest else rest
    ]

-- The outer loop, over the phases.
unfoldable pub values_by_phase :
    ElectricalConnectionCommon → List Name → List MeasurementData → List ℤ
unfolding values_of_phase
values_by_phase ec [] items = []
values_by_phase ec (phase ∷ phases) items =
    values_of_phase ec phase items ++ values_by_phase ec phases items

-- Where only the electrical connection is missing, the error that is returned is that of the
-- measurement, which is none.
abbrev pub read_per_phase :
    (MeasurementFeature → ElectricalConnectionFeature → Result (List ℤ)) → Remote → Result (List ℤ)
read_per_phase read r = elim r.measurement [
  | none ↦ err r.missing_error
  | some m ↦ elim r.remote_data.electrical_connection [ none ↦ ok [] | some ec ↦ read m ec ]
]

-- CurrentPerPhase
unfoldable pub evcem_current_per_phase :
    UseCaseBase → (RemoteEntity → Remote) → Option RemoteEntity → Result (List ℤ)
unfolding values_by_phase
evcem_current_per_phase u remotes entity = with_compatible u remotes entity (λ e r.
    read_per_phase
      (λ m ec. elim (get_data_for_filter (new_remote m) (measured current ac_current)) [
        | ok (x ∷ xs) ↦ ok (values_by_phase (new_remote ec) phase_name_mapping (x ∷ xs))
        | _ ↦ err data_not_available
      ])
      r)

-- PowerPerPhase: the first item has to have a value.
unfoldable pub evcem_power_per_phase :
    UseCaseBase → (RemoteEntity → Remote) → Option RemoteEntity → Result (List ℤ)
unfolding values_by_phase
evcem_power_per_phase u remotes entity = with_compatible u remotes entity (λ e r.
    read_per_phase
      (λ m ec. elim (get_data_for_filter (new_remote m) (measured power ac_power)) [
        | ok (x ∷ xs) ↦ elim x.value [
          | none ↦ err data_not_available
          | some value ↦ ok (values_by_phase (new_remote ec) phase_name_mapping (x ∷ xs))
        ]
        | _ ↦ err data_not_available
      ])
      r)

-- EnergyCharged
unfoldable pub evcem_energy_charged :
    UseCaseBase → (RemoteEntity → Remote) → Option RemoteEntity → Result ℤ
evcem_energy_charged u remotes entity =
    with_compatible u remotes entity
      (λ e r. first_value false r.missing_error r.measurement (measured energy charge))

abbrev pub states_phases : ConnectionDescription → Bool
states_phases item = is_some item.electrical_connection_id && is_some item.ac_connected_phases

-- evElectricalConnectionDescriptionDataUpdate
unfoldable pub evcem_connection_description_data_update :
    UseCaseBase → EventPayload → List ConnectionDescription → List (ClientEffect EvcemEvent)
evcem_connection_description_data_update u payload items =
    if any states_phases items && u.event_cb
    then report evcem_phases_connected_updated payload ∷ []
    else []

-- evMeasurementDataUpdate
unfoldable pub evcem_measurement_data_update :
    UseCaseBase → Remote → EventPayload → List (ClientEffect EvcemEvent)
evcem_measurement_data_update u r payload = measurement_data_update u r payload (
    (ac_current, evcem_current_per_phase_updated)
    ∷ (ac_power, evcem_power_per_phase_updated)
    ∷ (charge, evcem_energy_charged_updated)
    ∷ [])

-- The switch over the type of the data.
unfoldable pub evcem_handle_data :
    UseCaseBase → Remote → EventPayload → PayloadData → List (ClientEffect EvcemEvent)
unfolding evcem_connection_description_data_update evcem_measurement_data_update
evcem_handle_data u r payload (connection_descriptions items) =
    evcem_connection_description_data_update u payload items
evcem_handle_data u r payload measurement_description_data = map call (request_measurements r)
evcem_handle_data u r payload (measurements _) = evcem_measurement_data_update u r payload
evcem_handle_data u r payload _ = []

-- evConnected
abbrev pub evcem_connected : RemoteEntity → Remote → List Call
evcem_connected entity r = connect_measurement r

-- HandleEvent
unfoldable pub evcem_handle_event :
    UseCaseBase → (RemoteEntity → Remote) → EventPayload → List (ClientEffect EvcemEvent)
unfolding evcem_handle_data
evcem_handle_event u remotes payload =
    handle_client_event u remotes evcem_connected (λ r p. evcem_handle_data u r p p.content) payload

-- ===== src/Cem/Ohpcf.antt =====
-- usecases/cem/ohpcf: the optimization of self consumption by the flexibility of a heat pump
-- compressor. (public.go, usecase.go; features/client and features/internal
-- smartenergymanagementps.go)
pub mod Info
pub mod Commands
pub mod Events
pub mod Reported
pub mod Agreement
pub mod Writing
use eebus_go.Prelude.{ℕ, is_set, Bool, true, false, ◌||◌, Option, none, some, List, [], ◌∷◌}
use eebus_go.Prelude.Int.{ℤ}
use eebus_go.Spine.{
  Name, compressor, compressor_actor, energy_management_ps, optimization_by_heat_pump_compressor,
}
use eebus_go.Spine.{
  SequenceState, inactive, scheduled, running, paused, scheduled_paused, pending, completed,
  invalid, other_state, SlotValueType, slot_power, slot_power_max, other_type, SlotValue, TimeSlot,
  PowerSequence, EnergyData,
}
use eebus_go.Errors.{Error, Result, ok, err, panic, message, data_not_available, not_supported}
use eebus_go.Features.Requests.{ClientFeature}
use eebus_go.UseCase.Remote.{RemoteEntity}
use eebus_go.UseCase.Base.{UseCaseScenario, UseCaseBase}
use eebus_go.UseCase.Features.{add_client_features}
use eebus_go.Internal.Clients.{with_compatible}

-- The client of a remote entity is there if `client.NewSmartEnergyManagementPs` succeeds; it has
-- the copy of the data, if there is one.
pub record EnergyClient : Type 0 where
  pub copy : Option EnergyData
  pub feature : ClientFeature

-- `missing_error` is the error where the client is not there.
pub record RemoteCompressor : Type 0 where
  pub client : Option EnergyClient
  pub missing_error : Error

-- ucapi.CompressorPowerConsumptionStateType
pub data ProcessState : Type 0 where
  process_available process_scheduled process_running process_paused process_completed
        process_stopped :
      ProcessState

-- NewOHPCF: `event_cb` says whether a callback is given.
abbrev pub new_ohpcf : Bool → UseCaseBase
new_ohpcf event_cb = record {
  use_case_name = optimization_by_heat_pump_compressor;
  use_case_scenarios =
      record { scenario = 1; server_features = [] }
      ∷ record { scenario = 2; server_features = [] }
      ∷ [];
  event_cb = event_cb;
  available_entity_scenarios = [];
  valid_actor_types = compressor_actor ∷ [];
  valid_entity_types = compressor ∷ [];
  all_entity_types_valid = false;
}

-- AddFeatures
abbrev pub ohpcf_add_features : (Name → Name → Bool) → Result (Unit {0})
ohpcf_add_features can_add = (add_client_features can_add (energy_management_ps ∷ [])).1

-- GetData of SmartEnergyManagementPsCommon
abbrev pub get_energy_data : EnergyClient → Result EnergyData
get_energy_data c = elim c.copy [ none ↦ err data_not_available | some d ↦ ok d ]

-- checkEntityTypeAndGetData
unfoldable pub check_entity_type_and_get_data :
    UseCaseBase → (RemoteEntity → RemoteCompressor) → Option RemoteEntity → Result EnergyData
check_entity_type_and_get_data u remotes entity =
    with_compatible u remotes entity
      (λ e r. elim r.client [ none ↦ err r.missing_error | some c ↦ get_energy_data c ])

-- isDataAvailable, with the sequence that is read if it holds: `Alternatives[0].PowerSequence[0]`
abbrev pub the_sequence : EnergyData → Option PowerSequence
the_sequence d = go d.alternatives
  where
    go : List (List PowerSequence) → Option PowerSequence
    go ((s ∷ []) ∷ []) = some s
    go _ = none

-- What the readers share: the data of a compatible entity, a result where no sequence is available,
-- and what is read of the sequence.
abbrev pub of_sequence :
    {A : Type 0} → Result EnergyData → Result A → (PowerSequence → Result A) → Result A
of_sequence (err e) missing read = err e
of_sequence panic missing read = panic
of_sequence (ok d) missing read = elim (the_sequence d) [ none ↦ missing | some s ↦ read s ]

-- A field that may not be there.
abbrev pub present : {A : Type 0} → Option A → Result A
present none = err data_not_available
present (some a) = ok a

-- A time or a duration that may not be there, or not parse.
abbrev pub parsed : Option (Option ℤ) → Result ℤ
parsed none = err data_not_available
parsed (some none) = err (message "the time does not parse")
parsed (some (some t)) = ok t

abbrev pub is_startable : SequenceState → Bool
is_startable inactive = true
is_startable scheduled = true
is_startable _ = false

-- the switch of PowerConsumptionProcessState
abbrev pub process_state_of : SequenceState → Result ProcessState
process_state_of inactive = ok process_available
process_state_of scheduled = ok process_scheduled
process_state_of running = ok process_running
process_state_of paused = ok process_paused
process_state_of scheduled_paused = ok process_paused
process_state_of completed = ok process_completed
process_state_of invalid = ok process_stopped
process_state_of _ = err not_supported

abbrev pub same_type : SlotValueType → SlotValueType → Bool
same_type slot_power slot_power = true
same_type slot_power_max slot_power_max = true
same_type _ _ = false

-- the loop of powerOfType, for the two types that it is called with
unfoldable pub power_in : SlotValueType → List SlotValue → Result ℤ
power_in type [] = err data_not_available
power_in type (x ∷ xs) = elim x.value [
  | none ↦ power_in type xs
  | some v ↦ elim x.value_type [
    | none ↦ power_in type xs
    | some t ↦ elim (same_type t type) [ true ↦ ok v | false ↦ power_in type xs ]
  ]
]

-- the time slots of powerOfType: one slot, with a list of values
abbrev pub slot_values : List TimeSlot → List SlotValue
slot_values (slot ∷ []) = elim slot.value_list [ none ↦ [] | some values ↦ values ]
slot_values _ = []

module _ (u : UseCaseBase) (remotes : RemoteEntity → RemoteCompressor)
    (entity : Option RemoteEntity) where
  -- OptionalPowerConsumptionAvailable
  unfoldable pub optional_power_consumption_available : Result Bool
  optional_power_consumption_available =
      of_sequence (check_entity_type_and_get_data u remotes entity) (ok false)
        (λ s. elim s.state [ none ↦ ok false | some state ↦ ok (is_startable state) ])

  -- powerOfType
  unfoldable pub power_of_type : SlotValueType → Result ℤ
  power_of_type type =
      of_sequence (check_entity_type_and_get_data u remotes entity) (err data_not_available)
        (λ s. power_in type (slot_values s.slots))

  -- RequestedPowerEstimate
  unfoldable pub requested_power_estimate : Result ℤ
  unfolding power_of_type
  requested_power_estimate = power_of_type slot_power

  -- RequestedPowerMax
  unfoldable pub requested_power_max : Result ℤ
  unfolding power_of_type
  requested_power_max = power_of_type slot_power_max

  -- ConsumptionIsStoppable
  unfoldable pub consumption_is_stoppable : Result Bool
  consumption_is_stoppable =
      of_sequence (check_entity_type_and_get_data u remotes entity) (err data_not_available)
        (λ s. elim s.interrupt [ none ↦ err data_not_available | some i ↦ present i.is_stoppable ])

  -- ConsumptionIsPausable
  unfoldable pub consumption_is_pausable : Result Bool
  consumption_is_pausable =
      of_sequence (check_entity_type_and_get_data u remotes entity) (err data_not_available)
        (λ s. elim s.interrupt [ none ↦ err data_not_available | some i ↦ present i.is_pausable ])

  -- PowerConsumptionProcessStartTime
  unfoldable pub power_consumption_process_start_time : Result ℤ
  power_consumption_process_start_time =
      of_sequence (check_entity_type_and_get_data u remotes entity) (err data_not_available)
        (λ s. parsed s.start_time)

  -- PowerConsumptionProcessState
  unfoldable pub power_consumption_process_state : Result ProcessState
  power_consumption_process_state =
      of_sequence (check_entity_type_and_get_data u remotes entity) (ok process_stopped)
        (λ s. elim s.state [ none ↦ err data_not_available | some state ↦ process_state_of state ])

  -- PowerConsumptionMinimalRunDuration
  unfoldable pub power_consumption_minimal_run_duration : Result ℤ
  power_consumption_minimal_run_duration =
      of_sequence (check_entity_type_and_get_data u remotes entity) (err data_not_available)
        (λ s. parsed s.active_duration_min)

  -- PowerConsumptionMinimalPauseDuration
  unfoldable pub power_consumption_minimal_pause_duration : Result ℤ
  power_consumption_minimal_pause_duration =
      of_sequence (check_entity_type_and_get_data u remotes entity) (err data_not_available)
        (λ s. parsed s.pause_duration_min)

-- ===== src/Cem/Ohpcf/Commands.antt =====
-- The writes of usecases/cem/ohpcf/public.go.
use eebus_go.Prelude.{Option, none, some, [], ◌∷◌}
use eebus_go.Prelude.Int.{ℤ}
use eebus_go.Spine.{
  SequenceState, running, paused, invalid, PowerSequence, EnergyData, empty_sequence,
}
use eebus_go.Errors.{Result, ok, err, ◌>>=◌}
use eebus_go.UseCase.Remote.{RemoteEntity}
use eebus_go.UseCase.Base.{UseCaseBase}
use eebus_go.Internal.Clients.{with_compatible}
use eebus_go.Cem.Ohpcf.{RemoteCompressor}
use eebus_go.Cem.Ohpcf.Info.{Info, optional_power_consumption}

-- What WriteData of SmartEnergyManagementPs hands to the sender: data under a partial filter.
pub data EnergyCommand : Type 0 where
  partial_write : EnergyData → EnergyCommand

-- One alternative with one sequence.
abbrev pub data_of : PowerSequence → EnergyData
data_of s = record { alternatives = (s ∷ []) ∷ [] }

-- writeSmartEnergyManagementData; the callback for the response is left out.
unfoldable pub write_energy_management_data :
    UseCaseBase
    → (RemoteEntity → RemoteCompressor)
    → Option RemoteEntity
    → EnergyData
    → Result EnergyCommand
write_energy_management_data u remotes entity d =
    with_compatible u remotes entity
      (λ e r. elim r.client [ none ↦ err r.missing_error | some c ↦ ok (partial_write d) ])

-- The part that the writes share: the info is read, and a sequence with its id is written.
unfoldable pub write_for_sequence :
    (Info → PowerSequence)
    → Result ℤ
    → UseCaseBase
    → (RemoteEntity → RemoteCompressor)
    → Option RemoteEntity
    → Result EnergyCommand
unfolding optional_power_consumption write_energy_management_data
write_for_sequence sequence of_nil u remotes entity =
    optional_power_consumption of_nil u remotes entity
    >>= (λ info. write_energy_management_data u remotes entity (data_of (sequence info)))

-- A sequence with a relative start time: NewAbsoluteOrRelativeTimeTypeFromDuration is spine-go's, with
-- what the remote then reads of it as `relative`.
abbrev pub scheduled_sequence : (ℤ → Option ℤ) → ℤ → Info → PowerSequence
scheduled_sequence relative start_in info = record empty_sequence {
  sequence_id = some info.power_sequence_id;
  start_time = some (relative start_in);
}

abbrev pub sequence_in_state : SequenceState → Info → PowerSequence
sequence_in_state state info = record empty_sequence {
  sequence_id = some info.power_sequence_id;
  state = some state;
}

module _ (of_nil : Result ℤ) (u : UseCaseBase) (remotes : RemoteEntity → RemoteCompressor)
    (entity : Option RemoteEntity) where
  -- SchedulePowerConsumptionProcess
  unfoldable pub schedule_power_consumption_process : (ℤ → Option ℤ) → ℤ → Result EnergyCommand
  unfolding write_for_sequence
  schedule_power_consumption_process relative start_in =
      write_for_sequence (scheduled_sequence relative start_in) of_nil u remotes entity

  -- AbortPowerConsumptionProcess
  unfoldable pub abort_power_consumption_process : Result EnergyCommand
  unfolding write_for_sequence
  abort_power_consumption_process =
      write_for_sequence (sequence_in_state invalid) of_nil u remotes entity

  -- PausePowerConsumptionProcess
  unfoldable pub pause_power_consumption_process : Result EnergyCommand
  unfolding write_for_sequence
  pause_power_consumption_process =
      write_for_sequence (sequence_in_state paused) of_nil u remotes entity

  -- ResumePowerConsumptionProcess
  unfoldable pub resume_power_consumption_process : Result EnergyCommand
  unfolding write_for_sequence
  resume_power_consumption_process =
      write_for_sequence (sequence_in_state running) of_nil u remotes entity

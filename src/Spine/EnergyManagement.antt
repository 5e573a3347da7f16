-- ===== src/Spine/EnergyManagement.antt =====
-- model.SmartEnergyManagementPsDataType, as far as the optimization by a heat pump compressor reads
-- and writes it. A time or a duration stands with the result of `GetTime` or `GetTimeDuration`,
-- in nanoseconds, `none` where it does not parse.
use eebus_go.Prelude.{ℕ, Bool, Option, none, List, []}
use eebus_go.Prelude.Int.{ℤ}

-- model.PowerSequenceStateType
pub data SequenceState : Type 0 where
  inactive scheduled running paused scheduled_paused pending completed invalid : SequenceState
  other_state : ℕ → SequenceState

-- model.PowerTimeSlotValueTypeType
pub data SlotValueType : Type 0 where
  slot_power slot_power_max : SlotValueType
  other_type : ℕ → SlotValueType

-- an item of `ValueList.Value`, with `Value.GetValue()`
pub record SlotValue : Type 0 where
  pub value_type : Option SlotValueType
  pub value : Option ℤ

-- an item of `PowerTimeSlot`; a `ValueList` without a `Value` is an empty list
pub record TimeSlot : Type 0 where
  pub value_list : Option (List SlotValue)

-- `OperatingConstraintsInterrupt`
pub record Interrupt : Type 0 where
  pub is_pausable : Option Bool
  pub is_stoppable : Option Bool

-- an item of `PowerSequence`: `Description.SequenceId`, `State.State`, `Schedule.StartTime`, and
-- `ActiveDurationMin` and `PauseDurationMin` of `OperatingConstraintsDuration`, where what is
-- around them is there
pub record PowerSequence : Type 0 where
  pub sequence_id : Option ℕ
  pub state : Option SequenceState
  pub start_time : Option (Option ℤ)
  pub interrupt : Option Interrupt
  pub active_duration_min : Option (Option ℤ)
  pub pause_duration_min : Option (Option ℤ)
  pub slots : List TimeSlot

-- `Alternatives`, each with its `PowerSequence`
pub record EnergyData : Type 0 where
  pub alternatives : List (List PowerSequence)

-- a sequence of which nothing is set
abbrev pub empty_sequence : PowerSequence
empty_sequence = record {
  sequence_id = none;
  state = none;
  start_time = none;
  interrupt = none;
  active_duration_min = none;
  pause_duration_min = none;
  slots = [];
}

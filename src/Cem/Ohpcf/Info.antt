-- ===== src/Cem/Ohpcf/Info.antt =====
-- OptionalPowerConsumption of usecases/cem/ohpcf/public.go.
use eebus_go.Prelude.{ℕ, is_set, Bool, Option, none, some, List, [], ◌∷◌, String}
use eebus_go.Prelude.Int.{ℤ}
use eebus_go.Spine.{
  SequenceState, slot_power, slot_power_max, other_type, SlotValue, Interrupt, TimeSlot,
  PowerSequence,
}
use eebus_go.Errors.{Result, ok, err, panic, message, data_not_available, ◌>>=◌}
use eebus_go.UseCase.Remote.{RemoteEntity}
use eebus_go.UseCase.Base.{UseCaseBase}
use eebus_go.Cem.Ohpcf

-- ucapi.OptionalPowerConsumptionInfo
pub record Info : Type 0 where
  pub power_sequence_id : ℕ
  pub power : Option ℤ
  pub max_power : Option ℤ
  pub state : SequenceState
  pub is_pausable : Bool
  pub is_stoppable : Bool
  pub start_time : Option ℤ

abbrev no_values : String
no_values =
    "alternative and power sequence attributes present but no time slot defined or no values set for time slot"

-- An error; its text stands in parentheses after the text of remoteDataStructureError.
abbrev pub invalid_structure : String → Result Info
invalid_structure text = err (message text)

-- `value.Value.GetValue()`; what it comes to where `Value` is nil is `of_nil`.
abbrev pub value_or : Result ℤ → Option ℤ → Result ℤ
value_or of_nil none = of_nil
value_or of_nil (some v) = ok v

-- The loop over the values of the slot, which keeps the last power and the last maximum.
unfoldable pub read_powers :
    Result ℤ → List SlotValue → Option ℤ → Option ℤ → Result (Option ℤ × Option ℤ)
read_powers of_nil [] power max_power = ok (power, max_power)
read_powers of_nil (x ∷ xs) power max_power = elim x.value_type [
  | none ↦ read_powers of_nil xs power max_power
  | some type ↦ elim type [
    | slot_power ↦ elim (value_or of_nil x.value) [
      | ok v ↦ read_powers of_nil xs (some v) max_power
      | err e ↦ err e
      | panic ↦ panic
    ]
    | slot_power_max ↦ elim (value_or of_nil x.value) [
      | ok v ↦ read_powers of_nil xs power (some v)
      | err e ↦ err e
      | panic ↦ panic
    ]
    | other_type n ↦ read_powers of_nil xs power max_power
  ]
]

-- A start time that does not parse is logged and left out.
abbrev pub parsed_start_time : Option (Option ℤ) → Option ℤ
parsed_start_time none = none
parsed_start_time (some time) = time

-- What is read of the slots of a sequence, after the tests of its other fields.
unfoldable pub info_of_slots :
    Result ℤ → PowerSequence → ℕ → SequenceState → Interrupt → Result Info
unfolding read_powers
info_of_slots of_nil s id state interrupt = go s.slots
  where
    build : Option ℤ × Option ℤ → Result Info
    build (none, none) =
        invalid_structure "no power value with correct type (power or powerMax) is set"
    build (power, max_power) = ok (record {
      power_sequence_id = id;
      power = power;
      max_power = max_power;
      state = state;
      is_pausable = is_set interrupt.is_pausable;
      is_stoppable = is_set interrupt.is_stoppable;
      start_time = parsed_start_time s.start_time;
    })

    go : List TimeSlot → Result Info
    go [] = invalid_structure no_values
    go (slot ∷ slots) = elim slot.value_list [
      | none ↦ invalid_structure no_values
      | some [] ↦ invalid_structure no_values
      | some (x ∷ xs) ↦ read_powers of_nil (x ∷ xs) none none >>= build
    ]

-- The tests of the fields of the sequence, in their order.
unfoldable pub info_of_sequence : Result ℤ → PowerSequence → Result Info
unfolding info_of_slots
info_of_sequence of_nil s = elim s.sequence_id [
  | none ↦ invalid_structure "alternative attribute present but no power sequenceId defined"
  | some id ↦ elim s.state [
    | none ↦ invalid_structure "alternative attribute present but no power sequence state defined"
    | some state ↦ elim s.interrupt [
      | none ↦
          invalid_structure
            "alternative attribute present but no power sequence operating interrupt constraints defined"
      | some interrupt ↦ info_of_slots of_nil s id state interrupt
    ]
  ]
]

-- OptionalPowerConsumption; its tests for an empty list of alternatives or of sequences come after
-- isDataAvailable, which has excluded both.
unfoldable pub optional_power_consumption :
    Result ℤ
    → UseCaseBase
    → (RemoteEntity → Ohpcf.RemoteCompressor)
    → Option RemoteEntity
    → Result Info
unfolding info_of_sequence
optional_power_consumption of_nil u remotes entity =
    Ohpcf.of_sequence (Ohpcf.check_entity_type_and_get_data u remotes entity)
      (err data_not_available) (info_of_sequence of_nil)

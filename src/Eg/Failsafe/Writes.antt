-- ===== src/Eg/Failsafe/Writes.antt =====
-- Which failsafe durations the energy guard writes.
use eebus_go.Prelude.{
  ◌*◌, Bool-cases, Option, ◌≡◌, ◌↔◌, inl, inr, true, false, some, none, [], ◌∷◌, arith,
}
use eebus_go.Prelude.Int.{ℤ, pos, ◌≤ℤ◌}
use eebus_go.Spine.{KeyValueData, failsafe_duration_minimum}
use eebus_go.Errors.{Result, ok, Result-cases}
use eebus_go.Features.Filter.{new_remote}
use eebus_go.Features.DeviceConfiguration.{
  DeviceConfigurationFeature, key_filter, get_key_value_data_for_filter,
}
use eebus_go.Features.Client.{KeyValueCommand, write_key_values}
use eebus_go.UseCase.Remote.{RemoteEntity}
use eebus_go.UseCase.Base.{UseCaseBase, is_compatible_entity_type}
use eebus_go.Cs.Failsafe.{hour}
use eebus_go.Internal.Clients.{Remote}
use eebus_go.Eg.Failsafe.{
  is_outside, send_failsafe_duration, write_remote_failsafe_duration_minimum,
}

abbrev IsAllowed : ℤ → Type 0
IsAllowed duration = (pos (2 * hour) ≤ℤ duration) × (duration ≤ℤ pos (24 * hour))

inside_range : (duration : ℤ) → is_outside duration ≡ false → IsAllowed duration
inside_range duration h = ground arith

outside_range : (duration : ℤ) → IsAllowed duration → is_outside duration ≡ false
outside_range duration h = ground arith

-- What is written for the key that an item carries.
abbrev duration_command : (ℤ → Option ℤ) → KeyValueData → ℤ → KeyValueCommand
duration_command new_duration item duration = record {
  values =
      record {
        key_id = item.key_id;
        value = some (record {
          boolean = none;
          string = none;
          scaled_number = none;
          duration = some (new_duration duration);
        });
        is_value_changeable = none;
      }
      ∷ [];
  partial = true;
}

module _ (new_duration : ℤ → Option ℤ) (u : UseCaseBase) (remotes : RemoteEntity → Remote)
    (e : RemoteEntity) (dc : DeviceConfigurationFeature) (duration : ℤ) (command : KeyValueCommand)
    (compatible : is_compatible_entity_type u (some e) ≡ true)
    (has_feature : (remotes e).device_configuration ≡ some dc)
    (partial : (remotes e).key_values.write_partial ≡ true) where
  write : Result KeyValueCommand
  write = write_remote_failsafe_duration_minimum new_duration u remotes (some e) duration

  IsSent : Type 0
  IsSent =
      (pos (2 * hour) ≤ℤ duration)
      × (duration ≤ℤ pos (24 * hour))
      × ((item : KeyValueData) × (get_key_value_data_for_filter (new_remote dc)
              (key_filter none (some failsafe_duration_minimum))
            ≡ ok item)
          × (command ≡ duration_command new_duration item duration))

  sent_duration : write ≡ ok command → IsSent
  unfolding write IsSent write_remote_failsafe_duration_minimum send_failsafe_duration
      write_key_values
  sent_duration sent = elim (Bool-cases (is_outside duration)) [
    | inl n ↦ absurd (ground (arith, compatible, n, sent))
    | inr inside ↦
        elim (Result-cases (
          get_key_value_data_for_filter (new_remote dc)
            (key_filter none (some failsafe_duration_minimum)))) [
              | inr n ↦ absurd (ground (arith, compatible, inside, has_feature, n, sent))
              | inl (item, known) ↦ (
                (inside_range duration inside).0,
                (inside_range duration inside).1,
                (
                  item,
                  known,
                  ground (arith, compatible, inside, has_feature, known, partial, sent),
                ),
              )
            ]
  ]

  received_duration : IsSent → write ≡ ok command
  unfolding write IsSent write_remote_failsafe_duration_minimum send_failsafe_duration
      write_key_values
  received_duration (lo, hi, (item, known, is)) =
      let inside = outside_range duration (lo, hi) in
      ground (arith, compatible, inside, has_feature, known, partial, is)

  -- To a compatible entity that supports partial writes, a minimum failsafe duration is sent exactly
  -- if it lies between two hours and a day and the current value of the key is known, and the command
  -- then sets the duration under the key that this value carries, and nothing else.
  pub write_remote_failsafe_duration_minimum_iff :
      (write_remote_failsafe_duration_minimum new_duration u remotes (some e) duration ≡ ok command)
      ↔ ((pos (2 * hour) ≤ℤ duration)
          × (duration ≤ℤ pos (24 * hour))
          × ((item : KeyValueData) × (get_key_value_data_for_filter
                  (new_remote dc)
                  (key_filter none (some failsafe_duration_minimum))
                ≡ ok item)
              × (command ≡ duration_command new_duration item duration)))
  unfolding write IsSent
  write_remote_failsafe_duration_minimum_iff = (sent_duration, received_duration)

-- ===== src/Examples/Compressor.antt =====
-- A heat pump compressor that offers one optional power consumption.
use eebus_go.Prelude.{All, ◌≡◌, ◌↔◌, refl, true, false, some, none, [], ◌∷◌, ◌||◌, is_some}
use eebus_go.Prelude.Int.{ℤ, pos}
use eebus_go.Spine.{
  compressor, energy_management_ps, scheduled, running, paused, invalid, slot_power, slot_power_max,
  PowerSequence, EnergyData, energy_management_data, energy_management_ps_data,
}
use eebus_go.Errors.{Result, ok, panic, data_not_available}
use eebus_go.UseCase.Remote.{RemoteEntity, EventPayload, data_change, update}
use eebus_go.UseCase.Base.{is_compatible_entity_type}
use eebus_go.Cem.Ohpcf.{
  EnergyClient, RemoteCompressor, new_ohpcf, check_entity_type_and_get_data, process_state_of,
  is_startable, optional_power_consumption_available, consumption_is_stoppable,
  consumption_is_pausable, power_consumption_process_start_time, power_consumption_process_state,
}
use eebus_go.Cem.Ohpcf.Info.{
  Info, read_powers, info_of_slots, info_of_sequence, optional_power_consumption,
}
use eebus_go.Cem.Ohpcf.Commands.{
  EnergyCommand, schedule_power_consumption_process, abort_power_consumption_process,
  pause_power_consumption_process, resume_power_consumption_process,
}
use eebus_go.Cem.Ohpcf.Events.{ohpcf_handle_event}
use eebus_go.Cem.Ohpcf.Reported.{IsReadable, ohpcf_reports-IsReadable}
use eebus_go.Cem.Ohpcf.Agreement.{optional_power_consumption_agrees}
use eebus_go.Cem.Ohpcf.Writing.{Follows, ohpcf_writes_follow}
use eebus_go.Examples.GuardData.{heat_pump}

abbrev heat_pump_compressor : RemoteEntity
heat_pump_compressor = record heat_pump { entity_type = compressor }

abbrev offered : EnergyData
offered = record {
  alternatives =
      (record {
        sequence_id = some 4;
        state = some scheduled;
        start_time = some (some (pos 600));
        interrupt = some (record { is_pausable = some true; is_stoppable = none });
        active_duration_min = some (some (pos 900));
        pause_duration_min = some none;
        slots =
            record {
              value_list = some (
                  record { value_type = some slot_power; value = some (pos 1500) }
                  ∷ record { value_type = some slot_power_max; value = some (pos 2000) }
                  ∷ []);
            }
            ∷ [];
      }
        ∷ [])
      ∷ [];
}

abbrev energy_client : EnergyClient
energy_client = record {
  copy = some offered;
  feature = record {
    feature_type = energy_management_ps;
    operations = λ function. none;
    has_subscription = true;
    has_binding = true;
  };
}

abbrev compressors : RemoteEntity → RemoteCompressor
compressors e = record { client = some energy_client; missing_error = data_not_available }

abbrev pub offer : EventPayload
offer = record {
  ski = 1;
  event_type = data_change;
  change_type = update;
  device = none;
  entity = some heat_pump_compressor;
  content = energy_management_data offered;
  local_feature = none;
  function = energy_management_ps_data;
  cmd_classifier = none;
}

compressor_compatible :
    is_compatible_entity_type (new_ohpcf true) (some heat_pump_compressor) ≡ true
unfolding is_compatible_entity_type
compressor_compatible = refl

ohpcf_reports-IsReadable_example :
    All
      (IsReadable (new_ohpcf true) compressors heat_pump_compressor)
      (ohpcf_handle_event (new_ohpcf true) compressors offer)
ohpcf_reports-IsReadable_example =
    ohpcf_reports-IsReadable (new_ohpcf true) compressors heat_pump_compressor offer offered
      energy_client refl refl compressor_compatible refl refl

abbrev offered_info : Info
offered_info = record {
  power_sequence_id = 4;
  power = some (pos 1500);
  max_power = some (pos 2000);
  state = scheduled;
  is_pausable = true;
  is_stoppable = false;
  start_time = some (pos 600);
}

info_read :
    optional_power_consumption panic (new_ohpcf true) compressors (some heat_pump_compressor)
    ≡ ok offered_info
unfolding optional_power_consumption check_entity_type_and_get_data is_compatible_entity_type
    info_of_sequence info_of_slots read_powers
info_read = refl

optional_power_consumption_agrees_example :
    (power_consumption_process_state (new_ohpcf true) compressors (some heat_pump_compressor)
      ≡ process_state_of scheduled)
    × (optional_power_consumption_available (new_ohpcf true) compressors (some heat_pump_compressor)
        ≡ ok (is_startable scheduled))
    × ((true ≡ true) ↔ (
        consumption_is_pausable (new_ohpcf true) compressors (some heat_pump_compressor) ≡ ok true))
    × ((false ≡ true) ↔ (
        consumption_is_stoppable (new_ohpcf true) compressors (some heat_pump_compressor)
        ≡ ok true))
    × ((t : ℤ)
        → (some (pos 600) ≡ some t) ↔ (
            power_consumption_process_start_time
              (new_ohpcf true)
              compressors
              (some heat_pump_compressor)
            ≡ ok t))
    × ((is_some (some (pos 1500)) || is_some (some (pos 2000))) ≡ true)
optional_power_consumption_agrees_example =
    optional_power_consumption_agrees panic (new_ohpcf true) compressors (some heat_pump_compressor)
      offered_info info_read

abbrev IsFollowing : Result EnergyCommand → (PowerSequence → PowerSequence) → Type 0
IsFollowing =
    Follows panic (new_ohpcf true) compressors (some heat_pump_compressor)
      (optional_power_consumption panic (new_ohpcf true) compressors (some heat_pump_compressor))

ohpcf_writes_follow_example :
    IsFollowing
      (schedule_power_consumption_process panic
        (new_ohpcf true)
        compressors
        (some heat_pump_compressor)
        (λ t. some t)
        (pos 60))
      (λ s. record s { start_time = some (some (pos 60)) })
    × IsFollowing
        (abort_power_consumption_process panic
          (new_ohpcf true)
          compressors
          (some heat_pump_compressor))
        (λ s. record s { state = some invalid })
    × IsFollowing
        (pause_power_consumption_process panic
          (new_ohpcf true)
          compressors
          (some heat_pump_compressor))
        (λ s. record s { state = some paused })
    × IsFollowing
        (resume_power_consumption_process panic
          (new_ohpcf true)
          compressors
          (some heat_pump_compressor))
        (λ s. record s { state = some running })
ohpcf_writes_follow_example =
    ohpcf_writes_follow panic (new_ohpcf true) compressors (some heat_pump_compressor) (λ t. some t)
      (pos 60)

-- ===== src/Cs/AddFeatures.antt =====
-- AddFeatures of usecases/cs/lpc and lpp, usecase.go. The DeviceDiagnosis features and the function
-- types that it adds are left out: no other operation of the use case reads them.
pub mod Refused
pub mod Limit
use eebus_go.Prelude.{
  ℕ, String, if◌then◌else◌, is_empty, Bool, true, false, Option, none, some, List, [], ◌∷◌,
}
use eebus_go.Prelude.Int.{ℤ, pos}
use eebus_go.Spine.{
  Name, LimitDescription, LimitData, KeyValueDescription, KeyValueData, Characteristic, watt,
  failsafe_duration_minimum, scaled_number_type, duration_type,
}
use eebus_go.Errors.{Result, ok, err, panic, message}
use eebus_go.Features.Filter.{failed, new_local}
use eebus_go.Features.LoadControl.{LoadControlFeature}
use eebus_go.Features.DeviceConfiguration.{
  DeviceConfigurationFeature, key_filter, get_key_value_descriptions_for_filter,
}
use eebus_go.Features.ElectricalConnection.{ElectricalConnectionFeature}
use eebus_go.Features.Server.{UpdateData}
use eebus_go.Features.Server.LoadControl.{add_limit_description, update_limit_data_for_ids}
use eebus_go.Features.Server.DeviceConfiguration.{
  add_key_value_description, update_key_value_data_for_filter,
}
use eebus_go.Internal.LocalEntity.{LocalEntity}
use eebus_go.Internal.Measurement.{get_power_total_measurement_id}
use eebus_go.Cs.State.{Variant}
use eebus_go.Cs.Limit.{limit_filter}
use eebus_go.Cs.NominalMax.{add_nominal_max}

-- What spine-go does: `UpdateData` of each data set, whether `GetOrAddFeature` can add a load control
-- feature, the error of `AddWriteApprovalCallback` of this feature, if it has one, and how a zero is
-- kept.
pub record SpineLocal : Type 0 where
  pub limit_descriptions : UpdateData LimitDescription
  pub limits : UpdateData LimitData
  pub key_descriptions : UpdateData KeyValueDescription
  pub key_values : UpdateData KeyValueData
  pub characteristics : UpdateData Characteristic
  pub can_add_load_control : Bool
  pub callback_refused : Option String
  pub new_scaled_number : ℤ → ℤ
  pub new_duration : ℤ → Option ℤ

-- `GetOrAddFeature`: a feature that is added has no data yet, so that a read of them fails.
abbrev pub or_new : {S : Type 0} → Option S → S → S
or_new none new = new
or_new (some feature) new = feature

-- The same, where it may return nil.
abbrev pub get_or_add : {S : Type 0} → Bool → Option S → S → Option S
get_or_add can_add (some feature) new = some feature
get_or_add can_add none new = if can_add then some new else none

abbrev pub new_load_control : LoadControlFeature
new_load_control = record { limit_descriptions = failed; limits = failed }

abbrev pub new_device_configuration : DeviceConfigurationFeature
new_device_configuration = record { descriptions = failed; values = failed }

abbrev pub new_electrical_connection : ElectricalConnectionFeature
new_electrical_connection = record {
  descriptions = failed;
  parameters = failed;
  permitted_values = failed;
  characteristics = failed;
}

-- A step that may end the operation with its error, and what follows it.
infixl 5 ◌and_then◌
abbrev pub ◌and_then◌ :
    {A B : Type 0}
    → LocalEntity × Result A
    → (LocalEntity → A → LocalEntity × Result B)
    → LocalEntity × Result B
(entity, ok a) and_then next = next entity a
(entity, err e) and_then next = (entity, err e)
(entity, panic) and_then next = (entity, panic)

-- The description of the limit, and the limit 0, which is not active. `*limitId` is read whatever
-- AddLimitDescription returned.
unfoldable pub add_limit : Variant → SpineLocal → LocalEntity → LocalEntity × Result (Unit {0})
add_limit v spine entity =
    elim (get_or_add spine.can_add_load_control entity.load_control new_load_control) [
      | none ↦ (entity, err (message "feature not found: LoadControl"))
      | some lc ↦ elim spine.callback_refused [
        | some text ↦ (record entity { load_control = some lc }, err (message text))
        | none ↦
            let (lc', limit_id) =
              add_limit_description spine.limit_descriptions lc (record (limit_filter v) {
                measurement_id = some (get_power_total_measurement_id entity);
                unit = some watt;
              }) in
            elim limit_id [
              | none ↦ (record entity { load_control = some lc' }, panic)
              | some id ↦
                  let (lc'', result) = update_limit_data_for_ids spine.limits lc' (
                    (
                      record {
                        limit_id = none;
                        is_limit_changeable = some true;
                        is_limit_active = some false;
                        time_period = none;
                        value = some (spine.new_scaled_number (pos 0));
                      },
                      id,
                    )
                    ∷ []) in
                  (record entity { load_control = some lc'' }, result)
            ]
      ]
    ]

-- AddKeyValueDescription, whose result is not read.
abbrev pub add_key :
    SpineLocal → LocalEntity → KeyValueDescription → LocalEntity × Result (Unit {0})
add_key spine entity description =
    let f = or_new entity.device_configuration new_device_configuration in
    let (f', result) = add_key_value_description spine.key_descriptions f description in
    (
      record entity { device_configuration = some f' },
      elim result [ ok id ↦ ok tt | err e ↦ err e | panic ↦ panic ],
    )

abbrev pub set_key :
    SpineLocal → LocalEntity → KeyValueData → Name → LocalEntity × Result (Unit {0})
set_key spine entity datum name =
    let f = or_new entity.device_configuration new_device_configuration in
    let (f', result) =
      update_key_value_data_for_filter spine.key_values f datum none
        (key_filter none (some name)) in
    (record entity { device_configuration = some f' }, result)

-- Whether the minimum duration has no description yet.
abbrev pub lacks_duration : LocalEntity → Bool
lacks_duration entity =
    elim (get_key_value_descriptions_for_filter
      (new_local (or_new entity.device_configuration new_device_configuration))
      (key_filter none (some failsafe_duration_minimum))) [
        | ok descriptions ↦ is_empty descriptions
        | _ ↦ false
      ]

-- The two failsafe values, with their descriptions.
unfoldable pub add_failsafe : Variant → SpineLocal → LocalEntity → LocalEntity × Result (Unit {0})
add_failsafe v spine entity =
    add_key spine entity (record {
      key_id = none;
      key_name = some v.failsafe_key;
      value_type = some scaled_number_type;
      unit = some watt;
    })
    and_then λ e1 _.
        (if lacks_duration e1
          then add_key spine e1 (record {
            key_id = none;
            key_name = some failsafe_duration_minimum;
            value_type = some duration_type;
            unit = none;
          })
          else (e1, ok tt))
        and_then λ e2 _.
            set_key spine e2
              (record {
                key_id = none;
                value = some (record {
                  boolean = none;
                  string = none;
                  scaled_number = some (spine.new_scaled_number (pos 0));
                  duration = none;
                });
                is_value_changeable = some true;
              })
              v.failsafe_key
            and_then λ e3 _.
                set_key spine e3
                  (record {
                    key_id = none;
                    value = some (record {
                      boolean = none;
                      string = none;
                      scaled_number = none;
                      duration = some (spine.new_duration (pos 0));
                    });
                    is_value_changeable = some true;
                  })
                  failsafe_duration_minimum

unfoldable pub add_features : Variant → SpineLocal → LocalEntity → LocalEntity × Result (Unit {0})
unfolding add_limit add_failsafe
add_features v spine entity = add_limit v spine entity and_then λ e1 _.
    add_failsafe v spine e1 and_then λ e2 _.
    add_nominal_max v spine.characteristics
      (record e2 {
        electrical_connection = some (or_new e2.electrical_connection new_electrical_connection);
      })
      (get_power_total_measurement_id entity)
    and_then λ e3 _. (e3, ok tt)

-- ===== src/Examples/GuardData.antt =====
-- A heat pump that an energy guard knows, with its limit, its failsafe duration and its nominal
-- maximum, and spine-go's `UpdateData` of limits at it.
use eebus_go.Prelude.{
  ℕ, if◌then◌else◌, holds, All, ◌≡◌, refl, ap, true, false, none, some, List, [], ◌∷◌, ◌++◌, ◌∙◌,
  arith,
}
use eebus_go.Prelude.Int.{pos}
use eebus_go.Spine.{
  LimitData, Characteristic, time_period_element, entity_context, power_consumption_nominal_max,
  heat_pump_appliance,
}
use eebus_go.Errors.{data_not_available}
use eebus_go.Features.Filter.{listed, failed}
use eebus_go.Features.ElectricalConnection.{ElectricalConnectionFeature}
use eebus_go.Features.Server.{UpdateData, updated}
use eebus_go.Features.Server.LoadControl.Merging.{IsMerging, IsMergingWrite, merged}
use eebus_go.UseCase.Remote.{RemoteEntity}
use eebus_go.UseCase.Base.{UseCaseBase, is_compatible_entity_type}
use eebus_go.Internal.Clients.{Remote}
use eebus_go.Eg.Lpc.{new_eg_lpc}
use eebus_go.Examples.Updates.{merge_at, merge_at-placed}
use eebus_go.Examples.Data.{load_control, device_configuration}

-- A write of a limit, with or without the deletion of its time period.
abbrev put_at : ℕ → LimitData → List LimitData → List LimitData
put_at id new [] = []
put_at id new (x ∷ xs) =
    let rest = put_at id new xs in if holds x.limit_id id then merged x new ∷ xs else x ∷ rest

abbrev pub write_update : UpdateData LimitData
write_update (listed xs) (new ∷ []) none = elim new.limit_id [
  | none ↦ updated (listed xs)
  | some id ↦ updated (listed (put_at id new xs))
]
write_update (listed xs) (new ∷ []) (some d) = elim d.selector [
  | none ↦ updated (listed xs)
  | some id ↦ updated (listed (merge_at id new xs))
]
write_update c xs d = updated c

put_at-placed :
    (before after : List LimitData) (old new : LimitData) (id : ℕ)
    → All (λ (x : LimitData). holds x.limit_id id ≡ false) before
    → old.limit_id ≡ some id
    → put_at id new (before ++ old ∷ after) ≡ before ++ merged old new ∷ after
put_at-placed [] after old new id h e =
    let here : holds old.limit_id id ≡ true = ground arith in rw here refl
put_at-placed (x ∷ before) after old new id h e =
    rw h.0 (ap (λ (l : List LimitData). x ∷ l) (put_at-placed before after old new id h.1 e))

pub write_update-IsMerging : IsMerging time_period_element write_update
write_update-IsMerging = record {
  merges = λ before after old new id h e e'.
      ap (λ (l : List LimitData). updated (listed l)) (merge_at-placed before after old new id h e);
}

pub write_update-IsMergingWrite : IsMergingWrite write_update
write_update-IsMergingWrite = record {
  merges_write = λ before after old new id h e e'.
      let written : write_update (listed (before ++ old ∷ after)) (new ∷ []) none
          ≡ updated (listed (put_at id new (before ++ old ∷ after))) =
        ground (arith, e') in
      written
      ∙ ap (λ (l : List LimitData). updated (listed l)) (put_at-placed before after old new id h e);
}

-- The nominal maximum of the connection 1.
abbrev pub nominal : Characteristic
nominal = record {
  electrical_connection_id = some 1;
  parameter_id = some 2;
  characteristic_id = some 0;
  characteristic_context = some entity_context;
  characteristic_type = some power_consumption_nominal_max;
  unit = none;
  value = some (pos 11000);
}

abbrev pub connection : ElectricalConnectionFeature
connection = record {
  descriptions = failed;
  parameters = failed;
  permitted_values = failed;
  characteristics = listed (nominal ∷ []);
}

abbrev pub heat_pump : RemoteEntity
heat_pump = record {
  address = some (record { device = some 70; entity = 1 ∷ [] });
  entity_type = heat_pump_appliance;
  device = record { ski = 5; address = some 70 };
  features = [];
}

abbrev pub remotes : RemoteEntity → Remote
remotes e = record {
  remote_data = record {
    load_control = some load_control;
    electrical_connection = some connection;
    limits = record { write_partial = true; update_data = λ xs d. none };
  };
  device_configuration = some device_configuration;
  measurement = none;
  key_values = record { write_partial = true; update_data = λ xs. none };
  device_diagnosis = none;
  missing_error = data_not_available;
  client = λ type. record {
    feature_type = type;
    operations = λ f. none;
    has_subscription = false;
    has_binding = false;
  };
}

abbrev pub guard : UseCaseBase
guard = new_eg_lpc true

pub compatible : is_compatible_entity_type guard (some heat_pump) ≡ true
unfolding is_compatible_entity_type
compatible = refl

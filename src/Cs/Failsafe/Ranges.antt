-- ===== src/Cs/Failsafe/Ranges.antt =====
-- Which failsafe durations are accepted, and what is read after one is set.
use eebus_go.Prelude.{
  ℕ, leb, ◌&&◌, ◌*◌, if◌then◌else◌, holds, All, ◌≡◌, refl, Bool, false, Option, none, some, List,
  [], ◌∷◌, ◌++◌, arith,
}
use eebus_go.Prelude.Int.{ℤ, pos, negsuc}
use eebus_go.Spine.{KeyValueDescription, KeyValueData, KeyValueValue, failsafe_duration_minimum}
use eebus_go.Errors.{ok, err, message}
use eebus_go.Features.Filter.{listed, new_local, feature_data_copy_of_type}
use eebus_go.Features.DeviceConfiguration.{
  DeviceConfigurationFeature, key_filter, get_key_value_descriptions_for_filter,
  get_key_value_data_for_filter, find_key_value,
}
use eebus_go.Features.Server.{UpdateData, updated}
use eebus_go.Features.Server.DeviceConfiguration.{update_key_value_data_for_filter}
use eebus_go.Internal.LocalEntity.{LocalEntity}
use eebus_go.Cs.Failsafe.{
  key_data, get_failsafe_duration_minimum, set_failsafe_duration_minimum, hour, set_key_value,
}

-- What `UpdateData` is relied on for where the value of a key is written that is there already:
-- the fields that the data sets are the item's afterwards, and other items are kept.
pub record IsOverwriting (update_data : UpdateData KeyValueData) : Type 0 where
  pub overwrites :
      (before after : List KeyValueData) (old : KeyValueData) (key : ℕ) (value : KeyValueValue)
      (changeable : Bool)
      → All (λ (x : KeyValueData). holds x.key_id key ≡ false) before
      → old.key_id ≡ some key
      → let new : KeyValueData = record {
        key_id = some key;
        value = some value;
        is_value_changeable = some changeable;
      } in
        update_data (listed (before ++ old ∷ after)) (new ∷ []) none
        ≡ updated (listed (before ++ new ∷ after))

-- Whether a duration in nanoseconds is from `lo` to `hi` hours.
abbrev pub in_hours : ℕ → ℕ → ℤ → Bool
in_hours lo hi (pos n) = leb (lo * hour) n && leb n (hi * hour)
in_hours lo hi (negsuc n) = false

find_key_value-placed :
    (key : ℕ) (before after : List KeyValueData) (x : KeyValueData)
    → All (λ (y : KeyValueData). holds y.key_id key ≡ false) before
    → x.key_id ≡ some key
    → find_key_value (some key) (before ++ x ∷ after) ≡ ok x
unfolding find_key_value
find_key_value-placed key [] after x h e = ground (arith, e)
find_key_value-placed key (y ∷ ys) after x h e =
    ground (arith, h.0, find_key_value-placed key ys after x h.1 e)

module _ (update_data : UpdateData KeyValueData) (law : IsOverwriting update_data)
    (new_duration : ℤ → Option ℤ) (entity : LocalEntity) (f : DeviceConfigurationFeature)
    (d : KeyValueDescription) (key : ℕ) (before after : List KeyValueData) (old : KeyValueData)
    (has_feature : entity.device_configuration ≡ some f)
    (found : get_key_value_descriptions_for_filter
        (new_local f)
        (key_filter none (some failsafe_duration_minimum))
      ≡ ok (d ∷ []))
    (has_key : d.key_id ≡ some key) (values : f.values ≡ listed (before ++ old ∷ after))
    (first : All (λ (x : KeyValueData). holds x.key_id key ≡ false) before)
    (carried : old.key_id ≡ some key) (duration : ℤ) (changeable : Bool) where
  written : KeyValueData
  written = record {
    key_id = some key;
    value = some (record {
      boolean = none;
      string = none;
      scaled_number = none;
      duration = some (new_duration duration);
    });
    is_value_changeable = some changeable;
  }

  feature_after : DeviceConfigurationFeature
  feature_after = record f { values = listed (before ++ written ∷ after) }

  entity_after : LocalEntity
  entity_after = record entity { device_configuration = some feature_after }

  stored : update_data f.values (written ∷ []) none ≡ updated (listed (before ++ written ∷ after))
  unfolding written
  stored = rw values (law.overwrites before after old key _ changeable first carried)

  set_lem :
      set_key_value update_data entity failsafe_duration_minimum
        (record {
          boolean = none;
          string = none;
          scaled_number = none;
          duration = some (new_duration duration);
        })
        changeable
      ≡ (entity_after, ok tt)
  unfolding update_key_value_data_for_filter entity_after feature_after written
  set_lem = ground (arith, has_feature, found, has_key, stored)

  found_after :
      get_key_value_descriptions_for_filter
        (new_local feature_after)
        (key_filter none (some failsafe_duration_minimum))
      ≡ ok (d ∷ [])
  unfolding feature_after get_key_value_descriptions_for_filter feature_data_copy_of_type
  found_after = found

  copied :
      feature_data_copy_of_type (new_local feature_after) (λ g. g.values)
      ≡ listed (before ++ written ∷ after)
  unfolding feature_after feature_data_copy_of_type
  copied = refl

  carries_key : written.key_id ≡ some key
  unfolding written
  carries_key = refl

  data_after :
      get_key_value_data_for_filter
        (new_local feature_after)
        (key_filter none (some failsafe_duration_minimum))
      ≡ ok written
  unfolding get_key_value_data_for_filter
  data_after = ground (
    arith,
    found_after,
    has_key,
    copied,
    find_key_value-placed key before after written first carries_key,
  )

  read_lem :
      {t : ℤ}
      → new_duration duration ≡ some t
      → get_failsafe_duration_minimum entity_after ≡ ok (t, changeable)
  unfolding get_failsafe_duration_minimum key_data entity_after written
  read_lem h = ground (arith, data_after, h)

  -- Where the entity has the device configuration feature, exactly one description has the name of the
  -- minimum duration, it has a key, and a value is stored under this key already: a failsafe duration
  -- from 2 to 24 hours is accepted and read back as what `NewDurationType` stores, with the flag that
  -- was set; any other is refused, and nothing is written. (`UpdateData` overwrites a value that is
  -- there, and what `NewDurationType` makes of the duration can be read.)
  pub set_failsafe_duration_minimum_lem :
      {t : ℤ}
      → new_duration duration ≡ some t
      → let (entity', result) =
          set_failsafe_duration_minimum new_duration update_data entity duration changeable in
        if in_hours 2 24 duration
        then (result ≡ ok tt) × (get_failsafe_duration_minimum entity' ≡ ok (t, changeable))
        else (result ≡ err (message "duration outside of allowed range")) × (entity' ≡ entity)
  unfolding set_failsafe_duration_minimum
  set_failsafe_duration_minimum_lem h = ground (arith, set_lem, read_lem h)

-- ===== src/Cs/Limit/Confusion.antt =====
-- What happens to the limit of one use case where the limit of another use case is not clear.
use eebus_go.Prelude.{true, filter, length, ◌≡◌, ◌≢◌, refl, some, List, [], ◌∷◌, arith}
use eebus_go.Prelude.Int.{ℤ}
use eebus_go.Spine.{LimitDescription, LimitData, TimePeriod, time_period_element}
use eebus_go.Errors.{ok}
use eebus_go.Features.Filter.{listed, new_local}
use eebus_go.Features.LoadControl.{LoadControlFeature, get_limit_descriptions_for_filter}
use eebus_go.Features.LoadControl.Lookup.{describes}
use eebus_go.Features.Server.{UpdateData}
use eebus_go.Features.Server.LoadControl.Merging.{IsMerging}
use eebus_go.Internal.LocalEntity.{LocalEntity}
use eebus_go.Cs.State.{Variant, LoadLimit}
use eebus_go.Cs.Limit.{limit_filter, load_control_server_and_limit_id, current_limit, set_limit}
use eebus_go.Cs.Limit.Reading.{limit_id_of_many}
use eebus_go.Cs.Limit.RoundTrip.{Places, read_back, current_limit-set_limit}

module _ (v other : Variant) (entity : LocalEntity) (lc : LoadControlFeature)
    (fits : List LimitDescription) (d : LimitDescription)
    (has_feature : entity.load_control ≡ some lc)
    (found : get_limit_descriptions_for_filter (new_local lc) (limit_filter v) ≡ ok fits)
    (not_one : length fits ≢ 1)
    (found_other : get_limit_descriptions_for_filter (new_local lc) (limit_filter other)
      ≡ ok (d ∷ []))
    (has_zero : d.limit_id ≡ some 0) where
  same_limit :
      load_control_server_and_limit_id v entity ≡ load_control_server_and_limit_id other entity
  unfolding load_control_server_and_limit_id
  same_limit = ground (
    arith,
    has_feature,
    found,
    found_other,
    has_zero,
    limit_id_of_many v entity has_feature _ _ found not_one,
  )

  -- No description, or more than one, fits a use case, and exactly one fits another use case, with
  -- the id 0 that no other description has, under which a limit is there. Then the first use case
  -- reads the limit of the other as its own, and setting its limit succeeds and replaces the limit
  -- of the other: this is read back with the value that `NewScaledNumberType` keeps, the flags that
  -- were set, and the duration that was set if it is positive, or 0 if not. (`UpdateData` merges,
  -- and the end time of a new time period reads as the duration it was made from.)
  pub ambiguous_set_limit-other :
      (ds : List LimitDescription) (xs before after : List LimitData) (old : LimitData)
      (update_data : UpdateData LimitData) (new_scaled_number : ℤ → ℤ)
      (new_time_period : ℤ → TimePeriod) (limit : LoadLimit)
      → lc.limit_descriptions ≡ listed ds
      → filter (describes 0) ds ≡ d ∷ []
      → lc.limits ≡ listed xs
      → Places 0 xs before after old
      → IsMerging time_period_element update_data
      → ((t : ℤ) → new_time_period t ≡ record { end_time = true; duration = some t })
      → let (entity', result) =
          set_limit v new_scaled_number new_time_period update_data entity limit in
        (current_limit v entity ≡ current_limit other entity)
        × (result ≡ ok tt)
        × (current_limit other entity' ≡ ok (read_back new_scaled_number limit))
  unfolding current_limit set_limit
  ambiguous_set_limit-other ds xs before after old update_data new_scaled_number new_time_period
        limit ds_listed unique xs_listed place law period_reads =
      let replaces =
        current_limit-set_limit other entity lc ds d 0 xs before after old has_feature ds_listed
          found_other has_zero unique xs_listed place update_data law new_scaled_number
          new_time_period period_reads limit in
      let same_set : set_limit v new_scaled_number new_time_period update_data entity limit
          ≡ set_limit other new_scaled_number new_time_period update_data entity limit =
        rw (set_limit, same_limit) refl in
      let same_read : current_limit v entity ≡ current_limit other entity =
        rw (current_limit, same_limit) refl in
      rw same_set (same_read, replaces.0, replaces.1)

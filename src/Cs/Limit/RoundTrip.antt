-- ===== src/Cs/Limit/RoundTrip.antt =====
-- Setting a limit, and reading the limits of the use cases after it.
use eebus_go.Prelude.{
  ℕ, if◌then◌else◌, any, find?, holds, filter, Bool-cases, All, ◌≡◌, ◌≢◌, refl, ap, ◌∙◌, inl, inr,
  true, false, Option, none, some, List, [], ◌∷◌, ◌++◌, arith,
}
use eebus_go.Prelude.Int.{ℤ, pos, ltb_ℤ}
use eebus_go.Spine.{time_period_element, LimitDescription, LimitData, TimePeriod}
use eebus_go.Errors.{ok}
use eebus_go.Features.Filter.{listed, new_local, feature_data_copy_of_type}
use eebus_go.Features.LoadControl.{
  LoadControlFeature, limit_id_filter, get_limit_descriptions_for_filter,
}
use eebus_go.Features.LoadControl.Lookup.{describes, carries, descriptions_by_id}
use eebus_go.Features.Server.{UpdateData, updated}
use eebus_go.Features.Server.LoadControl.{update_limit_data_for_filters}
use eebus_go.Features.Server.LoadControl.Merging.{IsMerging, overwritten, merged}
use eebus_go.Internal.LocalEntity.{LocalEntity}
use eebus_go.Cs.State.{Variant, LoadLimit}
use eebus_go.Cs.Limit.{
  limit_filter, load_control_server_and_limit_id, current_limit, limit_data, set_limit,
}
use eebus_go.Cs.Limit.Reading.{current_limit_lem}

-- A limit with an id of its own among the limits.
pub record Places (id : ℕ) (xs before after : List LimitData) (old : LimitData) : Type 0 where
  pub at : xs ≡ before ++ old ∷ after
  pub carried : old.limit_id ≡ some id
  pub first : All (λ (x : LimitData). holds x.limit_id id ≡ false) before

pub find-placed :
    (id : ℕ) (before after : List LimitData) (x : LimitData)
    → All (λ (y : LimitData). holds y.limit_id id ≡ false) before
    → x.limit_id ≡ some id
    → find? (carries id) (before ++ x ∷ after) ≡ some x
find-placed id [] after x h e = ground arith
find-placed id (y ∷ ys) after x h e = ground (arith, h.0, find-placed id ys after x h.1 e)

find-other :
    (id other : ℕ) (before after : List LimitData) (x y : LimitData)
    → x.limit_id ≡ some id
    → y.limit_id ≡ some id
    → other ≢ id
    → find? (carries other) (before ++ x ∷ after) ≡ find? (carries other) (before ++ y ∷ after)
find-other id other [] after x y hx hy h = ground (arith, hx, hy, h)
find-other id other (z ∷ before) after x y hx hy h =
    ground (arith, find-other id other before after x y hx hy h)

pub any-described :
    (id : ℕ) (ds : List LimitDescription) {d : LimitDescription}
    → filter (describes id) ds ≡ d ∷ []
    → any (describes id) ds ≡ true
any-described id [] h = cc
any-described id (x ∷ xs) h = elim (Bool-cases (describes id x)) [
  | inl e ↦ rw e
  | inr e ↦ rw e (any-described id xs (rw e at h))
]

-- The limit as it is read back.
abbrev pub read_back : (ℤ → ℤ) → LoadLimit → LoadLimit
read_back new_scaled_number limit = record {
  duration = if ltb_ℤ (pos 0) limit.duration then limit.duration else pos 0;
  is_changeable = limit.is_changeable;
  is_active = limit.is_active;
  value = new_scaled_number limit.value;
  delete_duration = false;
}

overwritten-none : {A : Type 0} (o : Option A) → overwritten none o ≡ o
overwritten-none none = refl
overwritten-none (some a) = refl

module _ (v : Variant) (entity : LocalEntity) (lc : LoadControlFeature) (ds : List LimitDescription)
    (d : LimitDescription) (id : ℕ) (xs before after : List LimitData) (old : LimitData)
    (has_feature : entity.load_control ≡ some lc) (ds_listed : lc.limit_descriptions ≡ listed ds)
    (found : get_limit_descriptions_for_filter (new_local lc) (limit_filter v) ≡ ok (d ∷ []))
    (has_id : d.limit_id ≡ some id) (unique : filter (describes id) ds ≡ d ∷ [])
    (xs_listed : lc.limits ≡ listed xs) (place : Places id xs before after old)
    (update_data : UpdateData LimitData) (law : IsMerging time_period_element update_data)
    (new_scaled_number : ℤ → ℤ) (new_time_period : ℤ → TimePeriod)
    (period_reads : (t : ℤ) → new_time_period t ≡ record { end_time = true; duration = some t })
    (limit : LoadLimit) where
  written : LimitData
  written = record (limit_data new_scaled_number new_time_period limit) { limit_id = some id }

  feature_after : LoadControlFeature
  feature_after = record lc { limits = listed (before ++ written ∷ after) }

  entity_after : LocalEntity
  entity_after = record entity { load_control = some feature_after }

  merged-written : merged (record old { time_period = none }) written ≡ written
  unfolding written
  merged-written = rw (overwritten-none written.time_period)

  stored :
      update_data lc.limits
        (written ∷ [])
        (some (record { selector = some id; elements = some (time_period_element ∷ []) }))
      ≡ updated (listed (before ++ written ∷ after))
  unfolding written
  stored = rw (
    xs_listed,
    place.at,
    law.merges before after old written id place.first place.carried refl,
    merged-written,
  )

  found_by_id :
      get_limit_descriptions_for_filter (new_local lc) (limit_id_filter (some id)) ≡ ok (d ∷ [])
  found_by_id = descriptions_by_id (new_local lc) copied id ∙ ap ok unique
    where
      copied : feature_data_copy_of_type (new_local lc) (λ f. f.limit_descriptions) ≡ listed ds
      copied = unfold feature_data_copy_of_type in ds_listed

  set_limit_lem :
      set_limit v new_scaled_number new_time_period update_data entity limit ≡ (entity_after, ok tt)
  unfolding set_limit load_control_server_and_limit_id update_limit_data_for_filters entity_after
      feature_after written
  set_limit_lem = ground (arith, has_feature, found, has_id, stored, found_by_id)

  -- Where exactly one description fits the use case and has an id that no other description has,
  -- and a limit with that id is there, setting a limit succeeds, and the limit is read back with
  -- the value that `NewScaledNumberType` keeps, the flags that were set, and the duration that was
  -- set if it is positive, or 0 if not.
  pub current_limit-set_limit :
      let (entity', result) =
        set_limit v new_scaled_number new_time_period update_data entity limit in
      (result ≡ ok tt) × (current_limit v entity' ≡ ok (read_back new_scaled_number limit))
  unfolding entity_after feature_after written get_limit_descriptions_for_filter
      feature_data_copy_of_type
  current_limit-set_limit = rw set_limit_lem (
    refl,
    ground (
      arith,
      current_limit_lem v entity_after refl ds_listed refl found,
      has_id,
      any-described id ds unique,
      find-placed id before after written place.first refl,
      period_reads limit.duration,
    ),
  )

  limits_after : lc.limits ≡ listed (before ++ old ∷ after)
  limits_after = rw xs_listed (ap listed place.at)

  -- Under the same conditions, where exactly one description fits another use case and has another
  -- id, setting a limit of the one leaves the limit of the other as it was.
  pub set_limit-keeps_other :
      (other : Variant) (d' : LimitDescription) (id' : ℕ)
      → get_limit_descriptions_for_filter (new_local lc) (limit_filter other) ≡ ok (d' ∷ [])
      → d'.limit_id ≡ some id'
      → id' ≢ id
      → let (entity', result) =
          set_limit v new_scaled_number new_time_period update_data entity limit in
        current_limit other entity' ≡ current_limit other entity
  unfolding entity_after feature_after written get_limit_descriptions_for_filter
      feature_data_copy_of_type
  set_limit-keeps_other other d' id' found' has_id' different = rw set_limit_lem (
      ground (
        arith,
        current_limit_lem other entity_after refl ds_listed refl found',
        has_id',
        current_limit_lem other entity has_feature ds_listed limits_after found',
        find-other id id' before after written old refl place.carried different,
      ))

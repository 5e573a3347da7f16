-- ===== src/Cs/Limit/Reading.antt =====
-- Which limit is read as the limit of a use case.
use eebus_go.Prelude.{
  if◌then◌else◌, length, any, find?, ◌≡◌, ◌≢◌, refl, Option, none, some, List, [], ◌∷◌, arith,
}
use eebus_go.Spine.{LimitDescription, LimitData}
use eebus_go.Errors.{Result, ok, err, data_not_available}
use eebus_go.Features.Filter.{listed, new_local, feature_data_copy_of_type}
use eebus_go.Features.LoadControl.{LoadControlFeature, get_limit_descriptions_for_filter}
use eebus_go.Features.LoadControl.Lookup.{describes, carries, get_limit_data_for_id_lem}
use eebus_go.Internal.LocalEntity.{LocalEntity}
use eebus_go.Cs.State.{Variant, LoadLimit}
use eebus_go.Cs.Limit.{
  limit_filter, limit_id_of, load_control_server_and_limit_id, limit_of, current_limit,
}

-- The limit that is found under an id, as it is reported.
abbrev pub reported : Option LimitData → Result LoadLimit
reported none = err data_not_available
reported (some x) = elim x.limit_id [
  | none ↦ err data_not_available
  | some id ↦ elim x.value [ none ↦ err data_not_available | some v ↦ ok (limit_of x v) ]
]

module _ (v : Variant) (entity : LocalEntity) {lc : LoadControlFeature} {ds : List LimitDescription}
    {xs : List LimitData} (has_feature : entity.load_control ≡ some lc)
    (ds_listed : lc.limit_descriptions ≡ listed ds) (xs_listed : lc.limits ≡ listed xs)
    {fits : List LimitDescription}
    (found : get_limit_descriptions_for_filter (new_local lc) (limit_filter v) ≡ ok fits) where
  pub current_limit_lem :
      current_limit v entity
      ≡ reported (
          if any (describes (limit_id_of fits)) ds
          then find? (carries (limit_id_of fits)) xs
          else none)
  unfolding current_limit load_control_server_and_limit_id feature_data_copy_of_type
  current_limit_lem = ground (
    arith,
    has_feature,
    found,
    get_limit_data_for_id_lem (new_local lc) ds_listed xs_listed (limit_id_of fits),
  )

  pub limit_id_of_many : length fits ≢ 1 → limit_id_of fits ≡ 0
  limit_id_of_many h = many fits h
    where
      many : (l : List LimitDescription) → length l ≢ 1 → limit_id_of l ≡ 0
      many [] h = refl
      many (d ∷ []) h = absurd (h refl)
      many (d ∷ d' ∷ l) h = refl

  -- Where no description or more than one fits the use case, the limit with id 0 is reported if
  -- one is described, there and has a value, whatever it limits; else there is no data.
  pub current_limit_ambiguous :
      length fits ≢ 1
      → current_limit v entity
        ≡ reported (if any (describes 0) ds then find? (carries 0) xs else none)
  current_limit_ambiguous h = rw (← limit_id_of_many h) current_limit_lem

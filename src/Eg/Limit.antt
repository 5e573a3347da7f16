-- ===== src/Eg/Limit.antt =====
-- The limit of a remote entity: ConsumptionLimit, WriteConsumptionLimit of usecases/eg/lpc and
-- their counterparts of lpp.
pub mod Reading
pub mod Taken
pub mod Exchange
use eebus_go.Prelude.{ℕ, if◌then◌else◌, is_set, false, Option, none, some, List, [], ◌∷◌}
use eebus_go.Prelude.Int.{ℤ, pos}
use eebus_go.Spine.{
  LimitDescription, LimitData, TimePeriod, sign_dependent_abs_value_limit, active_power_limit,
}
use eebus_go.Errors.{Result, ok, err, data_not_available}
use eebus_go.Features.Filter.{new_remote}
use eebus_go.Features.LoadControl.{
  empty_limit_description, get_limit_descriptions_for_filter, get_limit_data_for_id,
}
use eebus_go.Features.Client.{LimitCommand}
use eebus_go.UseCase.Remote.{RemoteEntity}
use eebus_go.UseCase.Base.{UseCaseBase}
use eebus_go.UseCase.Limits.{LoadLimit}
use eebus_go.Internal.LoadControl.{write_load_control_limit}
use eebus_go.Cs.State.{Variant}
use eebus_go.Cs.Limit.{duration_of}
use eebus_go.Internal.Clients.{Remote, with_compatible}

-- No category is asked for.
abbrev pub remote_limit_filter : Variant → LimitDescription
remote_limit_filter v = record empty_limit_description {
  limit_type = some sign_dependent_abs_value_limit;
  limit_direction = some v.direction;
  scope_type = some active_power_limit;
}

abbrev pub remote_limit_of : LimitData → ℤ → LoadLimit
remote_limit_of x value = record {
  duration = elim (duration_of x) [ none ↦ pos 0 | some d ↦ d ];
  is_changeable = is_set x.is_limit_changeable;
  is_active = is_set x.is_limit_active;
  value = value;
  delete_duration = false;
}

-- What follows the test of the entity.
unfoldable pub read_remote_limit : Variant → Remote → Result LoadLimit
read_remote_limit v r = elim r.remote_data.load_control [
  | none ↦ err data_not_available
  | some lc ↦ elim (get_limit_descriptions_for_filter (new_remote lc) (remote_limit_filter v)) [
    | ok (d ∷ []) ↦ elim d.limit_id [
      | none ↦ err data_not_available
      | some id ↦ elim (get_limit_data_for_id (new_remote lc) id) [
        | ok x ↦ elim x.value [
          | none ↦ err data_not_available
          | some value ↦ ok (remote_limit_of x value)
        ]
        | _ ↦ err data_not_available
      ]
    ]
    | _ ↦ err data_not_available
  ]
]

-- ConsumptionLimit, ProductionLimit
unfoldable pub remote_limit :
    Variant → UseCaseBase → (RemoteEntity → Remote) → Option RemoteEntity → Result LoadLimit
unfolding read_remote_limit
remote_limit v u remotes entity = with_compatible u remotes entity (λ e r. read_remote_limit v r)

-- WriteConsumptionLimit, WriteProductionLimit
unfoldable pub write_remote_limit :
    Variant
    → (ℤ → ℤ)
    → (ℤ → TimePeriod)
    → UseCaseBase
    → (RemoteEntity → Remote)
    → Option RemoteEntity
    → LoadLimit
    → Result LimitCommand
write_remote_limit v new_scaled_number new_time_period u remotes entity limit =
    with_compatible u remotes entity (λ e r.
      write_load_control_limit new_scaled_number new_time_period r.remote_data
        (remote_limit_filter v) limit)

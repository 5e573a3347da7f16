-- ===== src/Ma/Readings.antt =====
-- What the monitoring appliance returns of the measurements of an entity.
use eebus_go.Prelude.{All, ◌≡◌, true, Option, none, some, List, arith}
use eebus_go.Prelude.Int.{ℤ}
use eebus_go.Spine.{
  Name, consume, power, energy, current, voltage, frequency, ac_power_total, ac_power,
  ac_energy_consumed, ac_energy_produced, ac_current, ac_voltage, ac_frequency, grid_feed_in,
  grid_consumption,
}
use eebus_go.Errors.{Result, ok}
use eebus_go.Features.Measurement.{MeasurementFeature}
use eebus_go.Features.ElectricalConnection.{phase_name_mapping}
use eebus_go.UseCase.Remote.{RemoteEntity}
use eebus_go.UseCase.Base.{UseCaseBase}
use eebus_go.Internal.Clients.{Remote, with_compatible}
use eebus_go.Internal.Readers.{measured, first_value, values_of_phases, single}
use eebus_go.Internal.Readers.Validity.{
  IsReading, values_of_phases-IsReading, single-IsReading, first_value-IsReading,
}
use eebus_go.Ma.Mpc.{
  mpc_power, mpc_power_per_phase, mpc_energy_consumed, mpc_energy_produced, mpc_current_per_phase,
  mpc_voltage_per_phase, mpc_frequency,
}
use eebus_go.Ma.Mgcp.{
  mgcp_power, mgcp_energy_feed_in, mgcp_energy_consumed, mgcp_current_per_phase,
  mgcp_voltage_per_phase, mgcp_frequency,
}

-- A value, or all values, that a read returns are readings of the measurements of a type and scope.
abbrev pub Returns : MeasurementFeature → Result ℤ → Name → Name → Type 0
Returns m read type scope = (v : ℤ) → read ≡ ok v → IsReading m (measured type scope) v

abbrev pub ReturnsAll : MeasurementFeature → Result (List ℤ) → Name → Name → Type 0
ReturnsAll m read type scope =
    (vs : List ℤ) → read ≡ ok vs → All (IsReading m (measured type scope)) vs

module _ (u : UseCaseBase) (remotes : RemoteEntity → Remote) (e : RemoteEntity)
    (m : MeasurementFeature) (has_feature : (remotes e).measurement ≡ some m) where
  within :
      {A : Type 0} (f : RemoteEntity → Remote → Result A) (a : A)
      → with_compatible u remotes (some e) f ≡ ok a
      → f e (remotes e) ≡ ok a
  within f a h = ground (arith, h)

  all_read :
      (type scope : Name) (direction : Option Name) (phases : Option (List Name))
      → ReturnsAll m
          (with_compatible u remotes
            (some e)
            (λ e' r. values_of_phases r (measured type scope) direction phases))
          type
          scope
  all_read type scope direction phases vs h =
      values_of_phases-IsReading m (measured type scope) (remotes e) direction phases vs has_feature
        (within (λ e' r. values_of_phases r (measured type scope) direction phases) vs h)

  single_read :
      (type scope : Name) (direction : Option Name) (phases : Option (List Name))
      → Returns m
          (with_compatible u remotes
            (some e)
            (λ e' r. single (values_of_phases r (measured type scope) direction phases)))
          type
          scope
  single_read type scope direction phases v h =
      single-IsReading m (measured type scope) _ v
        (λ vs.
          values_of_phases-IsReading m (measured type scope) (remotes e) direction phases vs
            has_feature)
        (within (λ e' r. single (values_of_phases r (measured type scope) direction phases)) v h)

  first_read :
      (type scope : Name)
      → Returns m
          (with_compatible u remotes
            (some e)
            (λ e' r. first_value true r.missing_error r.measurement (measured type scope)))
          type
          scope
  first_read type scope v h =
      first_value-IsReading m (measured type scope) (remotes e).missing_error
        (remotes e).measurement v has_feature
        (within (λ e' r. first_value true r.missing_error r.measurement (measured type scope)) v h)

  -- Whatever the monitoring of power consumption or of the grid connection point returns for an entity
  -- as a measurement, every number is the value of an item among the data of the measurement type and
  -- scope that the operation stands for, and the state of the item is not set or normal.
  pub monitoring_sound :
      (Returns m (mpc_power u remotes (some e)) power ac_power_total
        × ReturnsAll m (mpc_power_per_phase u remotes (some e)) power ac_power
        × Returns m (mpc_energy_consumed u remotes (some e)) energy ac_energy_consumed
        × Returns m (mpc_energy_produced u remotes (some e)) energy ac_energy_produced
        × ReturnsAll m (mpc_current_per_phase u remotes (some e)) current ac_current
        × ReturnsAll m (mpc_voltage_per_phase u remotes (some e)) voltage ac_voltage
        × Returns m (mpc_frequency u remotes (some e)) frequency ac_frequency)
      × (Returns m (mgcp_power u remotes (some e)) power ac_power_total
          × Returns m (mgcp_energy_feed_in u remotes (some e)) energy grid_feed_in
          × Returns m (mgcp_energy_consumed u remotes (some e)) energy grid_consumption
          × ReturnsAll m (mgcp_current_per_phase u remotes (some e)) current ac_current
          × ReturnsAll m (mgcp_voltage_per_phase u remotes (some e)) voltage ac_voltage
          × Returns m (mgcp_frequency u remotes (some e)) frequency ac_frequency)
  unfolding mpc_power mpc_power_per_phase mpc_energy_consumed mpc_energy_produced
      mpc_current_per_phase mpc_voltage_per_phase mpc_frequency mgcp_power mgcp_energy_feed_in
      mgcp_energy_consumed mgcp_current_per_phase mgcp_voltage_per_phase mgcp_frequency
  monitoring_sound = (
    (
      single_read power ac_power_total (some consume) none,
      all_read power ac_power (some consume) (some phase_name_mapping),
      first_read energy ac_energy_consumed,
      first_read energy ac_energy_produced,
      all_read current ac_current (some consume) (some phase_name_mapping),
      all_read voltage ac_voltage none (some phase_name_mapping),
      first_read frequency ac_frequency,
    ),
    (
      single_read power ac_power_total (some consume) none,
      first_read energy grid_feed_in,
      first_read energy grid_consumption,
      all_read current ac_current (some consume) (some phase_name_mapping),
      all_read voltage ac_voltage none (some phase_name_mapping),
      first_read frequency ac_frequency,
    ),
  )

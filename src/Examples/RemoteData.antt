-- ===== src/Examples/RemoteData.antt =====
-- The data of a remote electrical connection.
use eebus_go.Prelude.{ℕ, Option, none, some, List, [], ◌∷◌}
use eebus_go.Prelude.Int.{ℤ, pos}
use eebus_go.Spine.{
  Name, ParameterDescription, PermittedValueSet, ScaledNumberRange, phase_a, phase_b,
}
use eebus_go.Features.Filter.{failed, listed}
use eebus_go.Features.ElectricalConnection.{
  ElectricalConnectionFeature, empty_parameter_description,
}

abbrev pub range : Option ℤ → Option ℤ → ScaledNumberRange
range lo hi = record { min = lo; max = hi }

abbrev pub permitted : ℕ → List ScaledNumberRange → PermittedValueSet
permitted id ranges = record {
  electrical_connection_id = some 0;
  parameter_id = some id;
  permitted_value_set = some (record { value = []; range = ranges } ∷ []);
}

-- The parameter 1 is permitted from 6 to 16, the parameter 2 from 6, with no maximum stated.
abbrev pub parameter : ℕ → ℕ → Name → ParameterDescription
parameter id measurement phase = record empty_parameter_description {
  parameter_id = some id;
  measurement_id = some measurement;
  ac_measured_phases = some phase;
}

abbrev pub remote_connection : ElectricalConnectionFeature
remote_connection = record {
  descriptions = failed;
  parameters = listed (parameter 1 50 phase_a ∷ parameter 2 60 phase_b ∷ []);
  permitted_values = listed (
      permitted 1 (range (some (pos 6)) (some (pos 16)) ∷ [])
      ∷ permitted 2 (range (some (pos 6)) none ∷ [])
      ∷ []);
  characteristics = failed;
}

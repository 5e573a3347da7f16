-- ===== src/Features/ElectricalConnection/PhaseLimits.antt =====
-- GetPhaseCurrentLimits of features/internal/electricalconnection.go.
use eebus_go.Prelude.{
  ◌<◌, if◌then◌else◌, any, is_empty, is_some, length, length-append, holds, Bool-cases, ◌≡◌, refl,
  inl, inr, Bool, false, ◌&&◌, none, some, List, [], ◌∷◌, ◌++◌, arith,
}
use eebus_go.Prelude.Int.{ℤ}
use eebus_go.Spine.{Name, ParameterDescription, MeasurementDescription}
use eebus_go.Errors.{Result, ok, err, panic, data_not_available}
use eebus_go.Features.ElectricalConnection.{
  ElectricalConnectionCommon, parameter_filter, phase_filter, phase_name_mapping,
  get_parameter_descriptions_for_filter, get_permitted_value_data_for_filter,
}

-- The three results of the loops.
pub record CurrentLimits : Type 0 where
  pub result_min : List ℤ
  pub result_max : List ℤ
  pub result_default : List ℤ

abbrev pub no_limits : CurrentLimits
no_limits = record { result_min = []; result_max = []; result_default = [] }

abbrev pub append_limits : Result (ℤ × ℤ × ℤ) → CurrentLimits → CurrentLimits
append_limits (ok (lo, hi, default)) r = record {
  result_min = r.result_min ++ lo ∷ [];
  result_max = r.result_max ++ hi ∷ [];
  result_default = r.result_default ++ default ∷ [];
}
append_limits _ r = r

-- The measurement of the parameter is one of those asked for.
abbrev pub is_measured : List MeasurementDescription → ParameterDescription → Bool
is_measured descs param = elim param.measurement_id [
  | none ↦ false
  | some id ↦ any (λ (desc : MeasurementDescription). holds desc.measurement_id id) descs
]

-- The loop over the parameters of a phase.
unfoldable pub limits_of_params :
    ElectricalConnectionCommon
    → List MeasurementDescription
    → List ParameterDescription
    → CurrentLimits
    → CurrentLimits
limits_of_params e descs [] r = r
limits_of_params e descs (param ∷ params) r = limits_of_params e descs params (
    if is_some param.parameter_id && is_measured descs param
    then append_limits (get_permitted_value_data_for_filter e (parameter_filter param.parameter_id))
        r
    else r)

-- The loop over the phases.
unfoldable pub limits_of_phases :
    ElectricalConnectionCommon
    → List MeasurementDescription
    → List Name
    → CurrentLimits
    → CurrentLimits
unfolding limits_of_params
limits_of_phases e descs [] r = r
limits_of_phases e descs (phase ∷ phases) r =
    limits_of_phases e descs phases
      (elim (get_parameter_descriptions_for_filter e (phase_filter phase)) [
        | ok params ↦ limits_of_params e descs params r
        | _ ↦ r
      ])

unfoldable pub get_phase_current_limits :
    ElectricalConnectionCommon → List MeasurementDescription → Result CurrentLimits
unfolding limits_of_phases
get_phase_current_limits e descs =
    let r = limits_of_phases e descs phase_name_mapping no_limits in
    if is_empty r.result_min then err data_not_available else ok r

-- The three lists are as long as one another.
pub record IsAligned (r : CurrentLimits) : Type 0 where
  pub max_aligned : length r.result_min ≡ length r.result_max
  pub default_aligned : length r.result_min ≡ length r.result_default

append_limits-IsAligned :
    (o : Result (ℤ × ℤ × ℤ)) (r : CurrentLimits) → IsAligned r → IsAligned (append_limits o r)
append_limits-IsAligned (ok (lo, hi, default)) r h = record {
  max_aligned = omega (
    arith,
    length-append r.result_min (lo ∷ []),
    length-append r.result_max (hi ∷ []),
    h.max_aligned,
  );
  default_aligned = omega (
    arith,
    length-append r.result_min (lo ∷ []),
    length-append r.result_default (default ∷ []),
    h.default_aligned,
  );
}
append_limits-IsAligned _ r h = h

module _ (e : ElectricalConnectionCommon) (descs : List MeasurementDescription) where
  limits_of_params-IsAligned :
      (params : List ParameterDescription) (r : CurrentLimits)
      → IsAligned r
      → IsAligned (limits_of_params e descs params r)
  unfolding limits_of_params
  limits_of_params-IsAligned [] r h = h
  limits_of_params-IsAligned (param ∷ params) r h =
      limits_of_params-IsAligned params _
        (elim (Bool-cases (is_some param.parameter_id && is_measured descs param)) [
          | inl t ↦ rw t (append_limits-IsAligned _ r h)
          | inr f ↦ rw f h
        ])

  limits_of_phases-IsAligned :
      (phases : List Name) (r : CurrentLimits)
      → IsAligned r
      → IsAligned (limits_of_phases e descs phases r)
  unfolding limits_of_phases
  limits_of_phases-IsAligned [] r h = h
  limits_of_phases-IsAligned (phase ∷ phases) r h =
      limits_of_phases-IsAligned phases _
        (read_phase (get_parameter_descriptions_for_filter e (phase_filter phase)))
    where
      read_phase :
          (o : Result (List ParameterDescription))
          → IsAligned (elim o [ ok params ↦ limits_of_params e descs params r | _ ↦ r ])
      read_phase (ok params) = limits_of_params-IsAligned params r h
      read_phase (err x) = h
      read_phase panic = h

  -- Whatever the remote holds, the phase current limits come back as three lists of one length
  -- that is not 0: the i-th minimum, maximum and default belong together.
  pub get_phase_current_limits-IsAligned :
      (r : CurrentLimits)
      → get_phase_current_limits e descs ≡ ok r
      → IsAligned r × (0 < length r.result_min)
  unfolding get_phase_current_limits
  get_phase_current_limits-IsAligned r h = ground (
    arith,
    limits_of_phases-IsAligned phase_name_mapping no_limits
        (record { max_aligned = refl; default_aligned = refl }),
  )

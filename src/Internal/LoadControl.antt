-- ===== src/Internal/LoadControl.antt =====
-- usecases/internal/loadcontrol.go: reading and writing the limits of a remote entity. The result is
-- the command that is sent; the callback for its response is not modelled.
pub mod Phases
pub mod Writes
use eebus_go.Prelude.{
  ℕ, if◌then◌else◌, same_value, find?, is_set, not, Bool, true, false, ◌&&◌, ◌||◌, is_some, Option,
  none, some, List, [], ◌∷◌,
}
use eebus_go.Prelude.Int.{ℤ, pos, ltb_ℤ}
use eebus_go.Spine.{
  time_period_element, Name, LimitDescription, LimitData, TimePeriod, ParameterDescription,
}
use eebus_go.Errors.{
  Result, ok, err, panic, no_compatible_entity, data_not_available, not_supported,
}
use eebus_go.Features.Filter.{new_remote}
use eebus_go.Features.LoadControl.{
  LoadControlFeature, LoadControlCommon, get_limit_descriptions_for_filter,
  get_limit_data_for_filter, get_limit_data_for_id,
}
use eebus_go.Features.ElectricalConnection.{
  ElectricalConnectionFeature, ElectricalConnectionCommon, phase_filter, parameter_filter,
  get_parameter_descriptions_for_filter, get_permitted_value_data_for_filter, phase_name_mapping,
}
use eebus_go.Features.ElectricalConnection.Adjust.{
  adjust_value_to_be_within_permitted_values_for_parameter_id,
}
use eebus_go.Features.Client.{LimitCommand, RemoteLimits, write_limit_data}
use eebus_go.UseCase.Limits.{LoadLimit, LoadLimitsPhase}

-- What the client helpers of a remote entity find: a feature is there if `client.New…` succeeds.
pub record RemoteData : Type 0 where
  pub load_control : Option LoadControlFeature
  pub electrical_connection : Option ElectricalConnectionFeature
  pub limits : RemoteLimits

-- The inner loop: the first limit description of the measurement of a parameter.
abbrev pub limit_of_parameter :
    List LimitDescription → ParameterDescription → Option LimitDescription
limit_of_parameter descs pd =
    find? (λ (desc : LimitDescription). same_value desc.measurement_id pd.measurement_id) descs

-- The outer loop: the first parameter with such a description.
unfoldable pub match_descriptions :
    List LimitDescription
    → List ParameterDescription
    → Option (ParameterDescription × LimitDescription)
match_descriptions descs [] = none
match_descriptions descs (pd ∷ pds) =
    let rest = match_descriptions descs pds in
    elim (limit_of_parameter descs pd) [ none ↦ rest | some desc ↦ some (pd, desc) ]

-- `p != nil && !*p`
abbrev pub is_false : Option Bool → Bool
is_false p = is_some p && not (is_set p)

-- One turn of the loop of LoadControlLimits: it returns, it continues, or it has a limit.
pub data Turn : Type 0 where
  returns continues : Turn
  appends : LoadLimitsPhase → Turn

abbrev pub phase_of : Name → LimitData → ℤ → LoadLimitsPhase
phase_of phase x value = record {
  phase = phase;
  is_changeable = is_set x.is_limit_changeable;
  is_active = is_set x.is_limit_active;
  value = value;
}

-- The maximum stands in for a limit that is not there or not active.
abbrev pub phase_value : ElectricalConnectionCommon → ParameterDescription → LimitData → Option ℤ
phase_value ec pd x = elim (if is_false x.is_limit_active then none else x.value) [
  | some value ↦ some value
  | none ↦ elim (get_permitted_value_data_for_filter ec (parameter_filter pd.parameter_id)) [
    | ok (lo, hi, default) ↦ some hi
    | _ ↦ none
  ]
]

unfoldable pub phase_turn :
    LoadControlCommon → ElectricalConnectionCommon → List LimitDescription → Name → Turn
phase_turn lc ec descs phase =
    elim (get_parameter_descriptions_for_filter ec (phase_filter phase)) [
      | ok (p ∷ ps) ↦ elim (match_descriptions descs (p ∷ ps)) [
        | none ↦ returns
        | some (pd, desc) ↦ elim desc.limit_id [
          | none ↦ returns
          | some id ↦ elim (get_limit_data_for_id lc id) [
            | ok x ↦ elim (phase_value ec pd x) [
              | none ↦ continues
              | some value ↦ appends (phase_of phase x value)
            ]
            | _ ↦ returns
          ]
        ]
      ]
      | _ ↦ continues
    ]

-- The loop over the phases; `none` where it returns.
unfoldable pub phase_limits :
    LoadControlCommon
    → ElectricalConnectionCommon
    → List LimitDescription
    → List Name
    → Option (List LoadLimitsPhase)
phase_limits lc ec descs [] = some []
phase_limits lc ec descs (phase ∷ phases) =
    let rest = phase_limits lc ec descs phases in
    elim (phase_turn lc ec descs phase) [
      | returns ↦ none
      | continues ↦ rest
      | appends x ↦ elim rest [ none ↦ none | some xs ↦ some (x ∷ xs) ]
    ]

-- LoadControlLimits
unfoldable pub load_control_limits : RemoteData → LimitDescription → Result (List LoadLimitsPhase)
load_control_limits r filter = elim r.load_control [
  | none ↦ err no_compatible_entity
  | some lc ↦ elim r.electrical_connection [
    | none ↦ err no_compatible_entity
    | some ec ↦ elim (get_limit_descriptions_for_filter (new_remote lc) filter) [
      | ok (d ∷ ds) ↦
          elim (phase_limits (new_remote lc) (new_remote ec) (d ∷ ds) phase_name_mapping) [
            | some (x ∷ xs) ↦ ok (x ∷ xs)
            | _ ↦ err data_not_available
          ]
      | _ ↦ err data_not_available
    ]
  ]
]

abbrev pub new_limit : (ℤ → ℤ) → (ℤ → TimePeriod) → Option ℕ → LoadLimit → LimitData
new_limit new_scaled_number new_time_period id limit = record {
  limit_id = id;
  is_limit_changeable = none;
  is_limit_active = some limit.is_active;
  time_period =
      if ltb_ℤ (pos 0) limit.duration then some (new_time_period limit.duration) else none;
  value = some (new_scaled_number limit.value);
}

-- WriteLoadControlLimit
unfoldable pub write_load_control_limit :
    (ℤ → ℤ) → (ℤ → TimePeriod) → RemoteData → LimitDescription → LoadLimit → Result LimitCommand
write_load_control_limit new_scaled_number new_time_period r filter limit = elim r.load_control [
  | none ↦ err no_compatible_entity
  | some lc ↦ elim (get_limit_data_for_filter (new_remote lc) filter) [
    | ok (item ∷ []) ↦ elim item.limit_id [
      | none ↦ err data_not_available
      | some id ↦
          if is_false item.is_limit_changeable
          then err not_supported
          else write_limit_data r.limits
              (new_limit new_scaled_number new_time_period (some id) limit ∷ [])
              (if limit.delete_duration then some (some id) else none)
              (if limit.delete_duration then some (time_period_element ∷ []) else none)
    ]
    | _ ↦ err data_not_available
  ]
]

-- One turn of the loop of WriteLoadControlPhaseLimits; `none` where it continues.
unfoldable pub phase_write :
    (ℤ → ℤ)
    → LoadControlCommon
    → ElectricalConnectionCommon
    → LimitDescription
    → LoadLimitsPhase
    → Option LimitData
phase_write new_scaled_number lc ec filter phase_limit =
    elim (get_limit_descriptions_for_filter lc filter) [
      | ok descs ↦
          elim (get_parameter_descriptions_for_filter ec (phase_filter phase_limit.phase)) [
            | ok pds ↦ elim (match_descriptions descs pds) [
              | none ↦ none
              | some (pd, desc) ↦ elim pd.parameter_id [
                | none ↦ none
                | some parameter_id ↦ elim desc.limit_id [
                  | none ↦ none
                  | some id ↦ elim (get_limit_data_for_id lc id) [
                    | ok x ↦
                        if is_false x.is_limit_changeable
                        then none
                        else some (record {
                          limit_id = some id;
                          is_limit_changeable = none;
                          is_limit_active = some phase_limit.is_active;
                          time_period = none;
                          value = some (
                              new_scaled_number (
                                adjust_value_to_be_within_permitted_values_for_parameter_id ec
                                  phase_limit.value parameter_id));
                        })
                    | _ ↦ none
                  ]
                ]
              ]
            ]
            | _ ↦ none
          ]
      | _ ↦ none
    ]

unfoldable pub phase_writes :
    (ℤ → ℤ)
    → LoadControlCommon
    → ElectricalConnectionCommon
    → LimitDescription
    → List LoadLimitsPhase
    → List LimitData
phase_writes new_scaled_number lc ec filter [] = []
phase_writes new_scaled_number lc ec filter (l ∷ limits) =
    let rest = phase_writes new_scaled_number lc ec filter limits in
    elim (phase_write new_scaled_number lc ec filter l) [ none ↦ rest | some x ↦ x ∷ rest ]

-- WriteLoadControlPhaseLimits
unfoldable pub write_load_control_phase_limits :
    (ℤ → ℤ) → RemoteData → LimitDescription → List LoadLimitsPhase → Result LimitCommand
write_load_control_phase_limits new_scaled_number r filter limits = elim r.load_control [
  | none ↦ err no_compatible_entity
  | some lc ↦ elim r.electrical_connection [
    | none ↦ err no_compatible_entity
    | some ec ↦
        write_limit_data r.limits
          (phase_writes new_scaled_number (new_remote lc) (new_remote ec) filter limits) none none
  ]
]

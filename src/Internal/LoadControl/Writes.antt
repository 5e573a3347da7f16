-- ===== src/Internal/LoadControl/Writes.antt =====
-- Which limits of a remote entity are written.
use eebus_go.Prelude.{
  ℕ, if◌then◌else◌, All, Any, Any-map, find?-Any, find?-holds, same_value, refl, Option, ◌↔◌,
  Option-cases, ◌≡◌, ◌≢◌, inl, inr, true, false, none, some, List, [], ◌∷◌, arith,
}
use eebus_go.Prelude.Int.{ℤ}
use eebus_go.Spine.{
  time_period_element, Name, ParameterDescription, LimitDescription, LimitData, TimePeriod,
}
use eebus_go.Errors.{ok, Result-cases}
use eebus_go.Features.Filter.{
  Copy, listed, failed, no_data, no_list, new_remote, feature_data_copy_of_type, match_fields,
  search_filter_in_item, search_filter_in_list,
}
use eebus_go.Features.Filter.Matching.{search-fits}
use eebus_go.Features.Structs.{parameter_description_struct}
use eebus_go.Features.LoadControl.{
  LoadControlFeature, LoadControlCommon, get_limit_descriptions_for_filter,
  get_limit_data_for_filter, get_limit_data_for_id,
}
use eebus_go.Features.ElectricalConnection.{
  ElectricalConnectionFeature, ElectricalConnectionCommon, phase_filter,
  get_parameter_descriptions_for_filter,
}
use eebus_go.Features.ElectricalConnection.Adjust.{
  adjust_value_to_be_within_permitted_values_for_parameter_id,
}
use eebus_go.Features.Client.{LimitCommand, write_limit_data}
use eebus_go.UseCase.Limits.{LoadLimit, LoadLimitsPhase}
use eebus_go.Internal.LoadControl.{
  RemoteData, limit_of_parameter, match_descriptions, new_limit, write_load_control_limit,
  phase_write, phase_writes, write_load_control_phase_limits,
}

-- A description and a parameter are of the same measurement.
abbrev pub IsOfMeasurement : ParameterDescription → LimitDescription → Type 0
IsOfMeasurement parameter d =
    (measurement : ℕ) × (parameter.measurement_id ≡ some measurement)
    × (d.measurement_id ≡ some measurement)

-- A limit that is written for a phase: the remote describes a parameter of this phase, and a
-- description that fits the filter, of the measurement of this parameter, carries the id of the
-- limit; it is known and not marked as fixed; it is active as asked for, and its value is the value
-- asked for, adjusted to the permitted values of this parameter.
pub record IsPermittedWrite (new_scaled_number : ℤ → ℤ) (lc : LoadControlCommon)
    (ec : ElectricalConnectionCommon) (filter : LimitDescription) (asked : LoadLimitsPhase)
    (x : LimitData) : Type 0 where
  pub id : ℕ
  pub descs : List LimitDescription
  pub parameters : List ParameterDescription
  pub parameter : ParameterDescription
  pub parameter_id : ℕ
  pub current : LimitData
  pub has_id : x.limit_id ≡ some id
  pub found : get_limit_descriptions_for_filter lc filter ≡ ok descs
  pub parameters_found :
      get_parameter_descriptions_for_filter ec (phase_filter asked.phase) ≡ ok parameters
  pub is_parameter : Any (λ p. p ≡ parameter) parameters
  pub is_of_phase : parameter.ac_measured_phases ≡ some asked.phase
  pub has_parameter_id : parameter.parameter_id ≡ some parameter_id
  pub is_described :
      Any (λ (d : LimitDescription). (d.limit_id ≡ some id) × IsOfMeasurement parameter d) descs
  pub is_known : get_limit_data_for_id lc id ≡ ok current
  pub is_changeable : current.is_limit_changeable ≢ some false
  pub is_active : x.is_limit_active ≡ some asked.is_active
  pub is_adjusted :
      x.value
      ≡ some (
          new_scaled_number (
            adjust_value_to_be_within_permitted_values_for_parameter_id ec asked.value
              parameter_id))

-- What the two loops find: a parameter and a description of the same measurement.
abbrev IsMatch :
    List LimitDescription
    → List ParameterDescription
    → ParameterDescription × LimitDescription
    → Type 0
IsMatch descs pds m = Any (λ d. d ≡ m.1) descs × Any (λ p. p ≡ m.0) pds × IsOfMeasurement m.0 m.1

limit_of_parameter-IsOfMeasurement :
    (descs : List LimitDescription) (pd : ParameterDescription) (d : LimitDescription)
    → limit_of_parameter descs pd ≡ some d
    → IsOfMeasurement pd d
limit_of_parameter-IsOfMeasurement descs pd d h = go d.measurement_id refl (find?-holds _ descs d h)
  where
    go :
        (o : Option ℕ)
        → d.measurement_id ≡ o
        → same_value d.measurement_id pd.measurement_id ≡ true
        → IsOfMeasurement pd d
    go none e t = absurd (ground (arith, e, t))
    go (some k) e t = (k, ground (arith, e, t), e)

match_descriptions-IsMatch :
    (descs : List LimitDescription) (pds : List ParameterDescription)
    (m : ParameterDescription × LimitDescription)
    → match_descriptions descs pds ≡ some m
    → IsMatch descs pds m
unfolding match_descriptions
match_descriptions-IsMatch descs [] m h = cc
match_descriptions-IsMatch descs (pd ∷ pds) m h =
    elim (Option-cases (limit_of_parameter descs pd)) [
      | inl n ↦
          let (d, p, same) = match_descriptions-IsMatch descs pds m (ground (arith, h, n)) in
          (d, inr p, same)
      | inr (desc, e) ↦
          let shape : (pd, desc) ≡ m = ground (arith, h, e) in
          rw (← shape)
            (find?-Any _ descs desc e, inl refl, limit_of_parameter-IsOfMeasurement descs pd desc e)
    ]

of_phase :
    (ec : ElectricalConnectionCommon) (phase : Name) (pds : List ParameterDescription)
    (p : ParameterDescription)
    → get_parameter_descriptions_for_filter ec (phase_filter phase) ≡ ok pds
    → Any (λ q. q ≡ p) pds
    → p.ac_measured_phases ≡ some phase
unfolding get_parameter_descriptions_for_filter search_filter_in_item match_fields
of_phase ec phase pds p h member = go (feature_data_copy_of_type ec (λ f. f.parameters)) refl
  where
    go :
        (copy : Copy ParameterDescription)
        → feature_data_copy_of_type ec (λ f. f.parameters) ≡ copy
        → p.ac_measured_phases ≡ some phase
    go (listed items) e =
        let searched : pds ≡ search_filter_in_list items (phase_filter phase) =
          ground (arith, h, e) in
        let fits = search-fits items (phase_filter phase) p (rw searched at member) in
        ground (arith, fits)
    go failed e = absurd (ground (arith, h, e))
    go no_data e = absurd (ground (arith, h, e))
    go no_list e = absurd (ground (arith, h, e))

module _ (new_scaled_number : ℤ → ℤ) (lc : LoadControlCommon) (ec : ElectricalConnectionCommon)
    (filter : LimitDescription) where
  phase_write_lem :
      (l : LoadLimitsPhase) (x : LimitData)
      → phase_write new_scaled_number lc ec filter l ≡ some x
      → IsPermittedWrite new_scaled_number lc ec filter l x
  unfolding phase_write
  phase_write_lem l x h = elim (Result-cases (get_limit_descriptions_for_filter lc filter)) [
    | inr n ↦ absurd (ground arith)
    | inl (descs, e1) ↦
        elim (Result-cases (get_parameter_descriptions_for_filter ec (phase_filter l.phase))) [
          | inr n ↦ absurd (ground arith)
          | inl (pds, e2) ↦ elim (Option-cases (match_descriptions descs pds)) [
            | inl n ↦ absurd (ground arith)
            | inr (m, e3) ↦ elim (Option-cases m.0.parameter_id) [
              | inl n ↦ absurd (ground arith)
              | inr (parameter_id, e4) ↦ elim (Option-cases m.1.limit_id) [
                | inl n ↦ absurd (ground arith)
                | inr (id, e5) ↦ elim (Result-cases (get_limit_data_for_id lc id)) [
                  | inr n ↦ absurd (ground arith)
                  | inl (current, e6) ↦
                      let (d, p, same) = match_descriptions-IsMatch descs pds m e3 in
                      record {
                        id = id;
                        descs = descs;
                        parameters = pds;
                        parameter = m.0;
                        parameter_id = parameter_id;
                        current = current;
                        has_id = ground arith;
                        found = e1;
                        parameters_found = e2;
                        is_parameter = p;
                        is_of_phase = of_phase ec l.phase pds m.0 e2 p;
                        has_parameter_id = e4;
                        is_described =
                            Any-map _ _ descs
                              (λ (y : LimitDescription) (e : y ≡ m.1). rw e (e5, same)) d;
                        is_known = e6;
                        is_active = ground arith;
                        is_changeable = λ e. absurd (ground arith);
                        is_adjusted = ground arith;
                      }
                ]
              ]
            ]
          ]
        ]
  ]

  IsWritten : List LoadLimitsPhase → LimitData → Type 0
  IsWritten limits x =
      Any (λ (l : LoadLimitsPhase). IsPermittedWrite new_scaled_number lc ec filter l x) limits

  weaken :
      (l : LoadLimitsPhase) (limits : List LoadLimitsPhase) (xs : List LimitData)
      → All (IsWritten limits) xs
      → All (IsWritten (l ∷ limits)) xs
  unfolding IsWritten
  weaken l limits [] h = tt
  weaken l limits (x ∷ xs) h = (inr h.0, weaken l limits xs h.1)

  phase_writes_lem :
      (limits : List LoadLimitsPhase)
      → All (IsWritten limits) (phase_writes new_scaled_number lc ec filter limits)
  unfolding phase_writes IsWritten
  phase_writes_lem [] = tt
  phase_writes_lem (l ∷ limits) =
      elim (Option-cases (phase_write new_scaled_number lc ec filter l)) [
        | inl n ↦
            let e : phase_writes new_scaled_number lc ec filter (l ∷ limits)
                ≡ phase_writes new_scaled_number lc ec filter limits =
              ground (arith, n) in
            rw e (weaken l limits _ (phase_writes_lem limits))
        | inr (x, h) ↦
            let e : phase_writes new_scaled_number lc ec filter (l ∷ limits)
                ≡ x ∷ phase_writes new_scaled_number lc ec filter limits =
              ground (arith, h) in
            rw e (inl (phase_write_lem l x h), weaken l limits _ (phase_writes_lem limits))
      ]

-- Where the remote supports partial writes, every limit that is written for the phases is one that
-- was asked for: the remote describes a parameter of the phase asked for, a description that fits the
-- filter and is of the measurement of this parameter carries the id of the limit, the limit is
-- known at the remote and not marked as fixed, it is active as asked for, and its value is the one
-- asked for, adjusted to the permitted values of this parameter.
pub write_load_control_phase_limits_lem :
    (new_scaled_number : ℤ → ℤ) (r : RemoteData) (filter : LimitDescription)
    (limits : List LoadLimitsPhase) (lc : LoadControlFeature) (ec : ElectricalConnectionFeature)
    (command : LimitCommand)
    → r.load_control ≡ some lc
    → r.electrical_connection ≡ some ec
    → r.limits.write_partial ≡ true
    → write_load_control_phase_limits new_scaled_number r filter limits ≡ ok command
    → All
        (λ (x : LimitData).
          Any
            (λ (l : LoadLimitsPhase).
              IsPermittedWrite new_scaled_number (new_remote lc) (new_remote ec) filter l x)
            limits)
        command.limits
unfolding write_load_control_phase_limits write_limit_data IsWritten
write_load_control_phase_limits_lem new_scaled_number r filter limits lc ec command has_lc has_ec
      partial sent =
    let xs = phase_writes new_scaled_number (new_remote lc) (new_remote ec) filter limits in
    let e : command.limits ≡ xs = ground (arith, sent, has_lc, has_ec, partial) in
    rw e (phase_writes_lem new_scaled_number (new_remote lc) (new_remote ec) filter limits)

-- What is known of a limit that is written: it is the one current limit of the filter, it has an
-- id and is not marked as fixed.
pub record IsChangeableLimit (lc : LoadControlCommon) (filter : LimitDescription) (id : ℕ)
    : Type 0 where
  pub item : LimitData
  pub is_current : get_limit_data_for_filter lc filter ≡ ok (item ∷ [])
  pub has_id : item.limit_id ≡ some id
  pub is_changeable : item.is_limit_changeable ≢ some false

module _ (new_scaled_number : ℤ → ℤ) (new_time_period : ℤ → TimePeriod) (limit : LoadLimit) where
  written_command : ℕ → LimitCommand
  written_command id = record {
    limits = new_limit new_scaled_number new_time_period (some id) limit ∷ [];
    filters = some (
        if limit.delete_duration
        then some (record { selector = some id; elements = some (time_period_element ∷ []) })
        else none);
  }

  sent_limit :
      (r : RemoteData) (filter : LimitDescription) (lc : LoadControlFeature)
      (command : LimitCommand)
      → r.load_control ≡ some lc
      → r.limits.write_partial ≡ true
      → write_load_control_limit new_scaled_number new_time_period r filter limit ≡ ok command
      → (id : ℕ) × IsChangeableLimit (new_remote lc) filter id × (command ≡ written_command id)
  unfolding write_load_control_limit write_limit_data written_command
  sent_limit r filter lc command has_lc partial sent =
      elim (Result-cases (get_limit_data_for_filter (new_remote lc) filter)) [
        | inr n ↦ absurd (ground (arith, n, has_lc, sent))
        | inl (items, e) ↦ go items e
      ]
    where
      go :
          (items : List LimitData)
          → get_limit_data_for_filter (new_remote lc) filter ≡ ok items
          → (id : ℕ) × IsChangeableLimit (new_remote lc) filter id × (command ≡ written_command id)
      go [] e = absurd (ground (arith, e, has_lc, sent))
      go (item ∷ x ∷ xs) e = absurd (ground (arith, e, has_lc, sent))
      go (item ∷ []) e = elim (Option-cases item.limit_id) [
        | inl n ↦ absurd (ground (arith, e, n, has_lc, sent))
        | inr (id, h) ↦ (
          id,
          record {
            item = item;
            is_current = e;
            has_id = h;
            is_changeable = λ c. absurd (ground (arith, e, h, c, has_lc, sent));
          },
          ground (arith, e, h, has_lc, partial, sent),
        )
      ]

-- Where the remote supports partial writes, a limit is sent exactly if the filter has one current
-- limit, with an id and not marked as fixed, and the command then carries the new limit under this
-- id, after the deletion of its time period if that is asked for.
pub write_load_control_limit_iff :
    (new_scaled_number : ℤ → ℤ) (new_time_period : ℤ → TimePeriod) (r : RemoteData)
    (filter : LimitDescription) (limit : LoadLimit) (lc : LoadControlFeature)
    (command : LimitCommand)
    → r.load_control ≡ some lc
    → r.limits.write_partial ≡ true
    → (write_load_control_limit new_scaled_number new_time_period r filter limit ≡ ok command) ↔ (
        (id : ℕ) × IsChangeableLimit (new_remote lc) filter id
        × (command ≡ record {
          limits = new_limit new_scaled_number new_time_period (some id) limit ∷ [];
          filters = some (
              if limit.delete_duration
              then some (record { selector = some id; elements = some (time_period_element ∷ []) })
              else none);
        }))
unfolding write_load_control_limit write_limit_data written_command
write_load_control_limit_iff new_scaled_number new_time_period r filter limit lc command has_lc
      partial =
    (
      sent_limit new_scaled_number new_time_period limit r filter lc command has_lc partial,
      (λ (id, h, e). ground (arith, has_lc, partial, h.is_current, h.has_id, h.is_changeable, e)),
    )

-- ===== src/Internal/Readers/Validity.antt =====
-- Which values of a measurement are returned.
use eebus_go.Prelude.{
  is_some, holds, not, All, Any, Bool-cases, Option-cases, ◌≡◌, ◌⊎◌, refl, inl, inr, true, false,
  ◌&&◌, Option, some, List, [], ◌∷◌, arith,
}
use eebus_go.Prelude.Int.{ℤ}
use eebus_go.Spine.{Name, MeasurementDescription, MeasurementData, normal}
use eebus_go.Errors.{Error, Result, ok, err, panic, Result-cases}
use eebus_go.Features.Filter.{new_remote}
use eebus_go.Features.Measurement.{MeasurementFeature, get_data_for_filter}
use eebus_go.Features.ElectricalConnection.{ElectricalConnectionFeature, ElectricalConnectionCommon}
use eebus_go.Internal.Clients.{Remote}
use eebus_go.Internal.Measurement.{
  Direction, has_valid_phase, goes_on, skips, returns_nil, check_direction, phase_values,
  measurement_phase_specific_data_for_filter,
}
use eebus_go.Internal.Readers.{first_value, values_of_phases, single}

-- A value of an item whose state is not set, or normal.
abbrev pub IsValid : ℤ → MeasurementData → Type 0
IsValid v item = (item.value ≡ some v) × ((s : Name) → item.value_state ≡ some s → s ≡ normal)

-- Such an item is among the data that a filter finds.
abbrev pub IsReading : MeasurementFeature → MeasurementDescription → ℤ → Type 0
IsReading m filter v =
    (items : List MeasurementData) × (get_data_for_filter (new_remote m) filter ≡ ok items)
    × Any (IsValid v) items

state_of_check :
    (item : MeasurementData)
    → (is_some item.value_state && not (holds item.value_state normal)) ≡ false
    → (s : Name) → item.value_state ≡ some s
    → s ≡ normal
state_of_check item h s e = ground (arith, h, e)

later :
    (x : MeasurementData) (items : List MeasurementData) (vs : List ℤ)
    → All (λ v. Any (IsValid v) items) vs
    → All (λ v. Any (IsValid v) (x ∷ items)) vs
later x items [] h = tt
later x items (v ∷ vs) h = (inr h.0, later x items vs h.1)

Direction-cases : (d : Direction) → (d ≡ goes_on) ⊎ ((d ≡ skips) ⊎ (d ≡ returns_nil))
Direction-cases goes_on = inl refl
Direction-cases skips = inr (inl refl)
Direction-cases returns_nil = inr (inr refl)

module _ (ec : ElectricalConnectionCommon) (direction : Option Name)
    (phases : Option (List Name)) where
  values : List MeasurementData → Result (Option (List ℤ))
  values items = phase_values ec direction phases items

  -- An item is skipped, or its value comes first.
  IsTurn : MeasurementData → List MeasurementData → List ℤ → Type 0
  IsTurn item items vs =
      (values items ≡ ok (some vs))
      ⊎ ((v : ℤ) × (ws : List ℤ) × (vs ≡ v ∷ ws) × IsValid v item × (values items ≡ ok (some ws)))

  turn :
      (item : MeasurementData) (items : List MeasurementData) (vs : List ℤ)
      → values (item ∷ items) ≡ ok (some vs)
      → IsTurn item items vs
  unfolding values IsTurn phase_values
  turn item items vs h = elim (Option-cases item.value) [
    | inl n ↦ inl (ground (arith, h, n))
    | inr (v, e) ↦ elim (Option-cases item.measurement_id) [
      | inl n ↦ inl (ground (arith, h, e, n))
      | inr (id, e2) ↦ elim (Bool-cases (has_valid_phase ec phases id)) [
        | inr n ↦ inl (ground (arith, h, e, e2, n))
        | inl e3 ↦ elim (Direction-cases (check_direction ec direction id)) [
          | inr (inl n) ↦ inl (ground (arith, h, e, e2, e3, n))
          | inr (inr n) ↦ absurd (ground (arith, h, e, e2, e3, n))
          | inl e4 ↦
              elim (Bool-cases (is_some item.value_state && not (holds item.value_state normal))) [
                | inl n ↦ absurd (ground (arith, h, e, e2, e3, e4, n))
                | inr e5 ↦ elim (Result-cases (phase_values ec direction phases items)) [
                  | inr n ↦ absurd (ground (arith, h, e, e2, e3, e4, e5, n))
                  | inl (rest, e6) ↦ elim (Option-cases rest) [
                    | inl n ↦ absurd (ground (arith, h, e, e2, e3, e4, e5, e6, n))
                    | inr (ws, e7) ↦ inr (
                      v,
                      ws,
                      ground (arith, h, e, e2, e3, e4, e5, e6, e7),
                      (e, state_of_check item e5),
                      ground (arith, e6, e7),
                    )
                  ]
                ]
              ]
        ]
      ]
    ]
  ]

  values_lem :
      (items : List MeasurementData) (vs : List ℤ)
      → values items ≡ ok (some vs)
      → All (λ v. Any (IsValid v) items) vs
  unfolding values IsTurn phase_values
  values_lem [] [] h = tt
  values_lem [] (v ∷ vs) h = cc
  values_lem (item ∷ items) vs h = elim (turn item items vs h) [
    | inl e ↦ later item items vs (values_lem items vs e)
    | inr (v, ws, e, valid, rest) ↦ rw e (inl valid, later item items ws (values_lem items ws rest))
  ]

module _ (m : MeasurementFeature) (filter : MeasurementDescription) where
  readings :
      (items : List MeasurementData)
      → get_data_for_filter (new_remote m) filter ≡ ok items
      → (vs : List ℤ) → All (λ v. Any (IsValid v) items) vs
      → All (IsReading m filter) vs
  readings items found [] h = tt
  readings items found (v ∷ vs) h = ((items, found, h.0), readings items found vs h.1)

  -- What is read by phase.
  pub values_of_phases-IsReading :
      (r : Remote) (direction : Option Name) (phases : Option (List Name)) (vs : List ℤ)
      → r.measurement ≡ some m
      → values_of_phases r filter direction phases ≡ ok vs
      → All (IsReading m filter) vs
  unfolding measurement_phase_specific_data_for_filter values
  values_of_phases-IsReading r direction phases vs has h =
      elim (Option-cases r.remote_data.electrical_connection) [
        | inl n ↦ absurd (ground (arith, has, h, n))
        | inr (ec, e) ↦ elim (Result-cases (get_data_for_filter (new_remote m) filter)) [
          | inr n ↦ absurd (ground (arith, has, h, e, n))
          | inl (items, e2) ↦ go ec e items e2
        ]
      ]
    where
      go :
          (ec : ElectricalConnectionFeature)
          → r.remote_data.electrical_connection ≡ some ec
          → (items : List MeasurementData) → get_data_for_filter (new_remote m) filter ≡ ok items
          → All (IsReading m filter) vs
      go ec e [] e2 = absurd (ground (arith, has, h, e, e2))
      go ec e (x ∷ xs) e2 =
          elim (Result-cases (phase_values (new_remote ec) direction phases (x ∷ xs))) [
            | inr n ↦ absurd (ground (arith, has, h, e, e2, n))
            | inl (o, e3) ↦ elim (Option-cases o) [
              | inl n ↦
                  let none_read : vs ≡ [] = ground (arith, has, h, e, e2, e3, n) in rw none_read tt
              | inr (ws, e4) ↦
                  let read : vs ≡ ws = ground (arith, has, h, e, e2, e3, e4) in
                  rw read (
                    readings (x ∷ xs) e2 ws (
                      values_lem (new_remote ec) direction phases (x ∷ xs) ws
                        (ground (arith, e3, e4))))
            ]
          ]

  pub single-IsReading :
      (read : Result (List ℤ)) (v : ℤ)
      → ((vs : List ℤ) → read ≡ ok vs → All (IsReading m filter) vs)
      → single read ≡ ok v
      → IsReading m filter v
  single-IsReading (ok []) v all h = cc
  single-IsReading (ok (x ∷ [])) v all h =
      let e : v ≡ x = ground (arith, h) in rw e (all (x ∷ []) refl).0
  single-IsReading (ok (x ∷ y ∷ l)) v all h = cc
  single-IsReading (err e) v all h = cc
  single-IsReading panic v all h = cc

  -- What is read as the first value, where the state is checked.
  pub first_value-IsReading :
      (failure : Error) (feature : Option MeasurementFeature) (v : ℤ)
      → feature ≡ some m
      → first_value true failure feature filter ≡ ok v
      → IsReading m filter v
  unfolding first_value
  first_value-IsReading failure feature v has h =
      elim (Result-cases (get_data_for_filter (new_remote m) filter)) [
        | inr n ↦ absurd (ground (arith, has, h, n))
        | inl (items, e) ↦ go items e
      ]
    where
      go :
          (items : List MeasurementData)
          → get_data_for_filter (new_remote m) filter ≡ ok items
          → IsReading m filter v
      go [] e = absurd (ground (arith, has, h, e))
      go (x ∷ xs) e = elim (Option-cases x.value) [
        | inl n ↦ absurd (ground (arith, has, h, e, n))
        | inr (w, e2) ↦
            elim (Bool-cases (is_some x.value_state && not (holds x.value_state normal))) [
              | inl n ↦ absurd (ground (arith, has, h, e, e2, n))
              | inr e3 ↦ (x ∷ xs, e, inl (ground (arith, has, h, e, e2, e3), state_of_check x e3))
            ]
      ]

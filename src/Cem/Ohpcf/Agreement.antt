-- ===== src/Cem/Ohpcf/Agreement.antt =====
-- The info of an optional power consumption, the single reads, and the writes that rest on it.
use eebus_go.Prelude.{
  ℕ, is_some, is_set, Bool, Option-cases, ◌≡◌, ◌↔◌, refl, ◌∙◌, ap, inl, inr, true, ◌||◌, Option,
  none, some, List, [], ◌∷◌, arith,
}
use eebus_go.Prelude.Int.{ℤ}
use eebus_go.Spine.{SequenceState, SlotValue, TimeSlot, Interrupt, PowerSequence}
use eebus_go.Errors.{Result, ok, err, panic, Result-cases}
use eebus_go.UseCase.Remote.{RemoteEntity}
use eebus_go.UseCase.Base.{UseCaseBase}
use eebus_go.Cem.Ohpcf.{
  RemoteCompressor, present, parsed, is_startable, process_state_of, check_entity_type_and_get_data,
  optional_power_consumption_available, consumption_is_stoppable, consumption_is_pausable,
  power_consumption_process_start_time, power_consumption_process_state,
}
use eebus_go.Cem.Ohpcf.Info.{
  Info, read_powers, parsed_start_time, info_of_slots, info_of_sequence, optional_power_consumption,
}

-- The info is the one of a sequence.
abbrev pub IsInfoOf : PowerSequence → Info → Type 0
IsInfoOf s info =
    (s.sequence_id ≡ some info.power_sequence_id)
    × (s.state ≡ some info.state)
    × ((i : Interrupt) × (s.interrupt ≡ some i)
        × (is_set i.is_pausable ≡ info.is_pausable)
        × (is_set i.is_stoppable ≡ info.is_stoppable))
    × (parsed_start_time s.start_time ≡ info.start_time)
    × ((is_some info.power || is_some info.max_power) ≡ true)

module _ (of_nil : Result ℤ) (s : PowerSequence) (info : Info) where
  module _ (id : ℕ) (state : SequenceState) (i : Interrupt) (has_id : s.sequence_id ≡ some id)
      (has_state : s.state ≡ some state) (has_interrupt : s.interrupt ≡ some i) where
    built-IsInfoOf :
        (power max_power : Option ℤ)
        → info ≡ record {
          power_sequence_id = id;
          power = power;
          max_power = max_power;
          state = state;
          is_pausable = is_set i.is_pausable;
          is_stoppable = is_set i.is_stoppable;
          start_time = parsed_start_time s.start_time;
        }
        → (is_some power || is_some max_power) ≡ true
        → IsInfoOf s info
    built-IsInfoOf power max_power e h =
        rw e (has_id, has_state, (i, has_interrupt, refl, refl), refl, h)

    powers-IsInfoOf :
        (slot : TimeSlot) (slots : List TimeSlot) (x : SlotValue) (xs : List SlotValue)
        (r : Result (Option ℤ × Option ℤ))
        → s.slots ≡ slot ∷ slots
        → slot.value_list ≡ some (x ∷ xs)
        → read_powers of_nil (x ∷ xs) none none ≡ r
        → info_of_slots of_nil s id state i ≡ ok info
        → IsInfoOf s info
    unfolding info_of_slots
    powers-IsInfoOf slot slots x xs (ok (none, none)) e e2 e3 h =
        absurd (ground (arith, e, e2, e3, h))
    powers-IsInfoOf slot slots x xs (ok (none, some m)) e e2 e3 h =
        built-IsInfoOf none (some m) (ground (arith, e, e2, e3, h)) refl
    powers-IsInfoOf slot slots x xs (ok (some p, none)) e e2 e3 h =
        built-IsInfoOf (some p) none (ground (arith, e, e2, e3, h)) refl
    powers-IsInfoOf slot slots x xs (ok (some p, some m)) e e2 e3 h =
        built-IsInfoOf (some p) (some m) (ground (arith, e, e2, e3, h)) refl
    powers-IsInfoOf slot slots x xs (err y) e e2 e3 h = absurd (ground (arith, e, e2, e3, h))
    powers-IsInfoOf slot slots x xs panic e e2 e3 h = absurd (ground (arith, e, e2, e3, h))

    slots-IsInfoOf :
        (slots : List TimeSlot)
        → s.slots ≡ slots
        → info_of_slots of_nil s id state i ≡ ok info
        → IsInfoOf s info
    unfolding info_of_slots
    slots-IsInfoOf [] e h = absurd (ground (arith, e, h))
    slots-IsInfoOf (slot ∷ slots) e h = go slot.value_list refl
      where
        go : (values : Option (List SlotValue)) → slot.value_list ≡ values → IsInfoOf s info
        go none e2 = absurd (ground (arith, e, e2, h))
        go (some []) e2 = absurd (ground (arith, e, e2, h))
        go (some (x ∷ xs)) e2 = powers-IsInfoOf slot slots x xs _ e e2 refl h

  info_of_sequence-IsInfoOf : info_of_sequence of_nil s ≡ ok info → IsInfoOf s info
  unfolding info_of_sequence
  info_of_sequence-IsInfoOf h = elim (Option-cases s.sequence_id) [
    | inl n ↦ absurd (ground (arith, h, n))
    | inr (id, e) ↦ elim (Option-cases s.state) [
      | inl n ↦ absurd (ground (arith, h, e, n))
      | inr (state, e2) ↦ elim (Option-cases s.interrupt) [
        | inl n ↦ absurd (ground (arith, h, e, e2, n))
        | inr (i, e3) ↦
            slots-IsInfoOf id state i e e2 e3 s.slots refl (ground (arith, h, e, e2, e3))
      ]
    ]
  ]

read_iff :
    {A : Type 0} {P : Type 0} {r r' : Result A} {a : A}
    → (P ↔ (r ≡ ok a))
    → r' ≡ r
    → (P ↔ (r' ≡ ok a))
read_iff h e = rw e h

flag_iff : (o : Option Bool) (b : Bool) → is_set o ≡ b → ((b ≡ true) ↔ (present o ≡ ok true))
flag_iff none b e = ((λ h. absurd (ground (arith, e, h))), (λ h. absurd (ground (arith, h))))
flag_iff (some c) b e = ((λ h. ground (arith, e, h)), (λ h. ground (arith, e, h)))

time_iff :
    (o : Option (Option ℤ)) (time : Option ℤ) (t : ℤ)
    → parsed_start_time o ≡ time
    → ((time ≡ some t) ↔ (parsed o ≡ ok t))
time_iff none time t e = ((λ h. absurd (ground (arith, e, h))), (λ h. absurd (ground (arith, h))))
time_iff (some none) time t e =
    ((λ h. absurd (ground (arith, e, h))), (λ h. absurd (ground (arith, h))))
time_iff (some (some t')) time t e = ((λ h. ground (arith, e, h)), (λ h. ground (arith, e, h)))

module _ (of_nil : Result ℤ) (u : UseCaseBase) (remotes : RemoteEntity → RemoteCompressor)
    (entity : Option RemoteEntity) (info : Info) where
  -- The data are one alternative with one sequence, and the info is the one of the sequence.
  pub info_sequence :
      optional_power_consumption of_nil u remotes entity ≡ ok info
      → (s : PowerSequence) × (check_entity_type_and_get_data u remotes entity
          ≡ ok (record { alternatives = (s ∷ []) ∷ [] }))
        × IsInfoOf s info
  unfolding optional_power_consumption
  info_sequence h = elim (Result-cases (check_entity_type_and_get_data u remotes entity)) [
    | inr n ↦ absurd (ground (arith, h, n))
    | inl (d, e) ↦ go d.alternatives (e ∙ ap ok refl)
  ]
    where
      go :
          (alternatives : List (List PowerSequence))
          → check_entity_type_and_get_data u remotes entity
            ≡ ok (record { alternatives = alternatives })
          → (s : PowerSequence) × (check_entity_type_and_get_data u remotes entity
              ≡ ok (record { alternatives = (s ∷ []) ∷ [] }))
            × IsInfoOf s info
      go [] e = absurd (ground (arith, h, e))
      go ([] ∷ []) e = absurd (ground (arith, h, e))
      go ((s ∷ []) ∷ []) e = (s, e, info_of_sequence-IsInfoOf of_nil s info (ground (arith, h, e)))
      go ((s ∷ t ∷ l) ∷ []) e = absurd (ground (arith, h, e))
      go ([] ∷ b ∷ l) e = absurd (ground (arith, h, e))
      go ((s ∷ []) ∷ b ∷ l) e = absurd (ground (arith, h, e))
      go ((s ∷ t ∷ k) ∷ b ∷ l) e = absurd (ground (arith, h, e))

  -- Where OptionalPowerConsumption returns an info, the single reads agree with it: the process
  -- state is the one of its state, the consumption is available exactly if that is inactive or
  -- scheduled, it is marked as pausable, or stoppable, exactly if the read returns true, it has a
  -- start time exactly if the read returns this time, and it has a power or a maximum.
  pub optional_power_consumption_agrees :
      optional_power_consumption of_nil u remotes entity ≡ ok info
      → (power_consumption_process_state u remotes entity ≡ process_state_of info.state)
        × (optional_power_consumption_available u remotes entity ≡ ok (is_startable info.state))
        × ((info.is_pausable ≡ true) ↔ (consumption_is_pausable u remotes entity ≡ ok true))
        × ((info.is_stoppable ≡ true) ↔ (consumption_is_stoppable u remotes entity ≡ ok true))
        × ((t : ℤ)
            → (info.start_time ≡ some t)
              ↔ (power_consumption_process_start_time u remotes entity ≡ ok t))
        × ((is_some info.power || is_some info.max_power) ≡ true)
  unfolding power_consumption_process_state optional_power_consumption_available
      consumption_is_pausable consumption_is_stoppable power_consumption_process_start_time
  optional_power_consumption_agrees h =
      let (s, found, of_info) = info_sequence h in
      let (has_id, has_state, (i, has_interrupt, pausable, stoppable), start, power) = of_info in
      (
        ground (arith, found, has_state),
        ground (arith, found, has_state),
        read_iff (flag_iff i.is_pausable info.is_pausable pausable)
            (ground (arith, found, has_interrupt)),
        read_iff (flag_iff i.is_stoppable info.is_stoppable stoppable)
            (ground (arith, found, has_interrupt)),
        (λ t. read_iff (time_iff s.start_time info.start_time t start) (ground (arith, found))),
        power,
      )

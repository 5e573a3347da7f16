-- ===== src/Cem/Ohpcf/Writing.antt =====
-- What the writes of the optimization by a heat pump compressor send.
use eebus_go.Prelude.{
  Bool-cases, Option-cases, ℕ, ◌≡◌, refl, inl, inr, some, none, [], ◌∷◌, arith, Option,
}
use eebus_go.Prelude.Int.{ℤ}
use eebus_go.Spine.{running, paused, invalid, PowerSequence, EnergyData, empty_sequence}
use eebus_go.Errors.{Result, ok, err, panic}
use eebus_go.UseCase.Remote.{RemoteEntity}
use eebus_go.UseCase.Base.{UseCaseBase, is_compatible_entity_type}
use eebus_go.Cem.Ohpcf.{RemoteCompressor, check_entity_type_and_get_data}
use eebus_go.Cem.Ohpcf.Info.{Info, optional_power_consumption}
use eebus_go.Cem.Ohpcf.Agreement.{info_sequence}
use eebus_go.Cem.Ohpcf.Commands.{
  EnergyCommand, partial_write, data_of, write_energy_management_data, write_for_sequence,
  scheduled_sequence, sequence_in_state, schedule_power_consumption_process,
  abort_power_consumption_process, pause_power_consumption_process,
  resume_power_consumption_process,
}

module _ (of_nil : Result ℤ) (u : UseCaseBase) (remotes : RemoteEntity → RemoteCompressor)
    (entity : Option RemoteEntity) where
  -- The remote offers one sequence, with an id, and `change` of a sequence with this id is sent.
  abbrev pub IsSentFor : Result EnergyCommand → (PowerSequence → PowerSequence) → Type 0
  IsSentFor result change =
      (s : PowerSequence) × (check_entity_type_and_get_data u remotes entity
        ≡ ok (record { alternatives = (s ∷ []) ∷ [] }))
      × ((id : ℕ) × (s.sequence_id ≡ some id)
          × (result
              ≡ ok (
                  partial_write
                    (data_of (change (record empty_sequence { sequence_id = some id }))))))

  -- A command is sent where the info can be read; else its error comes back.
  abbrev pub Follows : Result Info → Result EnergyCommand → (PowerSequence → PowerSequence) → Type 0
  Follows (ok info) result change = IsSentFor result change
  Follows (err e) result change = result ≡ err e
  Follows panic result change = result ≡ panic

  write-data_of :
      (d d' : EnergyData)
      → check_entity_type_and_get_data u remotes entity ≡ ok d'
      → write_energy_management_data u remotes entity d ≡ ok (partial_write d)
  unfolding write_energy_management_data check_entity_type_and_get_data
  write-data_of d d' h = go entity refl
    where
      go :
          (o : Option RemoteEntity)
          → entity ≡ o
          → write_energy_management_data u remotes entity d ≡ ok (partial_write d)
      go none e = absurd (ground (arith, h, e))
      go (some x) e = elim (Bool-cases (is_compatible_entity_type u (some x))) [
        | inr n ↦ absurd (ground (arith, h, e, n))
        | inl y ↦ elim (Option-cases (remotes x).client) [
          | inl n ↦ absurd (ground (arith, h, e, y, n))
          | inr (c, e2) ↦ ground (arith, e, y, e2)
        ]
      ]

  write_for_sequence-Follows :
      (sequence : Info → PowerSequence) (change : PowerSequence → PowerSequence) (r : Result Info)
      → optional_power_consumption of_nil u remotes entity ≡ r
      → ((info : Info)
          → sequence info
            ≡ change (record empty_sequence { sequence_id = some info.power_sequence_id }))
      → Follows r (write_for_sequence sequence of_nil u remotes entity) change
  unfolding write_for_sequence
  write_for_sequence-Follows sequence change (err x) e same = ground (arith, e)
  write_for_sequence-Follows sequence change panic e same = ground (arith, e)
  write_for_sequence-Follows sequence change (ok info) e same =
      let (s, found, of_info) = info_sequence of_nil u remotes entity info e in
      let sent =
        write-data_of (data_of (sequence info)) (record { alternatives = (s ∷ []) ∷ [] }) found in
      let shape : sequence info
          ≡ change (record empty_sequence { sequence_id = some info.power_sequence_id }) =
        same info in
      (s, found, (info.power_sequence_id, of_info.0, ground (arith, e, sent, shape)))

  -- Scheduling, aborting, pausing and resuming each send one partial write where
  -- OptionalPowerConsumption returns an info, and return its error where it does not: the remote
  -- then offers exactly one sequence, and what is written is its id with the new start time, or with
  -- the state invalid, paused or running, and nothing else.
  pub ohpcf_writes_follow :
      (relative : ℤ → Option ℤ) (start_in : ℤ)
      → let read = optional_power_consumption of_nil u remotes entity in
        Follows read
          (schedule_power_consumption_process of_nil u remotes entity relative start_in)
          (λ s. record s { start_time = some (relative start_in) })
        × Follows read
            (abort_power_consumption_process of_nil u remotes entity)
            (λ s. record s { state = some invalid })
        × Follows read
            (pause_power_consumption_process of_nil u remotes entity)
            (λ s. record s { state = some paused })
        × Follows read
            (resume_power_consumption_process of_nil u remotes entity)
            (λ s. record s { state = some running })
  unfolding schedule_power_consumption_process abort_power_consumption_process
      pause_power_consumption_process resume_power_consumption_process
  ohpcf_writes_follow relative start_in = (
    write_for_sequence-Follows (scheduled_sequence relative start_in) _ _ refl (λ info. refl),
    write_for_sequence-Follows (sequence_in_state invalid) _ _ refl (λ info. refl),
    write_for_sequence-Follows (sequence_in_state paused) _ _ refl (λ info. refl),
    write_for_sequence-Follows (sequence_in_state running) _ _ refl (λ info. refl),
  )

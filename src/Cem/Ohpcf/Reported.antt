-- ===== src/Cem/Ohpcf/Reported.antt =====
-- Which reads follow a report of the optimization by a heat pump compressor.
use eebus_go.Prelude.{
  if◌then◌else◌, is_some, All, All-append, Bool-cases, Option-cases, ◌≡◌, ◌≢◌, refl, inl, inr, true,
  false, Bool, Option, none, some, List, [], ◌∷◌, ◌++◌, map, arith,
}
use eebus_go.Prelude.Int.{ℤ}
use eebus_go.Spine.{
  SlotValueType, slot_power, slot_power_max, other_type, SlotValue, SequenceState, inactive,
  scheduled, running, paused, scheduled_paused, pending, completed, invalid, other_state, Interrupt,
  PowerSequence, EnergyData, energy_management_data,
}
use eebus_go.Errors.{Result, ok, err, data_not_available}
use eebus_go.Features.Requests.{Call}
use eebus_go.UseCase.Remote.{RemoteEntity, EventPayload}
use eebus_go.UseCase.Base.{UseCaseBase, is_compatible_entity_type}
use eebus_go.UseCase.Events.{is_entity_added}
use eebus_go.Internal.Clients.{ClientEffect, call, report}
use eebus_go.Cem.Ohpcf.{
  EnergyClient, RemoteCompressor, same_type, power_in, slot_values, parsed, present,
  process_state_of, check_entity_type_and_get_data, power_of_type, requested_power_estimate,
  requested_power_max, consumption_is_stoppable, consumption_is_pausable,
  power_consumption_process_start_time, power_consumption_process_state,
  power_consumption_minimal_run_duration, power_consumption_minimal_pause_duration,
}
use eebus_go.Cem.Ohpcf.Events.{
  OhpcfEvent, power_estimate_updated, power_max_updated, is_stoppable_updated, is_pausable_updated,
  start_time_updated, consumption_state_updated, minimal_run_duration_updated,
  minimal_pause_duration_updated, value_events, event_if, interrupt_events, sequence_events,
  data_events, load_energy_management_data, ohpcf_connected, ohpcf_handle_data, ohpcf_handle_event,
}

-- A read does not come back with ErrDataNotAvailable.
abbrev pub Answers : {A : Type 0} → Result A → Type 0
Answers r = r ≢ err data_not_available

-- The read that belongs to an event, at a sequence.
abbrev Shows : PowerSequence → OhpcfEvent → Type 0
Shows s power_estimate_updated = Answers (power_in slot_power (slot_values s.slots))
Shows s power_max_updated = Answers (power_in slot_power_max (slot_values s.slots))
Shows s is_stoppable_updated =
    Answers (elim s.interrupt [ none ↦ err data_not_available | some i ↦ present i.is_stoppable ])
Shows s is_pausable_updated =
    Answers (elim s.interrupt [ none ↦ err data_not_available | some i ↦ present i.is_pausable ])
Shows s start_time_updated = Answers (parsed s.start_time)
Shows s consumption_state_updated =
    Answers (elim s.state [ none ↦ err data_not_available | some state ↦ process_state_of state ])
Shows s minimal_run_duration_updated = Answers (parsed s.active_duration_min)
Shows s minimal_pause_duration_updated = Answers (parsed s.pause_duration_min)

-- The events of values, at a list of values.
abbrev ShowsValue : List SlotValue → OhpcfEvent → Type 0
ShowsValue xs power_estimate_updated = Answers (power_in slot_power xs)
ShowsValue xs power_max_updated = Answers (power_in slot_power_max xs)
ShowsValue xs _ = ⊥

power_in_later :
    (type : SlotValueType) (x : SlotValue) (xs : List SlotValue)
    → Answers (power_in type xs)
    → Answers (power_in type (x ∷ xs))
unfolding power_in
power_in_later type x xs h e = elim (Option-cases x.value) [
  | inl n ↦ h (ground (arith, e, n))
  | inr (v, e2) ↦ elim (Option-cases x.value_type) [
    | inl n ↦ h (ground (arith, e, e2, n))
    | inr (t, e3) ↦ elim (Bool-cases (same_type t type)) [
      | inl e4 ↦ absurd (ground (arith, e, e2, e3, e4))
      | inr e4 ↦ h (ground (arith, e, e2, e3, e4))
    ]
  ]
]

ShowsValue-later :
    (x : SlotValue) (xs : List SlotValue) (events : List OhpcfEvent)
    → All (ShowsValue xs) events
    → All (ShowsValue (x ∷ xs)) events
ShowsValue-later x xs [] h = tt
ShowsValue-later x xs (power_estimate_updated ∷ l) h =
    (power_in_later slot_power x xs h.0, ShowsValue-later x xs l h.1)
ShowsValue-later x xs (power_max_updated ∷ l) h =
    (power_in_later slot_power_max x xs h.0, ShowsValue-later x xs l h.1)
ShowsValue-later x xs (_ ∷ l) h = absurd h.0

value_events-ShowsValue : (xs : List SlotValue) → All (ShowsValue xs) (value_events xs)
unfolding value_events power_in
value_events-ShowsValue [] = tt
value_events-ShowsValue (x ∷ xs) =
    go (ShowsValue-later x xs (value_events xs) (value_events-ShowsValue xs)) x.value x.value_type
      refl refl
  where
    go :
        All (ShowsValue (x ∷ xs)) (value_events xs)
        → (value : Option ℤ) (type : Option SlotValueType) → x.value ≡ value
        → x.value_type ≡ type
        → All (ShowsValue (x ∷ xs)) (value_events (x ∷ xs))
    go ih none type e e2 = simp (e) ih
    go ih (some v) none e e2 = simp (e, e2) ih
    go ih (some v) (some slot_power) e e2 = simp (e, e2) ((λ h. cc), ih)
    go ih (some v) (some slot_power_max) e e2 = simp (e, e2) ((λ h. cc), ih)
    go ih (some v) (some (other_type n)) e e2 = simp (e, e2) ih

Shows-ShowsValue :
    (s : PowerSequence) (events : List OhpcfEvent)
    → All (ShowsValue (slot_values s.slots)) events
    → All (Shows s) events
Shows-ShowsValue s [] h = tt
Shows-ShowsValue s (power_estimate_updated ∷ l) h = (h.0, Shows-ShowsValue s l h.1)
Shows-ShowsValue s (power_max_updated ∷ l) h = (h.0, Shows-ShowsValue s l h.1)
Shows-ShowsValue s (_ ∷ l) h = absurd h.0

present-Answers : {A : Type 0} (o : Option A) → is_some o ≡ true → Answers (present o)
present-Answers none h e = cc
present-Answers (some a) h e = cc

parsed-Answers : (o : Option (Option ℤ)) → is_some o ≡ true → Answers (parsed o)
parsed-Answers none h e = cc
parsed-Answers (some none) h e = cc
parsed-Answers (some (some t)) h e = cc

process_state_of-Answers : (state : SequenceState) → Answers (process_state_of state)
process_state_of-Answers inactive h = cc
process_state_of-Answers scheduled h = cc
process_state_of-Answers running h = cc
process_state_of-Answers paused h = cc
process_state_of-Answers scheduled_paused h = cc
process_state_of-Answers pending h = cc
process_state_of-Answers completed h = cc
process_state_of-Answers invalid h = cc
process_state_of-Answers (other_state n) h = cc

-- An event that stands under a test.
event_if-Shows :
    (s : PowerSequence) (test : Bool) (event : OhpcfEvent)
    → (test ≡ true → Shows s event)
    → All (Shows s) (event_if test event)
event_if-Shows s true event h = (h refl, tt)
event_if-Shows s false event h = tt

join :
    (s : PowerSequence) (xs ys : List OhpcfEvent)
    → All (Shows s) xs
    → All (Shows s) ys
    → All (Shows s) (xs ++ ys)
join s = All-append (Shows s)

interrupt_events-Shows :
    (s : PowerSequence) (o : Option Interrupt)
    → s.interrupt ≡ o
    → All (Shows s) (interrupt_events o)
interrupt_events-Shows s none e = tt
interrupt_events-Shows s (some i) e =
    join s (event_if (is_some i.is_stoppable) is_stoppable_updated) _
      (event_if-Shows s (is_some i.is_stoppable) is_stoppable_updated
        (λ h. simp (e) (present-Answers i.is_stoppable h)))
      (event_if-Shows s (is_some i.is_pausable) is_pausable_updated
        (λ h. simp (e) (present-Answers i.is_pausable h)))

state-Shows :
    (s : PowerSequence) (o : Option SequenceState)
    → s.state ≡ o
    → is_some s.state ≡ true
    → Shows s consumption_state_updated
state-Shows s none e h = absurd (ground (arith, e, h))
state-Shows s (some state) e h = simp (e) (process_state_of-Answers state)

sequence_events-Shows : (s : PowerSequence) → All (Shows s) (sequence_events s)
unfolding sequence_events
sequence_events-Shows s =
    join s _ (event_if (is_some s.pause_duration_min) minimal_pause_duration_updated)
      (join s _ (event_if (is_some s.active_duration_min) minimal_run_duration_updated)
        (join s _ (event_if (is_some s.state) consumption_state_updated)
          (join s _ (event_if (is_some s.start_time) start_time_updated)
            (join s (value_events (slot_values s.slots)) (interrupt_events s.interrupt)
              (Shows-ShowsValue s (value_events (slot_values s.slots))
                (value_events-ShowsValue (slot_values s.slots)))
              (interrupt_events-Shows s s.interrupt refl))
            (event_if-Shows s (is_some s.start_time) start_time_updated
              (parsed-Answers s.start_time)))
          (event_if-Shows s (is_some s.state) consumption_state_updated
            (state-Shows s s.state refl)))
        (event_if-Shows s (is_some s.active_duration_min) minimal_run_duration_updated
          (parsed-Answers s.active_duration_min)))
      (event_if-Shows s (is_some s.pause_duration_min) minimal_pause_duration_updated
        (parsed-Answers s.pause_duration_min))

module _ (u : UseCaseBase) (remotes : RemoteEntity → RemoteCompressor) (e : RemoteEntity) where
  -- The read that an event stands for, of the entity.
  abbrev pub HasReading : OhpcfEvent → Type 0
  HasReading power_estimate_updated = Answers (requested_power_estimate u remotes (some e))
  HasReading power_max_updated = Answers (requested_power_max u remotes (some e))
  HasReading is_stoppable_updated = Answers (consumption_is_stoppable u remotes (some e))
  HasReading is_pausable_updated = Answers (consumption_is_pausable u remotes (some e))
  HasReading start_time_updated = Answers (power_consumption_process_start_time u remotes (some e))
  HasReading consumption_state_updated =
      Answers (power_consumption_process_state u remotes (some e))
  HasReading minimal_run_duration_updated =
      Answers (power_consumption_minimal_run_duration u remotes (some e))
  HasReading minimal_pause_duration_updated =
      Answers (power_consumption_minimal_pause_duration u remotes (some e))

  -- What is reported can be read; a call is no report.
  abbrev pub IsReadable : ClientEffect OhpcfEvent → Type 0
  IsReadable (call c) = Unit
  IsReadable (report event payload) = HasReading event

  calls-IsReadable : (calls : List Call) → All IsReadable (map call calls)
  calls-IsReadable [] = tt
  calls-IsReadable (c ∷ cs) = (tt, calls-IsReadable cs)

  reports-IsReadable :
      (payload : EventPayload) (events : List OhpcfEvent)
      → All HasReading events
      → All IsReadable (map (λ event. report event payload) events)
  reports-IsReadable payload [] h = tt
  reports-IsReadable payload (x ∷ xs) h = (h.0, reports-IsReadable payload xs h.1)

  HasReading-Shows :
      (s : PowerSequence) (events : List OhpcfEvent)
      → check_entity_type_and_get_data u remotes (some e)
        ≡ ok (record { alternatives = (s ∷ []) ∷ [] })
      → All (Shows s) events
      → All HasReading events
  unfolding requested_power_estimate requested_power_max power_of_type consumption_is_stoppable
      consumption_is_pausable power_consumption_process_start_time power_consumption_process_state
      power_consumption_minimal_run_duration power_consumption_minimal_pause_duration
  HasReading-Shows s [] found h = tt
  HasReading-Shows s (power_estimate_updated ∷ l) found h =
      (rw found h.0, HasReading-Shows s l found h.1)
  HasReading-Shows s (power_max_updated ∷ l) found h =
      (rw found h.0, HasReading-Shows s l found h.1)
  HasReading-Shows s (is_stoppable_updated ∷ l) found h =
      (rw found h.0, HasReading-Shows s l found h.1)
  HasReading-Shows s (is_pausable_updated ∷ l) found h =
      (rw found h.0, HasReading-Shows s l found h.1)
  HasReading-Shows s (start_time_updated ∷ l) found h =
      (rw found h.0, HasReading-Shows s l found h.1)
  HasReading-Shows s (consumption_state_updated ∷ l) found h =
      (rw found h.0, HasReading-Shows s l found h.1)
  HasReading-Shows s (minimal_run_duration_updated ∷ l) found h =
      (rw found h.0, HasReading-Shows s l found h.1)
  HasReading-Shows s (minimal_pause_duration_updated ∷ l) found h =
      (rw found h.0, HasReading-Shows s l found h.1)

  data_events-HasReading :
      (alternatives : List (List PowerSequence))
      → check_entity_type_and_get_data u remotes (some e)
        ≡ ok (record { alternatives = alternatives })
      → All HasReading (data_events alternatives)
  unfolding data_events power_consumption_process_state
  data_events-HasReading [] found = ((λ h. ground (arith, found, h)), tt)
  data_events-HasReading ([] ∷ []) found = tt
  data_events-HasReading ((s ∷ []) ∷ []) found =
      HasReading-Shows s (sequence_events s) found (sequence_events-Shows s)
  data_events-HasReading ((s ∷ t ∷ l) ∷ []) found = tt
  data_events-HasReading ([] ∷ b ∷ l) found = tt
  data_events-HasReading ((s ∷ []) ∷ b ∷ l) found = tt
  data_events-HasReading ((s ∷ t ∷ k) ∷ b ∷ l) found = tt

  load-IsReadable :
      (payload : EventPayload) (d : EnergyData)
      → check_entity_type_and_get_data u remotes (some e) ≡ ok d
      → All IsReadable (load_energy_management_data u payload d)
  unfolding load_energy_management_data
  load-IsReadable payload d found = elim (Bool-cases u.event_cb) [
    | inl y ↦ simp (y) (
        reports-IsReadable payload (data_events d.alternatives)
          (data_events-HasReading d.alternatives found))
    | inr n ↦ simp (n) tt
  ]

  connect-IsReadable :
      (added : Bool) (calls : List Call) → All IsReadable (if added then map call calls else [])
  connect-IsReadable true calls = calls-IsReadable calls
  connect-IsReadable false calls = tt

  -- Where the copy of the data of a compatible entity is the data of a payload, every report of the
  -- payload can be followed by its read, which does not come back with ErrDataNotAvailable. (A time
  -- that does not parse, or a state that is not supported, is an error of its own.)
  pub ohpcf_reports-IsReadable :
      (payload : EventPayload) (d : EnergyData) (c : EnergyClient)
      → payload.entity ≡ some e
      → payload.content ≡ energy_management_data d
      → is_compatible_entity_type u (some e) ≡ true
      → (remotes e).client ≡ some c
      → c.copy ≡ some d
      → All IsReadable (ohpcf_handle_event u remotes payload)
  unfolding ohpcf_handle_event ohpcf_handle_data check_entity_type_and_get_data
  ohpcf_reports-IsReadable payload d c from content compatible has_client has_copy =
      let found : check_entity_type_and_get_data u remotes (some e) ≡ ok d =
        ground (arith, compatible, has_client, has_copy) in
      let shape : ohpcf_handle_event u remotes payload
          ≡ (if is_entity_added payload then map call (ohpcf_connected (remotes e)) else [])
            ++ load_energy_management_data u payload d =
        ground (arith, from, content, compatible) in
      rw shape (
        All-append IsReadable
          (if is_entity_added payload then map call (ohpcf_connected (remotes e)) else [])
          (load_energy_management_data u payload d)
          (connect-IsReadable (is_entity_added payload) (ohpcf_connected (remotes e)))
          (load-IsReadable payload d found))

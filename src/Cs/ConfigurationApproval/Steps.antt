-- ===== src/Cs/ConfigurationApproval/Steps.antt =====
-- A configuration write and the decisions on it.
use eebus_go.Prelude.{
  ℕ, String, if◌then◌else◌, Bool, true, false, ◌≡◌, refl, ◌∙◌, none, some, [], ◌∷◌, arith,
}
use eebus_go.Prelude.Assoc.{lookup, insert, erase, lookup-erase, lookup-insert}
use eebus_go.Spine.{Message}
use eebus_go.Errors.{ok}
use eebus_go.Internal.Configuration.{counter_of, configuration_write_requires_approval}
use eebus_go.Cs.State.{
  Variant, answer_configuration, Limitation, call_event_cb, configuration_write_approval_required,
}
use eebus_go.Cs.ConfigurationApproval.{
  configs_to_approve, device_configuration_write_cb, approve_or_deny_device_configuration,
}

decides :
    (e : Limitation) (counter : ℕ) (approve : Bool) (reason : String) {msg : Message}
    → lookup counter e.pending_device_configs ≡ some msg
    → approve_or_deny_device_configuration e counter approve reason ≡ (
      record e { pending_device_configs = erase counter e.pending_device_configs },
      answer_configuration msg (if approve then 0 else 7) (if approve then none else some reason)
          ∷ [],
    )
unfolding approve_or_deny_device_configuration
decides e counter true reason h = ground (arith, h)
decides e counter false reason h = ground (arith, h)

module _ (v : Variant) (e : Limitation) (msg : Message) {counter : ℕ}
    (has_counter : counter_of msg ≡ some counter)
    (required : configuration_write_requires_approval msg e.entity (configs_to_approve v)
      ≡ ok true) where
  waits :
      lookup counter e.pending_device_configs ≡ none
      → device_configuration_write_cb v e msg ≡ (
        record e { pending_device_configs = insert counter msg e.pending_device_configs },
        call_event_cb e configuration_write_approval_required msg ∷ [],
      )
  unfolding device_configuration_write_cb
  waits fresh = ground (arith, has_counter, required)

  -- A configuration write that requires an approval, under a counter that is not pending, is
  -- pending and the callback is asked. The decision on its counter sends one answer, with error
  -- number 0 or with 7 and the reason, and leaves the pending writes as they were before it came in.
  pub configuration_write_then_decide :
      (approve : Bool) (reason : String)
      → lookup counter e.pending_device_configs ≡ none
      → let (e1, sent1) = device_configuration_write_cb v e msg in
        let (e2, sent2) = approve_or_deny_device_configuration e1 counter approve reason in
        (sent1 ≡ call_event_cb e configuration_write_approval_required msg ∷ [])
        × (lookup counter e1.pending_device_configs ≡ some msg)
        × (sent2
            ≡ answer_configuration msg
                (if approve then 0 else 7)
                (if approve then none else some reason)
              ∷ [])
        × ((k : ℕ) → lookup k e2.pending_device_configs ≡ lookup k e.pending_device_configs)
  configuration_write_then_decide approve reason fresh =
      let e1 = record e { pending_device_configs = insert counter msg e.pending_device_configs } in
      let there : lookup counter e1.pending_device_configs ≡ some msg =
        lookup-insert counter counter msg e.pending_device_configs ∙ ground arith in
      rw (waits fresh, decides e1 counter approve reason there) (refl, there, refl, λ k. after k)
    where
      after :
          (k : ℕ)
          → lookup k (erase counter (insert counter msg e.pending_device_configs))
            ≡ lookup k e.pending_device_configs
      after k = ground (
        arith,
        lookup-erase counter k (insert counter msg e.pending_device_configs),
        lookup-insert counter k msg e.pending_device_configs,
        fresh,
      )

  -- A configuration write that requires an approval, but whose counter is that of a write that is
  -- pending, from whatever device, is dropped: it is never asked for, kept or answered, and the
  -- decision on its counter answers the other write.
  pub colliding_configuration_write_dropped :
      (other : Message) (approve : Bool) (reason : String)
      → lookup counter e.pending_device_configs ≡ some other
      → let (e1, sent1) = device_configuration_write_cb v e msg in
        (sent1 ≡ [])
        × ((approve_or_deny_device_configuration e1 counter approve reason).1
            ≡ answer_configuration other
                (if approve then 0 else 7)
                (if approve then none else some reason)
              ∷ [])
  colliding_configuration_write_dropped other approve reason taken =
      rw (drops, decides e counter approve reason taken) (refl, refl)
    where
      drops : device_configuration_write_cb v e msg ≡ (e, [])
      drops = unfold device_configuration_write_cb in ground (arith, has_counter, required)

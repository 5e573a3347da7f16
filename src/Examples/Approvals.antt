-- ===== src/Examples/Approvals.antt =====
-- Writes of the consumption limit and of the minimum failsafe duration.
use eebus_go.Prelude.{ℕ, ◌+◌, length, ◌≡◌, refl, true, false, none, some, List, [], ◌∷◌}
use eebus_go.Prelude.Assoc.{lookup, IsMap}
use eebus_go.Errors.{ok}
use eebus_go.Features.Filter.{search_filter_in_list, feature_data_copy_of_type}
use eebus_go.Features.LoadControl.{get_limit_descriptions_for_filter}
use eebus_go.Features.DeviceConfiguration.{
  get_key_value_descriptions_for_filter, get_key_value_description_fo_key_id,
}
use eebus_go.Internal.Configuration.{configuration_write_requires_approval}
use eebus_go.Cs.State.{
  Limitation, event, answer_limit, answer_configuration, limit_write_approval_required,
  configuration_write_approval_required,
}
use eebus_go.Cs.Limit.{load_control_server_and_limit_id}
use eebus_go.Cs.Approval.{load_control_write_cb, approve_or_deny_limit}
use eebus_go.Cs.Approval.Steps.{write_then_decide, colliding_write_not_denied}
use eebus_go.Cs.Approval.Accounting.{Op, write, decide, run, answers, writes, run_accounts}
use eebus_go.Cs.ConfigurationApproval.{
  configs_to_approve, device_configuration_write_cb, approve_or_deny_device_configuration,
}
use eebus_go.Cs.ConfigurationApproval.Steps.{
  configuration_write_then_decide, colliding_configuration_write_dropped,
}
use eebus_go.Cs.Lpc.{lpc_variant}
use eebus_go.Examples.Data.{load_control, entity, use_case, limit_write, configuration_write}

has_limit : load_control_server_and_limit_id lpc_variant entity ≡ ok (load_control, 3)
unfolding load_control_server_and_limit_id get_limit_descriptions_for_filter
    feature_data_copy_of_type search_filter_in_list
has_limit = refl

write_then_decide_example :
    let (e1, sent1) = load_control_write_cb lpc_variant use_case (limit_write 10 1) in
    let (e2, sent2) = approve_or_deny_limit e1 10 false "grid code" in
    let (e3, sent3) = approve_or_deny_limit e2 10 true "" in
    (sent1 ≡ event limit_write_approval_required 1 1 ∷ [])
    × (lookup 10 e1.pending_limits ≡ some (limit_write 10 1))
    × (sent2 ≡ answer_limit (limit_write 10 1) 7 (some "grid code") ∷ [])
    × ((k : ℕ) → lookup k e2.pending_limits ≡ none)
    × (sent3 ≡ [])
unfolding lookup
write_then_decide_example =
    write_then_decide lpc_variant use_case (limit_write 10 1) refl refl has_limit refl false true
      "grid code" "" refl

-- The write 10 of another device is pending.
abbrev busy : Limitation
busy = record use_case {
  pending_limits = (10, limit_write 10 1) ∷ [];
  pending_device_configs = (10, configuration_write 10 1) ∷ [];
}

-- Two devices write under the same counter.
colliding_write_not_denied_example :
    let (e1, sent1) = load_control_write_cb lpc_variant use_case (limit_write 10 1) in
    let (e2, sent2) = load_control_write_cb lpc_variant e1 (limit_write 10 2) in
    let (e3, sent3) = approve_or_deny_limit e2 10 false "grid code" in
    (sent1 ≡ event limit_write_approval_required 1 1 ∷ [])
    × (sent2 ≡ answer_limit (limit_write 10 2) 0 none ∷ [])
    × (sent3 ≡ answer_limit (limit_write 10 1) 7 (some "grid code") ∷ [])
    × ((k : ℕ) → lookup k e3.pending_limits ≡ none)
unfolding lookup
colliding_write_not_denied_example =
    colliding_write_not_denied lpc_variant use_case (limit_write 10 1) (limit_write 10 2) 10 3 _ _
      load_control "grid code" refl refl refl refl has_limit refl refl refl

abbrev ops : List Op
ops =
    write (limit_write 10 1)
    ∷ write (limit_write 11 1)
    ∷ decide 10 true ""
    ∷ decide 10 false "late"
    ∷ []

run_accounts_example :
    let (e', sent) = run lpc_variant use_case ops in
    IsMap e'.pending_limits
    × (answers sent + length e'.pending_limits ≡ 0 + writes lpc_variant entity ops)
run_accounts_example = run_accounts lpc_variant use_case ops tt

needs_approval :
    configuration_write_requires_approval
      (configuration_write 10 2)
      entity
      (configs_to_approve lpc_variant)
    ≡ ok true
unfolding configuration_write_requires_approval get_key_value_description_fo_key_id
    get_key_value_descriptions_for_filter feature_data_copy_of_type search_filter_in_list
needs_approval = refl

configuration_write_then_decide_example :
    let (e1, sent1) =
      device_configuration_write_cb lpc_variant use_case (configuration_write 10 2) in
    let (e2, sent2) = approve_or_deny_device_configuration e1 10 true "" in
    (sent1 ≡ event configuration_write_approval_required 2 1 ∷ [])
    × (lookup 10 e1.pending_device_configs ≡ some (configuration_write 10 2))
    × (sent2 ≡ answer_configuration (configuration_write 10 2) 0 none ∷ [])
    × ((k : ℕ) → lookup k e2.pending_device_configs ≡ none)
unfolding lookup
configuration_write_then_decide_example =
    configuration_write_then_decide lpc_variant use_case (configuration_write 10 2) refl
      needs_approval true "" refl

colliding_configuration_write_dropped_example :
    let (e1, sent1) = device_configuration_write_cb lpc_variant busy (configuration_write 10 2) in
    (sent1 ≡ [])
    × ((approve_or_deny_device_configuration e1 10 true "").1
        ≡ answer_configuration (configuration_write 10 1) 0 none ∷ [])
unfolding lookup
colliding_configuration_write_dropped_example =
    colliding_configuration_write_dropped lpc_variant busy (configuration_write 10 2) refl
      needs_approval (configuration_write 10 1) true "" refl

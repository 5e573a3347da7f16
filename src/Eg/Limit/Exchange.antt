-- ===== src/Eg/Limit/Exchange.antt =====
-- A limit that the energy guard writes, at the controllable system that takes it: the client of
-- usecases/eg together with the server of usecases/cs.
use eebus_go.Prelude.{
  ℕ, if◌then◌else◌, filter, Bool-cases, ◌≡◌, refl, inl, inr, true, Option, none, some, List, [],
  ◌∷◌, ◌++◌, arith,
}
use eebus_go.Prelude.Int.{ℤ}
use eebus_go.Prelude.Assoc.{lookup}
use eebus_go.Spine.{time_period_element, LimitDescription, LimitData, TimePeriod, Message}
use eebus_go.Errors.{ok}
use eebus_go.Features.Filter.{Copy, listed, new_local, new_remote, feature_data_copy_of_type}
use eebus_go.Features.Structs.{limit_data_struct}
use eebus_go.Features.LoadControl.{LoadControlFeature, get_limit_descriptions_for_filter}
use eebus_go.Features.LoadControl.Lookup.{describes, carries}
use eebus_go.Features.Client.{LimitCommand}
use eebus_go.Features.Server.{DeleteFilter, UpdateData, updated}
use eebus_go.Features.Server.LoadControl.Merging.{IsMerging, IsMergingWrite, merged}
use eebus_go.Internal.LocalEntity.{LocalEntity}
use eebus_go.Internal.Configuration.{counter_of}
use eebus_go.Internal.LoadControl.{new_limit}
use eebus_go.Internal.LoadControl.Writes.{IsChangeableLimit, write_load_control_limit_iff}
use eebus_go.UseCase.Remote.{RemoteEntity}
use eebus_go.UseCase.Base.{UseCaseBase, is_compatible_entity_type}
use eebus_go.UseCase.Limits.{LoadLimit}
use eebus_go.Cs.State.{
  Variant, answer_limit, Limitation, call_event_cb, limit_write_approval_required,
}
use eebus_go.Cs.Limit.{limit_filter, load_control_server_and_limit_id, duration_of, current_limit}
use eebus_go.Cs.Limit.Reading.{current_limit_lem}
use eebus_go.Cs.Limit.RoundTrip.{Places, find-placed, any-described}
use eebus_go.Cs.Approval.{names_limit, load_control_write_cb, approve_or_deny_limit}
use eebus_go.Cs.Approval.Steps.{write_then_decide}
use eebus_go.Internal.Clients.{Remote}
use eebus_go.Eg.Limit.Taken.{only-carries, current_data, taken_duration, taken_limit, limit_of_lem}
use eebus_go.Eg.Limit.{remote_limit_filter, write_remote_limit}

module _ (v : Variant) (u : UseCaseBase) (remotes : RemoteEntity → Remote) (e : RemoteEntity)
    (lc : LoadControlFeature) (ds : List LimitDescription) (d : LimitDescription) (id : ℕ)
    (xs before after : List LimitData) (old : LimitData)
    (compatible : is_compatible_entity_type u (some e) ≡ true)
    (copied : (remotes e).remote_data.load_control ≡ some lc)
    (partial : (remotes e).remote_data.limits.write_partial ≡ true)
    (ds_listed : lc.limit_descriptions ≡ listed ds) (xs_listed : lc.limits ≡ listed xs)
    (fits : get_limit_descriptions_for_filter (new_remote lc) (remote_limit_filter v) ≡ ok (d ∷ []))
    (has_id : d.limit_id ≡ some id) (unique : filter (describes id) ds ≡ d ∷ [])
    (place : Places id xs before after old) (new_scaled_number : ℤ → ℤ)
    (new_time_period : ℤ → TimePeriod) (limit : LoadLimit) (command : LimitCommand)
    (sent : write_remote_limit v new_scaled_number new_time_period u remotes (some e) limit
      ≡ ok command) where
  new : LimitData
  new = new_limit new_scaled_number new_time_period (some id) limit

  deleting : Option DeleteFilter
  deleting =
      if limit.delete_duration
      then some (record { selector = some id; elements = some (time_period_element ∷ []) })
      else none

  written_id : (i : ℕ) → IsChangeableLimit (new_remote lc) (remote_limit_filter v) i → i ≡ id
  written_id i h =
      let one : filter (carries id) xs ≡ h.item ∷ [] = ground (
        arith,
        h.is_current,
        current_data lc (remote_limit_filter v) xs d id xs_listed fits has_id,
      ) in
      ground (arith, h.has_id, only-carries id xs h.item one)

  sent_command : (command.limits ≡ new ∷ []) × (command.filters ≡ some deleting)
  unfolding write_remote_limit new deleting
  sent_command =
      let sent' =
        (write_load_control_limit_iff new_scaled_number new_time_period (remotes e).remote_data
            (remote_limit_filter v) limit lc command copied partial).0
          (ground (arith, compatible, sent)) in
      let same = written_id sent'.0 sent'.1 in
      (ground (arith, sent'.2, same), ground (arith, sent'.2, same))

  -- A controllable system with the same data, where a write of the load control data is taken as
  -- `UpdateData` takes it.
  module _ (entity : LocalEntity) (has_feature : entity.load_control ≡ some lc)
      (found : get_limit_descriptions_for_filter (new_local lc) (limit_filter v)
        ≡ ok (d ∷ [])) where
    -- A limit that the energy guard sends to a controllable system whose data it knows is a write
    -- that the controllable system takes up: under a counter that is not pending, it is not answered
    -- but asked for and kept, and an approval answers it with error number 0.
    pub write_remote_limit-load_control_write_cb :
        (s : Limitation) (msg : Message) (counter : ℕ)
        → s.entity ≡ entity
        → counter_of msg ≡ some counter
        → msg.load_control_limit_list_data ≡ some command.limits
        → lookup counter s.pending_limits ≡ none
        → let (s1, asked) = load_control_write_cb v s msg in
          let (s2, answered) = approve_or_deny_limit s1 counter true "" in
          (asked ≡ call_event_cb s limit_write_approval_required msg ∷ [])
          × (lookup counter s1.pending_limits ≡ some msg)
          × (answered ≡ answer_limit msg 0 none ∷ [])
    unfolding load_control_server_and_limit_id new
    write_remote_limit-load_control_write_cb s msg counter same has_counter has_data fresh =
        let has_limit : load_control_server_and_limit_id v s.entity ≡ ok (lc, id) =
          ground (arith, same, has_feature, found, has_id) in
        let names : names_limit id command.limits ≡ true = ground (arith, sent_command.0) in
        let decided =
          write_then_decide v s msg has_counter has_data has_limit names true true "" "" fresh in
        (decided.0, decided.1, decided.2)

    module _ (update_data : UpdateData LimitData) (law : IsMerging time_period_element update_data)
        (law' : IsMergingWrite update_data)
        (period_reads : (t : ℤ)
          → new_time_period t ≡ record { end_time = true; duration = some t }) where
      taken : LimitData
      taken = merged (if limit.delete_duration then record old { time_period = none } else old) new

      stored :
          (f : Option DeleteFilter) (limits : Copy LimitData)
          → command.filters ≡ some f
          → update_data lc.limits command.limits f ≡ updated limits
          → limits ≡ listed (before ++ taken ∷ after)
      unfolding taken deleting new
      stored f limits h applied = elim (Bool-cases limit.delete_duration) [
        | inl e1 ↦ ground (
          arith,
          applied,
          h,
          sent_command,
          xs_listed,
          place.at,
          e1,
          law.merges before after old new id place.first place.carried refl,
        )
        | inr e1 ↦ ground (
          arith,
          applied,
          h,
          sent_command,
          xs_listed,
          place.at,
          e1,
          law'.merges_write before after old new id place.first place.carried refl,
        )
      ]

      taken-duration : duration_of taken ≡ taken_duration limit old
      unfolding taken new
      taken-duration = elim (Bool-cases limit.delete_duration) [
        | inl e1 ↦ ground (arith, e1, period_reads limit.duration)
        | inr e1 ↦ ground (arith, e1, period_reads limit.duration)
      ]

      -- A limit that the energy guard sends to a controllable system whose data it knows, taken there
      -- as `UpdateData` merges it, is the limit that the controllable system then reads: with the
      -- value that `NewScaledNumberType` keeps, active as sent, changeable as it was before, and with
      -- the duration that was sent if it is positive. Otherwise the duration is removed if that was
      -- asked for, and the old one stays if not; an old duration of 0 that stays makes it inactive.
      pub current_limit-write_remote_limit :
          (f : Option DeleteFilter) (limits : Copy LimitData)
          → command.filters ≡ some f
          → update_data lc.limits command.limits f ≡ updated limits
          → current_limit v (record entity { load_control = some (record lc { limits = limits }) })
            ≡ ok (taken_limit new_scaled_number limit old)
      unfolding taken new get_limit_descriptions_for_filter feature_data_copy_of_type
      current_limit-write_remote_limit f limits h applied = rw (stored f limits h applied) (
          ground (
            arith,
            current_limit_lem v
                (record entity {
                  load_control = some (record lc { limits = listed (before ++ taken ∷ after) });
                })
                refl ds_listed refl found,
            has_id,
            any-described id ds unique,
            find-placed id before after taken place.first refl,
            limit_of_lem taken (new_scaled_number limit.value) (taken_duration limit old)
                taken-duration,
          ))

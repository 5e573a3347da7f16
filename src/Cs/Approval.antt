-- ===== src/Cs/Approval.antt =====
-- Incoming limit writes: loadControlWriteCB, approveOrDeny…Limit, Pending…Limits and
-- ApproveOrDeny…Limit of usecases/cs/lpc and lpp. A lock guards the map of pending writes, so an
-- operation is one step; the callback is called after the lock is released.
pub mod Steps
pub mod Accounting
use eebus_go.Prelude.{
  ℕ, String, ◌==◌, if◌then◌else◌, any, is_empty, holds, is_set, Bool, true, false, Option, none,
  some, List, [], ◌∷◌,
}
use eebus_go.Prelude.Int.{ℤ, pos}
use eebus_go.Prelude.Assoc.{Assoc, lookup, insert, erase}
use eebus_go.Spine.{LimitData, TimePeriod, Message}
use eebus_go.Errors.{Result, ok, err, panic}
use eebus_go.Internal.Configuration.{counter_of}
use eebus_go.Cs.State.{
  Variant, Effect, answer_limit, Limitation, call_event_cb, limit_write_approval_required,
  LoadLimit,
}
use eebus_go.Cs.Limit.{load_control_server_and_limit_id}

-- Error number 0 is success, 7 a denial with its reason.
abbrev pub answer_of : Bool → String → ℕ × Option String
answer_of true reason = (0, none)
answer_of false reason = (7, some reason)

-- approveOrDenyConsumptionLimit, approveOrDenyProductionLimit
unfoldable pub answer_limit_write : Message → Bool → String → Effect
answer_limit_write msg approve reason = let r = answer_of approve reason in answer_limit msg r.0 r.1

-- The loop over the data: an item of the use case's limit, under a counter that is not pending.
abbrev pub names_limit : ℕ → List LimitData → Bool
names_limit limit_id data_list = any (λ (x : LimitData). holds x.limit_id limit_id) data_list

abbrev pub is_pending : Assoc Message → ℕ → Bool
is_pending pending counter = elim (lookup counter pending) [ none ↦ false | some m ↦ true ]

unfoldable pub load_control_write_cb : Variant → Limitation → Message → Limitation × List Effect
load_control_write_cb v e msg = elim (counter_of msg) [
  | none ↦ (e, [])
  | some counter ↦ elim msg.load_control_limit_list_data [
    | none ↦ (e, [])
    | some data_list ↦ elim (load_control_server_and_limit_id v e.entity) [
      | ok r ↦
          if is_empty data_list
          then (e, [])
          else if names_limit r.1 data_list
          then (if is_pending e.pending_limits counter
              then (e, answer_limit_write msg true "" ∷ [])
              else (
                record e { pending_limits = insert counter msg e.pending_limits },
                call_event_cb e limit_write_approval_required msg ∷ [],
              ))
          else (e, answer_limit_write msg true "" ∷ [])
      | _ ↦ (e, [])
    ]
  ]
]

-- ApproveOrDenyConsumptionLimit, ApproveOrDenyProductionLimit
unfoldable pub approve_or_deny_limit : Limitation → ℕ → Bool → String → Limitation × List Effect
unfolding answer_limit_write
approve_or_deny_limit e msg_counter approve reason = elim (lookup msg_counter e.pending_limits) [
  | none ↦ (e, [])
  | some msg ↦ (
    record e { pending_limits = erase msg_counter e.pending_limits },
    answer_limit_write msg approve reason ∷ [],
  )
]

-- The limit that an item asks for.
abbrev pub requested : LimitData → LoadLimit
requested x = record {
  duration = elim x.time_period [
    | none ↦ pos 0
    | some p ↦ elim p.duration [ none ↦ pos 0 | some d ↦ d ]
  ];
  is_changeable = false;
  is_active = is_set x.is_limit_active;
  value = elim x.value [ none ↦ pos 0 | some value ↦ value ];
  delete_duration = false;
}

-- The inner loop: the last item of the limit is the one that stays in the result.
unfoldable pub last_requested : ℕ → List LimitData → Option LoadLimit → Option LoadLimit
last_requested limit_id [] result = result
last_requested limit_id (x ∷ xs) result =
    last_requested limit_id xs (if holds x.limit_id limit_id then some (requested x) else result)

unfoldable pub pending_of : ℕ → Assoc Message → Assoc LoadLimit
unfolding last_requested
pending_of limit_id [] = []
pending_of limit_id ((key, msg) ∷ pending) =
    let rest = pending_of limit_id pending in
    elim msg.load_control_limit_list_data [
      | none ↦ rest
      | some data_list ↦ elim (last_requested limit_id data_list none) [
        | none ↦ rest
        | some limit ↦ (key, limit) ∷ rest
      ]
    ]

-- PendingConsumptionLimits, PendingProductionLimits
unfoldable pub pending_limits : Variant → Limitation → Assoc LoadLimit
unfolding pending_of
pending_limits v e = elim (load_control_server_and_limit_id v e.entity) [
  | ok r ↦ pending_of r.1 e.pending_limits
  | _ ↦ []
]

-- ===== src/Cs/Approval/Steps.antt =====
-- A limit write and the decisions on it.
use eebus_go.Prelude.{
  ℕ, String, if◌then◌else◌, is_empty, ◌≡◌, refl, ◌∙◌, Bool, true, false, not, none, some, List, [],
  ◌∷◌, arith,
}
use eebus_go.Prelude.Assoc.{lookup, insert, erase, lookup-erase, lookup-insert}
use eebus_go.Spine.{LimitData, Message}
use eebus_go.Errors.{ok}
use eebus_go.Features.LoadControl.{LoadControlFeature}
use eebus_go.Internal.Configuration.{counter_of}
use eebus_go.Internal.LocalEntity.{LocalEntity}
use eebus_go.Cs.State.{
  Variant, answer_limit, Limitation, call_event_cb, limit_write_approval_required,
}
use eebus_go.Cs.Limit.{load_control_server_and_limit_id}
use eebus_go.Cs.Approval.{
  answer_limit_write, names_limit, load_control_write_cb, approve_or_deny_limit,
}

-- A message that the callback takes up: it has a counter and data, and the limit id can be read.
abbrev pub accepted : Variant → LocalEntity → Message → Bool
accepted v entity msg = elim (counter_of msg) [
  | none ↦ false
  | some counter ↦ elim msg.load_control_limit_list_data [
    | none ↦ false
    | some data_list ↦ elim (load_control_server_and_limit_id v entity) [
      | ok r ↦ not (is_empty data_list)
      | _ ↦ false
    ]
  ]
]

pub decide_pending :
    (e : Limitation) (counter : ℕ) (approve : Bool) (reason : String) {msg : Message}
    → lookup counter e.pending_limits ≡ some msg
    → approve_or_deny_limit e counter approve reason ≡ (
      record e { pending_limits = erase counter e.pending_limits },
      answer_limit msg (if approve then 0 else 7) (if approve then none else some reason) ∷ [],
    )
unfolding approve_or_deny_limit
decide_pending e counter true reason h = ground (arith, h)
decide_pending e counter false reason h = ground (arith, h)

decide_absent :
    (e : Limitation) (counter : ℕ) (approve : Bool) (reason : String)
    → lookup counter e.pending_limits ≡ none
    → approve_or_deny_limit e counter approve reason ≡ (e, [])
unfolding approve_or_deny_limit
decide_absent e counter approve reason h = ground (arith, h)

module _ (v : Variant) (e : Limitation) (msg : Message) {counter : ℕ} {data_list : List LimitData}
    {lc : LoadControlFeature} {limit_id : ℕ} (has_counter : counter_of msg ≡ some counter)
    (has_data : msg.load_control_limit_list_data ≡ some data_list)
    (has_limit : load_control_server_and_limit_id v e.entity ≡ ok (lc, limit_id))
    (names : names_limit limit_id data_list ≡ true) where
  not_empty : is_empty data_list ≡ false
  not_empty = go data_list names
    where
      go : (l : List LimitData) → names_limit limit_id l ≡ true → is_empty l ≡ false
      go [] h = cc
      go (x ∷ l) h = refl

  pub waits :
      lookup counter e.pending_limits ≡ none
      → load_control_write_cb v e msg ≡ (
        record e { pending_limits = insert counter msg e.pending_limits },
        call_event_cb e limit_write_approval_required msg ∷ [],
      )
  unfolding load_control_write_cb
  waits fresh = ground (arith, has_counter, has_data, has_limit, not_empty)

  -- A write that names the limit of the use case, under a counter that is not pending, is not
  -- answered when it comes in: the callback is asked, and the write is pending. The first decision
  -- on its counter sends exactly one answer, with error number 0 or with 7 and the reason, and
  -- leaves the pending writes as they were before it came in; another decision sends none.
  pub write_then_decide :
      (approve again : Bool) (reason other : String)
      → lookup counter e.pending_limits ≡ none
      → let (e1, sent1) = load_control_write_cb v e msg in
        let (e2, sent2) = approve_or_deny_limit e1 counter approve reason in
        let (e3, sent3) = approve_or_deny_limit e2 counter again other in
        (sent1 ≡ call_event_cb e limit_write_approval_required msg ∷ [])
        × (lookup counter e1.pending_limits ≡ some msg)
        × (sent2
            ≡ answer_limit msg (if approve then 0 else 7) (if approve then none else some reason)
              ∷ [])
        × ((k : ℕ) → lookup k e2.pending_limits ≡ lookup k e.pending_limits)
        × (sent3 ≡ [])
  write_then_decide approve again reason other fresh =
      let e1 = record e { pending_limits = insert counter msg e.pending_limits } in
      let e2 = record e1 { pending_limits = erase counter e1.pending_limits } in
      let there : lookup counter e1.pending_limits ≡ some msg =
        lookup-insert counter counter msg e.pending_limits ∙ ground arith in
      let gone : lookup counter e2.pending_limits ≡ none =
        lookup-erase counter counter e1.pending_limits ∙ ground arith in
      rw
        (
          waits fresh,
          decide_pending e1 counter approve reason there,
          decide_absent e2 counter again other gone,
        )
        (refl, there, refl, (λ k. after k), refl)
    where
      after :
          (k : ℕ)
          → lookup k (erase counter (insert counter msg e.pending_limits))
            ≡ lookup k e.pending_limits
      after k = ground (
        arith,
        lookup-erase counter k (insert counter msg e.pending_limits),
        lookup-insert counter k msg e.pending_limits,
        fresh,
      )

  -- A write whose counter is that of a write that is pending.
  colliding_write :
      {other : Message}
      → lookup counter e.pending_limits ≡ some other
      → load_control_write_cb v e msg ≡ (e, answer_limit msg 0 none ∷ [])
  unfolding load_control_write_cb answer_limit_write
  colliding_write taken = ground (arith, has_counter, has_data, has_limit, not_empty)

-- Two writes that name the limit of the use case come in under one counter that is not pending, from
-- whatever devices, and the application then denies the writes of this counter. The first is asked
-- for, kept and refused, with 7 and the reason. The second is answered with success when it comes
-- in, asked for by no one and never refused, and nothing of the two stays pending.
pub colliding_write_not_denied :
    (v : Variant) (e : Limitation) (first second : Message) (counter limit_id : ℕ)
    (data_list data_list' : List LimitData) (lc : LoadControlFeature) (reason : String)
    → counter_of first ≡ some counter
    → counter_of second ≡ some counter
    → first.load_control_limit_list_data ≡ some data_list
    → second.load_control_limit_list_data ≡ some data_list'
    → load_control_server_and_limit_id v e.entity ≡ ok (lc, limit_id)
    → names_limit limit_id data_list ≡ true
    → names_limit limit_id data_list' ≡ true
    → lookup counter e.pending_limits ≡ none
    → let (e1, sent1) = load_control_write_cb v e first in
      let (e2, sent2) = load_control_write_cb v e1 second in
      let (e3, sent3) = approve_or_deny_limit e2 counter false reason in
      (sent1 ≡ call_event_cb e limit_write_approval_required first ∷ [])
      × (sent2 ≡ answer_limit second 0 none ∷ [])
      × (sent3 ≡ answer_limit first 7 (some reason) ∷ [])
      × ((k : ℕ) → lookup k e3.pending_limits ≡ lookup k e.pending_limits)
colliding_write_not_denied v e first second counter limit_id data_list data_list' lc reason
      has_counter has_counter' has_data has_data' has_limit names names' fresh =
    let e1 = record e { pending_limits = insert counter first e.pending_limits } in
    let there : lookup counter e1.pending_limits ≡ some first =
      lookup-insert counter counter first e.pending_limits ∙ ground arith in
    let (asked, kept, denied, restored, silent) =
      write_then_decide v e first has_counter has_data has_limit names false false reason reason
        fresh in
    let came = waits v e first has_counter has_data has_limit names fresh in
    let collides : load_control_write_cb v e1 second ≡ (e1, answer_limit second 0 none ∷ []) =
      colliding_write v e1 second has_counter' has_data' has_limit names' there in
    let denied_there = rw came at denied in
    let restored_there = rw came at restored in
    rw (came, collides) (refl, refl, denied_there, restored_there)

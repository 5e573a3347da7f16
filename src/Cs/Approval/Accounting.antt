-- ===== src/Cs/Approval/Accounting.antt =====
-- Sequences of limit writes and decisions, the answers that they send and the writes they leave.
use eebus_go.Prelude.{
  ℕ, suc, ◌+◌, String, if◌then◌else◌, length, Option-cases, ◌≡◌, refl, inl, inr, ◌⊎◌, Bool, true,
  false, none, some, List, [], ◌∷◌, ◌++◌, arith,
}
use eebus_go.Prelude.Assoc.{
  Assoc, lookup, insert, IsMap, IsMap-erase, IsMap-insert, erase_absent, length-erase,
}
use eebus_go.Spine.{Message}
use eebus_go.Internal.Configuration.{counter_of}
use eebus_go.Internal.LocalEntity.{LocalEntity}
use eebus_go.Cs.State.{Variant, Effect, answer_limit, Limitation}
use eebus_go.Cs.Approval.{answer_limit_write, load_control_write_cb, approve_or_deny_limit}
use eebus_go.Cs.Approval.Steps.{accepted}

-- What reaches the use case: a limit write of a remote, or a decision of the application.
pub data Op : Type 0 where
  write : Message → Op
  decide : ℕ → Bool → String → Op

pub step : Variant → Limitation → Op → Limitation × List Effect
step v e (write msg) = load_control_write_cb v e msg
step v e (decide counter approve reason) = approve_or_deny_limit e counter approve reason

pub run : Variant → Limitation → List Op → Limitation × List Effect
run v e [] = (e, [])
run v e (op ∷ ops) =
    let (e', sent) = step v e op in let (e'', more) = run v e' ops in (e'', sent ++ more)

abbrev pub is_answer : Effect → Bool
is_answer (answer_limit msg n reason) = true
is_answer _ = false

-- The answers to limit writes among the effects.
abbrev pub answers : List Effect → ℕ
answers [] = 0
answers (x ∷ xs) = let rest = answers xs in if is_answer x then suc rest else rest

answers-append : (xs ys : List Effect) → answers (xs ++ ys) ≡ answers xs + answers ys
answers-append [] ys = omega arith
answers-append (x ∷ xs) ys = ground (arith, answers-append xs ys)

abbrev pub is_accepted : Variant → LocalEntity → Op → Bool
is_accepted v entity (write msg) = accepted v entity msg
is_accepted v entity (decide counter approve reason) = false

-- The accepted writes of a sequence.
abbrev pub writes : Variant → LocalEntity → List Op → ℕ
writes v entity [] = 0
writes v entity (op ∷ ops) =
    let rest = writes v entity ops in if is_accepted v entity op then suc rest else rest

-- What one step keeps.
record Keeps (v : Variant) (e : Limitation) (op : Op) (r : Limitation × List Effect) : Type 0 where
  same_entity : r.0.entity ≡ e.entity
  keys : IsMap r.0.pending_limits
  balance :
      answers r.1 + length r.0.pending_limits
      ≡ length e.pending_limits + (if is_accepted v e.entity op then 1 else 0)

length-insert :
    (k : ℕ) (msg : Message) (m : Assoc Message)
    → lookup k m ≡ none
    → length (insert k msg m) ≡ suc (length m)
unfolding insert
length-insert k msg m h = rw (erase_absent k m h)

pending_after :
    (v : Variant) (e : Limitation) (msg : Message) {counter : ℕ}
    → counter_of msg ≡ some counter
    → ((load_control_write_cb v e msg).0.pending_limits ≡ e.pending_limits)
      ⊎ ((load_control_write_cb v e msg).0.pending_limits ≡ insert counter msg e.pending_limits)
unfolding load_control_write_cb
pending_after v e msg h = ground (arith, h)

write-Keeps :
    (v : Variant) (e : Limitation) (msg : Message)
    → IsMap e.pending_limits
    → Keeps v e (write msg) (load_control_write_cb v e msg)
unfolding load_control_write_cb answer_limit_write
write-Keeps v e msg m = elim (Option-cases (counter_of msg)) [
  | inl h ↦
      let same : load_control_write_cb v e msg ≡ (e, []) = ground (arith, h) in
      rw same (record { same_entity = refl; keys = m; balance = ground (arith, h) })
  | inr c ↦ record {
    same_entity = ground arith;
    keys = elim (pending_after v e msg c.1) [
      | inl same ↦ rw same m
      | inr more ↦ rw more (IsMap-insert c.0 msg e.pending_limits m)
    ];
    balance = ground (arith, c.1, length-insert c.0 msg e.pending_limits);
  }
]

decide-Keeps :
    (v : Variant) (e : Limitation) (counter : ℕ) (approve : Bool) (reason : String)
    → IsMap e.pending_limits
    → Keeps v e (decide counter approve reason) (approve_or_deny_limit e counter approve reason)
unfolding approve_or_deny_limit answer_limit_write
decide-Keeps v e counter approve reason m = elim (Option-cases (lookup counter e.pending_limits)) [
  | inl h ↦
      rw (h, approve_or_deny_limit)
        (record { same_entity = refl; keys = m; balance = ground arith })
  | inr r ↦
      rw (r.1, approve_or_deny_limit)
        (record {
          same_entity = refl;
          keys = IsMap-erase counter e.pending_limits m;
          balance = ground (arith, length-erase counter e.pending_limits m r.1);
        })
]

step-Keeps :
    (v : Variant) (e : Limitation) (op : Op) → IsMap e.pending_limits → Keeps v e op (step v e op)
unfolding step
step-Keeps v e (write msg) m = write-Keeps v e msg m
step-Keeps v e (decide counter approve reason) m = decide-Keeps v e counter approve reason m

-- Over any sequence of limit writes and decisions, where the pending writes have distinct
-- counters, they keep distinct counters, and each write that the callback accepts is accounted
-- for once: the answers that were sent and the writes that are still pending are together as many
-- as the writes pending before and those accepted since.
pub run_accounts :
    (v : Variant) (e : Limitation) (ops : List Op)
    → IsMap e.pending_limits
    → let (e', sent) = run v e ops in
      IsMap e'.pending_limits
      × (answers sent + length e'.pending_limits ≡ length e.pending_limits + writes v e.entity ops)
unfolding run
run_accounts v e [] m = (m, omega arith)
run_accounts v e (op ∷ ops) m =
    let first = step-Keeps v e op m in
    let rest = run_accounts v (step v e op).0 ops first.keys in
    (
      rest.0,
      ground (
        arith,
        first.balance,
        first.same_entity,
        rest.1,
        answers-append (step v e op).1 (run v (step v e op).0 ops).1,
      ),
    )

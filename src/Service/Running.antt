-- ===== src/Service/Running.antt =====
-- The life cycle: sequences of operations of a service, and the calls of its hub.
use eebus_go.Prelude.{
  ℕ, Bool-cases, Option-cases, ◌≡◌, refl, ◌∙◌, inl, inr, Bool, true, false, Option, none, some,
  List, [], ◌∷◌, ◌++◌, arith,
}
use eebus_go.Errors.{Error, ok}
use eebus_go.Service.{
  Service, HubCall, hub_start, hub_shutdown, start, shutdown, add_use_case, set_auto_accept,
  user_is_able_to_approve_or_cancel_pairing_requests,
}

-- An operation of a service after its Setup, with the calls of the hub that it makes; what the calls
-- come back with is arbitrary.
pub data Step (s : Service) : Service → List HubCall → Type 0 where
  starts : (hub_error : Option Error) → Step s (start hub_error s).0 (start hub_error s).1
  shuts_down : Step s (shutdown s).0 (shutdown s).1
  adds : (use_case : ℕ) (e : Option Error) → Step s (add_use_case use_case e s).0 []
  accepts : (value : Bool) → Step s (set_auto_accept value s).0 []
  allows : (allow : Bool) → Step s (user_is_able_to_approve_or_cancel_pairing_requests allow s) []

pub data Reach (s : Service) : Service → List HubCall → Type 0 where
  here : Reach s s []
  next :
      {t u : Service} {calls more : List HubCall}
      → Reach s t calls
      → Step t u more
      → Reach s u (calls ++ more)

-- The state of a hub after calls, from whether it runs: `none` if it is started while it runs, or
-- shut down while it does not.
abbrev pub follow : Bool → List HubCall → Option Bool
follow on [] = some on
follow false (hub_start success ∷ calls) = follow success calls
follow true (hub_start success ∷ calls) = none
follow true (hub_shutdown ∷ calls) = follow false calls
follow false (hub_shutdown ∷ calls) = none

follow-append :
    (on : Bool) (calls more : List HubCall) {b : Bool}
    → follow on calls ≡ some b
    → follow on (calls ++ more) ≡ follow b more
follow-append on [] more h = ground (arith, h)
follow-append false (hub_start success ∷ calls) more h = follow-append success calls more h
follow-append true (hub_start success ∷ calls) more h = cc
follow-append true (hub_shutdown ∷ calls) more h = follow-append false calls more h
follow-append false (hub_shutdown ∷ calls) more h = cc

-- What a step does to a service whose hub is there.
IsSound : Service → Service → List HubCall → Type 0
IsSound s t calls = (t.has_hub ≡ true) × (follow s.is_running calls ≡ some t.is_running)

start-IsSound :
    (e : Option Error) (s : Service) → s.has_hub ≡ true → IsSound s (start e s).0 (start e s).1
unfolding IsSound start
start-IsSound e s h = elim (Bool-cases s.is_running) [
  | inl r ↦ (ground (arith, h, r), ground (arith, h, r))
  | inr r ↦ elim (Option-cases e) [
    | inl n ↦ (ground (arith, h, r, n), ground (arith, h, r, n))
    | inr (error, n) ↦ (ground (arith, h, r, n), ground (arith, h, r, n))
  ]
]

shutdown-IsSound : (s : Service) → s.has_hub ≡ true → IsSound s (shutdown s).0 (shutdown s).1
unfolding IsSound shutdown
shutdown-IsSound s h = elim (Bool-cases s.is_running) [
  | inl r ↦ (ground (arith, h, r), ground (arith, h, r))
  | inr r ↦ (ground (arith, h, r), ground (arith, h, r))
]

Step-IsSound :
    {s t : Service} {calls : List HubCall} → Step s t calls → s.has_hub ≡ true → IsSound s t calls
unfolding IsSound add_use_case set_auto_accept
Step-IsSound {s} (starts e) h = start-IsSound e s h
Step-IsSound {s} shuts_down h = shutdown-IsSound s h
Step-IsSound {s} (adds use_case e) h = elim (Option-cases e) [
  | inl n ↦ (ground (arith, h, n), ground (arith, n))
  | inr (error, n) ↦ (ground (arith, h, n), ground (arith, n))
]
Step-IsSound {s} (accepts value) h = elim (Bool-cases s.has_local_service) [
  | inl n ↦ (ground (arith, h, n), ground (arith, h, n))
  | inr n ↦ (ground (arith, h, n), ground (arith, h, n))
]
Step-IsSound (allows allow) h = (h, refl)

-- After a Setup that succeeded, over any sequence of operations and whatever their calls come back
-- with, the hub is never started while it runs nor shut down while it does not, and the service is
-- running exactly if its hub is.
pub Reach-follow :
    {s t : Service} {calls : List HubCall}
    → s.has_hub ≡ true
    → Reach s t calls
    → (t.has_hub ≡ true) × (follow s.is_running calls ≡ some t.is_running)
unfolding IsSound
Reach-follow h here = (h, refl)
Reach-follow {s} h (next {t} {u} {calls} {more} r step) =
    let before = Reach-follow h r in
    let after = Step-IsSound step before.0 in
    (after.0, follow-append s.is_running calls more before.1 ∙ after.1)

-- From every state that a service reaches after such a Setup, it can be started, if its hub can, and
-- it can be shut down: the operation returns no error, and the service is running, or it is not.
pub Reach-start-shutdown :
    {s t : Service} {calls : List HubCall}
    → s.has_hub ≡ true
    → Reach s t calls
    → ((start none t).0.is_running ≡ true)
      × ((start none t).2 ≡ ok tt)
      × ((shutdown t).0.is_running ≡ false)
      × ((shutdown t).2 ≡ ok tt)
unfolding start shutdown
Reach-start-shutdown {s} {t} h r =
    let hub = (Reach-follow h r).0 in
    elim (Bool-cases t.is_running) [
      | inl e ↦
          (ground (arith, e), ground (arith, e), ground (arith, e, hub), ground (arith, e, hub))
      | inr e ↦
          (ground (arith, e, hub), ground (arith, e, hub), ground (arith, e), ground (arith, e))
    ]

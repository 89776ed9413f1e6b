-- ===== src/Execution/Manager/Contract.antt =====
-- The contract of a runtime's resource, which execution/manager.py keeps: an abstract machine that says
-- which calls may follow which.
use vuln_proof_claw.Common.{
  Bool, true, ◌≡◌, Option, none, some, List, [], ◌∷◌, arith, string_eq, option_eq,
}
use vuln_proof_claw.Domain.Enums.{WorkerState, worker_state_eq, worker_terminal}
use vuln_proof_claw.Execution.Manager.{RuntimeCall, WorkerHandle}

-- A resource of the runtime; `gone` says whether it was destroyed, or its destruction failed.
pub data Resource : Type 0 where
  absent made live : Resource
  gone : (destroyed : Bool) → Resource

-- A call that the contract permits; none is after `destroy`, and `start` is there once.
unfoldable pub after : RuntimeCall → Resource → Option Resource
after RuntimeCall.create Resource.absent = some Resource.made
after RuntimeCall.start Resource.made = some Resource.live
after RuntimeCall.cancel Resource.made = some Resource.made
after RuntimeCall.cancel Resource.live = some Resource.live
after RuntimeCall.wait Resource.live = some Resource.live
after (RuntimeCall.destroy returned) Resource.made = some (Resource.gone returned)
after (RuntimeCall.destroy returned) Resource.live = some (Resource.gone returned)
after call resource = none

-- What calls, the latest first, make of a resource that was absent.
unfoldable pub resource : List RuntimeCall → Option Resource
resource [] = some Resource.absent
resource (call ∷ calls) = elim (resource calls) [ none ↦ none | some r ↦ after call r ]

-- What a handle says of the resource.
unfoldable pub view_of : WorkerState → Bool → Resource
view_of WorkerState.starting cleaned_up = Resource.made
view_of WorkerState.running cleaned_up = Resource.live
view_of _ cleaned_up = Resource.gone cleaned_up

abbrev pub view : WorkerHandle → Resource
view h = view_of h.state h.cleaned_up

pub resource-after :
    (call : RuntimeCall) (calls : List RuntimeCall) {r : Resource}
    → resource calls ≡ some r
    → resource (call ∷ calls) ≡ after call r
unfolding resource
resource-after call calls h = rw h

pub view_of-terminal :
    (s : WorkerState) (cleaned : Bool)
    → worker_terminal s ≡ true
    → view_of s cleaned ≡ Resource.gone cleaned
unfolding view_of worker_terminal
view_of-terminal s cleaned h = ground arith

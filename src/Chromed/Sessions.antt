-- ===== src/Chromed/Sessions.antt =====
-- chromed/service.go, the manager: how an instance ends, and what is said of it. A call is
-- one event. `Acquire` lets go of the lock while Chrome starts: see Overlap for two at once.
use vivary.Prelude.{
  ℕ, ◌⊎◌, inl, inr, true, false, Option, none, some, List, [], ◌∷◌, ◌++◌, ◌==◌, if◌then◌else◌, Str,
  bytes, str_eq,
}
use vivary.Prelude.Map.{lookup, delete, keys}
use vivary.Chromed.Payloads.{AcquireRequest, ReleaseResponse, StatusResponse}
use vivary.Chromed.Blank.{is_blank}
use vivary.Chromed.Manager.{Instance, Manager, Machine, agent_id_required, close_forward, acquire}

abbrev pub released_response : ReleaseResponse
released_response = record { success = true; error = [] }

abbrev pub status_of : Option Instance → StatusResponse
status_of none = record {
  found = false;
  running = false;
  debug_addr = [];
  profile_dir = [];
  error = [];
}
status_of (some inst) = record {
  found = true;
  running = inst.running;
  debug_addr = inst.debug_addr;
  profile_dir = inst.profile_dir;
  error = [];
}

-- `Status`
unfoldable pub status : Str → Manager → Str ⊎ StatusResponse
status agent_id m =
    if is_blank agent_id
    then inl agent_id_required
    else inr (status_of (lookup agent_id m.instances))

abbrev pub forget : Str → Manager → Manager
forget agent_id m = record m { instances = delete agent_id m.instances }

abbrev pub reap_found : Str → ℕ → Manager → Option Instance → Manager
reap_found agent_id proc m none = m
reap_found agent_id proc m (some inst) = if inst.proc == proc then forget agent_id m else m

module _ {ℓ} {W : Type ℓ} (machine : Machine W) where
  abbrev pub remove_path : Str → W → W
  remove_path path w = if str_eq path [] then w else (machine.remove path w).1

  abbrev pub killed : Instance → Manager → Option Str × W → (Str ⊎ ReleaseResponse) × (Manager × W)
  killed inst m (some e, w) = (inl (bytes "kill chrome: " ++ e), (m, w))
  killed inst m (none, w) = (
    inr released_response,
    (m, remove_path inst.forward_path (close_forward machine inst.forward_ln w)),
  )

  abbrev pub release_found :
      Str → Manager → W → Option Instance → (Str ⊎ ReleaseResponse) × (Manager × W)
  release_found agent_id m w none = (inr released_response, (m, w))
  release_found agent_id m w (some inst) =
      killed inst (forget agent_id m) (machine.kill inst.proc w)

  -- `Release`
  unfoldable pub release : Str → Manager → W → (Str ⊎ ReleaseResponse) × (Manager × W)
  release agent_id m w =
      if is_blank agent_id
      then (inl agent_id_required, (m, w))
      else release_found agent_id m w (lookup agent_id m.instances)

  -- `reap`
  unfoldable pub reap : Str → ℕ → Manager → W → Manager × W
  reap agent_id proc m w =
      (reap_found agent_id proc m (lookup agent_id m.instances), machine.wait proc w)

  -- `ReleaseAll`; the order of the keys is open.
  unfoldable pub release_each : List Str → Manager → W → Manager × W
  release_each [] m w = (m, w)
  release_each (id ∷ ids) m w = let s = (release id m w).1 in release_each ids s.0 s.1

  unfoldable pub release_all : Manager → W → Manager × W
  release_all m w = release_each (keys m.instances) m w

-- What happens to the manager, one call after another. `exited`: a process ends, and its
-- goroutine `reap` goes on.
pub data Event : Type 0 where
  acquiring : AcquireRequest → Event
  releasing : Str → Event
  exited : Str → ℕ → Event
  asking : Str → Event

module _ {ℓ} {W : Type ℓ} (machine : Machine W) where
  unfoldable pub handle : Event → Manager → W → Manager × W
  handle (acquiring req) m w = (acquire machine m req w).1
  handle (releasing agent_id) m w = (release machine agent_id m w).1
  handle (exited agent_id proc) m w = reap machine agent_id proc m w
  handle (asking agent_id) m w = (m, w)

  unfoldable pub handle_all : List Event → Manager → W → Manager × W
  unfolding handle
  handle_all [] m w = (m, w)
  handle_all (ev ∷ evs) m w = let s = handle ev m w in handle_all evs s.0 s.1

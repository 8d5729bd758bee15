-- ===== src/Keeperd/Departure.antt =====
-- What is left of an agent that is destroyed, or whose ward has ended.
use vivary.Prelude.{
  ◌≡◌, refl, true, false, Option, none, some, List, [], ◌∷◌, Str, bytes, str_eq, str_eq_self,
}
use vivary.Prelude.Map.{lookup, lookup-delete}
use vivary.Switchboard.Router.{remove_pipe, send, no_pipe}
use vivary.Switchboard.Codec.{SwarmHeader}
use vivary.Capabilities.Dispatch.{Request, remove_acl, dispatch_request}
use vivary.Capabilities.Grants.{IsDenied}
use vivary.Ctl.Requests.{AgentCreatePayload, AgentDestroyPayload}
use vivary.Keeperd.State.{AgentState, Daemon}
use vivary.Keeperd.Ctl.{Formats, agent_status}
use vivary.Keeperd.Provisioning.{Runtime, BrowserSessions, Settings, ward_exited}
use vivary.Keeperd.Lifecycle.{agent_create, agent_destroy}

-- The agent has no state, no access list and no pipe; the others have theirs.
pub record IsGone {ℓ} {W : Type ℓ} {F : Type 0} (id : Str) (d d' : Daemon W F) : Type ℓ where
  pub agent : lookup id d'.agents ≡ none
  pub acl : lookup id d'.dispatcher.acls ≡ none
  pub pipe : lookup id d'.router.pipes ≡ none
  pub other_agents : (j : Str) → str_eq id j ≡ false → lookup j d'.agents ≡ lookup j d.agents
  pub other_acls :
      (j : Str) → str_eq id j ≡ false → lookup j d'.dispatcher.acls ≡ lookup j d.dispatcher.acls
  pub other_pipes :
      (j : Str) → str_eq id j ≡ false → lookup j d'.router.pipes ≡ lookup j d.router.pipes

module _ {ℓ} {W : Type ℓ} {F : Type 0} (rt : Runtime W) (browser : Option (BrowserSessions W))
    (settings : Settings) (zero_cost : F) (req : AgentDestroyPayload) (d : Daemon W F) (w : W) where
  abbrev left : Daemon W F
  left = (agent_destroy rt browser settings zero_cost req d w).1.0

  -- Destroying an agent that is there succeeds, takes its state, its access list and its pipe away,
  -- and leaves those of every other agent.
  pub agent_destroy-IsGone :
      (a : AgentState F)
      → lookup req.id d.agents ≡ some a
      → ((agent_destroy rt browser settings zero_cost req d w).0 ≡ none) × IsGone req.id d left
  unfolding agent_destroy remove_acl remove_pipe
  agent_destroy-IsGone a e =
      let mine = str_eq_self req.id in
      (
        rw e refl,
        rw (left, e)
            (record {
              agent = rw (lookup-delete, mine) refl;
              acl = rw (lookup-delete, mine) refl;
              pipe = rw (lookup-delete, mine) refl;
              other_agents = λ j other. rw (lookup-delete, other) refl;
              other_acls = λ j other. rw (lookup-delete, other) refl;
              other_pipes = λ j other. rw (lookup-delete, other) refl;
            }),
      )

  -- Once an agent is destroyed, each capability request in its name is denied and runs nothing, and
  -- no frame can be sent to it.
  pub agent_destroy-IsDenied :
      (quote : Str → Str) (a : AgentState F) (asked : Request) (hdr : SwarmHeader) (payload : Str)
      (w' : W)
      → lookup req.id d.agents ≡ some a
      → asked.agent_id ≡ req.id
      → IsDenied w' (dispatch_request quote left.dispatcher asked w')
        × (send left.router req.id hdr payload w' ≡ (some (no_pipe req.id), w'))
  unfolding send dispatch_request
  agent_destroy-IsDenied quote a asked hdr payload w' e owner =
      let gone = (agent_destroy-IsGone a e).1 in
      (rw (owner, gone.acl) record { detail = _; response = refl; world = refl }, rw gone.pipe refl)

module _ {ℓ} {W : Type ℓ} {F : Type 0} (formats : Formats F) (d : Daemon W F) (id : Str) where
  -- Once the ward of an agent with a pipe has ended, the agent is still reported as running, and
  -- every frame sent to it fails since it has no pipe.
  pub ward_exited-unreachable :
      (a : AgentState F) (hdr : SwarmHeader) (payload : Str) (w : W)
      → lookup id d.agents ≡ some a
      → a.has_pipe ≡ true
      → (lookup id (ward_exited id d).agents ≡ some a)
        × ((agent_status formats a).state ≡ bytes "running")
        × (send (ward_exited id d).router id hdr payload w ≡ (some (no_pipe id), w))
  unfolding ward_exited remove_pipe send agent_status
  ward_exited-unreachable a hdr payload w e piped =
      (e, rw piped refl, rw (lookup-delete, str_eq_self id) refl)

-- The calls that make and end agents, and the exits of wards
pub data Call : Type 0 where
  creating : AgentCreatePayload → Call
  destroying : AgentDestroyPayload → Call
  exiting : Str → Call

module _ {ℓ} {W : Type ℓ} {F : Type 0} (rt : Runtime W) (browser : Option (BrowserSessions W))
    (settings : Settings) (zero_cost : F) where
  unfoldable pub call : Call → Daemon W F → W → Daemon W F × W
  call (creating req) d w = (agent_create rt browser settings zero_cost req d w).1
  call (destroying req) d w = (agent_destroy rt browser settings zero_cost req d w).1
  call (exiting id) d w = (ward_exited id d, w)

  unfoldable pub call_all : List Call → Daemon W F → W → Daemon W F × W
  unfolding call
  call_all [] d w = (d, w)
  call_all (c ∷ calls) d w = let s = call c d w in call_all calls s.0 s.1

-- ===== src/Switchboard/Router/Send.antt =====
-- Which pipe Send writes to.
use vivary.Prelude.{◌≡◌, refl, inl, inr, some, if◌then◌else◌, Bool-cases, Str, str_eq}
use vivary.Prelude.Map.{lookup-insert, lookup-delete}
use vivary.Switchboard.Codec.{SwarmHeader, write_frame}
use vivary.Switchboard.Router.{Endpoint, Router, no_pipe, send, send_to, add_pipe, remove_pipe}

-- After AddPipe, a frame for the agent of the pipe is written to that pipe, even if another pipe
-- was registered for the agent; after RemovePipe it is refused and nothing is written; and in both
-- cases the frames for the other agents go where they went.
pub send-add_pipe {ℓ} :
    {W : Type ℓ} (r : Router W) (p : Endpoint W) (id : Str) (hdr : SwarmHeader) (payload : Str)
    (w : W)
    → (send (add_pipe p r) id hdr payload w ≡ (
        if str_eq p.agent_id id
        then send_to id (some p) (write_frame hdr payload) w
        else send r id hdr payload w))
      × (send (remove_pipe p.agent_id (add_pipe p r)) id hdr payload w
          ≡ (if str_eq p.agent_id id then (some (no_pipe id), w) else send r id hdr payload w))
unfolding send add_pipe remove_pipe
send-add_pipe r p id hdr payload w = elim (Bool-cases (str_eq p.agent_id id)) [
  | inl e ↦ (rw (lookup-insert, e) refl, rw (lookup-delete, e) refl)
  | inr e ↦ (rw (lookup-insert, e) refl, rw (lookup-delete, lookup-insert, e) refl)
]

-- ===== src/Keeperd/Unanswered.antt =====
-- A request on a control connection that gets no answer.
use vivary.Prelude.{
  ℕ, ◌≡◌, refl, ap, ◌∙◌, Bool, true, false, not, List, ◌++◌, if◌then◌else◌, Str, str_eq,
  str_eq_self,
}
use vivary.Mus.{Source, Error, err}
use vivary.Mus.Errors.{error_text}
use vivary.Switchboard.MsgType
use vivary.Switchboard.Codec.{SwarmHeader, write_frame}
use vivary.Switchboard.Frames.{IsSendable, read_frame-write_frame}
use vivary.Switchboard.Router.{Writer}
use vivary.Ctl.Requests.{ctl_identity, unmarshal_agent_create}
use vivary.Keeperd.State.{Daemon, Audit, fresh_header}
use vivary.Keeperd.Handlers.{memory}
use vivary.Keeperd.Ctl.{Formats, Provision, error_payload, dispatch_ctl}
use vivary.Keeperd.Connection.{Served, live, received, on_event, on_read, logged, respond, go_on}

not_taken {ℓ} : {A : Type ℓ} (b : Bool) (x y : A) → b ≡ false → (if b then x else y) ≡ y
not_taken true x y e = absurd (cc e)
not_taken false x y e = refl

-- What a client that asks for an agent writes
abbrev pub creation : Str → ℕ → SwarmHeader
creation to seq = fresh_header MsgType.ctl_agent_create ctl_identity to seq

module _ {ℓ} {W : Type ℓ} {F : Type 0} (audit : Audit W) (quote : Str → Str)
    (provision : Provision W F) (formats : Formats F) (version : Str) (src : Source)
    (out : Writer W) where
  dispatch_ctl-err :
      (uptime : ℕ) (payload : Str) (e : Error) (d : Daemon W F) (w : W)
      → unmarshal_agent_create memory payload ≡ err e
      → dispatch_ctl quote provision formats version uptime MsgType.ctl_agent_create payload d w
        ≡ record { type = 0; payload = error_payload (error_text e); daemon = d; world = w }
  unfolding dispatch_ctl
  dispatch_ctl-err uptime payload e d w h = rw h refl

  respond-untyped :
      (rest : List ℕ) (s : Served W F) (text : List ℕ)
      → s.conn.cancelled ≡ false
      → respond audit quote provision formats version src out rest s.conn
          (record { type = 0; payload = text; daemon = s.daemon; world = s.world })
        ≡ live rest s
  unfolding respond go_on
  respond-untyped rest s text going = not_taken s.conn.cancelled _ _ going

  -- A client whose request to create an agent does not decode is not told: the connection writes
  -- nothing and waits for the next frame, and nothing changes but the audit log.
  pub on_event-unanswered :
      (uptime seq : ℕ) (to payload : Str) (rest : List ℕ) (e : Error) (s : Served W F)
      → IsSendable (creation to seq) payload
      → unmarshal_agent_create memory payload ≡ err e
      → s.conn.cancelled ≡ false
      → on_event audit quote provision formats version src out
          (received uptime)
          (write_frame (creation to seq) payload ++ rest)
          s
        ≡ live rest (record s {
          world =
              audit.write_audit_frame
                (MsgType.to_string MsgType.ctl_agent_create)
                ctl_identity
                to
                seq
                payload
                s.world;
        })
  unfolding on_event
  on_event-unanswered uptime seq to payload rest e s fits bad going =
      let noted =
        logged audit quote provision formats version src out (creation to seq) payload s in
      ap (on_read audit quote provision formats version src out uptime s)
        (read_frame-write_frame (creation to seq) payload src rest fits)
      ∙ not_taken (not (str_eq ctl_identity ctl_identity)) _ _ (rw (str_eq_self ctl_identity) refl)
      ∙ ap (respond audit quote provision formats version src out rest s.conn)
          (dispatch_ctl-err uptime payload e noted.daemon noted.world bad)
      ∙ respond-untyped rest noted (error_payload (error_text e)) going

-- ===== src/Keeperd/Connection.antt =====
-- cmd/keeperd/main.go `handleCtlConn`: the connection of one control client. `out` writes to it. Its
-- two goroutines take turns in the order of the list of events. `ReadFrame` makes no slice above its
-- cap, so its case `panicked` does not occur. Log lines are left out.
use vivary.Prelude.{
  ℕ, Bool, true, false, not, ◌&&◌, Option, none, some, List, [], ◌∷◌, ◌++◌, ◌==◌, if◌then◌else◌,
  Str, str_eq,
}
use vivary.Mus.{Source, Error, Result, ok, err, panicked}
use vivary.Switchboard.MsgType
use vivary.Switchboard.Codec.{SwarmHeader, read_frame, write_frame}
use vivary.Switchboard.Router.{Frame, Writer, seq_next}
use vivary.Ctl.Requests.{ctl_identity}
use vivary.Keeperd.State.{Subscriber, Daemon, Audit, fresh_header, keeper}
use vivary.Keeperd.Ctl.{Formats, Provision, Reply, dispatch_ctl}

-- `channel` stands for `pushCh`. `cancelled`: `connCtx` is done. `pushing`: the push goroutine runs.
pub record CtlConn : Type 0 where
  pub channel : ℕ
  pub seq_out : ℕ
  pub subscribed : Bool
  pub cancelled : Bool
  pub pushing : Bool

pub record Served {ℓ} (W : Type ℓ) (F : Type 0) : Type ℓ where
  pub conn : CtlConn
  pub daemon : Daemon W F
  pub world : W

-- `live`: with the input that is left.
pub data Phase {ℓ} (W : Type ℓ) (F : Type 0) : Type ℓ where
  live : List ℕ → Served W F → Phase W F
  shut : Served W F → Phase W F

-- `received`: ReadFrame returns, `uptime` seconds after the start of the daemon, and the loop goes
-- round to its next look at `connCtx`. `pushed`: the push goroutine takes a frame of the channel.
-- `context_done`: the daemon ends. `push_ended`: the push goroutine finds `connCtx` done.
pub data Event : Type 0 where
  received : ℕ → Event
  pushed context_done push_ended : Event

-- The removal of the first entry that is `pushCh`
unfoldable pub without : ℕ → List Subscriber → List Subscriber
without channel [] = []
without channel (s ∷ ss) =
    let rest = without channel ss in if s.channel == channel then ss else s ∷ rest

-- What a receive from a channel takes, and what it leaves.
abbrev pub first_frame : List Frame → Option Frame
first_frame [] = none
first_frame (f ∷ fs) = some f

abbrev pub later_frames : List Frame → List Frame
later_frames [] = []
later_frames (f ∷ fs) = fs

abbrev pub receive_from : Subscriber → Subscriber
receive_from s = record s { queue = later_frames s.queue }

-- A receive from the channel, if a frame waits in it.
unfoldable pub waiting : ℕ → List Subscriber → Option Frame
waiting channel [] = none
waiting channel (s ∷ ss) =
    let rest = waiting channel ss in if s.channel == channel then first_frame s.queue else rest

unfoldable pub received_from : ℕ → List Subscriber → List Subscriber
received_from channel [] = []
received_from channel (s ∷ ss) =
    let rest = received_from channel ss in
    if s.channel == channel then receive_from s ∷ ss else s ∷ rest

module _ {ℓ} {W : Type ℓ} {F : Type 0} where
  abbrev pub deregister : ℕ → Daemon W F → Daemon W F
  deregister channel d = record d { ctl_subs = without channel d.ctl_subs }

  -- The deferred calls
  unfoldable pub close : Served W F → Phase W F
  close s =
      shut
        (if s.conn.subscribed then record s { daemon = deregister s.conn.channel s.daemon } else s)

  -- The look at `connCtx` at the head of the loop
  unfoldable pub go_on : List ℕ → Served W F → Phase W F
  go_on rest s = if s.conn.cancelled then close s else live rest s

  abbrev pub set_subs : List Subscriber → Daemon W F → Daemon W F
  set_subs subs d = record d { ctl_subs = subs }

  abbrev pub cancel : Served W F → Served W F
  cancel s = record s { conn = record s.conn { cancelled = true } }

  abbrev pub end_push : Served W F → Served W F
  end_push s = record s { conn = record s.conn { pushing = false } }

  module _ (audit : Audit W) (quote : Str → Str) (provision : Provision W F) (formats : Formats F)
      (version : Str) (src : Source) (out : Writer W) where
    abbrev pub after_reply : List ℕ → CtlConn → Daemon W F → Option Error × W → Phase W F
    after_reply rest c d (none, w) = go_on rest (record { conn = c; daemon = d; world = w })
    after_reply rest c d (some e, w) = close (record { conn = c; daemon = d; world = w })

    -- A reply of type 0 is none.
    unfoldable pub respond : List ℕ → CtlConn → Reply W F → Phase W F
    respond rest c r =
        if r.type == 0
        then go_on rest (record { conn = c; daemon = r.daemon; world = r.world })
        else let (seq, counter) = seq_next c.seq_out in
          after_reply rest (record c { seq_out = counter }) r.daemon
            (out (write_frame (fresh_header r.type keeper ctl_identity seq) r.payload) r.world)

    -- The answer to a subscription, whose write error is ignored.
    unfoldable pub subscribe : List ℕ → Served W F → Phase W F
    subscribe rest s =
        let (seq, counter) = seq_next s.conn.seq_out in
        go_on rest (record {
          conn = record s.conn { seq_out = counter; subscribed = true };
          daemon =
              set_subs (s.daemon.ctl_subs ++ (record { channel = s.conn.channel; queue = [] } ∷ []))
                s.daemon;
          world =
              (out
                (write_frame (fresh_header MsgType.ctl_subscribe keeper ctl_identity seq) (1 ∷ []))
                s.world).1;
        })

    abbrev pub logged : SwarmHeader → Str → Served W F → Served W F
    logged hdr payload s = record s {
      world =
          audit.write_audit_frame (MsgType.to_string hdr.msg_type) hdr.from_id hdr.to_id hdr.seq_no
            payload s.world;
    }

    abbrev pub answer : ℕ → SwarmHeader → Str → List ℕ → Served W F → Phase W F
    answer uptime hdr payload rest s =
        if hdr.msg_type == MsgType.ctl_subscribe && not s.conn.subscribed
        then subscribe rest s
        else respond rest s.conn (
            dispatch_ctl quote provision formats version uptime hdr.msg_type payload s.daemon
              s.world)

    abbrev pub on_read : ℕ → Served W F → Result ((SwarmHeader × Str) × List ℕ) → Phase W F
    on_read uptime s (err e) = close s
    on_read uptime s panicked = close s
    on_read uptime s (ok ((hdr, payload), rest)) =
        if not (str_eq hdr.from_id ctl_identity)
        then close s
        else answer uptime hdr payload rest (logged hdr payload s)

    abbrev pub after_push : List ℕ → Served W F → Option Error × W → Phase W F
    after_push bs s (none, w) = live bs (record s { world = w })
    after_push bs s (some e, w) = live bs (end_push (cancel (record s { world = w })))

    abbrev pub forward : List ℕ → Served W F → Option Frame → Phase W F
    forward bs s none = live bs s
    forward bs s (some f) =
        let (seq, counter) = seq_next s.conn.seq_out in
        after_push bs
          (record s {
            conn = record s.conn { seq_out = counter };
            daemon = set_subs (received_from s.conn.channel s.daemon.ctl_subs) s.daemon;
          })
          (out (write_frame (fresh_header f.header.msg_type keeper ctl_identity seq) f.payload)
            s.world)

    unfoldable pub on_event : Event → List ℕ → Served W F → Phase W F
    on_event (received uptime) bs s = on_read uptime s (read_frame src bs)
    on_event pushed bs s =
        if s.conn.pushing
        then forward bs s (waiting s.conn.channel s.daemon.ctl_subs)
        else live bs s
    on_event context_done bs s = live bs (cancel s)
    on_event push_ended bs s = if s.conn.cancelled then live bs (end_push s) else live bs s

    -- A closed connection does nothing more.
    unfoldable pub on_phase : Event → Phase W F → Phase W F
    on_phase e (live bs s) = on_event e bs s
    on_phase e (shut s) = shut s

    -- `handleCtlConn`
    unfoldable pub handle_ctl_conn : List Event → Phase W F → Phase W F
    handle_ctl_conn [] p = p
    handle_ctl_conn (e ∷ es) p = handle_ctl_conn es (on_phase e p)

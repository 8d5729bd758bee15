-- ===== src/Keeperd/Hangup.antt =====
-- How a connection of a control client comes to its end.
use vivary.Prelude.{
  ℕ, ◌+◌, ◌≤◌, ◌<◌, ◌≡◌, refl, Bool, true, false, not, ◌&&◌, Option, none, some, List, [], ◌∷◌,
  arith, ◌==◌, if◌then◌else◌, length, Str, str_eq,
}
use vivary.Mus.{Source, Error, Result, ok, err, panicked}
use vivary.Switchboard.MsgType
use vivary.Switchboard.Codec.{SwarmHeader, read_frame}
use vivary.Switchboard.Bounds.{Shrinks-read_frame}
use vivary.Switchboard.Router.{Frame, Writer, seq_next}
use vivary.Ctl.Requests.{ctl_identity}
use vivary.Keeperd.State.{Daemon, Audit}
use vivary.Keeperd.Ctl.{Formats, Provision, Reply}
use vivary.Keeperd.Connection.{
  CtlConn, Served, Phase, live, shut, Event, received_from, set_subs, received, pushed,
  context_done, push_ended, after_reply, answer, on_read, after_push, forward, close, go_on,
  respond, subscribe, on_event, on_phase, handle_ctl_conn,
}
use vivary.Keeperd.Subs.{channels, IsAbsent}
use vivary.Keeperd.Provisioning.{Runtime, BrowserSessions, Settings}
use vivary.Keeperd.Lifecycle.{provision}
use vivary.Keeperd.Provided.{provision-LeavesSubs}
use vivary.Keeperd.Disconnect.{channels-shut}

-- How many frames the connection waits for.
unfoldable pub reads : List Event → ℕ
reads [] = 0
reads (received uptime ∷ es) = reads es + 1
reads (pushed ∷ es) = reads es
reads (context_done ∷ es) = reads es
reads (push_ended ∷ es) = reads es

module _ {ℓ} {W : Type ℓ} {F : Type 0} where
  -- The connection is closed, or has less than `n` bytes to read.
  abbrev Below : ℕ → Phase W F → Type 0
  Below n (live bs s) = length bs < n
  Below n (shut s) = Unit

  Below-if :
      (n : ℕ) (b : Bool) (p q : Phase W F) → Below n p → Below n q → Below n (if b then p else q)
  Below-if n true p q h h' = h
  Below-if n false p q h h' = h'

  Below-weaken : (m n : ℕ) (p : Phase W F) → m ≤ n → Below m p → Below n p
  Below-weaken m n (live bs s) le h = omega arith
  Below-weaken m n (shut s) le h = tt

  module _ (audit : Audit W) (quote : Str → Str) (provision : Provision W F) (formats : Formats F)
      (version : Str) (src : Source) (out : Writer W) (n : ℕ) where
    Below-go_on : (rest : List ℕ) (s : Served W F) → length rest < n → Below n (go_on rest s)
    unfolding go_on close
    Below-go_on rest s h = Below-if n s.conn.cancelled _ _ tt h

    Below-after_reply :
        (rest : List ℕ) (c : CtlConn) (d : Daemon W F) (r : Option Error × W)
        → length rest < n
        → Below n (after_reply audit quote provision formats version src out rest c d r)
    unfolding close
    Below-after_reply rest c d (none, w) h = Below-go_on rest _ h
    Below-after_reply rest c d (some e, w) h = tt

    Below-respond :
        (rest : List ℕ) (c : CtlConn) (r : Reply W F)
        → length rest < n
        → Below n (respond audit quote provision formats version src out rest c r)
    unfolding respond seq_next
    Below-respond rest c r h =
        Below-if n (r.type == 0) _ _ (Below-go_on rest _ h) (Below-after_reply rest _ r.daemon _ h)

    Below-answer :
        (uptime : ℕ) (hdr : SwarmHeader) (payload : Str) (rest : List ℕ) (s : Served W F)
        → length rest < n
        → Below n (answer audit quote provision formats version src out uptime hdr payload rest s)
    unfolding subscribe seq_next
    Below-answer uptime hdr payload rest s h =
        Below-if n (hdr.msg_type == MsgType.ctl_subscribe && not s.conn.subscribed) _ _
          (Below-go_on rest _ h) (Below-respond rest s.conn _ h)

  module _ (audit : Audit W) (quote : Str → Str) (provision : Provision W F) (formats : Formats F)
      (version : Str) (src : Source) (out : Writer W) where
    Below-on_read :
        (uptime : ℕ) (bs : List ℕ) (s : Served W F) (r : Result ((SwarmHeader × Str) × List ℕ))
        → read_frame src bs ≡ r
        → Below (length bs) (on_read audit quote provision formats version src out uptime s r)
    unfolding close
    Below-on_read uptime bs s (err e) h = tt
    Below-on_read uptime bs s panicked h = tt
    Below-on_read uptime bs s (ok ((hdr, payload), rest)) h =
        Below-if (length bs) (not (str_eq hdr.from_id ctl_identity)) _ _ tt (
          Below-answer audit quote provision formats version src out (length bs) uptime hdr payload
            rest _ (Shrinks-read_frame.at src bs (hdr, payload) rest h))

    Below-after_push :
        (n : ℕ) (bs : List ℕ) (s : Served W F) (r : Option Error × W)
        → length bs < n
        → Below n (after_push audit quote provision formats version src out bs s r)
    Below-after_push n bs s (none, w) h = h
    Below-after_push n bs s (some e, w) h = h

    Below-forward :
        (n : ℕ) (bs : List ℕ) (s : Served W F) (f : Option Frame)
        → length bs < n
        → Below n (forward audit quote provision formats version src out bs s f)
    unfolding seq_next
    Below-forward n bs s none h = h
    Below-forward n bs s (some f) h =
        Below-after_push n bs
          (record s {
            conn = record s.conn { seq_out = (seq_next s.conn.seq_out).1 };
            daemon = set_subs (received_from s.conn.channel s.daemon.ctl_subs) s.daemon;
          })
          _ h

    Below-on_phase :
        (e : Event) (es : List Event) (p : Phase W F)
        → Below (reads (e ∷ es)) p
        → Below (reads es) (on_phase audit quote provision formats version src out e p)
    unfolding on_phase on_event reads
    Below-on_phase e es (shut s) h = tt
    Below-on_phase (received uptime) es (live bs s) h =
        Below-weaken (length bs) (reads es) _ (omega arith) (Below-on_read uptime bs s _ refl)
    Below-on_phase pushed es (live bs s) h =
        Below-if (reads es) s.conn.pushing _ _ (Below-forward (reads es) bs s _ h) h
    Below-on_phase context_done es (live bs s) h = h
    Below-on_phase push_ended es (live bs s) h = Below-if (reads es) s.conn.cancelled _ _ h h

    Below-handle_ctl_conn :
        (es : List Event) (p : Phase W F)
        → Below (reads es) p
        → Below 0 (handle_ctl_conn audit quote provision formats version src out es p)
    unfolding handle_ctl_conn reads
    Below-handle_ctl_conn [] p h = h
    Below-handle_ctl_conn (e ∷ es) p h = Below-handle_ctl_conn es _ (Below-on_phase e es p h)

-- A connection that has closed and left the push channels as they were before it.
pub record IsHungUp {ℓ} {W : Type ℓ} {F : Type 0} (d : Daemon W F) (p : Phase W F) : Type ℓ where
  pub final : Served W F
  pub closed : p ≡ shut final
  pub subscribers : channels final.daemon.ctl_subs ≡ channels d.ctl_subs

closed_at {ℓ} :
    {W : Type ℓ} → {F : Type 0} → (p : Phase W F) → Below 0 p → ((s : Served W F) × (p ≡ shut s))
closed_at (live bs s) h = absurd (omega arith)
closed_at (shut s) h = (s, refl)

-- A new control connection on whose channel nobody is subscribed, and that reads more often than its
-- input has bytes, comes to its end, whatever is read, pushed or cancelled in what order, and the
-- daemon then has the push channels that it had before.
pub handle_ctl_conn-IsHungUp {ℓ} :
    {W : Type ℓ}
    → {F : Type 0}
    → (rt : Runtime W) (browser : Option (BrowserSessions W)) (settings : Settings) (zero_cost : F)
      (audit : Audit W) (quote : Str → Str) (formats : Formats F) (version : Str) (src : Source)
      (out : Writer W) (es : List Event) (bs : List ℕ) (s : Served W F)
    → s.conn.subscribed ≡ false
    → IsAbsent s.conn.channel (channels s.daemon.ctl_subs)
    → length bs < reads es
    → IsHungUp s.daemon (
        handle_ctl_conn audit quote
          (provision rt browser settings zero_cost)
          formats
          version
          src
          out
          es
          (live bs s))
handle_ctl_conn-IsHungUp rt browser settings zero_cost audit quote formats version src out es bs s
      new absent enough =
    let provided = provision rt browser settings zero_cost in
    let (final, closed) =
      closed_at _ (
        Below-handle_ctl_conn audit quote provided formats version src out es (live bs s) enough) in
    record {
      final = final;
      closed = closed;
      subscribers =
          channels-shut audit quote provided formats version src out es bs s final
            (provision-LeavesSubs rt browser settings zero_cost) new absent closed;
    }

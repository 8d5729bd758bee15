-- ===== src/Keeperd/Disconnect.antt =====
-- The push channels of the daemon, through a connection of a control client.
use vivary.Prelude.{
  ℕ, ◌≡◌, refl, ap, ◌∙◌, inl, inr, Bool, true, false, not, ◌&&◌, Option, none, some, List, [], ◌∷◌,
  ◌++◌, ◌==◌, if◌then◌else◌, Bool-cases, Str, str_eq,
}
use vivary.Mus.{Source, Error, Result, ok, err, panicked}
use vivary.Switchboard.MsgType
use vivary.Switchboard.Codec.{SwarmHeader}
use vivary.Switchboard.Router.{Frame, Writer, seq_next}
use vivary.Ctl.Requests.{ctl_identity}
use vivary.Keeperd.State.{Daemon, Audit}
use vivary.Keeperd.Ctl.{Formats, Provision, Reply}
use vivary.Keeperd.Connection.{
  CtlConn, Served, Phase, live, shut, Event, received, pushed, context_done, push_ended, set_subs,
  after_reply, logged, answer, on_read, after_push, forward, received_from, close, go_on, respond,
  subscribe, on_event, on_phase, handle_ctl_conn,
}
use vivary.Keeperd.Subs.{
  channels, LeavesSubs, IsAbsent, remove_first, channels-without, channels-received_from,
  remove_first-append, channels-append, new_one, Kept-dispatch_ctl,
}

-- What the daemon lists beside `base`, for a connection on the channel `c`.
abbrev listed : ℕ → List ℕ → Bool → List ℕ
listed c base subscribed = if subscribed then base ++ (c ∷ []) else base

module _ {ℓ} {W : Type ℓ} {F : Type 0} (c : ℕ) (base : List ℕ) where
  record IsOwn (s : Served W F) : Type 0 where
    channel : s.conn.channel ≡ c
    subs : channels s.daemon.ctl_subs ≡ listed c base s.conn.subscribed

  abbrev Fits : Phase W F → Type 0
  Fits (live bs s) = IsOwn s
  Fits (shut s) = channels s.daemon.ctl_subs ≡ base

  Fits-if : (b : Bool) (p q : Phase W F) → Fits p → Fits q → Fits (if b then p else q)
  Fits-if true p q h h' = h
  Fits-if false p q h h' = h'

  Fits-when :
      (b : Bool) (p q : Phase W F) → (b ≡ true → Fits p) → Fits q → Fits (if b then p else q)
  Fits-when true p q h h' = h refl
  Fits-when false p q h h' = h'

  module _ (absent : IsAbsent c base) where
    Fits-close : (s : Served W F) → IsOwn s → Fits (close s)
    unfolding close
    Fits-close s own = elim (Bool-cases s.conn.subscribed) [
      | inl e ↦
          let subs = rw e at own.subs in
          rw (close, e, own.channel)
            (channels-without c s.daemon.ctl_subs
              ∙ ap (remove_first c) subs
              ∙ remove_first-append c base absent)
      | inr e ↦ let subs = rw e at own.subs in rw (close, e) subs
    ]

    Fits-go_on : (rest : List ℕ) (s : Served W F) → IsOwn s → Fits (go_on rest s)
    unfolding go_on
    Fits-go_on rest s own = Fits-if s.conn.cancelled _ _ (Fits-close s own) own

    module _ (audit : Audit W) (quote : Str → Str) (provision : Provision W F)
        (fair : LeavesSubs provision) (formats : Formats F) (version : Str) (src : Source)
        (out : Writer W) where
      Fits-after_reply :
          (rest : List ℕ) (n : CtlConn) (d : Daemon W F) (r : Option Error × W)
          → ((w : W) → IsOwn (record { conn = n; daemon = d; world = w }))
          → Fits (after_reply audit quote provision formats version src out rest n d r)
      Fits-after_reply rest n d (none, w) own = Fits-go_on rest _ (own w)
      Fits-after_reply rest n d (some e, w) own = Fits-close _ (own w)

      Fits-respond :
          (rest : List ℕ) (n : CtlConn) (r : Reply W F)
          → ((w : W) → IsOwn (record { conn = n; daemon = r.daemon; world = w }))
          → Fits (respond audit quote provision formats version src out rest n r)
      unfolding respond seq_next
      Fits-respond rest n r own = Fits-if (r.type == 0) _ _ (Fits-go_on rest _ (own r.world)) (
          Fits-after_reply rest _ r.daemon _
            (λ w. record { channel = (own w).channel; subs = (own w).subs }))

      Fits-subscribe :
          (rest : List ℕ) (s : Served W F)
          → s.conn.subscribed ≡ false
          → IsOwn s
          → Fits (subscribe audit quote provision formats version src out rest s)
      unfolding subscribe seq_next
      Fits-subscribe rest s new own =
          let subs : channels s.daemon.ctl_subs ≡ base = rw new at own.subs in
          Fits-go_on rest _ record {
            channel = own.channel;
            subs =
                channels-append s.daemon.ctl_subs s.conn.channel
                ∙ ap (λ xs. xs ++ (s.conn.channel ∷ [])) subs
                ∙ ap (λ x. base ++ (x ∷ [])) own.channel;
          }

      Fits-answer :
          (uptime : ℕ) (hdr : SwarmHeader) (payload : Str) (rest : List ℕ) (s : Served W F)
          → IsOwn s
          → Fits (answer audit quote provision formats version src out uptime hdr payload rest s)
      Fits-answer uptime hdr payload rest s own =
          Fits-when (hdr.msg_type == MsgType.ctl_subscribe && not s.conn.subscribed) _ _
            (λ e. Fits-subscribe rest s (new_one _ _ e) own)
            (Fits-respond rest s.conn _ (λ w. record {
              channel = own.channel;
              subs =
                  ap channels (
                    Kept-dispatch_ctl quote provision fair formats version uptime hdr.msg_type
                      payload s.daemon s.world)
                  ∙ own.subs;
            }))

      Fits-on_read :
          (uptime : ℕ) (s : Served W F) (r : Result ((SwarmHeader × Str) × List ℕ))
          → IsOwn s
          → Fits (on_read audit quote provision formats version src out uptime s r)
      Fits-on_read uptime s (err e) own = Fits-close s own
      Fits-on_read uptime s panicked own = Fits-close s own
      Fits-on_read uptime s (ok ((hdr, payload), rest)) own =
          Fits-if (not (str_eq hdr.from_id ctl_identity)) _ _ (Fits-close s own) (
            Fits-answer uptime hdr payload rest
              (logged audit quote provision formats version src out hdr payload s)
              record { channel = own.channel; subs = own.subs })

      Fits-after_push :
          (bs : List ℕ) (s : Served W F) (r : Option Error × W)
          → IsOwn s
          → Fits (after_push audit quote provision formats version src out bs s r)
      Fits-after_push bs s (none, w) own = record { channel = own.channel; subs = own.subs }
      Fits-after_push bs s (some e, w) own = record { channel = own.channel; subs = own.subs }

      Fits-forward :
          (bs : List ℕ) (s : Served W F) (f : Option Frame)
          → IsOwn s
          → Fits (forward audit quote provision formats version src out bs s f)
      unfolding seq_next
      Fits-forward bs s none own = own
      Fits-forward bs s (some f) own =
          Fits-after_push bs
            (record s {
              conn = record s.conn { seq_out = (seq_next s.conn.seq_out).1 };
              daemon = set_subs (received_from s.conn.channel s.daemon.ctl_subs) s.daemon;
            })
            _
            record {
              channel = own.channel;
              subs = channels-received_from s.conn.channel s.daemon.ctl_subs ∙ own.subs;
            }

      Fits-on_event :
          (e : Event) (bs : List ℕ) (s : Served W F)
          → IsOwn s
          → Fits (on_event audit quote provision formats version src out e bs s)
      unfolding on_event
      Fits-on_event (received uptime) bs s own = Fits-on_read uptime s _ own
      Fits-on_event pushed bs s own = Fits-if s.conn.pushing _ _ (Fits-forward bs s _ own) own
      Fits-on_event context_done bs s own = record { channel = own.channel; subs = own.subs }
      Fits-on_event push_ended bs s own =
          Fits-if s.conn.cancelled _ _ record { channel = own.channel; subs = own.subs } own

      Fits-on_phase :
          (e : Event) (p : Phase W F)
          → Fits p
          → Fits (on_phase audit quote provision formats version src out e p)
      unfolding on_phase
      Fits-on_phase e (live bs s) own = Fits-on_event e bs s own
      Fits-on_phase e (shut s) h = h

      Fits-handle_ctl_conn :
          (es : List Event) (p : Phase W F)
          → Fits p
          → Fits (handle_ctl_conn audit quote provision formats version src out es p)
      unfolding handle_ctl_conn
      Fits-handle_ctl_conn [] p h = h
      Fits-handle_ctl_conn (e ∷ es) p h = Fits-handle_ctl_conn es _ (Fits-on_phase e p h)

-- The daemon's push channels at the end of a connection.
pub channels-shut {ℓ} :
    {W : Type ℓ}
    → {F : Type 0}
    → (audit : Audit W) (quote : Str → Str) (provision : Provision W F) (formats : Formats F)
      (version : Str) (src : Source) (out : Writer W) (es : List Event) (bs : List ℕ)
      (s s' : Served W F)
    → LeavesSubs provision
    → s.conn.subscribed ≡ false
    → IsAbsent s.conn.channel (channels s.daemon.ctl_subs)
    → handle_ctl_conn audit quote provision formats version src out es (live bs s) ≡ shut s'
    → channels s'.daemon.ctl_subs ≡ channels s.daemon.ctl_subs
channels-shut audit quote provision formats version src out es bs s s' fair new absent e =
    let base = channels s.daemon.ctl_subs in
    let fits =
      Fits-handle_ctl_conn s.conn.channel base absent audit quote provision fair formats version src
        out es (live bs s) record { channel = refl; subs = rw new refl } in
    rw e at fits

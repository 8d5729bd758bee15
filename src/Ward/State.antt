-- ===== src/Ward/State.antt =====
-- cmd/ward/main.go: the state of a ward, its pipe to the daemon, and the answers that calls wait
-- for. `W` is the state of the world outside; a process is a number. Log lines are left out.
use vivary.Prelude.{
  ℕ, ◌≡◌, Option, none, some, List, [], ◌∷◌, arith, ◌==◌, if◌then◌else◌, Str, bytes,
}
use vivary.Mus.{Error}
use vivary.Switchboard.MsgType
use vivary.Switchboard.Codec.{SwarmHeader, write_frame}
use vivary.Switchboard.Router.{Writer, seq_next}
use vivary.Ward.Loop.{LoopDetector}

-- `capResp`
pub record CapResp : Type 0 where
  pub hdr : SwarmHeader
  pub payload : Str

-- `pendingBySeq`: a channel that holds one answer at most, for each call that waits
abbrev pub Pending : Type 0
Pending = List (ℕ × Option CapResp)

pub record Ward : Type 0 where
  pub agent_id : Str
  pub seq : ℕ
  pub pending : Pending
  pub active_loop : Option LoopDetector
  pub active_cmd : Option ℕ
  pub active_abort : Option Str
  pub active_abort_detail : Option Str

unfoldable pub channel : ℕ → Pending → Option (Option CapResp)
channel seq [] = none
channel seq ((k, c) ∷ pending) = let rest = channel seq pending in if k == seq then some c else rest

unfoldable pub close_channel : ℕ → Pending → Pending
close_channel seq [] = []
close_channel seq ((k, c) ∷ pending) =
    let rest = close_channel seq pending in if k == seq then rest else (k, c) ∷ rest

-- `registerPending`
unfoldable pub register_pending : ℕ → Ward → Ward
register_pending seq w = record w { pending = (seq, none) ∷ close_channel seq w.pending }

-- `removePending`
unfoldable pub remove_pending : ℕ → Ward → Ward
remove_pending seq w = record w { pending = close_channel seq w.pending }

-- A send that does not block: a channel with an answer keeps it.
abbrev pub offered : ℕ → CapResp → Option (Option CapResp) → Pending → Pending
offered seq r none pending = pending
offered seq r (some none) pending = (seq, some r) ∷ close_channel seq pending
offered seq r (some (some first)) pending = pending

-- `deliverCapabilityResponse`
unfoldable pub deliver_capability_response : SwarmHeader → Str → Ward → Ward
deliver_capability_response hdr payload w = record w {
  pending =
      offered hdr.seq_no (record { hdr = hdr; payload = payload }) (channel hdr.seq_no w.pending)
        w.pending;
}

-- The header of a frame of the ward, and of a capability request with a number taken before
abbrev pub ward_header : Str → ℕ → Str → ℕ → SwarmHeader
ward_header agent_id type to seq = record {
  version = 0;
  msg_type = type;
  from_id = agent_id;
  to_id = to;
  seq_no = seq;
  payload_len = 0;
}

abbrev pub request_header : Str → ℕ → SwarmHeader
request_header agent_id seq = ward_header agent_id MsgType.capability_request (bytes "keeper") seq

-- `p.seq.Next()`
unfoldable pub next_seq : Ward → ℕ × Ward
next_seq w = let (seq, counter) = seq_next w.seq in (seq, record w { seq = counter })

module _ {ℓ} {W : Type ℓ} (pipe : Writer W) where
  -- `send`
  unfoldable pub send : ℕ → Str → Str → Ward → W → Option Error × (Ward × W)
  send type to payload ward w =
      let (seq, ward') = next_seq ward in
      let r = pipe (write_frame (ward_header ward.agent_id type to seq) payload) w in
      (r.0, (ward', r.1))

  -- `sendWithSeq`
  unfoldable pub send_with_seq : ℕ → Str → Ward → W → Option Error × W
  send_with_seq seq payload ward w = pipe (write_frame (request_header ward.agent_id seq) payload) w

-- What the main loop of the ward does with a frame: a prompt starts a goroutine of its own.
pub data Received : Type 0 where
  handled : Received
  prompted : Str → Received

module _ {ℓ} {W : Type ℓ} (pipe : Writer W) where
  -- One round of `run`, on a frame
  unfoldable pub receive : SwarmHeader → Str → Ward → W → Received × (Ward × W)
  receive hdr payload ward w =
      if hdr.msg_type == MsgType.ctl_prompt
      then (prompted payload, (ward, w))
      else if hdr.msg_type == MsgType.capability_response
      then (handled, (deliver_capability_response hdr payload ward, w))
      else if hdr.msg_type == MsgType.ping
      then (handled, (send pipe MsgType.pong (bytes "keeper") [] ward w).1)
      else (handled, (ward, w))

-- The laws of the channels
pub channel-close :
    (seq j : ℕ) (pending : Pending)
    → channel j (close_channel seq pending) ≡ (if seq == j then none else channel j pending)
unfolding channel close_channel
channel-close seq j [] = ground arith
channel-close seq j ((k, c) ∷ pending) = ground (arith, channel-close seq j pending)

pub channel-register :
    (seq j : ℕ) (w : Ward)
    → channel j (register_pending seq w).pending
      ≡ (if seq == j then some none else channel j w.pending)
unfolding register_pending channel
channel-register seq j w = ground (arith, channel-close seq j w.pending)

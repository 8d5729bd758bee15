-- ===== src/Keeperd/ConnTests.antt =====
-- A connection of a control client on a concrete request. The world is the list of what was
-- written to the connection and to the log.
use vivary.Prelude.{
  ℕ, zero, suc, ◌<◌, ◌≡◌, refl, true, false, none, List, [], ◌∷◌, ◌++◌, arith, ◌==◌, length, Str,
  bytes,
}
use vivary.Mus.{Source, closed, append_string, append_varint}
use vivary.Switchboard.MsgType
use vivary.Switchboard.Codec.{write_frame, marshal_mus, marshal_mus_into}
use vivary.Switchboard.Router.{Writer}
use vivary.Ctl.Requests.{ctl_identity}
use vivary.Keeperd.State.{Daemon, Audit, fresh_header, keeper}
use vivary.Keeperd.Ctl.{Formats}
use vivary.Keeperd.Connection.{Served, live, Event, received, pushed, handle_ctl_conn}
use vivary.Keeperd.Lifecycle.{provision}
use vivary.Keeperd.AgentTests.{runtime, settings, browser}
use vivary.Keeperd.Unanswered.{creation, on_event-unanswered}
use vivary.Keeperd.Handlers.{memory}
use vivary.Ctl.Requests.{unmarshal_agent_create}
use vivary.Mus.{err, unexpected_eof, ◌>>=◌, read_string, read_varint, read_varint_byte}
use vivary.Switchboard.Frames.{IsSendable}
use vivary.Keeperd.Connection.{on_event}
use vivary.Keeperd.Hangup.{reads, IsHungUp, handle_ctl_conn-IsHungUp}

abbrev World : Type 0
World = List Str

abbrev log : Audit World
log = record {
  write_audit_frame = λ kind from to seq payload w. w ++ (kind ∷ []);
  write_security_event = λ agent kind detail w. w ++ (kind ∷ []);
}

abbrev plain : Str → Str
plain s = s

abbrev formats : Formats ℕ
formats = record { time = λ t. bytes "now"; cost = λ c. bytes "1.000000"; is_free = λ c. c == 0 }

abbrev socket : Source
socket = record { byte_reader = true; ending = closed }

abbrev recorder : Writer World
recorder = λ frame w. (none, w ++ (frame ∷ []))

abbrev daemon : Daemon World ℕ
daemon = record {
  dispatcher = record { registry = record { entries = [] }; acls = record { entries = [] } };
  router = record { pipes = record { entries = [] }; handlers = []; security = none };
  seq_out = 0;
  agents = record { entries = [] };
  ctl_subs = record { channel = 1; queue = [] } ∷ [];
}

abbrev connected : Served World ℕ
connected = record {
  conn = record { channel = 2; seq_out = 0; subscribed = false; cancelled = false; pushing = true };
  daemon = daemon;
  world = [];
}

-- A client subscribes, then hangs up.
abbrev subscription : Str
subscription = write_frame (fresh_header MsgType.ctl_subscribe ctl_identity keeper 1) []

abbrev waits : ℕ → List Event
waits zero = []
waits (suc n) = received 5 ∷ waits n

long_enough : length subscription < reads (pushed ∷ waits 40)
unfolding write_frame marshal_mus marshal_mus_into append_string append_varint reads
long_enough = omega arith

handle_ctl_conn-IsHungUp_example : IsHungUp daemon (
    handle_ctl_conn log plain
      (provision runtime browser settings 0)
      formats
      (bytes "0.1")
      socket
      recorder
      (pushed ∷ waits 40)
      (live subscription connected))
handle_ctl_conn-IsHungUp_example =
    handle_ctl_conn-IsHungUp runtime browser settings 0 log plain formats (bytes "0.1") socket
      recorder (pushed ∷ waits 40) subscription connected refl (refl, tt) long_enough

-- A string of 72 bytes that is cut off
cut_off : unmarshal_agent_create memory (200 ∷ []) ≡ err unexpected_eof
cut_off = unfold unmarshal_agent_create ◌>>=◌ read_string read_varint read_varint_byte in refl

creation-IsSendable : IsSendable (creation keeper 3) (200 ∷ [])
creation-IsSendable = record {
  from_id = omega arith;
  to_id = omega arith;
  seq_no = omega arith;
  size = omega arith;
}

on_event-unanswered_example :
    on_event log plain
      (provision runtime browser settings 0)
      formats
      (bytes "0.1")
      socket
      recorder
      (received 9)
      (write_frame (creation keeper 3) (200 ∷ []) ++ [])
      connected
    ≡ live [] (record connected { world = MsgType.to_string MsgType.ctl_agent_create ∷ [] })
on_event-unanswered_example =
    on_event-unanswered log plain (provision runtime browser settings 0) formats (bytes "0.1")
      socket recorder 9 3 keeper (200 ∷ []) [] unexpected_eof connected creation-IsSendable cut_off
      refl

-- ===== src/Keeperd/State.antt =====
-- cmd/keeperd/main.go: the state of the daemon and of its agents. `W` is the state of the world
-- outside (pipes, database, what capabilities change); `F` stands for float64. The
-- configuration of an agent is left out, since nothing reads it.
use vivary.Prelude.{ℕ, Bool, Option, List, Str, bytes}
use vivary.Prelude.Map.{Map}
use vivary.Mus.{Result}
use vivary.Switchboard.Codec.{SwarmHeader}
use vivary.Switchboard.Router.{Frame, Router}
use vivary.Capabilities.Dispatch.{Dispatcher}

-- `has_pipe`: the field `pipe` is not nil. A zero time is none.
pub record AgentState (F : Type 0) : Type 0 where
  pub id : Str
  pub subvol_path : Str
  pub has_pipe : Bool
  pub last_prompt_seq : ℕ
  pub last_event_at : Option ℕ
  pub last_outcome : Str
  pub last_failure_detail : Str
  pub model : Str
  pub input_tokens : ℕ
  pub output_tokens : ℕ
  pub cost_usd : F
  pub tool_calls : ℕ

-- A push channel: who made it, and the frames that wait in it.
pub record Subscriber : Type 0 where
  pub channel : ℕ
  pub queue : List Frame

-- The capacity of a push channel.
abbrev pub push_capacity : ℕ
push_capacity = 64

pub record Daemon {ℓ} (W : Type ℓ) (F : Type 0) : Type ℓ where
  pub dispatcher : Dispatcher W
  pub router : Router W
  pub seq_out : ℕ
  pub agents : Map (AgentState F)
  pub ctl_subs : List Subscriber

-- The audit log, whose write errors the daemon ignores.
pub record Audit {ℓ} (W : Type ℓ) : Type ℓ where
  pub write_audit_frame : Str → Str → Str → ℕ → Str → W → W
  pub write_security_event : Str → Str → Str → W → W

-- A handler of the daemon: the answer `err` does not occur, `panicked` ends the daemon.
abbrev pub Step {ℓ} : Type ℓ → Type 0 → Type ℓ
Step W F = Result (Daemon W F × W)

abbrev pub fresh_header : ℕ → Str → Str → ℕ → SwarmHeader
fresh_header type from to seq = record {
  version = 0;
  msg_type = type;
  from_id = from;
  to_id = to;
  seq_no = seq;
  payload_len = 0;
}

abbrev pub keeper : Str
keeper = bytes "keeper"

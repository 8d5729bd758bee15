-- ===== src/Chromed/Manager.antt =====
-- chromed/service.go, the manager: which Chrome runs for which agent. `Machine` is what the manager
-- asks of packages os, net and os/exec and of its function fields; a process and a listener are
-- numbers, in place of pointers. Log lines are left out.
use vivary.Prelude.{
  ℕ, ◌⊎◌, inl, inr, Bool, true, Option, none, some, [], ◌++◌, ◌==◌, if◌then◌else◌, Str, bytes,
  str_eq,
}
use vivary.Prelude.Act.{Act, ◌>>=◌, pure, tagged, check}
use vivary.Prelude.Map.{Map, empty, lookup, insert}
use vivary.Capabilities.Paths.{join}
use vivary.Chromed.Payloads.{AcquireRequest, AcquireResponse}
use vivary.Chromed.Blank.{is_blank}

pub record LaunchSpec : Type 0 where
  pub agent_id : Str
  pub debug_addr : Str
  pub profile_dir : Str
  pub proxy_server : Str
  pub chrome_binary_path : Str
  pub headless : Bool

-- A nil listener is none.
pub record Instance : Type 0 where
  pub agent_id : Str
  pub debug_addr : Str
  pub forward_ln : Option ℕ
  pub forward_path : Str
  pub profile_dir : Str
  pub proxy_server : Str
  pub headless : Bool
  pub proc : ℕ
  pub running : Bool

pub record Manager : Type 0 where
  pub instances : Map Instance
  pub profile_root : Str
  pub forward_root : Str
  pub chrome_binary : Str

-- What os.Remove answers; a file that is not there is an error of its own.
pub data Removal : Type 0 where
  removed missing : Removal
  not_removed : Str → Removal

pub record Machine {ℓ} (W : Type ℓ) : Type ℓ where
  pub mkdir_all : Str → W → Option Str × W
  pub remove : Str → W → Removal × W
  pub alloc_debug : Str → Act W Str
  pub start_debug_forwarder : Str → Str → Act W ℕ
  pub start_unix_debug_forwarder : Str → Str → Act W ℕ
  pub addr : ℕ → Str
  pub close : ℕ → W → W
  pub start : LaunchSpec → Act W ℕ
  pub wait_ready : ℕ → Str → W → Option Str × W
  pub kill : ℕ → W → Option Str × W
  pub wait : ℕ → W → W

-- `newManager`
unfoldable pub new_manager : Str → Str → Str → Manager
new_manager profile_root chrome_binary forward_root = record {
  instances = empty;
  profile_root = profile_root;
  forward_root = forward_root;
  chrome_binary = chrome_binary;
}

-- The listener, the socket path and the public address of a debug forwarder
pub record Forwarder : Type 0 where
  pub ln : Option ℕ
  pub path : Str
  pub public_addr : Str

abbrev pub instance_of : Manager → AcquireRequest → Forwarder → ℕ → Instance
instance_of m req fwd proc = record {
  agent_id = req.agent_id;
  debug_addr = fwd.public_addr;
  forward_ln = fwd.ln;
  forward_path = fwd.path;
  profile_dir = join m.profile_root req.agent_id;
  proxy_server = req.proxy_server;
  headless = req.headless;
  proc = proc;
  running = true;
}

abbrev pub timeout_of : ℕ → ℕ
timeout_of seconds = if seconds == 0 then 10 else seconds

abbrev pub agent_id_required : Str
agent_id_required = bytes "agent_id is required"

-- The second critical section
unfoldable pub file : Instance → Manager → Manager
file inst m = record m { instances = insert inst.agent_id inst m.instances }

module _ {ℓ} {W : Type ℓ} (machine : Machine W) where
  -- A forwarder that does not start is only logged.
  abbrev pub forwarder_of : Str → (Str ⊎ ℕ) × W → (Str ⊎ Forwarder) × W
  forwarder_of debug_addr (inl e, w) =
      (inr (record { ln = none; path = []; public_addr = debug_addr }), w)
  forwarder_of debug_addr (inr ln, w) =
      (inr (record { ln = some ln; path = []; public_addr = machine.addr ln }), w)

  abbrev pub tcp_forwarder : Str → Str → Act W Forwarder
  tcp_forwarder proxy_server debug_addr w =
      forwarder_of debug_addr (machine.start_debug_forwarder proxy_server debug_addr w)

  abbrev pub close_forward : Option ℕ → W → W
  close_forward none w = w
  close_forward (some ln) w = machine.close ln w

  abbrev pub stale_removed : Removal × W → (Str ⊎ Unit {0}) × W
  stale_removed (not_removed e, w) = (inl (bytes "remove stale debug socket: " ++ e), w)
  stale_removed (removed, w) = (inr tt, w)
  stale_removed (missing, w) = (inr tt, w)

  abbrev pub remove_stale : Str → Act W (Unit {0})
  remove_stale path w = stale_removed (machine.remove path w)

  -- The unix forwarder takes the place of the first, which is closed either way.
  abbrev pub unix_forwarder : Str → Str → Option ℕ → (Str ⊎ ℕ) × W → (Str ⊎ Forwarder) × W
  unix_forwarder agent_id path ln (inl e, w) =
      (inl (bytes "start unix debug forwarder: " ++ e), close_forward ln w)
  unix_forwarder agent_id path ln (inr unix_ln, w) = (
    inr (record {
      ln = some unix_ln;
      path = path;
      public_addr = bytes "unix:/run/vivary/chromed-host/" ++ agent_id ++ bytes ".cdp.sock";
    }),
    close_forward ln w,
  )

  abbrev pub over_unix : Str → Str → Str → Forwarder → Act W Forwarder
  over_unix agent_id path debug_addr fwd w =
      unix_forwarder agent_id path fwd.ln (machine.start_unix_debug_forwarder path debug_addr w)

  abbrev pub choose_forwarder : Manager → AcquireRequest → Str → Forwarder → Act W Forwarder
  choose_forwarder m req debug_addr fwd =
      let path = join m.forward_root (req.agent_id ++ bytes ".cdp.sock") in
      if str_eq m.forward_root []
      then pure fwd
      else (remove_stale path >>= λ _. over_unix req.agent_id path debug_addr fwd)

  abbrev pub readied : Option ℕ → ℕ → Option Str × W → (Str ⊎ Unit {0}) × W
  readied ln proc (none, w) = (inr tt, w)
  readied ln proc (some e, w) = (
    inl (bytes "wait for chrome ready: " ++ e),
    machine.wait proc (machine.kill proc (close_forward ln w)).1,
  )

  abbrev pub await_ready : ℕ → Str → Option ℕ → ℕ → Act W (Unit {0})
  await_ready seconds debug_addr ln proc w =
      readied ln proc (machine.wait_ready (timeout_of seconds) debug_addr w)

  -- The part of `Acquire` between the two critical sections
  unfoldable pub launch : Manager → AcquireRequest → Act W Instance
  launch m req = do
    _ ←
        tagged (bytes "mkdir profile dir")
          (check (machine.mkdir_all (join m.profile_root req.agent_id)))
    debug_addr ← tagged (bytes "allocate debug addr") (machine.alloc_debug req.proxy_server)
    tcp ← tcp_forwarder req.proxy_server debug_addr
    fwd ← choose_forwarder m req debug_addr tcp
    proc ← machine.start (record {
      agent_id = req.agent_id;
      debug_addr = debug_addr;
      profile_dir = join m.profile_root req.agent_id;
      proxy_server = req.proxy_server;
      chrome_binary_path = m.chrome_binary;
      headless = req.headless;
    })
    _ ← await_ready req.timeout_sec debug_addr fwd.ln proc
    pure (instance_of m req fwd proc)

  abbrev pub acquire_response : Instance → AcquireResponse
  acquire_response inst = record {
    success = true;
    debug_addr = inst.debug_addr;
    profile_dir = inst.profile_dir;
    error = [];
  }

  abbrev pub launched : Manager → (Str ⊎ Instance) × W → (Str ⊎ AcquireResponse) × (Manager × W)
  launched m (inl e, w) = (inl e, (m, w))
  launched m (inr inst, w) = (inr (acquire_response inst), (file inst m, w))

  abbrev pub acquire_known :
      Manager → AcquireRequest → W → Option Instance → (Str ⊎ AcquireResponse) × (Manager × W)
  acquire_known m req w (some inst) = (inr (acquire_response inst), (m, w))
  acquire_known m req w none = launched m (launch m req w)

  -- `Acquire`, with no other call between its critical sections
  unfoldable pub acquire : Manager → AcquireRequest → W → (Str ⊎ AcquireResponse) × (Manager × W)
  acquire m req w =
      if is_blank req.agent_id
      then (inl agent_id_required, (m, w))
      else acquire_known m req w (lookup req.agent_id m.instances)

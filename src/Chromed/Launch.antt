-- ===== src/Chromed/Launch.antt =====
-- chromed/service.go: how Chrome is started and reached. `Net` is what packages net, net/url, os,
-- os/exec and net/http do; the goroutines that copy bytes between connections are left out.
use vivary.Prelude.{
  ℕ, ◌-◌, ◌≡◌, refl, ◌∙◌, ◌⊎◌, inl, inr, Bool, true, false, Option, none, some, List, [], ◌∷◌, ◌++◌,
  ◌==◌, if◌then◌else◌, length, take, drop, All, Str, bytes, str_eq,
}
use vivary.Prelude.Act.{Act, ◌>>=◌, tagged, check}
use vivary.Capabilities.Paths.{dir}
use vivary.Chromed.Blank.{is_blank}
use vivary.Chromed.Manager.{LaunchSpec, Machine, Removal}

-- A local address: its text if it is an IPv4 address, and whether it is a loopback one.
pub record Ip : Type 0 where
  pub to4 : Option Str
  pub loopback : Bool

pub record Net {ℓ} (W : Type ℓ) : Type ℓ where
  pub mkdir_all : Str → W → Option Str × W
  pub remove : Str → W → Removal × W
  pub listen : Str → Str → Act W ℕ
  pub addr : ℕ → Str
  pub close : ℕ → W → W
  pub hostname : Str → Str ⊎ Str
  pub join_host_port : Str → Str → Str
  pub split_host_port : Str → Str ⊎ (Str × Str)
  pub dial_udp4 : Str → Act W (Option Ip)
  pub start_command : Str → List Str → Act W ℕ
  pub kill : ℕ → W → Option Str × W
  pub wait : ℕ → W → W

abbrev routable : Option Ip → Str ⊎ Str
routable none = inl (bytes "probe route returned no local IP")
routable (some ip) =
    if ip.loopback then inl (bytes "probe route returned non-routable local IP") else elim ip.to4 [
      | none ↦ inl (bytes "probe route returned non-routable local IP")
      | some text ↦ inr text
    ]

abbrev lifted {ℓ κ} : {W : Type ℓ} {A : Type κ} → Str ⊎ A → Act W A
lifted r w = (r, w)

-- The arguments of Chrome, on a debug address that splits into a host and a port
unfoldable pub chrome_args : LaunchSpec → Str → Str → List Str
chrome_args spec host port =
    let args =
      bytes "--disable-gpu"
      ∷ bytes "--no-sandbox"
      ∷ bytes "--disable-dev-shm-usage"
      ∷ bytes "--disable-extensions"
      ∷ bytes "--disable-background-networking"
      ∷ bytes "--safebrowsing-disable-auto-update"
      ∷ bytes "--no-first-run"
      ∷ bytes "--no-default-browser-check"
      ∷ (bytes "--remote-debugging-address=" ++ host)
      ∷ (bytes "--remote-debugging-port=" ++ port)
      ∷ (bytes "--user-data-dir=" ++ spec.profile_dir)
      ∷ (bytes "--proxy-server=" ++ spec.proxy_server)
      ∷ bytes "about:blank"
      ∷ [] in
    if spec.headless
    then bytes "--headless=new" ∷ args
    else take (length args - 1) args ++ (bytes "--new-window" ∷ drop (length args - 1) args)

module _ {ℓ} {W : Type ℓ} (net : Net W) where
  -- `allocateDebugAddr`, which does not look at the proxy server
  unfoldable pub allocate_debug_addr : Str → Act W Str
  allocate_debug_addr proxy_server = do
    ln ← net.listen (bytes "tcp") (bytes "127.0.0.1:0")
    λ w. (inr (net.addr ln), net.close ln w)

  abbrev probed : Str → Act W Str
  probed host = if str_eq host [] then lifted (inl (bytes "proxy server host is empty")) else do
    ip ←
        tagged (bytes "probe route to proxy server")
          (net.dial_udp4 (net.join_host_port host (bytes "9")))
    lifted (routable ip)

  -- `detectReachableHost`
  unfoldable pub detect_reachable_host : Str → Act W Str
  detect_reachable_host proxy_server =
      if is_blank proxy_server
      then lifted (inl (bytes "proxy server is required"))
      else (tagged (bytes "parse proxy server") (lifted (net.hostname proxy_server)) >>= probed)

  -- `startDebugForwarder`
  unfoldable pub start_debug_forwarder : Str → Str → Act W ℕ
  start_debug_forwarder proxy_server target_addr = do
    host ← detect_reachable_host proxy_server
    net.listen (bytes "tcp") (net.join_host_port host (bytes "0"))

  -- `startUnixDebugForwarder`
  unfoldable pub start_unix_debug_forwarder : Str → Str → Act W ℕ
  start_unix_debug_forwarder socket_path target_addr = do
    _ ← check (net.mkdir_all (dir socket_path))
    net.listen (bytes "unix") socket_path

  -- `startChromeProcess`
  unfoldable pub start_chrome_process : LaunchSpec → Act W ℕ
  start_chrome_process spec = do
    host_port ← tagged (bytes "split debug addr") (lifted (net.split_host_port spec.debug_addr))
    tagged (bytes "start chrome")
        (net.start_command spec.chrome_binary_path (chrome_args spec host_port.0 host_port.1))

  -- The machine of `newManager`; `wait_ready` is `waitForChromeReady` under its timeout.
  abbrev pub machine_of : (ℕ → Str → W → Option Str × W) → Machine W
  machine_of wait_ready = record {
    mkdir_all = net.mkdir_all;
    remove = net.remove;
    alloc_debug = allocate_debug_addr;
    start_debug_forwarder = start_debug_forwarder;
    start_unix_debug_forwarder = start_unix_debug_forwarder;
    addr = net.addr;
    close = net.close;
    start = start_chrome_process;
    wait_ready = wait_ready;
    kill = net.kill;
    wait = net.wait;
  }

-- One round of `waitForChromeReady`: the status of the answer, if there is one, and the error of
-- the context if it ends before the next tick.
pub record Probe : Type 0 where
  pub status : Option ℕ
  pub ended : Option Str

unfoldable pub is_ready : Option ℕ → Bool
is_ready none = false
is_ready (some code) = code == 200

pub data Wait : Type 0 where
  waiting ready : Wait
  gave_up : Str → Wait

abbrev or_later : Bool → Option Str → Wait → Wait
or_later true ended later = ready
or_later false none later = later
or_later false (some e) later = gave_up e

-- `waitForChromeReady`, for as many rounds as there are probes
unfoldable pub wait_for_chrome_ready : List Probe → Wait
wait_for_chrome_ready [] = waiting
wait_for_chrome_ready (p ∷ probes) =
    or_later (is_ready p.status) p.ended (wait_for_chrome_ready probes)

-- What a tick of `monitorContainer` finds: the context is done, or what the check answers.
pub data Check : Type 0 where
  done_before : Check
  check_failed : Check
  is_running : Bool → Check

pub data Monitor : Type 0 where
  watching returned cancelled : Monitor

-- `monitorContainer`, for as many rounds as there are checks
unfoldable pub monitor_container : List Check → Monitor
monitor_container [] = watching
monitor_container (done_before ∷ checks) = returned
monitor_container (check_failed ∷ checks) = monitor_container checks
monitor_container (is_running true ∷ checks) = monitor_container checks
monitor_container (is_running false ∷ checks) = cancelled

-- A probe that neither finds Chrome ready nor sees the context end
pub record IsPending (p : Probe) : Type 0 where
  pub not_ready : is_ready p.status ≡ false
  pub going_on : p.ended ≡ none

wait-append :
    (before : List Probe) (p : Probe) (rest : List Probe)
    → All IsPending before
    → wait_for_chrome_ready (before ++ (p ∷ rest)) ≡ wait_for_chrome_ready (p ∷ rest)
unfolding wait_for_chrome_ready
wait-append [] p rest h = refl
wait-append (q ∷ before) p rest (hq, h) =
    rw (wait_for_chrome_ready, hq.not_ready, hq.going_on) (wait-append before p rest h)

ready_200 : (p : Probe) → p.status ≡ some 200 → is_ready p.status ≡ true
unfolding is_ready
ready_200 p e = rw e refl

-- Once Chrome answers 200 the wait ends as ready, after however many rounds that neither found it
-- ready nor saw the context end, and also if the context ends in that round.
pub wait_for_chrome_ready-ready :
    (before : List Probe) (p : Probe) (rest : List Probe)
    → All IsPending before
    → p.status ≡ some 200
    → wait_for_chrome_ready (before ++ (p ∷ rest)) ≡ ready
unfolding wait_for_chrome_ready
wait_for_chrome_ready-ready before p rest h answered =
    wait-append before p rest h ∙ rw (wait_for_chrome_ready, ready_200 p answered) refl

-- Once the context ends with no answer 200 before, the wait gives up with the context's error.
pub wait_for_chrome_ready-gave_up :
    (before : List Probe) (p : Probe) (rest : List Probe) (e : Str)
    → All IsPending before
    → is_ready p.status ≡ false
    → p.ended ≡ some e
    → wait_for_chrome_ready (before ++ (p ∷ rest)) ≡ gave_up e
unfolding wait_for_chrome_ready
wait_for_chrome_ready-gave_up before p rest e h not_ready ended =
    wait-append before p rest h ∙ rw (wait_for_chrome_ready, not_ready, ended) refl

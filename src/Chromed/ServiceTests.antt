-- ===== src/Chromed/ServiceTests.antt =====
-- The service on a machine whose world is the list of its processes.
use vivary.Prelude.{
  suc, ℕ, ◌≤◌, ◌≡◌, refl, ap, ◌≢◌, ◌⊎◌, inl, inr, Bool, true, false, none, some, List, [], ◌∷◌,
  arith, ◌==◌, if◌then◌else◌, ==_iff, Bool-cases, length, All, any, Str, bytes, str_eq, str_eq_self,
  has_prefix,
}
use vivary.Prelude.Map.{empty, lookup, insert, delete, lookup-insert, lookup-empty}
use vivary.Prelude.Act.{after, tagged_result}
use vivary.Mus.{append_string, append_varint, closed, Source, max_payload_bytes}
use vivary.Chromed.Payloads.{
  AcquireRequest, AcquireResponse, marshal_acquire_request, marshal_acquire_response,
}
use vivary.Chromed.RoundTrip.{IsAcquireRequest, IsAcquireResponse}
use vivary.Capabilities.Paths.{join, clean, render, components, split_slash}
use vivary.Chromed.Blank.{is_blank}
use vivary.Chromed.Manager.{Instance, Manager, Machine, removed, new_manager, launch, acquire, file}
use vivary.Chromed.Sessions.{Event, acquiring, releasing, exited, handle_all, release, reap, handle}
use vivary.Chromed.Filing.{IsFiled, handle_all-IsFiled}
use vivary.Chromed.Signals.{Keeps, IsOs, stray}
use vivary.Chromed.Processes.{IsTracked}
use vivary.Chromed.Orphans.{handle_all-IsTracked}
use vivary.Chromed.Overlap.{overlapping_acquires, overlapping_acquires-orphaned}
use vivary.Chromed.Conn.{client_acquire, answer_acquire}
use vivary.Chromed.EndToEnd.{to_service, client_acquire-acquire}
use vivary.Chromed.Launch.{
  IsPending, is_ready, ready, wait_for_chrome_ready, wait_for_chrome_ready-ready,
}

is_blank_ascii : is_blank (bytes " \t\n") ≡ true
unfolding is_blank
is_blank_ascii = refl

is_blank_wide : is_blank (0xC2 ∷ 0xA0 ∷ 0xE3 ∷ 0x80 ∷ 0x80 ∷ []) ≡ true
unfolding is_blank
is_blank_wide = refl

is_blank_word : is_blank (bytes " a ") ≡ false
unfolding is_blank
is_blank_word = refl

abbrev live : List ℕ → ℕ → Bool
live w p = any (λ q. q == p) w

abbrev ended : ℕ → List ℕ → List ℕ
ended q [] = []
ended q (p ∷ w) = let rest = ended q w in if p == q then rest else p ∷ rest

abbrev machine : Machine (List ℕ)
machine = record {
  mkdir_all = λ path w. (none, w);
  remove = λ path w. (removed, w);
  alloc_debug = λ proxy w. (inr (bytes "127.0.0.1:9222"), w);
  start_debug_forwarder = λ proxy addr w. (inl (bytes "proxy server is required"), w);
  start_unix_debug_forwarder = λ path addr w. (inr 7, w);
  addr = λ ln. bytes "10.0.0.1:4000";
  close = λ ln w. w;
  start = λ spec w. (inr (length w), length w ∷ w);
  wait_ready = λ seconds addr w. (none, w);
  kill = λ p w. (none, ended p w);
  wait = λ p w. ended p w;
}

-- The processes that run, those on which Kill was called, and the number of the next one.
record Os : Type 0 where
  running : List ℕ
  told : List ℕ
  next : ℕ

abbrev runs : Os → ℕ → Bool
runs w p = live w.running p

abbrev was_told : Os → ℕ → Bool
was_told w p = live w.told p

-- Kill only leaves word here: a process runs on until it is waited for.
abbrev os_machine : Machine Os
os_machine = record {
  mkdir_all = λ path w. (none, w);
  remove = λ path w. (removed, w);
  alloc_debug = λ proxy w. (inr (bytes "127.0.0.1:9222"), w);
  start_debug_forwarder = λ proxy addr w. (inl (bytes "proxy server is required"), w);
  start_unix_debug_forwarder = λ path addr w. (inr 7, w);
  addr = λ ln. bytes "10.0.0.1:4000";
  close = λ ln w. w;
  start = λ spec w. (inr w.next, record w { running = w.next ∷ w.running; next = suc w.next });
  wait_ready = λ seconds addr w. (none, w);
  kill = λ p w. (none, record w { told = p ∷ w.told });
  wait = λ p w. record w { running = ended p w.running };
}

live_ended : (q : ℕ) (w : List ℕ) (p : ℕ) → live (ended q w) p ≡ true → (live w p ≡ true) × (p ≢ q)
live_ended q [] p l = cc
live_ended q (x ∷ w) p l = ground (arith, live_ended q w p)

live_started :
    (n : ℕ) (w : List ℕ) (p : ℕ)
    → live (n ∷ w) p ≡ true
    → (live w p ≡ true) ⊎ (◌≡◌ {A = Str ⊎ ℕ} (inr n) (inr p))
live_started n w p l = elim (Bool-cases (n == p)) [
  | inl e ↦ inr (ap (λ (n : ℕ). inr n) ((==_iff _ p).0 e))
  | inr e ↦ inl (rw e at l)
]

kept : (w : Os) → Keeps runs was_told w w
kept w = record { fewer = λ p l. l; more = λ p l. l }

live_later : (q p : ℕ) (w : List ℕ) → live w p ≡ true → live (q ∷ w) p ≡ true
live_later q p w l = elim (Bool-cases (q == p)) [ inl e ↦ rw e refl | inr e ↦ rw e l ]

os : IsOs os_machine runs was_told
os = record {
  mkdir_all = λ path w. kept w;
  remove = λ path w. kept w;
  alloc_debug = λ proxy w. kept w;
  start_debug_forwarder = λ proxy addr w. kept w;
  start_unix_debug_forwarder = λ path addr w. kept w;
  close = λ ln w. kept w;
  wait_ready = λ seconds addr w. kept w;
  start = λ spec w p l. live_started w.next w.running p l;
  start_told = λ spec w p t. t;
  kill = λ q w. record { fewer = λ p l. l; more = λ p t. live_later q p w.told t };
  kill_told = λ q w. rw ((==_iff q q).1 refl) refl;
  wait = λ q w. record { fewer = λ p l. (live_ended q w.running p l).0; more = λ p t. t };
  wait_ended = λ q w p l. (live_ended q w.running p l).1;
}

abbrev fresh : Manager
fresh = new_manager (bytes "/p") (bytes "chrome") (bytes "/f")

abbrev request : AcquireRequest
request = record {
  agent_id = bytes "a";
  proxy_server = bytes "http://h:8700";
  timeout_sec = 0;
  headless = true;
}

abbrev calls : List Event
calls =
    acquiring request
    ∷ exited (bytes "a") 0
    ∷ acquiring request
    ∷ releasing (bytes "a")
    ∷ acquiring request
    ∷ []

fresh-IsFiled : IsFiled (bytes "/p") (bytes "/f") fresh
unfolding new_manager
fresh-IsFiled = record {
  profile_root_eq = refl;
  forward_root_eq = refl;
  own = λ id inst e. cc (lookup-empty {V = Instance} id, e);
}

handle_all-IsFiled_example : IsFiled (bytes "/p") (bytes "/f") (handle_all machine calls fresh []).0
handle_all-IsFiled_example =
    handle_all-IsFiled machine (bytes "/p", bytes "/f") calls fresh [] fresh-IsFiled

abbrev no_process : Os
no_process = record { running = []; told = []; next = 0 }

none_live : IsTracked (stray runs was_told) fresh no_process
none_live p l = cc

handle_all-IsTracked_example :
    IsTracked
      (stray runs was_told)
      (handle_all os_machine calls fresh no_process).0
      (handle_all os_machine calls fresh no_process).1
handle_all-IsTracked_example =
    handle_all-IsTracked os_machine runs was_told calls fresh no_process os none_live

calls_end : (handle_all machine calls fresh []).1 ≡ 0 ∷ []
unfolding handle_all acquire is_blank lookup release reap new_manager empty launch after
    tagged_result str_eq file insert join clean render components split_slash has_prefix handle
    delete
calls_end = refl

abbrev own : Instance
own = record {
  agent_id = bytes "a";
  debug_addr = bytes "unix:/run/vivary/chromed-host/a.cdp.sock";
  forward_ln = some 7;
  forward_path = bytes "/f/a.cdp.sock";
  profile_dir = bytes "/p/a";
  proxy_server = bytes "http://h:8700";
  headless = true;
  proc = 0;
  running = true;
}

launched_first : launch machine fresh request [] ≡ (inr own, 0 ∷ [])
unfolding new_manager empty launch after tagged_result str_eq join clean render components
    split_slash has_prefix
launched_first = refl

launched_second :
    launch machine fresh request (0 ∷ []) ≡ (inr (record own { proc = 1 }), 1 ∷ 0 ∷ [])
unfolding new_manager empty launch after tagged_result str_eq join clean render components
    split_slash has_prefix
launched_second = refl

none_filed : (id : Str) (inst : Instance) → lookup id fresh.instances ≡ some inst → inst.proc ≢ 0
unfolding new_manager
none_filed id inst e = cc (lookup-empty {V = Instance} id, e)

filed_second :
    lookup (bytes "a") (overlapping_acquires machine fresh request request []).0.instances
    ≡ some (record own { proc = 1 })
unfolding overlapping_acquires file
filed_second = rw (launched_first, launched_second, lookup-insert, str_eq_self (bytes "a")) refl

overlapping_acquires-orphaned_example : ◌≡◌ {A = ℕ} 1 0 → ⊥
overlapping_acquires-orphaned_example =
    overlapping_acquires-orphaned machine fresh request request own (record own { proc = 1 }) []
      (0 ∷ []) (1 ∷ 0 ∷ []) launched_first launched_second refl (omega arith) none_filed (bytes "a")
      (record own { proc = 1 }) filed_second

a_word : is_blank (bytes "a") ≡ false
unfolding is_blank
a_word = refl

abbrev answer : AcquireResponse
answer = record {
  success = true;
  debug_addr = bytes "unix:/run/vivary/chromed-host/a.cdp.sock";
  profile_dir = bytes "/p/a";
  error = [];
}

acquired_first : (acquire machine fresh request []).0 ≡ inr answer
unfolding acquire new_manager
acquired_first = rw (a_word, lookup-empty {V = Instance} (bytes "a"), launched_first) refl

probes : All IsPending (record { status = none; ended = none } ∷ [])
unfolding is_ready
probes = (record { not_ready = refl; going_on = refl }, tt)

wait_for_chrome_ready-ready_sample :
    wait_for_chrome_ready
      (record { status = none; ended = none } ∷ record { status = some 200; ended = none } ∷ [])
    ≡ ready
wait_for_chrome_ready-ready_sample =
    wait_for_chrome_ready-ready (record { status = none; ended = none } ∷ [])
      (record { status = some 200; ended = none }) [] probes refl

abbrev stream : Source
stream = record { byte_reader = false; ending = closed }

valid_request : IsAcquireRequest request
valid_request = omega arith

small_request : length (marshal_acquire_request request) ≤ max_payload_bytes
unfolding marshal_acquire_request append_string append_varint
small_request = omega arith

valid_answer : IsAcquireResponse (answer_acquire (acquire machine fresh request []).0)
valid_answer = rw acquired_first (omega arith)

small_concrete : length (marshal_acquire_response answer) ≤ max_payload_bytes
unfolding marshal_acquire_response append_string append_varint
small_concrete = omega arith

small_answer :
    length (marshal_acquire_response (answer_acquire (acquire machine fresh request []).0))
    ≤ max_payload_bytes
small_answer = rw acquired_first small_concrete

client_acquire-acquire_example :
    client_acquire (to_service machine stream) stream request (fresh, [])
    ≡ acquire machine fresh request []
client_acquire-acquire_example =
    client_acquire-acquire machine stream request fresh [] valid_request small_request valid_answer
      small_answer

-- ===== src/Keeperd/ProxyTests.antt =====
-- Proxies and browser sessions on a network whose world is the list of the bound ports.
use vivary.Prelude.{
  ℕ, ◌≡◌, refl, ◌≢◌, inr, Bool, true, none, some, List, [], ◌∷◌, arith, ◌==◌, if◌then◌else◌, any,
  bytes, str_eq,
}
use vivary.Prelude.Map.{empty, lookup, insert, delete, lookup-empty}
use vivary.Keeperd.Proxies.{
  ProxyInstance, ProxyAllocator, Ports, new_proxy_allocator, acquire_proxy, release_proxy,
  try_ports,
}
use vivary.Keeperd.PortLaws.{IsNet, IsAllotted}
use vivary.Keeperd.PortSharing.{
  ProxyCall, acquiring, releasing, proxy_calls, proxy_calls-IsAllotted, acquire_proxy-some,
}
use vivary.Keeperd.Browser.{Sessions, BrowserManager, new_browser_manager, read_step, release_step}
use vivary.Keeperd.Pairing.{
  BrowserEvent, reads, releases, moves, Browsing, thread_step, move, browse, browse_all,
}
use vivary.Keeperd.Accounts.{IsAccounted, browse_all-IsAccounted}

abbrev bound : List ℕ → ℕ → Bool
bound w p = any (λ q. q == p) w

abbrev unbound : ℕ → List ℕ → List ℕ
unbound p [] = []
unbound p (q ∷ w) = let rest = unbound p w in if q == p then rest else q ∷ rest

abbrev ports : Ports (List ℕ)
ports = record {
  listen = λ p w. if bound w p then (some (bytes "address already in use"), w) else (none, p ∷ w);
  shutdown = λ p w. (none, unbound p w);
  decimal = λ n. n ∷ [];
}

closed_other : (p q : ℕ) (w : List ℕ) → p ≢ q → bound (unbound p w) q ≡ bound w q
closed_other p q [] differ = refl
closed_other p q (x ∷ w) differ = ground (arith, closed_other p q w)

net : IsNet ports bound
net = record {
  free = λ p w e. rw e refl;
  taken = λ p w e h. cc (rw e at h);
  listening = λ p q w e. rw e refl;
  refused = λ p q w e. rw e refl;
  closing = λ p q w differ. closed_other p q w differ;
}

abbrev start : ProxyAllocator
start = new_proxy_allocator (bytes "10.0.0.1")

start-IsAllotted : IsAllotted bound start (8700 ∷ [])
unfolding new_proxy_allocator
start-IsAllotted = record {
  hint_low = omega arith;
  hint_high = omega arith;
  bound_own = λ id inst e. cc (lookup-empty {V = ProxyInstance} id, e);
  in_range = λ id inst e. cc (lookup-empty {V = ProxyInstance} id, e);
  unshared = λ id j inst other e e' same. cc (lookup-empty {V = ProxyInstance} id, e);
}

abbrev calls : List ProxyCall
calls =
    acquiring (bytes "a")
    ∷ acquiring (bytes "b")
    ∷ releasing (bytes "a")
    ∷ acquiring (bytes "c")
    ∷ []

proxy_calls-IsAllotted_example :
    IsAllotted bound
      (proxy_calls ports calls start (8700 ∷ [])).0
      (proxy_calls ports calls start (8700 ∷ [])).1
proxy_calls-IsAllotted_example =
    proxy_calls-IsAllotted ports bound net calls start (8700 ∷ []) start-IsAllotted

calls_end : (proxy_calls ports calls start (8700 ∷ [])).1 ≡ 8703 ∷ 8702 ∷ 8700 ∷ []
unfolding proxy_calls acquire_proxy release_proxy try_ports new_proxy_allocator lookup insert delete
    empty str_eq
calls_end = refl

acquire_proxy-some_example :
    (inst : ProxyInstance) × ((acquire_proxy ports (bytes "a") start (8700 ∷ [])).0 ≡ some inst)
acquire_proxy-some_example =
    acquire_proxy-some ports bound net (bytes "a") start (8700 ∷ []) 8750 start-IsAllotted
      (omega arith) (omega arith) refl

abbrev sessions : Sessions (List ℕ)
sessions = record {
  acquire = λ req w. (
    inr (record {
      success = true;
      debug_addr = bytes "10.0.0.1:4000";
      profile_dir = [];
      error = [];
    }),
    w,
  );
  release = λ id w. (none, w);
}

abbrev manager : BrowserManager
manager = new_browser_manager start

abbrev idle : Browsing (List ℕ)
idle = record { threads = []; manager = manager; world = [] }

idle-IsAccounted : IsAccounted [] manager
unfolding new_browser_manager new_proxy_allocator
idle-IsAccounted = record {
  accounted = λ id (inst, e). absurd (cc (lookup-empty {V = ProxyInstance} id, e));
}

-- A release comes in between the steps of a page read.
abbrev overlapping : List BrowserEvent
overlapping =
    reads (bytes "a")
    ∷ moves 0
    ∷ moves 0
    ∷ releases (bytes "a")
    ∷ moves 0
    ∷ moves 0
    ∷ moves 0
    ∷ moves 1
    ∷ moves 1
    ∷ []

browse_all-IsAccounted_example :
    let b = browse_all ports sessions overlapping idle in IsAccounted b.threads b.manager
browse_all-IsAccounted_example =
    browse_all-IsAccounted ports sessions overlapping idle idle-IsAccounted

-- The session that the read then files has no port.
overlapping_end :
    let b = browse_all ports sessions overlapping idle in
    (lookup (bytes "a") b.manager.proxy_by_id ≡ some (bytes "10.0.0.1:4000"))
    × (lookup (bytes "a") b.manager.proxies.instances ≡ none)
unfolding browse_all browse move thread_step read_step release_step acquire_proxy release_proxy
    try_ports new_proxy_allocator new_browser_manager lookup insert delete empty str_eq
overlapping_end = (refl, refl)

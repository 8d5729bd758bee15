-- ===== src/Keeperd/Proxies.antt =====
-- cmd/keeperd/browser_proxy.go, the allocator: one proxy port for each agent that browses. A
-- listener is its port; the HTTP server behind it is left out. `Ports` is net.Listen and
-- http.Server.Shutdown.
use vivary.Prelude.{
  ℕ, zero, suc, ◌+◌, ◌-◌, ◌%◌, Option, none, some, List, [], ◌∷◌, ◌++◌, ltb, if◌then◌else◌, Str,
  bytes,
}
use vivary.Prelude.Map.{Map, empty, lookup, insert, delete, keys}

abbrev pub proxy_port_start : ℕ
proxy_port_start = 8700

abbrev pub proxy_port_end : ℕ
proxy_port_end = 8800

pub record ProxyInstance : Type 0 where
  pub url : Str
  pub port : ℕ

pub record ProxyAllocator : Type 0 where
  pub host : Str
  pub instances : Map ProxyInstance
  pub next_port_hint : ℕ

pub record Ports {ℓ} (W : Type ℓ) : Type ℓ where
  pub listen : ℕ → W → Option Str × W
  pub shutdown : ℕ → W → Option Str × W
  pub decimal : ℕ → Str

-- `newProxyAllocator`
unfoldable pub new_proxy_allocator : Str → ProxyAllocator
new_proxy_allocator host = record {
  host = host;
  instances = empty;
  next_port_hint = proxy_port_start;
}

abbrev pub port_at : ℕ → ℕ → ℕ
port_at hint attempt =
    proxy_port_start + (hint - proxy_port_start + attempt) % (proxy_port_end - proxy_port_start + 1)

abbrev pub hint_after : ℕ → ℕ
hint_after port = if ltb proxy_port_end (port + 1) then proxy_port_start else port + 1

abbrev pub attempts : ℕ
attempts = proxy_port_end - proxy_port_start + 1

module _ {ℓ} {W : Type ℓ} (ports : Ports W) where
  abbrev pub or_port : ℕ → Option Str × W → (W → Option ℕ × W) → Option ℕ × W
  or_port port (none, w) later = (some port, w)
  or_port port (some e, w) later = later w

  -- The loop of `listenNextLocked`, with so many attempts left; none is its error.
  unfoldable pub try_ports : ℕ → ℕ → ℕ → W → Option ℕ × W
  try_ports hint zero attempt w = (none, w)
  try_ports hint (suc left) attempt w =
      or_port (port_at hint attempt) (ports.listen (port_at hint attempt) w)
        (λ w'. try_ports hint left (attempt + 1) w')

  abbrev pub proxy_instance : ProxyAllocator → ℕ → ProxyInstance
  proxy_instance p port = record {
    url = bytes "http://" ++ p.host ++ bytes ":" ++ ports.decimal port;
    port = port;
  }

  abbrev pub allotted :
      Str → ProxyAllocator → Option ℕ × W → Option ProxyInstance × (ProxyAllocator × W)
  allotted id p (none, w) = (none, (p, w))
  allotted id p (some port, w) = (
    some (proxy_instance p port),
    (
      record p {
        instances = insert id (proxy_instance p port) p.instances;
        next_port_hint = hint_after port;
      },
      w,
    ),
  )

  abbrev pub acquire_found :
      Str → ProxyAllocator → W → Option ProxyInstance → Option ProxyInstance × (ProxyAllocator × W)
  acquire_found id p w (some inst) = (some inst, (p, w))
  acquire_found id p w none = allotted id p (try_ports p.next_port_hint attempts 0 w)

  -- `Acquire`; none is the error that no port is free.
  unfoldable pub acquire_proxy :
      Str → ProxyAllocator → W → Option ProxyInstance × (ProxyAllocator × W)
  acquire_proxy id p w = acquire_found id p w (lookup id p.instances)

  abbrev pub release_found : Str → ProxyAllocator → W → Option ProxyInstance → ProxyAllocator × W
  release_found id p w none = (p, w)
  release_found id p w (some inst) =
      (record p { instances = delete id p.instances }, (ports.shutdown inst.port w).1)

  -- `Release`, whose error nobody reads
  unfoldable pub release_proxy : Str → ProxyAllocator → W → ProxyAllocator × W
  release_proxy id p w = release_found id p w (lookup id p.instances)

  -- `ReleaseAll`; the order of the keys is open.
  unfoldable pub release_each : List Str → ProxyAllocator → W → ProxyAllocator × W
  release_each [] p w = (p, w)
  release_each (id ∷ ids) p w = let s = release_proxy id p w in release_each ids s.0 s.1

  unfoldable pub release_all_proxies : ProxyAllocator → W → ProxyAllocator × W
  release_all_proxies p w = release_each (keys p.instances) p w

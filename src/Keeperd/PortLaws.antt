-- ===== src/Keeperd/PortLaws.antt =====
-- Which agent holds which proxy port.
use vivary.Prelude.{
  ℕ, zero, suc, ◌+◌, ◌-◌, ◌%◌, ◌≤◌, ◌<◌, ◌≡◌, refl, sym, ap, ◌∙◌, ◌≢◌, inl, inr, Bool, true, false,
  ◌||◌, Option, none, some, arith, ◌==◌, Bool-cases, Str,
}
use vivary.Prelude.Map.{lookup}
use vivary.Keeperd.Proxies.{
  proxy_port_start, proxy_port_end, ProxyInstance, ProxyAllocator, Ports, port_at, attempts,
  or_port, try_ports,
}

-- `bound w p`: something listens on the port. Listening succeeds on exactly the free ports and
-- binds the one; a shutdown frees its port at most.
pub record IsNet {ℓ} {W : Type ℓ} (ports : Ports W) (bound : W → ℕ → Bool) : Type ℓ where
  pub free : (p : ℕ) (w : W) → bound w p ≡ false → (ports.listen p w).0 ≡ none
  pub taken : (p : ℕ) (w : W) → bound w p ≡ true → (ports.listen p w).0 ≢ none
  pub listening :
      (p q : ℕ) (w : W) → bound w p ≡ false → bound (ports.listen p w).1 q ≡ (p == q || bound w q)
  pub refused : (p q : ℕ) (w : W) → bound w p ≡ true → bound (ports.listen p w).1 q ≡ bound w q
  pub closing : (p q : ℕ) (w : W) → p ≢ q → bound (ports.shutdown p w).1 q ≡ bound w q

-- Every agent's port is in the range and is listened on, no two agents have one port, and the hint
-- is in the range.
pub record IsAllotted {ℓ} {W : Type ℓ} (bound : W → ℕ → Bool) (p : ProxyAllocator) (w : W)
    : Type 0 where
  pub hint_low : proxy_port_start ≤ p.next_port_hint
  pub hint_high : p.next_port_hint ≤ proxy_port_end
  pub bound_own :
      (id : Str) (inst : ProxyInstance)
      → lookup id p.instances ≡ some inst
      → bound w inst.port ≡ true
  pub in_range :
      (id : Str) (inst : ProxyInstance)
      → lookup id p.instances ≡ some inst
      → (proxy_port_start ≤ inst.port) × (inst.port ≤ proxy_port_end)
  pub unshared :
      (id j : Str) (inst other : ProxyInstance)
      → lookup id p.instances ≡ some inst
      → lookup j p.instances ≡ some other
      → inst.port ≡ other.port
      → id ≡ j

module _ {ℓ} {W : Type ℓ} (ports : Ports W) (bound : W → ℕ → Bool) (net : IsNet ports bound) where
  -- A port that was free and is now listened on, and nothing else has changed.
  pub record IsTaken (port : ℕ) (w w' : W) : Type 0 where
    pub low : proxy_port_start ≤ port
    pub high : port ≤ proxy_port_end
    pub was_free : bound w port ≡ false
    pub now_bound : (q : ℕ) → bound w' q ≡ (port == q || bound w q)

  -- What the attempts come to: a port, or every port that was tried is taken.
  abbrev pub Tried : ℕ → ℕ → ℕ → W → Option ℕ × W → Type 0
  Tried hint left attempt w (some port, w') = IsTaken port w w'
  Tried hint left attempt w (none, w') =
      ((k : ℕ) → k < left → bound w (port_at hint (attempt + k)) ≡ true)
      × ((q : ℕ) → bound w' q ≡ bound w q)

  range_lem :
      (hint attempt : ℕ)
      → (proxy_port_start ≤ port_at hint attempt) × (port_at hint attempt ≤ proxy_port_end)
  range_lem hint attempt = omega arith

  granted :
      (port : ℕ) (w w' : W)
      → ports.listen port w ≡ (none, w')
      → proxy_port_start ≤ port
      → port ≤ proxy_port_end
      → IsTaken port w w'
  granted port w w' e low high = elim (Bool-cases (bound w port)) [
    | inl busy ↦ absurd (net.taken port w busy (ap (λ r. r.0) e))
    | inr idle ↦ record {
      low = low;
      high = high;
      was_free = idle;
      now_bound =
          λ q. ap (λ (r : Option Str × W). bound r.1 q) (sym e) ∙ net.listening port q w idle;
    }
  ]

  busy_port :
      (port : ℕ) (m : Str) (w w' : W)
      → ports.listen port w ≡ (some m, w')
      → (bound w port ≡ true) × ((q : ℕ) → bound w' q ≡ bound w q)
  busy_port port m w w' e = elim (Bool-cases (bound w port)) [
    | inl busy ↦
        (busy, λ q. ap (λ (r : Option Str × W). bound r.1 q) (sym e) ∙ net.refused port q w busy)
    | inr idle ↦ cc (e, net.free port w idle)
  ]

  Tried-later :
      (hint left attempt : ℕ) (w w' : W) (r : Option ℕ × W)
      → bound w (port_at hint attempt) ≡ true
      → ((q : ℕ) → bound w' q ≡ bound w q)
      → Tried hint left (attempt + 1) w' r
      → Tried hint (suc left) attempt w r
  Tried-later hint left attempt w w' (some port, v) busy same t = record {
    low = t.low;
    high = t.high;
    was_free = sym (same port) ∙ t.was_free;
    now_bound = λ q. t.now_bound q ∙ ap (λ b. port == q || b) (same q);
  }
  Tried-later hint left attempt w w' (none, v) busy same t = (each, λ q. t.1 q ∙ same q)
    where
      each : (k : ℕ) → k < suc left → bound w (port_at hint (attempt + k)) ≡ true
      each zero h =
          ap (λ n. bound w (port_at hint n)) (let e : attempt + 0 ≡ attempt = omega arith in e)
          ∙ busy
      each (suc k) h =
          ap (λ n. bound w (port_at hint n))
            (let e : attempt + suc k ≡ attempt + 1 + k = omega arith in e)
          ∙ sym (same (port_at hint (attempt + 1 + k)))
          ∙ t.0 k (omega (arith, h))

  Tried-or_port :
      (hint left attempt : ℕ) (w : W) (r : Option Str × W)
      → ports.listen (port_at hint attempt) w ≡ r
      → ((w' : W) → Tried hint left (attempt + 1) w' (try_ports ports hint left (attempt + 1) w'))
      → Tried hint (suc left) attempt w (
          or_port ports (port_at hint attempt) r (λ w'. try_ports ports hint left (attempt + 1) w'))
  Tried-or_port hint left attempt w (none, w') e later =
      granted (port_at hint attempt) w w' e (range_lem hint attempt).0 (range_lem hint attempt).1
  Tried-or_port hint left attempt w (some m, w') e later =
      let (busy, same) = busy_port (port_at hint attempt) m w w' e in
      Tried-later hint left attempt w w' _ busy same (later w')

  pub try_ports-Tried :
      (hint left attempt : ℕ) (w : W)
      → Tried hint left attempt w (try_ports ports hint left attempt w)
  unfolding try_ports
  try_ports-Tried hint zero attempt w = (λ k h. absurd (omega (arith, h)), λ q. refl)
  try_ports-Tried hint (suc left) attempt w =
      Tried-or_port hint left attempt w _ refl (λ w'. try_ports-Tried hint left (attempt + 1) w')

  -- Every port of the range is the one of some attempt.
  port_at-onto :
      (hint port : ℕ)
      → proxy_port_start ≤ hint
      → hint ≤ proxy_port_end
      → proxy_port_start ≤ port
      → port ≤ proxy_port_end
      → (k : ℕ) × (k < attempts) × (port_at hint (0 + k) ≡ port)
  port_at-onto hint port a b c d =
      ((port + 101 - hint) % 101, omega arith, omega (arith, a, b, c, d))

  pub unfailing :
      (hint port : ℕ) (w : W) (r : Option ℕ × W)
      → proxy_port_start ≤ hint
      → hint ≤ proxy_port_end
      → proxy_port_start ≤ port
      → port ≤ proxy_port_end
      → bound w port ≡ false
      → Tried hint attempts 0 w r
      → (got : ℕ) × (r.0 ≡ some got)
  unfailing hint port w (some got, w') a b c d idle t = (got, refl)
  unfailing hint port w (none, w') a b c d idle t =
      let (k, small, e) = port_at-onto hint port a b c d in cc (t.0 k small, ap (bound w) e, idle)

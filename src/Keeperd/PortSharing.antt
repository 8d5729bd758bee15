-- ===== src/Keeperd/PortSharing.antt =====
-- Runs of calls of the proxy allocator.
use vivary.Prelude.{
  ℕ, ◌≤◌, ◌≡◌, refl, sym, ap, ◌∙◌, ◌≢◌, ◌⊎◌, inl, inr, Bool, true, false, ◌||◌, Option, none, some,
  List, [], ◌∷◌, arith, ◌==◌, ==_iff, Bool-cases, some-injective, Str, str_eq, str_eq_iff,
}
use vivary.Prelude.Map.{lookup, insert, delete, lookup-insert, lookup-delete}
use vivary.Keeperd.Proxies.{
  proxy_port_start, proxy_port_end, ProxyInstance, ProxyAllocator, Ports, attempts, proxy_instance,
  allotted, acquire_found, acquire_proxy, release_found, release_proxy,
}
use vivary.Keeperd.PortLaws.{IsNet, IsAllotted, IsTaken, Tried, try_ports-Tried, unfailing}

pub data ProxyCall : Type 0 where
  acquiring releasing : Str → ProxyCall

module _ {ℓ} {W : Type ℓ} (ports : Ports W) where
  unfoldable pub proxy_call : ProxyCall → ProxyAllocator → W → ProxyAllocator × W
  proxy_call (acquiring id) p w = (acquire_proxy ports id p w).1
  proxy_call (releasing id) p w = release_proxy ports id p w

  unfoldable pub proxy_calls : List ProxyCall → ProxyAllocator → W → ProxyAllocator × W
  unfolding proxy_call
  proxy_calls [] p w = (p, w)
  proxy_calls (c ∷ calls) p w = let s = proxy_call c p w in proxy_calls calls s.0 s.1

module _ {ℓ} {W : Type ℓ} (ports : Ports W) (bound : W → ℕ → Bool) (net : IsNet ports bound) where
  -- The new instance or an old one
  own_or_old :
      (id j : Str) (new inst : ProxyInstance) (p : ProxyAllocator)
      → lookup j (insert id new p.instances) ≡ some inst
      → ((id ≡ j) × (new ≡ inst)) ⊎ (lookup j p.instances ≡ some inst)
  own_or_old id j new inst p e = elim (Bool-cases (str_eq id j)) [
    | inl same ↦ inl ((str_eq_iff id j).0 same, some-injective (rw (lookup-insert, same) at e))
    | inr other ↦ inr (rw (lookup-insert, other) at e)
  ]

  -- A port that was free is not the port of an agent.
  unused :
      (j : Str) (inst : ProxyInstance) (p : ProxyAllocator) (port : ℕ) (w w' : W)
      → IsAllotted bound p w
      → IsTaken ports bound net port w w'
      → lookup j p.instances ≡ some inst
      → inst.port ≢ port
  unused j inst p port w w' h t e same = cc (h.bound_own j inst e, t.was_free, ap (bound w) same)

  allotted-IsAllotted :
      (id : Str) (p : ProxyAllocator) (w : W) (r : Option ℕ × W)
      → IsAllotted bound p w
      → Tried ports bound net p.next_port_hint attempts 0 w r
      → IsAllotted bound (allotted ports id p r).1.0 (allotted ports id p r).1.1
  allotted-IsAllotted id p w (none, w') h t = record {
    hint_low = h.hint_low;
    hint_high = h.hint_high;
    bound_own = λ j inst e. t.1 inst.port ∙ h.bound_own j inst e;
    in_range = h.in_range;
    unshared = h.unshared;
  }
  allotted-IsAllotted id p w (some port, w') h t =
      let new : ProxyInstance = proxy_instance ports p port in
      record {
        hint_low = ground (arith, t.low);
        hint_high = ground (arith, t.high);
        bound_own = λ j inst e. elim (own_or_old id j new inst p e) [
          | inl (own, same) ↦
              ap (λ (x : ProxyInstance). bound w' x.port) (sym same)
              ∙ t.now_bound port
              ∙ ap (λ b. b || bound w port) ((==_iff port port).1 refl)
          | inr old ↦
              t.now_bound inst.port
              ∙ ap (λ b. port == inst.port || b) (h.bound_own j inst old)
              ∙ or_true (port == inst.port)
        ];
        in_range = λ j inst e. elim (own_or_old id j new inst p e) [
          | inl (own, same) ↦
              let port_eq : port ≡ inst.port = ap (λ (x : ProxyInstance). x.port) same in
              (omega (arith, t.low), omega (arith, t.high))
          | inr old ↦ h.in_range j inst old
        ];
        unshared = λ j k inst other e e' same. elim (own_or_old id j new inst p e) [
          | inl (own, is_new) ↦ elim (own_or_old id k new other p e') [
            | inl (own', is_new') ↦ sym own ∙ own'
            | inr old' ↦ absurd (
                unused k other p port w w' h t old'
                  (sym same ∙ ap (λ (x : ProxyInstance). x.port) (sym is_new)))
          ]
          | inr old ↦ elim (own_or_old id k new other p e') [
            | inl (own', is_new') ↦ absurd (
                unused j inst p port w w' h t old
                  (same ∙ ap (λ (x : ProxyInstance). x.port) (sym is_new')))
            | inr old' ↦ h.unshared j k inst other old old' same
          ]
        ];
      }
    where
      or_true : (b : Bool) → (b || true) ≡ true
      or_true true = refl
      or_true false = refl

  acquire_found-IsAllotted :
      (id : Str) (p : ProxyAllocator) (w : W) (o : Option ProxyInstance)
      → IsAllotted bound p w
      → IsAllotted bound (acquire_found ports id p w o).1.0 (acquire_found ports id p w o).1.1
  acquire_found-IsAllotted id p w (some inst) h = h
  acquire_found-IsAllotted id p w none h =
      allotted-IsAllotted id p w _ h (try_ports-Tried ports bound net p.next_port_hint attempts 0 w)

  old_of_delete :
      (id j : Str) (inst : ProxyInstance) (p : ProxyAllocator)
      → lookup j (delete id p.instances) ≡ some inst
      → (lookup j p.instances ≡ some inst) × (str_eq id j ≡ false)
  old_of_delete id j inst p e = elim (Bool-cases (str_eq id j)) [
    | inl same ↦ cc (rw (lookup-delete, same) at e)
    | inr other ↦ (rw (lookup-delete, other) at e, other)
  ]

  release_found-IsAllotted :
      (id : Str) (p : ProxyAllocator) (w : W) (o : Option ProxyInstance)
      → lookup id p.instances ≡ o
      → IsAllotted bound p w
      → IsAllotted bound (release_found ports id p w o).0 (release_found ports id p w o).1
  release_found-IsAllotted id p w none e h = h
  release_found-IsAllotted id p w (some gone) e h = record {
    hint_low = h.hint_low;
    hint_high = h.hint_high;
    bound_own = λ j inst e'.
        let (old, other) = old_of_delete id j inst p e' in
        net.closing gone.port inst.port w
          (λ same. cc (other, (str_eq_iff id j).1 (h.unshared id j gone inst e old same)))
        ∙ h.bound_own j inst old;
    in_range = λ j inst e'. h.in_range j inst (old_of_delete id j inst p e').0;
    unshared = λ j k inst other e' e''.
        h.unshared j k inst other (old_of_delete id j inst p e').0
          (old_of_delete id k other p e'').0;
  }

  proxy_call-IsAllotted :
      (c : ProxyCall) (p : ProxyAllocator) (w : W)
      → IsAllotted bound p w
      → IsAllotted bound (proxy_call ports c p w).0 (proxy_call ports c p w).1
  unfolding proxy_call acquire_proxy release_proxy
  proxy_call-IsAllotted (acquiring id) p w h = acquire_found-IsAllotted id p w _ h
  proxy_call-IsAllotted (releasing id) p w h = release_found-IsAllotted id p w _ refl h

  -- Through any run of acquires and releases, every agent's proxy port lies in 8700 to 8800 and is
  -- listened on, and no two agents have one port; on a network where one listener holds a port.
  pub proxy_calls-IsAllotted :
      (calls : List ProxyCall) (p : ProxyAllocator) (w : W)
      → IsAllotted bound p w
      → IsAllotted bound (proxy_calls ports calls p w).0 (proxy_calls ports calls p w).1
  unfolding proxy_calls
  proxy_calls-IsAllotted [] p w h = h
  proxy_calls-IsAllotted (c ∷ calls) p w h =
      proxy_calls-IsAllotted calls _ _ (proxy_call-IsAllotted c p w h)

  -- As long as one port of the range is free, an agent gets a proxy: the search, wherever it starts,
  -- comes to every port.
  pub acquire_proxy-some :
      (id : Str) (p : ProxyAllocator) (w : W) (port : ℕ)
      → IsAllotted bound p w
      → proxy_port_start ≤ port
      → port ≤ proxy_port_end
      → bound w port ≡ false
      → (inst : ProxyInstance) × ((acquire_proxy ports id p w).0 ≡ some inst)
  unfolding acquire_proxy
  acquire_proxy-some id p w port h low high idle = found (lookup id p.instances)
    where
      got :
          (r : Option ℕ × W)
          → (n : ℕ) × (r.0 ≡ some n)
          → (inst : ProxyInstance) × ((allotted ports id p r).0 ≡ some inst)
      got (some n, w') g = (_, refl)
      got (none, w') g = cc g.1

      found :
          (o : Option ProxyInstance)
          → (inst : ProxyInstance) × ((acquire_found ports id p w o).0 ≡ some inst)
      found (some inst) = (inst, refl)
      found none = got _ (
          unfailing ports bound net p.next_port_hint port w _ h.hint_low h.hint_high low high idle
            (try_ports-Tried ports bound net p.next_port_hint attempts 0 w))

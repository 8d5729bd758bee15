-- ===== src/Keeperd/Accounts.antt =====
-- Who answers for a proxy port, while calls of the browser manager overlap.
use vivary.Prelude.{
  ℕ, zero, suc, ◌≡◌, refl, ap, ◌⊎◌, inl, inr, Bool, false, Option, none, some, List, [], ◌∷◌,
  Bool-cases, Str, str_eq, str_eq_iff,
}
use vivary.Prelude.Map.{lookup, delete, lookup-insert, lookup-delete}
use vivary.Chromed.Payloads.{AcquireResponse}
use vivary.Keeperd.Proxies.{
  ProxyInstance, Ports, allotted, acquire_found, acquire_proxy, release_found, release_proxy,
}
use vivary.Keeperd.Browser.{
  Sessions, BrowserManager, Reading, begun, looked, proxied, failing, acquired, opened, Leaving,
  asked, forgotten, unported, left, set_headless, look_up, with_proxy, in_session, read_step,
  release_step,
}
use vivary.Keeperd.Pairing.{
  Thread, reading, releasing, BrowserEvent, reads, releases, moves, chooses, Browsing, HasPort,
  HasSession, thread_step, move, browse, browse_all,
}

-- The call has taken the port of the agent and not yet filed a session or given it back, or it has
-- taken the session away and will give the port back.
abbrev pub IsFor : Str → Thread → Type 0
IsFor j (reading id begun) = ⊥
IsFor j (reading id (looked headless)) = ⊥
IsFor j (reading id (proxied url headless)) = id ≡ j
IsFor j (reading id (failing e)) = id ≡ j
IsFor j (reading id (acquired addr)) = id ≡ j
IsFor j (reading id (opened r)) = ⊥
IsFor j (releasing id asked) = ⊥
IsFor j (releasing id forgotten) = id ≡ j
IsFor j (releasing id unported) = ⊥
IsFor j (releasing id (left r)) = ⊥

abbrev pub IsInHand : Str → List Thread → Type 0
IsInHand j [] = ⊥
IsInHand j (t ∷ ts) = IsFor j t ⊎ IsInHand j ts

-- Each agent with a port has a session, or a call under way answers for the port.
pub record IsAccounted (ts : List Thread) (m : BrowserManager) : Type 0 where
  pub accounted : (id : Str) → HasPort id m → HasSession id m ⊎ IsInHand id ts

-- What a step of one call may do about the port of `j`: answer for it, or leave it and its session,
-- if it did not answer for it before.
abbrev Advance : Str → Thread → BrowserManager → Thread → BrowserManager → Type 0
Advance j t m t' m' =
    HasPort j m'
    → (HasSession j m' ⊎ IsFor j t')
      ⊎ (HasPort j m × (HasSession j m → HasSession j m') × ¬ IsFor j t)

differs : (id j : Str) → str_eq id j ≡ false → ¬ (id ≡ j)
differs id j other same = cc (other, (str_eq_iff id j).1 same)

module _ {ℓ} {W : Type ℓ} (ports : Ports W) (sessions : Sessions W) (j id : Str)
    (m : BrowserManager) where
  -- A release leaves no port for its agent, and the ports of the others.
  released_found :
      (w : W) (o : Option ProxyInstance)
      → lookup id m.proxies.instances ≡ o
      → HasPort j (record m { proxies = (release_found ports id m.proxies w o).0 })
      → (str_eq id j ≡ false) × HasPort j m
  released_found w none e (inst, h) = elim (Bool-cases (str_eq id j)) [
    | inl same ↦
        absurd (cc (e, h, ap (λ k. lookup k m.proxies.instances) ((str_eq_iff id j).0 same)))
    | inr other ↦ (other, (inst, h))
  ]
  released_found w (some x) e (inst, h) = elim (Bool-cases (str_eq id j)) [
    | inl same ↦ absurd (cc (rw (lookup-delete, same) at h))
    | inr other ↦ (other, (inst, rw (lookup-delete, other) at h))
  ]

  released :
      (w : W)
      → HasPort j (record m { proxies = (release_proxy ports id m.proxies w).0 })
      → (str_eq id j ≡ false) × HasPort j m
  unfolding release_proxy
  released w h = released_found w _ refl h

  looked_up :
      (o : Option Str)
      → Advance j (reading id begun) m (reading id (look_up ports sessions id m o)) m
  looked_up none h = inr (h, λ s. s, λ x. x)
  looked_up (some addr) h = inr (h, λ s. s, λ x. x)

  allotted-Advance :
      (headless : Bool) (r : Option ℕ × W)
      → let s = with_proxy ports sessions headless m (allotted ports id m.proxies r) in
        Advance j (reading id (looked headless)) m (reading id s.0) s.1.0
  allotted-Advance headless (none, w) h = inr (h, λ s. s, λ x. x)
  allotted-Advance headless (some port, w) (inst, h) = elim (Bool-cases (str_eq id j)) [
    | inl same ↦ inl (inr ((str_eq_iff id j).0 same))
    | inr other ↦ inr ((inst, rw (lookup-insert, other) at h), λ s. s, λ x. x)
  ]

  found-Advance :
      (headless : Bool) (w : W) (o : Option ProxyInstance)
      → let s = with_proxy ports sessions headless m (acquire_found ports id m.proxies w o) in
        Advance j (reading id (looked headless)) m (reading id s.0) s.1.0
  found-Advance headless w none h = allotted-Advance headless _ h
  found-Advance headless w (some inst) h = inr (h, λ s. s, λ x. x)

  session-Advance :
      (url : Str) (headless : Bool) (r : (Str ⊎ AcquireResponse) × W)
      → let s = in_session ports sessions m r in
        Advance j (reading id (proxied url headless)) m (reading id s.0) s.1.0
  session-Advance url headless (inl e, w) h = elim (Bool-cases (str_eq id j)) [
    | inl same ↦ inl (inr ((str_eq_iff id j).0 same))
    | inr other ↦ inr (h, λ s. s, differs id j other)
  ]
  session-Advance url headless (inr resp, w) h = elim (Bool-cases (str_eq id j)) [
    | inl same ↦ inl (inr ((str_eq_iff id j).0 same))
    | inr other ↦ inr (h, λ s. s, differs id j other)
  ]

  read_step-Advance :
      (r : Reading) (w : W)
      → let s = read_step ports sessions id r m w in
        Advance j (reading id r) m (reading id s.0) s.1.0
  unfolding read_step acquire_proxy
  read_step-Advance begun w h = looked_up _ h
  read_step-Advance (looked headless) w h = found-Advance headless w _ h
  read_step-Advance (proxied url headless) w h = session-Advance url headless _ h
  read_step-Advance (failing e) w h =
      let (other, kept) = released w h in inr (kept, λ s. s, differs id j other)
  read_step-Advance (acquired addr) w h = elim (Bool-cases (str_eq id j)) [
    | inl same ↦ inl (inl (addr, rw (lookup-insert, same) refl))
    | inr other ↦ inr (h, λ (a, e). (a, rw (lookup-insert, other) e), differs id j other)
  ]
  read_step-Advance (opened r) w h = inr (h, λ s. s, λ x. x)

  forgotten-Advance :
      (w : W)
      → let m' = record m {
        headless = delete id m.headless;
        proxy_by_id = delete id m.proxy_by_id;
      } in
        Advance j (releasing id asked) m (releasing id forgotten) m'
  forgotten-Advance w h = elim (Bool-cases (str_eq id j)) [
    | inl same ↦ inl (inr ((str_eq_iff id j).0 same))
    | inr other ↦ inr (h, λ (a, e). (a, rw (lookup-delete, other) e), λ x. x)
  ]

  asked-Advance :
      (w : W)
      → let s = release_step ports sessions id asked m w in
        Advance j (releasing id asked) m (releasing id s.0) s.1.0
  unfolding release_step
  asked-Advance w = elim (Bool-cases (str_eq id [])) [
    | inl e ↦ rw e (λ h. inr (h, λ s. s, λ x. x))
    | inr e ↦ rw e (forgotten-Advance w)
  ]

  release_step-Advance :
      (l : Leaving) (w : W)
      → let s = release_step ports sessions id l m w in
        Advance j (releasing id l) m (releasing id s.0) s.1.0
  unfolding release_step
  release_step-Advance asked w h = asked-Advance w h
  release_step-Advance forgotten w h =
      let (other, kept) = released w h in inr (kept, λ s. s, differs id j other)
  release_step-Advance unported w h = inr (h, λ s. s, λ x. x)
  release_step-Advance (left r) w h = inr (h, λ s. s, λ x. x)

module _ {ℓ} {W : Type ℓ} (ports : Ports W) (sessions : Sessions W) (j : Str) where
  thread_step-Advance :
      (t : Thread) (m : BrowserManager) (w : W)
      → let s = thread_step ports sessions t m w in Advance j t m s.0 s.1.0
  unfolding thread_step
  thread_step-Advance (reading id r) m w h = read_step-Advance ports sessions j id m r w h
  thread_step-Advance (releasing id l) m w h = release_step-Advance ports sessions j id m l w h

  -- The same for a step of one call of several
  abbrev Progress : List Thread → BrowserManager → List Thread × (BrowserManager × W) → Type 0
  Progress ts m (ts', (m', w')) =
      HasPort j m'
      → (HasSession j m' ⊎ IsInHand j ts')
        ⊎ (HasPort j m × (HasSession j m → HasSession j m') × (IsInHand j ts → IsInHand j ts'))

  stepped :
      (t : Thread) (ts : List Thread) (m : BrowserManager) (s : Thread × (BrowserManager × W))
      → Advance j t m s.0 s.1.0
      → Progress (t ∷ ts) m (s.0 ∷ ts, s.1)
  stepped t ts m s advance h = elim (advance h) [
    | inl (inl session) ↦ inl (inl session)
    | inl (inr mine) ↦ inl (inr (inl mine))
    | inr (port, kept, not_mine) ↦ inr (
      port,
      kept,
      λ hand. elim hand [ inl mine ↦ absurd (not_mine mine) | inr others ↦ inr others ],
    )
  ]

  behind :
      (t : Thread) (ts : List Thread) (m : BrowserManager) (s : List Thread × (BrowserManager × W))
      → Progress ts m s
      → Progress (t ∷ ts) m (t ∷ s.0, s.1)
  behind t ts m s progress h = elim (progress h) [
    | inl (inl session) ↦ inl (inl session)
    | inl (inr others) ↦ inl (inr (inr others))
    | inr (port, kept, more) ↦
        inr (port, kept, λ hand. elim hand [ inl mine ↦ inl mine | inr others ↦ inr (more others) ])
  ]

  move-Progress :
      (n : ℕ) (ts : List Thread) (m : BrowserManager) (w : W)
      → Progress ts m (move ports sessions n ts m w)
  unfolding move
  move-Progress n [] m w h = inr (h, λ s. s, λ x. x)
  move-Progress zero (t ∷ ts) m w h =
      stepped t ts m (thread_step ports sessions t m w) (thread_step-Advance t m w) h
  move-Progress (suc n) (t ∷ ts) m w h =
      behind t ts m (move ports sessions n ts m w) (move-Progress n ts m w) h

module _ {ℓ} {W : Type ℓ} (ports : Ports W) (sessions : Sessions W) where
  move-IsAccounted :
      (n : ℕ) (ts : List Thread) (m : BrowserManager) (w : W)
      → IsAccounted ts m
      → let s = move ports sessions n ts m w in IsAccounted s.0 s.1.0
  move-IsAccounted n ts m w h = record {
    accounted = λ j port. elim (move-Progress ports sessions j n ts m w port) [
      | inl fine ↦ fine
      | inr (before, kept, more) ↦ elim (h.accounted j before) [
        | inl session ↦ inl (kept session)
        | inr hand ↦ inr (more hand)
      ]
    ];
  }

  begins-IsAccounted :
      (t : Thread) (ts : List Thread) (m : BrowserManager)
      → IsAccounted ts m
      → IsAccounted (t ∷ ts) m
  begins-IsAccounted t ts m h = record {
    accounted = λ j port. elim (h.accounted j port) [
      | inl session ↦ inl session
      | inr hand ↦ inr (inr hand)
    ];
  }

  browse-IsAccounted :
      (e : BrowserEvent) (b : Browsing W)
      → IsAccounted b.threads b.manager
      → let b' = browse ports sessions e b in IsAccounted b'.threads b'.manager
  unfolding browse set_headless
  browse-IsAccounted (reads id) b h = begins-IsAccounted (reading id begun) b.threads b.manager h
  browse-IsAccounted (releases id) b h =
      begins-IsAccounted (releasing id asked) b.threads b.manager h
  browse-IsAccounted (moves n) b h = move-IsAccounted n b.threads b.manager b.world h
  browse-IsAccounted (chooses id headless) b h = record { accounted = h.accounted }

  -- However the steps of page reads and releases, of any agents, come in between each other, each
  -- agent with a proxy port has a browser session, or a call under way has the port in hand and will
  -- file a session or give the port back. So no port is lost.
  pub browse_all-IsAccounted :
      (es : List BrowserEvent) (b : Browsing W)
      → IsAccounted b.threads b.manager
      → let b' = browse_all ports sessions es b in IsAccounted b'.threads b'.manager
  unfolding browse_all
  browse_all-IsAccounted [] b h = h
  browse_all-IsAccounted (e ∷ es) b h = browse_all-IsAccounted es _ (browse-IsAccounted e b h)

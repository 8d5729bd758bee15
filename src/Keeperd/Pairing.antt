-- ===== src/Keeperd/Pairing.antt =====
-- Browser sessions beside the proxy ports, while calls overlap.
use vivary.Prelude.{ℕ, zero, suc, ◌≡◌, Bool, some, List, [], ◌∷◌, Str}
use vivary.Prelude.Map.{lookup}
use vivary.Keeperd.Proxies.{ProxyInstance, Ports}
use vivary.Keeperd.Browser.{
  Sessions, BrowserManager, Reading, begun, Leaving, asked, set_headless, read_step, release_step,
}

-- A call under way
pub data Thread : Type 0 where
  reading : Str → Reading → Thread
  releasing : Str → Leaving → Thread

-- A call begins, the call at a place of the list takes a step, or `SetHeadless` is called.
pub data BrowserEvent : Type 0 where
  reads releases : Str → BrowserEvent
  moves : ℕ → BrowserEvent
  chooses : Str → Bool → BrowserEvent

pub record Browsing {ℓ} (W : Type ℓ) : Type ℓ where
  pub threads : List Thread
  pub manager : BrowserManager
  pub world : W

abbrev pub HasPort : Str → BrowserManager → Type 0
HasPort id m = (inst : ProxyInstance) × (lookup id m.proxies.instances ≡ some inst)

abbrev pub HasSession : Str → BrowserManager → Type 0
HasSession id m = (addr : Str) × (lookup id m.proxy_by_id ≡ some addr)

module _ {ℓ} {W : Type ℓ} (ports : Ports W) (sessions : Sessions W) where
  abbrev stepped_reading : Str → Reading × (BrowserManager × W) → Thread × (BrowserManager × W)
  stepped_reading id (r, s) = (reading id r, s)

  abbrev stepped_leaving : Str → Leaving × (BrowserManager × W) → Thread × (BrowserManager × W)
  stepped_leaving id (r, s) = (releasing id r, s)

  unfoldable pub thread_step : Thread → BrowserManager → W → Thread × (BrowserManager × W)
  thread_step (reading id r) m w = stepped_reading id (read_step ports sessions id r m w)
  thread_step (releasing id l) m w = stepped_leaving id (release_step ports sessions id l m w)

  unfoldable pub move : ℕ → List Thread → BrowserManager → W → List Thread × (BrowserManager × W)
  move n [] m w = ([], (m, w))
  move zero (t ∷ ts) m w = let s = thread_step t m w in (s.0 ∷ ts, s.1)
  move (suc n) (t ∷ ts) m w = let s = move n ts m w in (t ∷ s.0, s.1)

  abbrev moved : List Thread × (BrowserManager × W) → Browsing W
  moved (ts, (m, w)) = record { threads = ts; manager = m; world = w }

  unfoldable pub browse : BrowserEvent → Browsing W → Browsing W
  browse (reads id) b = record b { threads = reading id begun ∷ b.threads }
  browse (releases id) b = record b { threads = releasing id asked ∷ b.threads }
  browse (moves n) b = moved (move n b.threads b.manager b.world)
  browse (chooses id headless) b = record b { manager = set_headless id headless b.manager }

  unfoldable pub browse_all : List BrowserEvent → Browsing W → Browsing W
  browse_all [] b = b
  browse_all (e ∷ es) b = browse_all es (browse e b)

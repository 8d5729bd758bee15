-- ===== src/Keeperd/Browser.antt =====
-- cmd/keeperd/chromed.go, the browser manager: a session of the chromed service and a proxy for
-- each agent that browses. A call is a thread of steps: what is done under one hold of a lock, or one
-- call of the client, is a step, so that the steps of other calls may come in between. A page reader is the debug address that it was made for; `Sessions` is the
-- client of the chromed service, and `read` the ReadPage of the reader at an address.
use vivary.Prelude.{
  ◌⊎◌, inl, inr, Bool, false, Option, none, some, [], ◌++◌, if◌then◌else◌, Str, bytes, str_eq,
}
use vivary.Prelude.Map.{Map, empty, lookup, insert, delete}
use vivary.Prelude.Act.{Act}
use vivary.Chromed.Payloads.{AcquireRequest, AcquireResponse}
use vivary.Keeperd.Proxies.{ProxyInstance, ProxyAllocator, Ports, acquire_proxy, release_proxy}

pub record Sessions {ℓ} (W : Type ℓ) : Type ℓ where
  pub acquire : AcquireRequest → Act W AcquireResponse
  pub release : Str → W → Option Str × W

pub record BrowserManager : Type 0 where
  pub headless : Map Bool
  pub proxy_by_id : Map Str
  pub proxies : ProxyAllocator

-- `newBrowserManager`
unfoldable pub new_browser_manager : ProxyAllocator → BrowserManager
new_browser_manager proxies = record { headless = empty; proxy_by_id = empty; proxies = proxies }

-- `SetHeadless`
unfoldable pub set_headless : Str → Bool → BrowserManager → BrowserManager
set_headless id b m = record m { headless = insert id b m.headless }

abbrev or_false : Option Bool → Bool
or_false none = false
or_false (some b) = b

-- How far a call of `ReadPage` has come. `looked`: it found no reader. `proxied`: it has a proxy, at
-- this URL. `acquired`: it has a session, at this address. `failing`: it got no session.
pub data Reading : Type 0 where
  begun : Reading
  looked : Bool → Reading
  proxied : Str → Bool → Reading
  failing : Str → Reading
  acquired : Str → Reading
  opened : Str ⊎ Str → Reading

-- How far a call of `Release` has come.
pub data Leaving : Type 0 where
  asked forgotten unported : Leaving
  left : Option Str → Leaving

module _ {ℓ} {W : Type ℓ} (ports : Ports W) (sessions : Sessions W) where
  abbrev pub look_up : Str → BrowserManager → Option Str → Reading
  look_up id m (some addr) = opened (inr addr)
  look_up id m none = looked (or_false (lookup id m.headless))

  abbrev pub with_proxy :
      Bool
      → BrowserManager
      → Option ProxyInstance × (ProxyAllocator × W)
      → Reading × (BrowserManager × W)
  with_proxy headless m (none, (p, w)) = (
    opened (inl (bytes "acquire browser proxy: no free proxy ports in range 8700-8800")),
    (record m { proxies = p }, w),
  )
  with_proxy headless m (some inst, (p, w)) =
      (proxied inst.url headless, (record m { proxies = p }, w))

  abbrev pub in_session :
      BrowserManager → (Str ⊎ AcquireResponse) × W → Reading × (BrowserManager × W)
  in_session m (inl e, w) = (failing e, (m, w))
  in_session m (inr resp, w) = (acquired resp.debug_addr, (m, w))

  abbrev pub set_proxies : BrowserManager → ProxyAllocator × W → BrowserManager × W
  set_proxies m (p, w) = (record m { proxies = p }, w)

  -- One step of `ReadPage`, up to the page reader
  unfoldable pub read_step : Str → Reading → BrowserManager → W → Reading × (BrowserManager × W)
  read_step id begun m w = (look_up id m (lookup id m.proxy_by_id), (m, w))
  read_step id (looked headless) m w = with_proxy headless m (acquire_proxy ports id m.proxies w)
  read_step id (proxied url headless) m w = in_session m (
      sessions.acquire
        (record { agent_id = id; proxy_server = url; timeout_sec = 10; headless = headless }) w)
  read_step id (failing e) m w = (
    opened (inl (bytes "acquire browser session: " ++ e)),
    set_proxies m (release_proxy ports id m.proxies w),
  )
  read_step id (acquired addr) m w =
      (opened (inr addr), (record m { proxy_by_id = insert id addr m.proxy_by_id }, w))
  read_step id (opened r) m w = (opened r, (m, w))

  -- One step of `Release`
  unfoldable pub release_step : Str → Leaving → BrowserManager → W → Leaving × (BrowserManager × W)
  release_step id asked m w = if str_eq id [] then (left none, (m, w)) else (
    forgotten,
    (record m { headless = delete id m.headless; proxy_by_id = delete id m.proxy_by_id }, w),
  )
  release_step id forgotten m w = (unported, set_proxies m (release_proxy ports id m.proxies w))
  release_step id unported m w = let r = sessions.release id w in (left r.0, (m, r.1))
  release_step id (left r) m w = (left r, (m, w))

  abbrev page_of : (Str → W → (Str ⊎ Str) × W) → Reading → W → Option (Str ⊎ Str) × W
  page_of read (opened (inl e)) w = (some (inl e), w)
  page_of read (opened (inr addr)) w = let r = read addr w in (some r.0, r.1)
  page_of read begun w = (none, w)
  page_of read (looked headless) w = (none, w)
  page_of read (proxied url headless) w = (none, w)
  page_of read (failing e) w = (none, w)
  page_of read (acquired addr) w = (none, w)

  -- The end of `ReadPage`: an error, or the page that the reader at the address reads. `read` has the
  -- page's address and the policy; none is a call that has not come so far.
  unfoldable pub read_page : (Str → W → (Str ⊎ Str) × W) → Reading → W → Option (Str ⊎ Str) × W
  read_page read stage w = page_of read stage w

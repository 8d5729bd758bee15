-- ===== src/Keeperd/Replies.antt =====
-- What a control client is answered.
use vivary.Prelude.{
  ℕ, ◌+◌, ◌%◌, ◌^◌, ◌≡◌, refl, ap, ◌≢◌, inl, inr, true, false, not, Option, none, some, List, [],
  ◌∷◌, ◌++◌, map, append-nil, if◌then◌else◌, Option-cases, Str, bytes, str_eq,
}
use vivary.Prelude.Map.{lookup, lookup-insert, values}
use vivary.Mus.{Source, Result, ok}
use vivary.Switchboard.MsgType
use vivary.Switchboard.Router.{SendError, send, seq_next}
use vivary.Ctl.Requests.{PromptPayload, marshal_prompt, unmarshal_prompt}
use vivary.Ctl.RoundTrip.{IsPromptPayload, unmarshal_prompt-marshal_prompt}
use vivary.Ctl.Status.{AgentStatus, StatusPayload, unmarshal_status}
use vivary.Ctl.StatusRoundTrip.{IsStatusPayload, unmarshal_status-marshal_status}
use vivary.Keeperd.State.{AgentState, Daemon, fresh_header, keeper}
use vivary.Keeperd.Handlers.{memory, update_agent}
use vivary.Keeperd.Ctl.{
  Formats, Provision, agent_status, build_agent_status_list, build_status, forwarded,
  dispatch_prompt, dispatch_ctl,
}

-- A prompt that was passed on: the frame has the next number of the daemon, the payload is the
-- client's, the counter has moved on, and otherwise only the last prompt number of the one agent has
-- changed.
pub record IsForwarded {ℓ} {W : Type ℓ} {F : Type 0} (d : Daemon W F) (w : W) (p : PromptPayload)
    (a : AgentState F) (answer : Option Str × (Daemon W F × W)) (id : Str) : Type ℓ where
  pub world :
      answer.1.1
      ≡ (send d.router p.agent_id
          (fresh_header MsgType.ctl_prompt keeper p.agent_id ((d.seq_out + 1) % 2 ^ 64))
          (marshal_prompt p)
          w).1
  pub counter : answer.1.0.seq_out ≡ (d.seq_out + 1) % 2 ^ 64
  pub router : answer.1.0.router ≡ d.router
  pub dispatcher : answer.1.0.dispatcher ≡ d.dispatcher
  pub ctl_subs : answer.1.0.ctl_subs ≡ d.ctl_subs
  pub agents : lookup id answer.1.0.agents ≡ (
      if str_eq p.agent_id id
      then some (record a { last_prompt_seq = p.seq })
      else lookup id d.agents)

-- A prompt that was turned down: an error, and nothing has changed.
pub record IsTurnedDown {ℓ} {W : Type ℓ} {F : Type 0} (d : Daemon W F) (w : W)
    (answer : Option Str × (Daemon W F × W)) : Type ℓ where
  pub error : answer.0 ≢ none
  pub untouched : answer.1 ≡ (d, w)

module _ {ℓ} {W : Type ℓ} {F : Type 0} (quote : Str → Str) (d : Daemon W F) (w : W)
    (p : PromptPayload) (fits : IsPromptPayload p) where
  read_back : unmarshal_prompt memory (marshal_prompt p) ≡ ok (p, [])
  read_back = rw append-nil at (unmarshal_prompt-marshal_prompt p memory [] fits)

  lookup-update :
      (a : AgentState F) (g : AgentState F → AgentState F) (id : Str)
      → lookup p.agent_id d.agents ≡ some a
      → lookup id (update_agent p.agent_id g d).agents
        ≡ (if str_eq p.agent_id id then some (g a) else lookup id d.agents)
  unfolding update_agent
  lookup-update a g id e = rw e (lookup-insert p.agent_id id (g a) d.agents)

  -- The daemon with the prompt number and the counter
  abbrev recorded : Daemon W F
  recorded = record (update_agent p.agent_id (λ b. record b { last_prompt_seq = p.seq }) d) {
    seq_out = (seq_next d.seq_out).1;
  }

  passed_on :
      (a : AgentState F) (id : Str) (r : Option SendError × W)
      → lookup p.agent_id d.agents ≡ some a
      → r
        ≡ send d.router p.agent_id
            (fresh_header MsgType.ctl_prompt keeper p.agent_id ((d.seq_out + 1) % 2 ^ 64))
            (marshal_prompt p)
            w
      → IsForwarded d w p a (forwarded quote p.agent_id recorded r) id
  unfolding update_agent seq_next
  passed_on a id (none, w') e sent = record {
    world = ap (λ x. x.1) sent;
    counter = refl;
    router = refl;
    dispatcher = refl;
    ctl_subs = refl;
    agents = lookup-update a (λ b. record b { last_prompt_seq = p.seq }) id e;
  }
  passed_on a id (some x, w') e sent = record {
    world = ap (λ x. x.1) sent;
    counter = refl;
    router = refl;
    dispatcher = refl;
    ctl_subs = refl;
    agents = lookup-update a (λ b. record b { last_prompt_seq = p.seq }) id e;
  }

  -- A prompt for an agent that is running goes to the pipe of that agent under the next number of the
  -- daemon, with the payload that the client sent, whatever becomes of the write. The counter and
  -- the agent's last prompt number are set; every other agent, the router, the dispatcher and the
  -- push channels are as before.
  pub dispatch_prompt-IsForwarded :
      (a : AgentState F) (id : Str)
      → lookup p.agent_id d.agents ≡ some a
      → a.has_pipe ≡ true
      → IsForwarded d w p a (dispatch_prompt quote (marshal_prompt p) d w) id
  unfolding dispatch_prompt seq_next
  dispatch_prompt-IsForwarded a id e running =
      let awake : not a.has_pipe ≡ false = rw running refl in
      rw (read_back, e, awake)
        (passed_on a id
          (send d.router p.agent_id
            (fresh_header MsgType.ctl_prompt keeper p.agent_id ((d.seq_out + 1) % 2 ^ 64))
            (marshal_prompt p) w)
          e refl)

  -- A prompt for an agent that is unknown or has no pipe is answered by an error, and changes nothing.
  pub dispatch_prompt-IsTurnedDown :
      ((a : AgentState F) → lookup p.agent_id d.agents ≡ some a → a.has_pipe ≡ false)
      → IsTurnedDown d w (dispatch_prompt quote (marshal_prompt p) d w)
  unfolding dispatch_prompt
  dispatch_prompt-IsTurnedDown idle = elim (Option-cases (lookup p.agent_id d.agents)) [
    | inl e ↦ rw (read_back, e) record { error = λ e. cc; untouched = refl }
    | inr (a, e) ↦ rw (read_back, e, idle a e) record { error = λ e. cc; untouched = refl }
  ]

-- The text of a time; no time is the empty text.
abbrev pub time_text : {F : Type 0} → Formats F → Option ℕ → Str
time_text formats none = []
time_text formats (some t) = formats.time t

-- What a client sees of an agent.
pub record IsShown {F : Type 0} (formats : Formats F) (a : AgentState F) (s : AgentStatus)
    : Type 0 where
  pub id : s.id ≡ a.id
  pub state : s.state ≡ (if a.has_pipe then bytes "running" else bytes "idle")
  pub last_prompt_seq : s.last_prompt_seq ≡ a.last_prompt_seq
  pub last_event_at : s.last_event_at ≡ time_text formats a.last_event_at
  pub last_outcome : s.last_outcome ≡ a.last_outcome
  pub last_failure_detail : s.last_failure_detail ≡ a.last_failure_detail
  pub model : s.model ≡ a.model
  pub input_tokens : s.input_tokens ≡ a.input_tokens
  pub output_tokens : s.output_tokens ≡ a.output_tokens
  pub cost_usd : s.cost_usd ≡ (if formats.is_free a.cost_usd then [] else formats.cost a.cost_usd)
  pub tool_calls : s.tool_calls ≡ a.tool_calls

abbrev pub AllShown : {F : Type 0} → Formats F → List (AgentState F) → List AgentStatus → Type 0
AllShown formats [] [] = Unit
AllShown formats [] (s ∷ ss) = ⊥
AllShown formats (a ∷ as_) [] = ⊥
AllShown formats (a ∷ as_) (s ∷ ss) = IsShown formats a s × AllShown formats as_ ss

-- A reader's result is the status of the daemon.
pub record IsSeen {ℓ} {W : Type ℓ} {F : Type 0} (formats : Formats F) (version : Str) (uptime : ℕ)
    (d : Daemon W F) (r : Result (StatusPayload × List ℕ)) : Type ℓ where
  pub agents : List AgentStatus
  pub read :
      r ≡ ok (record { daemon_version = version; uptime_seconds = uptime; agents = agents }, [])
  pub shown : AllShown formats (values d.agents) agents

agent_status-IsShown :
    {F : Type 0} (formats : Formats F) (a : AgentState F)
    → IsShown formats a (agent_status formats a)
unfolding agent_status
agent_status-IsShown formats a = record {
  id = refl;
  state = refl;
  last_prompt_seq = refl;
  last_event_at = refl;
  last_outcome = refl;
  last_failure_detail = refl;
  model = refl;
  input_tokens = refl;
  output_tokens = refl;
  cost_usd = refl;
  tool_calls = refl;
}

AllShown-map :
    {F : Type 0} (formats : Formats F) (as_ : List (AgentState F))
    → AllShown formats as_ (map (agent_status formats) as_)
AllShown-map formats [] = tt
AllShown-map formats (a ∷ as_) = (agent_status-IsShown formats a, AllShown-map formats as_)

module _ {ℓ} {W : Type ℓ} {F : Type 0} (quote : Str → Str) (provision : Provision W F)
    (formats : Formats F) (version : Str) (uptime : ℕ) (d : Daemon W F) (w : W) where
  -- If the version and the texts of the agents fit into their fields, a client reads in the status
  -- reply the version, the uptime, and for each agent, in order, what the daemon holds of it.
  pub unmarshal_status-dispatch_ctl :
      (src : Source)
      → IsStatusPayload (record {
        daemon_version = version;
        uptime_seconds = uptime;
        agents = build_agent_status_list formats d;
      })
      → IsSeen formats version uptime d (
          unmarshal_status src (
            (dispatch_ctl quote provision formats version uptime MsgType.ctl_status [] d w).payload
            ++ []))
  unfolding dispatch_ctl build_status build_agent_status_list
  unmarshal_status-dispatch_ctl src h = record {
    agents = build_agent_status_list formats d;
    read = unmarshal_status-marshal_status _ src [] h;
    shown = AllShown-map formats (values d.agents);
  }

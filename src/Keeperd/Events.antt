-- ===== src/Keeperd/Events.antt =====
-- Whose state the event of a ward changes.
use vivary.Prelude.{
  ℕ, ◌≡◌, refl, Bool, true, false, some, List, [], ◌∷◌, ◌++◌, map, ltb, if◌then◌else◌, length, Str,
  str_eq, str_eq_self,
}
use vivary.Prelude.Map.{lookup, lookup-insert}
use vivary.Mus.{ok}
use vivary.Switchboard.Router.{Frame}
use vivary.Ctl.Status.{CompletionEventPayload, unmarshal_completion_event}
use vivary.Keeperd.State.{AgentState, Subscriber, Daemon, Audit}
use vivary.Keeperd.Handlers.{
  memory, push, push_to_ctl_subscribers, update_agent, update_agent_completion_state,
  handle_completion_event,
}

-- The agent has what the event reports, no failure, and the rest as before.
pub record IsCompleted {F : Type 0} (now : ℕ) (ev : CompletionEventPayload F) (a a' : AgentState F)
    : Type 0 where
  pub last_event_at : a'.last_event_at ≡ some now
  pub last_outcome : a'.last_outcome ≡ ev.outcome
  pub last_failure_detail : a'.last_failure_detail ≡ []
  pub model : a'.model ≡ ev.model
  pub input_tokens : a'.input_tokens ≡ ev.input_tokens
  pub output_tokens : a'.output_tokens ≡ ev.output_tokens
  pub cost_usd : a'.cost_usd ≡ ev.cost_usd
  pub tool_calls : a'.tool_calls ≡ ev.tool_calls
  pub id : a'.id ≡ a.id
  pub subvol_path : a'.subvol_path ≡ a.subvol_path
  pub has_pipe : a'.has_pipe ≡ a.has_pipe
  pub last_prompt_seq : a'.last_prompt_seq ≡ a.last_prompt_seq

-- Each push channel that has fewer than 64 frames gets the frame at its end.
abbrev pub AllTold : Frame → List Subscriber → List Subscriber → Type 0
AllTold f [] [] = Unit
AllTold f [] (t ∷ ts) = ⊥
AllTold f (s ∷ ss) [] = ⊥
AllTold f (s ∷ ss) (t ∷ ts) =
    (t.channel ≡ s.channel)
    × (t.queue ≡ (if ltb (length s.queue) 64 then s.queue ++ (f ∷ []) else s.queue))
    × AllTold f ss ts

-- What an event about the agent `a` makes of the daemon.
pub record IsReported {ℓ} {W : Type ℓ} {F : Type 0} (now : ℕ) (ev : CompletionEventPayload F)
    (f : Frame) (a : AgentState F) (d d' : Daemon W F) : Type ℓ where
  pub agent : AgentState F
  pub entry : lookup ev.agent_id d'.agents ≡ some agent
  pub changed : IsCompleted now ev a agent
  pub others : (id : Str) → str_eq ev.agent_id id ≡ false → lookup id d'.agents ≡ lookup id d.agents
  pub told : AllTold f d.ctl_subs d'.ctl_subs
  pub dispatcher : d'.dispatcher ≡ d.dispatcher
  pub router : d'.router ≡ d.router
  pub seq_out : d'.seq_out ≡ d.seq_out

push-queue :
    (f : Frame) (s : Subscriber) (b : Bool)
    → (ltb (length s.queue) 64 ≡ b)
    → ((push f s).channel ≡ s.channel)
      × ((push f s).queue ≡ (if b then s.queue ++ (f ∷ []) else s.queue))
push-queue f s true e = rw e (refl, refl)
push-queue f s false e = rw e (refl, refl)

AllTold-map : (f : Frame) (ss : List Subscriber) → AllTold f ss (map (push f) ss)
AllTold-map f [] = tt
AllTold-map f (s ∷ ss) =
    let (channel, queue) = push-queue f s _ refl in (channel, queue, AllTold-map f ss)

-- A completion event about a known agent changes the agent that its payload names, whoever the
-- sender is: that agent takes the outcome, the model, the counts and the cost from the payload, its
-- failure is cleared, every other agent is as before, and the frame goes to each push channel that
-- is not full.
pub handle_completion_event_lem {ℓ} :
    {W : Type ℓ} {F : Type 0} (audit : Audit W) (quote : Str → Str) (scan : Str → F) (now : ℕ)
    (d : Daemon W F) (f : Frame) (w : W) (ev : CompletionEventPayload F) (rest : List ℕ)
    (a : AgentState F)
    → unmarshal_completion_event scan memory f.payload ≡ ok (ev, rest)
    → lookup ev.agent_id d.agents ≡ some a
    → (d' : Daemon W F) × (handle_completion_event audit quote scan now d f w ≡ ok (d', w))
      × IsReported now ev f a d d'
unfolding handle_completion_event push_to_ctl_subscribers update_agent_completion_state update_agent
handle_completion_event_lem audit quote scan now d f w ev rest a e known = (
  push_to_ctl_subscribers f (update_agent_completion_state now ev d),
  rw e refl,
  record {
    agent = record a {
      last_event_at = some now;
      last_outcome = ev.outcome;
      model = ev.model;
      input_tokens = ev.input_tokens;
      output_tokens = ev.output_tokens;
      cost_usd = ev.cost_usd;
      tool_calls = ev.tool_calls;
      last_failure_detail = [];
    };
    entry = rw (known, lookup-insert, str_eq_self ev.agent_id) refl;
    changed = record {
      last_event_at = refl;
      last_outcome = refl;
      last_failure_detail = refl;
      model = refl;
      input_tokens = refl;
      output_tokens = refl;
      cost_usd = refl;
      tool_calls = refl;
      id = refl;
      subvol_path = refl;
      has_pipe = refl;
      last_prompt_seq = refl;
    };
    others = λ id other. rw (known, lookup-insert, other) refl;
    told = AllTold-map f d.ctl_subs;
    dispatcher = refl;
    router = refl;
    seq_out = refl;
  },
)

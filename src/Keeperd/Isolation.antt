-- ===== src/Keeperd/Isolation.antt =====
-- The handlers of the daemon: what they keep, and what an agent cannot do.
use vivary.Prelude.{
  ℕ, ◌≤◌, ◌≡◌, refl, sym, ap, ◌∙◌, inl, inr, some, List, [], ◌∷◌, map, arith, ◌==◌, Bool-cases,
  Option-cases, some-injective, length, All, length-append, Str, str_eq, str_eq_iff,
}
use vivary.Prelude.Map.{Map, lookup, insert, lookup-insert}
use vivary.Mus.{Result, ok, err, panicked}
use vivary.Switchboard.MsgType
use vivary.Switchboard.Router.{Frame, seq_next}
use vivary.Capabilities.Payloads.{CapabilityRequestPayload, unmarshal_capability_request}
use vivary.Capabilities.Dispatch.{Response}
use vivary.Ctl.Status.{
  CompletionEventPayload, FailureEventPayload, unmarshal_completion_event, unmarshal_failure_event,
}
use vivary.Keeperd.State.{AgentState, Subscriber, push_capacity, Daemon, Audit, Step}
use vivary.Keeperd.Handlers.{
  memory, push, push_to_ctl_subscribers, update_agent, update_agent_completion_state,
  update_agent_failure_state, dispatch_capability_request, handle_capability_request,
  handle_completion_event, handle_failure_event, handle_ping, handle_type, handle_frame,
  audit_frame, audited, decoded_request, decoded_completion, decoded_failure, answer_capability,
}

-- What holds of the daemon between frames.
pub record IsSound {ℓ} {W : Type ℓ} {F : Type 0} (d : Daemon W F) : Type ℓ where
  pub keyed : (id : Str) (a : AgentState F) → lookup id d.agents ≡ some a → a.id ≡ id
  pub bounded : All (λ s. length s.queue ≤ push_capacity) d.ctl_subs

bounded_push :
    (f : Frame) (subs : List Subscriber)
    → All (λ s. length s.queue ≤ push_capacity) subs
    → All (λ s. length s.queue ≤ push_capacity) (map (push f) subs)
bounded_push f [] h = tt
bounded_push f (s ∷ subs) (hs, h) =
    (ground (arith, length-append s.queue (f ∷ [])), bounded_push f subs h)

keyed_insert :
    {F : Type 0} (id : Str) (g : AgentState F → AgentState F) (agents : Map (AgentState F))
    (a : AgentState F)
    → ((b : AgentState F) → (g b).id ≡ b.id)
    → ((id' : Str) (b : AgentState F) → lookup id' agents ≡ some b → b.id ≡ id')
    → lookup id agents ≡ some a
    → (id' : Str) (b : AgentState F) → lookup id' (insert id (g a) agents) ≡ some b
    → b.id ≡ id'
keyed_insert {F = F} id g agents a keeps h e id' b e' = elim (Bool-cases (str_eq id id')) [
  | inl same ↦
      let got : g a ≡ b = some-injective (rw (lookup-insert, same) at e') in
      ap (λ (x : AgentState F). x.id) (sym got) ∙ keeps a ∙ h id a e ∙ (str_eq_iff id id').0 same
  | inr other ↦ h id' b (rw (lookup-insert, other) at e')
]

module _ {ℓ} {W : Type ℓ} {F : Type 0} where
  IsSound-push : (f : Frame) (d : Daemon W F) → IsSound d → IsSound (push_to_ctl_subscribers f d)
  unfolding push_to_ctl_subscribers
  IsSound-push f d h = record { keyed = h.keyed; bounded = bounded_push f d.ctl_subs h.bounded }

  IsSound-update :
      (id : Str) (g : AgentState F → AgentState F) (d : Daemon W F)
      → ((b : AgentState F) → (g b).id ≡ b.id)
      → IsSound d
      → IsSound (update_agent id g d)
  unfolding update_agent
  IsSound-update id g d keeps h = elim (Option-cases (lookup id d.agents)) [
    | inl e ↦ rw e h
    | inr (a, e) ↦
        rw e (record { keyed = keyed_insert id g d.agents a keeps h.keyed e; bounded = h.bounded })
  ]

-- What a handler leaves: a sound daemon with the same dispatcher, the same pipes and handlers.
pub record IsKept {ℓ} {W : Type ℓ} {F : Type 0} (d d' : Daemon W F) : Type ℓ where
  pub sound : IsSound d'
  pub dispatcher : d'.dispatcher ≡ d.dispatcher
  pub router : d'.router ≡ d.router

abbrev StepIsKept {ℓ} : {W : Type ℓ} {F : Type 0} → Daemon W F → Step W F → Type ℓ
StepIsKept d (ok (d', w)) = IsKept d d'
StepIsKept d (err e) = Unit
StepIsKept d panicked = Unit

module _ {ℓ} {W : Type ℓ} {F : Type 0} (audit : Audit W) (quote : Str → Str) (scan : Str → F)
    (now : ℕ) (d : Daemon W F) (f : Frame) (h : IsSound d) where
  kept : IsKept d d
  kept = record { sound = h; dispatcher = refl; router = refl }

  IsKept-completed :
      (ev : CompletionEventPayload F)
      → IsKept d (push_to_ctl_subscribers f (update_agent_completion_state now ev d))
  IsKept-completed ev = record {
    sound =
        IsSound-push f _
          (unfold update_agent_completion_state in IsSound-update ev.agent_id _ d (λ a. refl) h);
    dispatcher = unfold push_to_ctl_subscribers update_agent_completion_state update_agent in refl;
    router = unfold push_to_ctl_subscribers update_agent_completion_state update_agent in refl;
  }

  IsKept-failed :
      (ev : FailureEventPayload)
      → IsKept d (push_to_ctl_subscribers f (update_agent_failure_state now ev d))
  IsKept-failed ev = record {
    sound =
        IsSound-push f _
          (unfold update_agent_failure_state in IsSound-update ev.agent_id _ d (λ a. refl) h);
    dispatcher = unfold push_to_ctl_subscribers update_agent_failure_state update_agent in refl;
    router = unfold push_to_ctl_subscribers update_agent_failure_state update_agent in refl;
  }

  StepIsKept-completion :
      (w : W) (r : Result (CompletionEventPayload F × List ℕ))
      → StepIsKept d (decoded_completion audit quote scan now d f w r)
  StepIsKept-completion w (ok (ev, rest)) = IsKept-completed ev
  StepIsKept-completion w (err e) = kept
  StepIsKept-completion w panicked = tt

  StepIsKept-failure :
      (w : W) (r : Result (FailureEventPayload × List ℕ))
      → StepIsKept d (decoded_failure audit quote scan now d f w r)
  StepIsKept-failure w (ok (ev, rest)) = IsKept-failed ev
  StepIsKept-failure w (err e) = kept
  StepIsKept-failure w panicked = tt

  StepIsKept-answer :
      (payload : CapabilityRequestPayload) (r : Result Response × W)
      → StepIsKept d (answer_capability audit quote scan d f payload r)
  StepIsKept-answer payload (ok resp, w) = kept
  StepIsKept-answer payload (err e, w) = tt
  StepIsKept-answer payload (panicked, w) = tt

  StepIsKept-request :
      (w : W) (r : Result (CapabilityRequestPayload × List ℕ))
      → StepIsKept d (decoded_request audit quote scan d f w r)
  StepIsKept-request w (ok (payload, rest)) =
      StepIsKept-answer payload (dispatch_capability_request audit quote scan d f payload w)
  StepIsKept-request w (err e) = kept
  StepIsKept-request w panicked = tt

  StepIsKept-type : (w : W) → StepIsKept d (handle_type audit quote scan now d f w)
  unfolding handle_type handle_capability_request handle_completion_event handle_failure_event
      handle_ping
  StepIsKept-type w = elim (Bool-cases (f.header.msg_type == MsgType.capability_request)) [
    | inl e ↦ rw e (StepIsKept-request w (unmarshal_capability_request memory f.payload))
    | inr e1 ↦ elim (Bool-cases (f.header.msg_type == MsgType.completion_event)) [
      | inl e ↦
          rw (e1, e) (StepIsKept-completion w (unmarshal_completion_event scan memory f.payload))
      | inr e2 ↦ elim (Bool-cases (f.header.msg_type == MsgType.failure_event)) [
        | inl e ↦ rw (e1, e2, e) (StepIsKept-failure w (unmarshal_failure_event memory f.payload))
        | inr e3 ↦ elim (Bool-cases (f.header.msg_type == MsgType.ping)) [
          | inl e ↦ rw (e1, e2, e3, e) pinged
          | inr e4 ↦ rw (e1, e2, e3, e4) kept
        ]
      ]
    ]
  ]
    where
      pinged : IsKept d (record d { seq_out = (seq_next d.seq_out).1 })
      pinged = record {
        sound = record { keyed = h.keyed; bounded = h.bounded };
        dispatcher = refl;
        router = refl;
      }

  StepIsKept-audited : (r : Result W) → StepIsKept d (audited audit quote scan now d f r)
  StepIsKept-audited (ok w) = StepIsKept-type w
  StepIsKept-audited (err e) = tt
  StepIsKept-audited panicked = tt

  IsKept-step :
      (w : W) (d' : Daemon W F) (w' : W) (r : Step W F)
      → r ≡ ok (d', w')
      → StepIsKept d r
      → IsKept d d'
  IsKept-step w d' w' r e k = rw e at k

  -- Whatever frame an agent sends, the daemon stays sound if it goes on: every agent is filed under
  -- its own id and no push channel exceeds its capacity; and the frame changes neither the
  -- capabilities and access lists nor the pipes.
  pub handle_frame-IsKept :
      (w : W) (d' : Daemon W F) (w' : W)
      → handle_frame audit quote scan now d f w ≡ ok (d', w')
      → IsKept d d'
  unfolding handle_frame
  handle_frame-IsKept w d' w' e =
      IsKept-step w d' w' _ e (StepIsKept-audited (audit_frame audit quote scan d f w))

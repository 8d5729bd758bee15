-- ===== src/Ctl/StatusRoundTrip.antt =====
-- The answers and the events of the control protocol are read back as they were written.
use vivary.Prelude.{
  ℕ, ◌*◌, ◌%◌, ◌^◌, ◌≤◌, ◌<◌, ◌≡◌, refl, ap, ◌∙◌, List, [], ◌∷◌, ◌++◌, append-nil, Str, length,
  arith, sym, append_assoc, All, le→leb,
}
use vivary.Mus.{Source, ok, pure, max_alloc}
use vivary.Mus.Varint.{IsU64}
use vivary.Mus.Strings.{varint_bytes, string_bytes, wire_form}
use vivary.Mus.Wire.{
  Reads, Reads-bind, Reads-done, Reads-string, Reads-varint, Reads-pure, concat, reads_rules,
}
use native.Mathlib.Nat.{mod-eq_of_lt}
use vivary.Ctl.Status.{
  AgentStatus, marshal_agent_status, unmarshal_agent_status, FailureEventPayload,
  marshal_failure_event, unmarshal_failure_event, append_agents, read_agents, make_agents,
  StatusPayload, marshal_status, unmarshal_status,
}

-- The values of a AgentStatus that its reader lets in.
pub record IsAgentStatus (p : AgentStatus) : Type 0 where
  pub id : length p.id ≤ 64
  pub state : length p.state ≤ 32
  pub last_prompt_seq : IsU64 p.last_prompt_seq
  pub last_event_at : length p.last_event_at ≤ 64
  pub last_outcome : length p.last_outcome ≤ 64
  pub last_failure_detail : length p.last_failure_detail ≤ 4096
  pub model : length p.model ≤ 64
  pub input_tokens : p.input_tokens < 2 ^ 32
  pub output_tokens : p.output_tokens < 2 ^ 32
  pub cost_usd : length p.cost_usd ≤ 32
  pub tool_calls : p.tool_calls < 2 ^ 32

Reads-agent_status :
    (p : AgentStatus) → IsAgentStatus p → Reads unmarshal_agent_status p (marshal_agent_status p)
Reads-agent_status p h = rw wire (
    unfold unmarshal_agent_status in
    search (reads_rules, input_tokens_wide, output_tokens_wide, tool_calls_wide, last) depth 20)
  where
    wire :
        marshal_agent_status p
        ≡ concat (
            string_bytes p.id
            ∷ string_bytes p.state
            ∷ varint_bytes p.last_prompt_seq
            ∷ string_bytes p.last_event_at
            ∷ string_bytes p.last_outcome
            ∷ string_bytes p.last_failure_detail
            ∷ string_bytes p.model
            ∷ varint_bytes p.input_tokens
            ∷ varint_bytes p.output_tokens
            ∷ string_bytes p.cost_usd
            ∷ varint_bytes p.tool_calls
            ∷ [])
    wire = unfold marshal_agent_status concat in simp (wire_form, append-nil)

    input_tokens_wide : IsU64 p.input_tokens
    input_tokens_wide = omega (arith, h.input_tokens)

    output_tokens_wide : IsU64 p.output_tokens
    output_tokens_wide = omega (arith, h.output_tokens)

    tool_calls_wide : IsU64 p.tool_calls
    tool_calls_wide = omega (arith, h.tool_calls)

    last :
        Reads
          (pure (record p {
            input_tokens = p.input_tokens % 2 ^ 32;
            output_tokens = p.output_tokens % 2 ^ 32;
            tool_calls = p.tool_calls % 2 ^ 32;
          }))
          p
          (concat [])
    last = Reads-pure (
        ap
          (λ (x : ℕ). record p {
            input_tokens = x;
            output_tokens = p.output_tokens % 2 ^ 32;
            tool_calls = p.tool_calls % 2 ^ 32;
          })
          (mod-eq_of_lt h.input_tokens)
        ∙ ap (λ (x : ℕ). record p { output_tokens = x; tool_calls = p.tool_calls % 2 ^ 32 })
            (mod-eq_of_lt h.output_tokens)
        ∙ ap (λ (x : ℕ). record p { tool_calls = x }) (mod-eq_of_lt h.tool_calls))

-- The status of an agent is read back.
pub unmarshal_agent_status-marshal_agent_status :
    (p : AgentStatus) (src : Source) (rest : List ℕ)
    → IsAgentStatus p
    → unmarshal_agent_status src (marshal_agent_status p ++ rest) ≡ ok (p, rest)
unmarshal_agent_status-marshal_agent_status p src rest h = (Reads-agent_status p h).at src rest

-- The values of a FailureEventPayload that its reader lets in.
pub record IsFailureEventPayload (p : FailureEventPayload) : Type 0 where
  pub agent_id : length p.agent_id ≤ 64
  pub prompt_seq : IsU64 p.prompt_seq
  pub kind : length p.kind ≤ 32
  pub detail : length p.detail ≤ 4096

Reads-failure_event :
    (p : FailureEventPayload)
    → IsFailureEventPayload p
    → Reads unmarshal_failure_event p (marshal_failure_event p)
Reads-failure_event p h = rw wire (unfold unmarshal_failure_event in search reads_rules depth 20)
  where
    wire :
        marshal_failure_event p
        ≡ concat (
            string_bytes p.agent_id
            ∷ varint_bytes p.prompt_seq
            ∷ string_bytes p.kind
            ∷ string_bytes p.detail
            ∷ [])
    wire = unfold marshal_failure_event concat in simp (wire_form, append-nil)

-- A failure event is read back, by any reader, and what follows is left.
pub unmarshal_failure_event-marshal_failure_event :
    (p : FailureEventPayload) (src : Source) (rest : List ℕ)
    → IsFailureEventPayload p
    → unmarshal_failure_event src (marshal_failure_event p ++ rest) ≡ ok (p, rest)
unmarshal_failure_event-marshal_failure_event p src rest h = (Reads-failure_event p h).at src rest

-- The agents of a list, one after the other on the wire
agents_bytes : List AgentStatus → Str
agents_bytes [] = []
agents_bytes (a ∷ agents) = marshal_agent_status a ++ agents_bytes agents

append_agents-append :
    (b : List ℕ) (agents : List AgentStatus) → append_agents b agents ≡ b ++ agents_bytes agents
unfolding append_agents agents_bytes
append_agents-append b [] = sym (append-nil b)
append_agents-append b (a ∷ agents) =
    append_agents-append (b ++ marshal_agent_status a) agents
    ∙ append_assoc b (marshal_agent_status a) (agents_bytes agents)

Reads-agents :
    (agents : List AgentStatus)
    → All IsAgentStatus agents
    → Reads (read_agents (length agents)) agents (agents_bytes agents)
unfolding read_agents agents_bytes
Reads-agents [] h = record { at = λ src rest. unfold pure in refl }
Reads-agents (a ∷ agents) (ha, h) = rw (sym wire) (
    Reads-bind _ _ _ (Reads-agent_status a ha)
      (Reads-bind _ _ _ (Reads-agents agents h) (Reads-done (a ∷ agents))))
  where
    wire :
        concat (marshal_agent_status a ∷ agents_bytes agents ∷ [])
        ≡ marshal_agent_status a ++ agents_bytes agents
    wire = unfold concat in simp append-nil

Reads-make_agents :
    (agents : List AgentStatus)
    → 136 * length agents ≤ max_alloc
    → All IsAgentStatus agents
    → Reads (make_agents (length agents)) agents (agents_bytes agents)
unfolding make_agents
Reads-make_agents agents fits h = record {
  at = λ src rest.
      rw (le→leb (136 * length agents) max_alloc fits) ((Reads-agents agents h).at src rest);
}

-- A status that its reader lets in.
pub record IsStatusPayload (p : StatusPayload) : Type 0 where
  pub daemon_version : length p.daemon_version ≤ 64
  pub uptime_seconds : IsU64 p.uptime_seconds
  pub few : 136 * length p.agents ≤ max_alloc
  pub agents : All IsAgentStatus p.agents

Reads-status : (p : StatusPayload) → IsStatusPayload p → Reads unmarshal_status p (marshal_status p)
Reads-status p h = rw wire (
    unfold unmarshal_status in
    Reads-bind _ _ _ (Reads-string 64 p.daemon_version h.daemon_version refl) (
      Reads-bind _ _ _ (Reads-varint p.uptime_seconds h.uptime_seconds) (
        Reads-bind _ _ _ (Reads-varint (length p.agents) (omega (arith, h.few)))
          (Reads-bind _ _ _ (Reads-make_agents p.agents h.few h.agents) (Reads-done p)))))
  where
    wire :
        marshal_status p
        ≡ concat (
            string_bytes p.daemon_version
            ∷ varint_bytes p.uptime_seconds
            ∷ varint_bytes (length p.agents)
            ∷ agents_bytes p.agents
            ∷ [])
    wire = unfold marshal_status concat in simp (append_agents-append, wire_form, append-nil)

-- A status is read back with all its agents, by any reader, and what follows is left.
pub unmarshal_status-marshal_status :
    (p : StatusPayload) (src : Source) (rest : List ℕ)
    → IsStatusPayload p
    → unmarshal_status src (marshal_status p ++ rest) ≡ ok (p, rest)
unmarshal_status-marshal_status p src rest h = (Reads-status p h).at src rest

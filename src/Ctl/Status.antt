-- ===== src/Ctl/Status.antt =====
-- internal/ctl/protocol.go, what keeperd answers and what a ward reports: status payloads and events.
use vivary.Prelude.{
  ℕ, ◌*◌, ◌%◌, ◌^◌, List, [], ◌∷◌, ◌++◌, Str, length, if◌then◌else◌, leb, zero, suc,
}
use vivary.Mus.{
  Parser, ◌>>=◌, pure, read_varint, read_string, append_varint, append_string, max_alloc, panicked,
}

pub record AgentStatus : Type 0 where
  pub id : Str
  pub state : Str
  pub last_prompt_seq : ℕ
  pub last_event_at : Str
  pub last_outcome : Str
  pub last_failure_detail : Str
  pub model : Str
  pub input_tokens : ℕ
  pub output_tokens : ℕ
  pub cost_usd : Str
  pub tool_calls : ℕ

unfoldable pub marshal_agent_status : AgentStatus → List ℕ
marshal_agent_status p =
    let b1 = append_string [] p.id in
    let b2 = append_string b1 p.state in
    let b3 = append_varint b2 p.last_prompt_seq in
    let b4 = append_string b3 p.last_event_at in
    let b5 = append_string b4 p.last_outcome in
    let b6 = append_string b5 p.last_failure_detail in
    let b7 = append_string b6 p.model in
    let b8 = append_varint b7 p.input_tokens in
    let b9 = append_varint b8 p.output_tokens in
    let b10 = append_string b9 p.cost_usd in append_varint b10 p.tool_calls

unfoldable pub unmarshal_agent_status : Parser AgentStatus
unmarshal_agent_status = do
  id ← read_string 64
  state ← read_string 32
  last_prompt_seq ← read_varint
  last_event_at ← read_string 64
  last_outcome ← read_string 64
  last_failure_detail ← read_string 4096
  model ← read_string 64
  input_tokens_v ← read_varint
  output_tokens_v ← read_varint
  cost_usd ← read_string 32
  tool_calls_v ← read_varint
  pure (record {
    id = id;
    state = state;
    last_prompt_seq = last_prompt_seq;
    last_event_at = last_event_at;
    last_outcome = last_outcome;
    last_failure_detail = last_failure_detail;
    model = model;
    input_tokens = input_tokens_v % 2 ^ 32;
    output_tokens = output_tokens_v % 2 ^ 32;
    cost_usd = cost_usd;
    tool_calls = tool_calls_v % 2 ^ 32;
  })

pub record FailureEventPayload : Type 0 where
  pub agent_id : Str
  pub prompt_seq : ℕ
  pub kind : Str
  pub detail : Str

unfoldable pub marshal_failure_event : FailureEventPayload → List ℕ
marshal_failure_event p =
    let b1 = append_string [] p.agent_id in
    let b2 = append_varint b1 p.prompt_seq in
    let b3 = append_string b2 p.kind in append_string b3 p.detail

unfoldable pub unmarshal_failure_event : Parser FailureEventPayload
unmarshal_failure_event = do
  agent_id ← read_string 64
  prompt_seq ← read_varint
  kind ← read_string 32
  detail ← read_string 4096
  pure (record { agent_id = agent_id; prompt_seq = prompt_seq; kind = kind; detail = detail })

-- The agents of a status, one after the other
unfoldable pub append_agents : List ℕ → List AgentStatus → List ℕ
append_agents b [] = b
append_agents b (a ∷ agents) = append_agents (b ++ marshal_agent_status a) agents

-- The loop that fills `n` agents
unfoldable pub read_agents : ℕ → Parser (List AgentStatus)
read_agents zero = pure []
read_agents (suc n) = do a ← unmarshal_agent_status; agents ← read_agents n; pure (a ∷ agents)

-- The size of an AgentStatus in memory, on a 64-bit machine.
abbrev agent_status_size : ℕ
agent_status_size = 136

-- `make([]AgentStatus, n)`, which panics if `n` is out of range, and the loop
unfoldable pub make_agents : ℕ → Parser (List AgentStatus)
unfolding read_agents
make_agents n src bs =
    if leb (agent_status_size * n) max_alloc then read_agents n src bs else panicked

unfoldable pub marshal_agent_list : List AgentStatus → List ℕ
marshal_agent_list agents = append_agents (append_varint [] (length agents)) agents

unfoldable pub unmarshal_agent_list : Parser (List AgentStatus)
unmarshal_agent_list = do n ← read_varint; make_agents n

-- The seconds since the start are not negative.
pub record StatusPayload : Type 0 where
  pub daemon_version : Str
  pub uptime_seconds : ℕ
  pub agents : List AgentStatus

unfoldable pub marshal_status : StatusPayload → List ℕ
marshal_status p =
    let b1 = append_string [] p.daemon_version in
    let b2 = append_varint b1 p.uptime_seconds in
    let b3 = append_varint b2 (length p.agents) in append_agents b3 p.agents

unfoldable pub unmarshal_status : Parser StatusPayload
unmarshal_status = do
  version ← read_string 64
  uptime ← read_varint
  n ← read_varint
  agents ← make_agents n
  pure (record { daemon_version = version; uptime_seconds = uptime; agents = agents })

-- `F` stands for float64, `print` for its %f of package fmt and `scan` for fmt.Sscanf.
pub record CompletionEventPayload (F : Type 0) : Type 0 where
  pub agent_id : Str
  pub prompt_seq : ℕ
  pub model : Str
  pub input_tokens : ℕ
  pub output_tokens : ℕ
  pub cost_usd : F
  pub outcome : Str
  pub tool_calls : ℕ

module _ {F : Type 0} where
  unfoldable pub marshal_completion_event : (F → Str) → CompletionEventPayload F → List ℕ
  marshal_completion_event print p =
      let b1 = append_string [] p.agent_id in
      let b2 = append_varint b1 p.prompt_seq in
      let b3 = append_string b2 p.model in
      let b4 = append_varint b3 p.input_tokens in
      let b5 = append_varint b4 p.output_tokens in
      let b6 = append_string b5 (print p.cost_usd) in
      let b7 = append_string b6 p.outcome in append_varint b7 p.tool_calls

  unfoldable pub unmarshal_completion_event : (Str → F) → Parser (CompletionEventPayload F)
  unmarshal_completion_event scan = do
    agent_id ← read_string 64
    seq ← read_varint
    model ← read_string 64
    input ← read_varint
    output ← read_varint
    cost ← read_string 64
    outcome ← read_string 32
    calls ← read_varint
    pure (record {
      agent_id = agent_id;
      prompt_seq = seq;
      model = model;
      input_tokens = input % 2 ^ 32;
      output_tokens = output % 2 ^ 32;
      cost_usd = scan cost;
      outcome = outcome;
      tool_calls = calls % 2 ^ 32;
    })

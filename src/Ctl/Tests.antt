-- ===== src/Ctl/Tests.antt =====
-- The control protocol on concrete requests.
use vivary.Prelude.{◌≡◌, true, [], ◌∷◌, ◌++◌, arith, bytes}
use vivary.Ctl.Status.{FailureEventPayload, marshal_failure_event, unmarshal_failure_event}
use vivary.Ctl.StatusRoundTrip.{unmarshal_failure_event-marshal_failure_event}
use vivary.Mus.{Source, closed, ok}
use vivary.Ctl.Requests.{
  AgentCreatePayload, marshal_agent_create, unmarshal_agent_create, PromptPayload, marshal_prompt,
  unmarshal_prompt, ApprovalPayload, marshal_approval, unmarshal_approval,
}
use vivary.Ctl.RoundTrip.{
  unmarshal_agent_create-marshal_agent_create, unmarshal_prompt-marshal_prompt,
  unmarshal_approval-marshal_approval,
}

abbrev stream : Source
stream = record { byte_reader = true; ending = closed }

abbrev create : AgentCreatePayload
create = record {
  id = bytes "agent-1";
  provider = bytes "claude";
  template = [];
  cpu_shares = 512;
  memory_max_bytes = 1073741824;
}

unmarshal_agent_create_sample :
    unmarshal_agent_create stream (marshal_agent_create create ++ (9 ∷ [])) ≡ ok (create, 9 ∷ [])
unmarshal_agent_create_sample =
    unmarshal_agent_create-marshal_agent_create create stream (9 ∷ []) record {
      id = omega arith;
      provider = omega arith;
      template = omega arith;
      cpu_shares = omega arith;
      memory_max_bytes = omega arith;
    }

abbrev hello : PromptPayload
hello = record { agent_id = bytes "agent-1"; seq = 300; text = bytes "hello" }

unmarshal_prompt_sample : unmarshal_prompt stream (marshal_prompt hello ++ []) ≡ ok (hello, [])
unmarshal_prompt_sample =
    unmarshal_prompt-marshal_prompt hello stream []
      record { agent_id = omega arith; seq = omega arith; text = omega arith }

abbrev approval : ApprovalPayload
approval = record { request_id = 4; granted = true; reason = bytes "fine" }

unmarshal_approval_sample :
    unmarshal_approval stream (marshal_approval approval ++ []) ≡ ok (approval, [])
unmarshal_approval_sample =
    unmarshal_approval-marshal_approval approval stream []
      record { request_id = omega arith; reason = omega arith }

abbrev crash : FailureEventPayload
crash = record {
  agent_id = bytes "agent-1";
  prompt_seq = 3;
  kind = bytes "subprocess_crash";
  detail = [];
}

unmarshal_failure_event_sample :
    unmarshal_failure_event stream (marshal_failure_event crash ++ []) ≡ ok (crash, [])
unmarshal_failure_event_sample =
    unmarshal_failure_event-marshal_failure_event crash stream [] record {
      agent_id = omega arith;
      prompt_seq = omega arith;
      kind = omega arith;
      detail = omega arith;
    }

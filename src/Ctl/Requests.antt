-- ===== src/Ctl/Requests.antt =====
-- internal/ctl/protocol.go, the requests of a ctl client. An UnmarshalMUS method fills an empty
-- struct; the model returns it.
use vivary.Prelude.{ℕ, ◌%◌, ◌^◌, List, [], ◌∷◌, ◌++◌, Str, bytes, Bool}
use vivary.Mus.{
  Parser, ◌>>=◌, pure, read_full, read_varint, read_string, append_varint, append_string,
  max_payload_bytes,
}
use vivary.Mus.Flags.{bool_byte, byte_bool}

abbrev pub ctl_identity : Str
ctl_identity = bytes "ctl"

pub record AgentCreatePayload : Type 0 where
  pub id : Str
  pub provider : Str
  pub template : Str
  pub cpu_shares : ℕ
  pub memory_max_bytes : ℕ

unfoldable pub marshal_agent_create : AgentCreatePayload → List ℕ
marshal_agent_create p =
    let b1 = append_string [] p.id in
    let b2 = append_string b1 p.provider in
    let b3 = append_string b2 p.template in
    let b4 = append_varint b3 p.cpu_shares in append_varint b4 p.memory_max_bytes

unfoldable pub unmarshal_agent_create : Parser AgentCreatePayload
unmarshal_agent_create = do
  id ← read_string 64
  provider ← read_string 64
  template ← read_string 1024
  cpu_shares_v ← read_varint
  memory_max_bytes ← read_varint
  pure (record {
    id = id;
    provider = provider;
    template = template;
    cpu_shares = cpu_shares_v % 2 ^ 32;
    memory_max_bytes = memory_max_bytes;
  })

pub record AgentDestroyPayload : Type 0 where
  pub id : Str

unfoldable pub marshal_agent_destroy : AgentDestroyPayload → List ℕ
marshal_agent_destroy p = append_string [] p.id

unfoldable pub unmarshal_agent_destroy : Parser AgentDestroyPayload
unmarshal_agent_destroy = do id ← read_string 64; pure (record { id = id })

pub record PromptPayload : Type 0 where
  pub agent_id : Str
  pub seq : ℕ
  pub text : Str

unfoldable pub marshal_prompt : PromptPayload → List ℕ
marshal_prompt p =
    let b1 = append_string [] p.agent_id in
    let b2 = append_varint b1 p.seq in append_string b2 p.text

unfoldable pub unmarshal_prompt : Parser PromptPayload
unmarshal_prompt = do
  agent_id ← read_string 64
  seq ← read_varint
  text ← read_string max_payload_bytes
  pure (record { agent_id = agent_id; seq = seq; text = text })

pub record ApprovalPayload : Type 0 where
  pub request_id : ℕ
  pub granted : Bool
  pub reason : Str

unfoldable pub marshal_approval : ApprovalPayload → List ℕ
marshal_approval p =
    let b1 = append_varint [] p.request_id in
    let b2 = b1 ++ (bool_byte p.granted ∷ []) in append_string b2 p.reason

unfoldable pub unmarshal_approval : Parser ApprovalPayload
unmarshal_approval = do
  request_id ← read_varint
  granted_byte ← read_full 1
  reason ← read_string 1024
  pure (record { request_id = request_id; granted = byte_bool granted_byte; reason = reason })

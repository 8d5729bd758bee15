-- ===== src/Capabilities/Payloads.antt =====
-- internal/capabilities/capability.go and toolproto.go, the payloads. `OK` and `Data` are the fields
-- `success` and `result`.
use vivary.Switchboard.Codec.{max_id_len}
use vivary.Prelude.{get_or, ℕ, List, [], ◌∷◌, ◌++◌, Str, Bool, length}
use vivary.Mus.{
  Parser, ◌>>=◌, pure, read_full, read_varint, read_string, make_and_read, append_varint,
  append_string,
}
use vivary.Mus.Flags.{bool_byte, byte_bool}

pub record CapabilityRequestPayload : Type 0 where
  pub capability : Str
  pub args : Str

unfoldable pub marshal_capability_request : CapabilityRequestPayload → List ℕ
marshal_capability_request p =
    let b1 = append_string [] p.capability in
    let b2 = append_varint b1 (length p.args) in b2 ++ p.args

unfoldable pub unmarshal_capability_request : Parser CapabilityRequestPayload
unmarshal_capability_request = do
  capability ← read_string max_id_len
  args_len ← read_varint
  args ← make_and_read args_len
  pure (record { capability = capability; args = args })

pub record CapabilityResponsePayload : Type 0 where
  pub success : Bool
  pub result : Str
  pub error_code : Str
  pub error_detail : Str

unfoldable pub marshal_capability_response : CapabilityResponsePayload → List ℕ
marshal_capability_response p =
    let b1 = [] ++ (bool_byte p.success ∷ []) in
    let b2 = append_varint b1 (length p.result) in
    let b3 = b2 ++ p.result in
    let b4 = append_string b3 p.error_code in append_string b4 p.error_detail

unfoldable pub unmarshal_capability_response : Parser CapabilityResponsePayload
unmarshal_capability_response = do
  success_byte ← read_full 1
  result_len ← read_varint
  result ← make_and_read result_len
  error_code ← read_string max_id_len
  error_detail ← read_string 1024
  pure (record {
    success = byte_bool success_byte;
    result = result;
    error_code = error_code;
    error_detail = error_detail;
  })

-- `ToolRequestInvoke` is 0 and `ToolRequestSchema` is 1.
pub record ToolRequestPayload : Type 0 where
  pub capability : Str
  pub mode : ℕ
  pub args : Str

unfoldable pub marshal_tool_request : ToolRequestPayload → List ℕ
marshal_tool_request p =
    let b1 = append_string [] p.capability in
    let b2 = b1 ++ (p.mode ∷ []) in let b3 = append_varint b2 (length p.args) in b3 ++ p.args

unfoldable pub unmarshal_tool_request : Parser ToolRequestPayload
unmarshal_tool_request = do
  capability ← read_string max_id_len
  fixed ← read_full 1
  l ← read_varint
  args ← make_and_read l
  pure (record { capability = capability; mode = get_or fixed 0 0; args = args })

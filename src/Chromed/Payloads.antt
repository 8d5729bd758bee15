-- ===== src/Chromed/Payloads.antt =====
-- internal/chromed/protocol.go, the payloads. `OK` is the field `success`.
use vivary.Prelude.{
  not, get_or, ◌==◌, ◌||◌, Option, none, some, if◌then◌else◌, ℕ, ◌%◌, ◌^◌, List, [], ◌∷◌, ◌++◌, Str,
  Bool,
}
use vivary.Mus.{
  Parser, ◌>>=◌, pure, read_full, read_varint, read_string, append_varint, append_string,
}
use vivary.Mus.Flags.{bool_byte, byte_bool}

pub record AcquireRequest : Type 0 where
  pub agent_id : Str
  pub proxy_server : Str
  pub timeout_sec : ℕ
  pub headless : Bool

unfoldable pub marshal_acquire_request : AcquireRequest → List ℕ
marshal_acquire_request p =
    let b1 = append_string [] p.agent_id in
    let b2 = append_string b1 p.proxy_server in
    let b3 = append_varint b2 p.timeout_sec in b3 ++ (bool_byte p.headless ∷ [])

unfoldable pub unmarshal_acquire_request : Parser AcquireRequest
unmarshal_acquire_request = do
  agent_id ← read_string 128
  proxy_server ← read_string 1024
  timeout_sec_v ← read_varint
  headless_byte ← read_full 1
  pure (record {
    agent_id = agent_id;
    proxy_server = proxy_server;
    timeout_sec = timeout_sec_v % 2 ^ 32;
    headless = byte_bool headless_byte;
  })

pub record AcquireResponse : Type 0 where
  pub success : Bool
  pub debug_addr : Str
  pub profile_dir : Str
  pub error : Str

unfoldable pub marshal_acquire_response : AcquireResponse → List ℕ
marshal_acquire_response p =
    let b1 = [] ++ (bool_byte p.success ∷ []) in
    let b2 = append_string b1 p.debug_addr in
    let b3 = append_string b2 p.profile_dir in append_string b3 p.error

unfoldable pub unmarshal_acquire_response : Parser AcquireResponse
unmarshal_acquire_response = do
  success_byte ← read_full 1
  debug_addr ← read_string 256
  profile_dir ← read_string 4096
  error ← read_string 4096
  pure (record {
    success = byte_bool success_byte;
    debug_addr = debug_addr;
    profile_dir = profile_dir;
    error = error;
  })

pub record ReleaseRequest : Type 0 where
  pub agent_id : Str

unfoldable pub marshal_release_request : ReleaseRequest → List ℕ
marshal_release_request p = append_string [] p.agent_id

unfoldable pub unmarshal_release_request : Parser ReleaseRequest
unmarshal_release_request = do agent_id ← read_string 128; pure (record { agent_id = agent_id })

pub record ReleaseResponse : Type 0 where
  pub success : Bool
  pub error : Str

unfoldable pub marshal_release_response : ReleaseResponse → List ℕ
marshal_release_response p = let b1 = [] ++ (bool_byte p.success ∷ []) in append_string b1 p.error

unfoldable pub unmarshal_release_response : Parser ReleaseResponse
unmarshal_release_response = do
  success_byte ← read_full 1
  error ← read_string 4096
  pure (record { success = byte_bool success_byte; error = error })

pub record StatusRequest : Type 0 where
  pub agent_id : Str

unfoldable pub marshal_status_request : StatusRequest → List ℕ
marshal_status_request p = append_string [] p.agent_id

unfoldable pub unmarshal_status_request : Parser StatusRequest
unmarshal_status_request = do agent_id ← read_string 128; pure (record { agent_id = agent_id })

pub record StatusResponse : Type 0 where
  pub found : Bool
  pub running : Bool
  pub debug_addr : Str
  pub profile_dir : Str
  pub error : Str

unfoldable pub marshal_status_response : StatusResponse → List ℕ
marshal_status_response p =
    let b1 = bool_byte p.found ∷ bool_byte p.running ∷ [] in
    let b2 = append_string b1 p.debug_addr in
    let b3 = append_string b2 p.profile_dir in append_string b3 p.error

-- `fixed[1] != 0`
abbrev pub second_bool : Str → Bool
second_bool fixed = not (get_or fixed 1 0 == 0)

unfoldable pub unmarshal_status_response : Parser StatusResponse
unmarshal_status_response = do
  fixed ← read_full 2
  debug_addr ← read_string 256
  profile_dir ← read_string 4096
  error ← read_string 4096
  pure (record {
    found = byte_bool fixed;
    running = second_bool fixed;
    debug_addr = debug_addr;
    profile_dir = profile_dir;
    error = error;
  })

abbrev pub msg_type_acquire : ℕ
msg_type_acquire = 0x30

abbrev pub msg_type_release : ℕ
msg_type_release = 0x31

abbrev pub msg_type_status : ℕ
msg_type_status = 0x32

-- `ResponseTypeFor`: none is the error.
unfoldable pub response_type_for : ℕ → Option ℕ
response_type_for m =
    if m == msg_type_acquire || m == msg_type_release || m == msg_type_status then some m else none

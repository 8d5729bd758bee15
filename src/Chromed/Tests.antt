-- ===== src/Chromed/Tests.antt =====
-- The chromed protocol on concrete messages.
use vivary.Prelude.{◌≡◌, true, [], ◌++◌, arith, bytes}
use vivary.Mus.{Source, closed, ok}
use vivary.Chromed.Payloads.{
  AcquireRequest, marshal_acquire_request, unmarshal_acquire_request, AcquireResponse,
  marshal_acquire_response, unmarshal_acquire_response,
}
use vivary.Chromed.RoundTrip.{
  unmarshal_acquire_request-marshal_acquire_request,
  unmarshal_acquire_response-marshal_acquire_response,
}

abbrev stream : Source
stream = record { byte_reader = true; ending = closed }

abbrev acquire : AcquireRequest
acquire = record {
  agent_id = bytes "agent-1";
  proxy_server = bytes "10.0.0.1:8700";
  timeout_sec = 30;
  headless = true;
}

unmarshal_acquire_request_sample :
    unmarshal_acquire_request stream (marshal_acquire_request acquire ++ []) ≡ ok (acquire, [])
unmarshal_acquire_request_sample =
    unmarshal_acquire_request-marshal_acquire_request acquire stream []
      record { agent_id = omega arith; proxy_server = omega arith; timeout_sec = omega arith }

abbrev acquired : AcquireResponse
acquired = record {
  success = true;
  debug_addr = bytes "127.0.0.1:9222";
  profile_dir = bytes "/tmp/p";
  error = [];
}

unmarshal_acquire_response_sample :
    unmarshal_acquire_response stream (marshal_acquire_response acquired ++ []) ≡ ok (acquired, [])
unmarshal_acquire_response_sample =
    unmarshal_acquire_response-marshal_acquire_response acquired stream []
      record { debug_addr = omega arith; profile_dir = omega arith; error = omega arith }
